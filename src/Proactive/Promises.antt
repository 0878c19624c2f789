-- ===== src/Proactive/Promises.antt =====
-- What an eligible pair of bot and peer is: allowed on both sides, outside the quiet hours, below the
-- cap of the day, idle and not written to of late.
use mathlib.Core.Path.{subst}
use we_chat_ai.Base.{
  Bool-cases, same_refl, same_sound, ap, sym, ◌∙◌, ◌↔◌, none_ne_some, [], ◌∷◌, ltb, trim_end,
  trim_start, dec_lt, units, same, Option-cases, ℕ, ◌+◌, ◌≤◌, ◌<◌, ◌≡◌, refl, ◌⊎◌, inl, inr, true,
  false, Option, none, some, arith, Text, Number, negative, natural, not_finite,
}
use we_chat_ai.Proactive.Quiet.{
  one_or_two_digits, Window, Formatted, parse_quiet_hours, hour_in_time_zone, steps_from,
  is_in_quiet_hours-clock,
}
use we_chat_ai.Proactive.Config.{
  Flag, absent, boolean, number, text_of, positive_or, null, is_truthy_flag, BotConfig, Defaults,
  merge_bot_proactive_config,
}
use we_chat_ai.Proactive.Eligible.{
  EligibilityInput, eligible, is_proactive_eligible, resolve_activity_ms, parse_iso_ms, hours,
  zone_or_default, is_blank, is_quiet_now, too_soon, cooling_down, cooldown_hours,
}

-- A flag as it may be set: true, 1, "1" or "true".
abbrev pub IsOn : Flag → Type 0
IsOn absent = ⊥
IsOn (boolean b) = b ≡ true
IsOn (number n) = n ≡ natural 1
IsOn (text_of text) = (text ≡ units "1") ⊎ (text ≡ units "true")

on : (flag : Flag) → (is_truthy_flag flag ≡ true) ↔ IsOn flag
unfolding is_truthy_flag
on absent = (λ h. cc, λ h. absurd h)
on (boolean b) = (λ h. h, λ h. h)
on (number not_finite) = (λ h. absurd (cc), λ h. absurd (cc))
on (number (negative n)) = (λ h. absurd (cc), λ h. absurd (cc))
on (number (natural n)) = (λ h. ap natural (ground (arith, h)), λ h. ground (arith, h))
on (text_of text) = (
  λ h. elim (Bool-cases (same text (units "1"))) [
    | inl e ↦ inl (same_sound text (units "1") e)
    | inr e ↦ inr (same_sound text (units "true") (ground (arith, h, e)))
  ],
  λ h. elim h [
    | inl e ↦ rw (e, same_refl (units "1")) refl
    | inr e ↦ ground (arith, ap (λ t. same t (units "true")) e, same_refl (units "true"))
  ],
)

active :
    (status : Text)
    → ((is_blank status ≡ true) ⊎ (same status (units "active") ≡ true))
      ↔ ((status ≡ []) ⊎ (status ≡ units "active"))
active [] = (λ h. inl refl, λ h. inl refl)
active (c ∷ status) = (
  λ h. elim h [ inl e ↦ absurd (cc) | inr e ↦ inr (same_sound (c ∷ status) (units "active") e) ],
  λ h. elim h [
    | inl e ↦ absurd (cc)
    | inr e ↦ inr (ap (λ t. same t (units "active")) e ∙ same_refl (units "active"))
  ],
)

module _ (parse_date : Text → Option ℕ) (format_hour : ℕ → Text → Formatted) (local_hour : ℕ → ℕ)
    (input : EligibilityInput) (now : ℕ) where
  -- The hour of the call, in the zone of the setting, is outside the quiet hours, where there are any: on the
  -- clock it takes at least as many steps from their start to it as to their end.
  abbrev pub IsAwake : Type 0
  IsAwake =
      (parse_quiet_hours input.quiet_hours ≡ none)
      ⊎ ((window : Window) × (parse_quiet_hours input.quiet_hours ≡ some window)
          × (steps_from window.start window.end
              ≤ steps_from window.start (
                  hour_in_time_zone format_hour local_hour now
                    (zone_or_default input.quiet_time_zone))))

  -- A time, where there is one, lies at least so many hours back; no hours ask for nothing.
  abbrev pub IsPast : Option ℕ → ℕ → Type 0
  IsPast time n = (n ≡ 0) ⊎ (time ≡ none) ⊎ ((t : ℕ) × (time ≡ some t) × (t + hours n ≤ now))

  -- There was no attempt, or it was the last send or before it, or it lies at least so many hours back.
  abbrev pub IsCool : Option ℕ → Option ℕ → ℕ → Type 0
  IsCool attempt sent n =
      (attempt ≡ none)
      ⊎ ((a : ℕ) × (attempt ≡ some a)
          × (((t : ℕ) × (sent ≡ some t) × (a ≤ t)) ⊎ (a + hours n ≤ now)))

  abbrev pub IsSwitchedOn : Type 0
  IsSwitchedOn =
      ((input.bot_status ≡ []) ⊎ (input.bot_status ≡ units "active"))
      × IsOn input.bot_proactive_enabled
      × IsOn input.peer_approved
      × IsOn input.peer_proactive_enabled
      × (input.has_context_token ≡ true)

  -- What makes a pair eligible, its last activity being at a time.
  abbrev pub IsEligible : ℕ → Type 0
  IsEligible activity =
      IsSwitchedOn
      × IsAwake
      × ((input.max_per_day ≡ 0) ⊎ (input.day_count < input.max_per_day))
      × (resolve_activity_ms parse_date input.last_activity_at input.peer_created_at
          ≡ some activity)
      × (activity + hours input.idle_hours ≤ now)
      × IsPast (parse_iso_ms parse_date input.last_proactive_at) input.min_interval_hours
      × IsCool (parse_iso_ms parse_date input.last_proactive_attempt_at)
          (parse_iso_ms parse_date input.last_proactive_at)
          (cooldown_hours input.attempt_cooldown_hours input.min_interval_hours)

  -- the same by the tests of the code
  abbrev Passes : ℕ → Type 0
  Passes activity =
      ((is_blank input.bot_status ≡ true) ⊎ (same input.bot_status (units "active") ≡ true))
      × (is_truthy_flag input.bot_proactive_enabled ≡ true)
      × (is_truthy_flag input.peer_approved ≡ true)
      × (is_truthy_flag input.peer_proactive_enabled ≡ true)
      × (input.has_context_token ≡ true)
      × (is_quiet_now format_hour local_hour (parse_quiet_hours input.quiet_hours)
            input.quiet_time_zone now
          ≡ false)
      × ((input.max_per_day ≡ 0) ⊎ (input.day_count < input.max_per_day))
      × (resolve_activity_ms parse_date input.last_activity_at input.peer_created_at
          ≡ some activity)
      × (activity + hours input.idle_hours ≤ now)
      × (too_soon (parse_iso_ms parse_date input.last_proactive_at) now input.min_interval_hours
          ≡ false)
      × (cooling_down (parse_iso_ms parse_date input.last_proactive_attempt_at)
            (parse_iso_ms parse_date input.last_proactive_at) now
            (cooldown_hours input.attempt_cooldown_hours input.min_interval_hours)
          ≡ false)

  Passes-of_eligible :
      (idle : ℕ × ℕ)
      → is_proactive_eligible parse_date format_hour local_hour input now ≡ eligible idle
      → (idle.0 ≡ now) × Passes idle.1
  unfolding is_proactive_eligible
  Passes-of_eligible idle h = ground (
    arith,
    Option-cases (resolve_activity_ms parse_date input.last_activity_at input.peer_created_at),
  )

  eligible-of_Passes :
      (activity : ℕ)
      → Passes activity
      → is_proactive_eligible parse_date format_hour local_hour input now ≡ eligible (now, activity)
  unfolding is_proactive_eligible
  eligible-of_Passes activity h = ground (arith, h)

  awake :
      (window : Option Window)
      → parse_quiet_hours input.quiet_hours ≡ window
      → hour_in_time_zone format_hour local_hour now (zone_or_default input.quiet_time_zone) < 24
      → (is_quiet_now format_hour local_hour window input.quiet_time_zone now ≡ false) ↔ IsAwake
  awake none e clock = (λ h. inl e, λ h. refl)
  awake (some window) e clock =
      let hour =
        hour_in_time_zone format_hour local_hour now (zone_or_default input.quiet_time_zone) in
      let c = is_in_quiet_hours-clock input.quiet_hours window hour e clock in
      (
        λ h. inr (window, e, ground (arith, c, h)),
        λ a.
            c
            ∙ later (elim a [
              | inl n ↦ absurd (none_ne_some (sym n ∙ e))
              | inr (w, e', le) ↦
                  subst (λ (v : Window). steps_from v.start v.end ≤ steps_from v.start hour)
                    (same_some (sym e' ∙ e)) le
            ]),
      )
    where
      later : {a b : ℕ} → b ≤ a → ltb a b ≡ false
      later le = ground (arith, le)

      same_some : {A : Type 0} {x y : A} → some x ≡ some y → x ≡ y
      same_some h = cc

  past : (time : Option ℕ) (n : ℕ) → (too_soon time now n ≡ false) ↔ IsPast time n
  past none n = (λ h. inr (inl refl), λ h. refl)
  past (some t) n = (
    λ h. elim (dec_lt 0 n) [
      | no e ↦ inl (omega arith)
      | yes pos ↦ inr (inr (t, refl, ground arith))
    ],
    λ h. ground (arith, h),
  )

  cool :
      (attempt sent : Option ℕ) (n : ℕ)
      → (cooling_down attempt sent now n ≡ false) ↔ IsCool attempt sent n
  cool none sent n = (λ h. inl refl, λ h. refl)
  cool (some a) none n = (λ h. inr (a, refl, inr (ground (arith, h))), λ h. ground (arith, h))
  cool (some a) (some t) n = (
    λ h. inr (
      a,
      refl,
      elim (dec_lt t a) [
        | yes later ↦ inr (ground (arith, h, later))
        | no before ↦ inl (t, refl, ground (arith, before))
      ],
    ),
    λ h. ground (arith, h),
  )

  -- Where the formatted hour is one of the day, a pair is found eligible exactly when the bot and the peer are
  -- switched on and approved and there is a context token; the hour is outside the quiet hours that the setting
  -- gives; the sends of the day are below the cap where there is one; the activity found lies at least the idle
  -- hours back; the last send, where there is one, lies at least the least interval back, unless that is 0; and
  -- an attempt after the last send lies at least the cooldown back.
  pub is_proactive_eligible-IsEligible :
      (activity : ℕ)
      → hour_in_time_zone format_hour local_hour now (zone_or_default input.quiet_time_zone) < 24
      → (is_proactive_eligible parse_date format_hour local_hour input now
          ≡ eligible (now, activity))
        ↔ IsEligible activity
  is_proactive_eligible-IsEligible activity clock =
      let (wake, wake') = awake (parse_quiet_hours input.quiet_hours) refl clock in
      let (rest, rest') =
        past (parse_iso_ms parse_date input.last_proactive_at) input.min_interval_hours in
      let (calm, calm') =
        cool (parse_iso_ms parse_date input.last_proactive_attempt_at)
          (parse_iso_ms parse_date input.last_proactive_at)
          (cooldown_hours input.attempt_cooldown_hours input.min_interval_hours) in
      (
        λ h.
            let (s, b, p, q, t, w, cap, act, idle, soon, cd) =
              (Passes-of_eligible (now, activity) h).1 in
            (
              (
                (active input.bot_status).0 s,
                (on input.bot_proactive_enabled).0 b,
                (on input.peer_approved).0 p,
                (on input.peer_proactive_enabled).0 q,
                t,
              ),
              wake w,
              cap,
              act,
              idle,
              rest soon,
              calm cd,
            ),
        λ ((s, b, p, q, t), w, cap, act, idle, soon, cd). eligible-of_Passes activity (
          (active input.bot_status).1 s,
          (on input.bot_proactive_enabled).1 b,
          (on input.peer_approved).1 p,
          (on input.peer_proactive_enabled).1 q,
          t,
          wake' w,
          cap,
          act,
          idle,
          rest' soon,
          calm' cd,
        ),
      )

  -- With no quiet hours, a pair that is eligible stays so at every later time, while nothing else
  -- changes.
  pub is_proactive_eligible-later :
      (idle : ℕ × ℕ) (later : ℕ)
      → parse_quiet_hours input.quiet_hours ≡ none
      → now ≤ later
      → is_proactive_eligible parse_date format_hour local_hour input now ≡ eligible idle
      → is_proactive_eligible parse_date format_hour local_hour input later
        ≡ eligible (later, idle.1)
  unfolding is_proactive_eligible
  is_proactive_eligible-later idle later q le h = ground (
    arith,
    h,
    q,
    Option-cases (parse_iso_ms parse_date input.last_proactive_at),
    Option-cases (parse_iso_ms parse_date input.last_proactive_attempt_at),
    Option-cases (resolve_activity_ms parse_date input.last_activity_at input.peer_created_at),
  )

-- The idle hours in force are not 0 where the default is not, and a bot that sets its quiet hours to
-- null has none.
pub merge_bot_proactive_config_lem :
    (bot : BotConfig) (defaults : Defaults)
    → 0 < defaults.idle_hours
    → (0 < (merge_bot_proactive_config bot defaults).idle_hours)
      × ((parse_quiet_hours (
            some
              (merge_bot_proactive_config
                (record bot { quiet_hours = null })
                defaults).quiet_hours))
          ≡ none)
unfolding merge_bot_proactive_config parse_quiet_hours one_or_two_digits trim_end trim_start
merge_bot_proactive_config_lem bot defaults h = (positive_or-pos bot.idle_hours, refl)
  where
    positive_or-pos : (setting : Option Number) → 0 < positive_or setting defaults.idle_hours
    positive_or-pos none = h
    positive_or-pos (some not_finite) = h
    positive_or-pos (some (negative n)) = h
    positive_or-pos (some (natural n)) = ground arith
