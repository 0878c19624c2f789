-- ===== src/Proactive/Eligible.antt =====
-- proactive.ts, `isProactiveEligible`. Times are milliseconds since 1970, the configured hours are
-- natural numbers. A quotient `(a - b) / 3600000 < h` of the source is `a < b + h * 3600000`: the
-- rounding of the quotient does not reach a whole hour. `idle` keeps the quotient `idleHoursActual`
-- as the pair of its two times. Parameters stand for `Date.parse` (`none` for NaN), for the hour that
-- Intl formats and for `Date.getHours`.
use we_chat_ai.Base.{
  ℕ, ◌+◌, ◌*◌, min, Bool, true, false, not, ◌&&◌, Option, none, some, [], ◌∷◌, Text, units, leb,
  ltb, if◌then◌else◌, same,
}
use we_chat_ai.Proactive.Quiet.{
  Window, Formatted, parse_quiet_hours, hour_in_time_zone, is_in_quiet_hours,
}
use we_chat_ai.Proactive.Config.{Flag, is_truthy_flag}

pub record EligibilityInput : Type 0 where
  pub bot_status : Text
  pub bot_proactive_enabled : Flag
  pub peer_approved : Flag
  pub peer_proactive_enabled : Flag
  pub has_context_token : Bool
  pub last_activity_at : Option Text
  pub peer_created_at : Option Text
  pub last_proactive_at : Option Text
  pub last_proactive_attempt_at : Option Text
  pub day_count : ℕ
  pub idle_hours : ℕ
  pub min_interval_hours : ℕ
  pub max_per_day : ℕ
  pub quiet_hours : Option Text
  pub quiet_time_zone : Option Text
  pub attempt_cooldown_hours : Option ℕ

pub data SkipReason : Type 0 where
  bot_inactive : SkipReason
  bot_off : SkipReason
  peer_unapproved : SkipReason
  peer_off : SkipReason
  no_context_token : SkipReason
  not_idle : SkipReason
  min_interval : SkipReason
  day_cap : SkipReason
  in_quiet_hours : SkipReason
  attempt_cooldown : SkipReason

-- `{ ok, reason, idleHoursActual }`: a reason where `ok` is false
pub data Verdict : Type 0 where
  eligible : ℕ × ℕ → Verdict
  refused : SkipReason → Option (ℕ × ℕ) → Verdict

abbrev pub hours : ℕ → ℕ
hours n = n * 3600000

abbrev pub is_blank : Text → Bool
is_blank [] = true
is_blank (c ∷ text) = false

abbrev pub zone_or_default : Option Text → Text
zone_or_default none = units "Asia/Shanghai"
zone_or_default (some zone) = zone

-- `a ?? b`
abbrev pub or_else : Option ℕ → Option ℕ → Option ℕ
or_else none b = b
or_else (some a) b = some a

-- `lastAttemptMs == null || lastAttemptMs <= lastProactiveMs`, turned around
abbrev pub newer_than : Option ℕ → ℕ → Bool
newer_than none attempt = true
newer_than (some sent) attempt = ltb sent attempt

abbrev pub cooldown_hours : Option ℕ → ℕ → ℕ
cooldown_hours none min_interval_hours = min 1 min_interval_hours
cooldown_hours (some n) min_interval_hours = if ltb 0 n then n else min 1 min_interval_hours

-- less than so many hours since a time
abbrev pub within_hours : ℕ → ℕ → ℕ → Bool
within_hours since now n = ltb now (since + hours n)

module _ (parse_date : Text → Option ℕ) where
  abbrev pub parse_iso_ms : Option Text → Option ℕ
  parse_iso_ms none = none
  parse_iso_ms (some iso) = if is_blank iso then none else parse_date iso

  unfoldable pub resolve_activity_ms : Option Text → Option Text → Option ℕ
  resolve_activity_ms last_activity_at peer_created_at =
      or_else (parse_iso_ms last_activity_at) (parse_iso_ms peer_created_at)

-- whether the last send is too recent
abbrev pub too_soon : Option ℕ → ℕ → ℕ → Bool
too_soon none now min_interval_hours = false
too_soon (some sent) now min_interval_hours =
    ltb 0 min_interval_hours && within_hours sent now min_interval_hours

-- whether an attempt that was no send is too recent
abbrev pub cooling_down : Option ℕ → Option ℕ → ℕ → ℕ → Bool
cooling_down none sent now cooldown = false
cooling_down (some attempt) sent now cooldown =
    newer_than sent attempt && within_hours attempt now cooldown

module _ (format_hour : ℕ → Text → Formatted) (local_hour : ℕ → ℕ) where
  -- `quiet && isInQuietHours(hour, quiet)`
  abbrev pub is_quiet_now : Option Window → Option Text → ℕ → Bool
  is_quiet_now none time_zone now = false
  is_quiet_now (some window) time_zone now =
      is_in_quiet_hours (hour_in_time_zone format_hour local_hour now (zone_or_default time_zone))
        window

module _ (parse_date : Text → Option ℕ) (format_hour : ℕ → Text → Formatted)
    (local_hour : ℕ → ℕ) where
  -- The tests from the idle time on.
  abbrev pub check_times : EligibilityInput → ℕ → Option ℕ → Verdict
  check_times input now none = refused not_idle none
  check_times input now (some activity) =
      if within_hours activity now input.idle_hours
      then refused not_idle (some (now, activity))
      else if too_soon (parse_iso_ms parse_date input.last_proactive_at) now
          input.min_interval_hours
      then refused min_interval (some (now, activity))
      else if cooling_down (parse_iso_ms parse_date input.last_proactive_attempt_at)
          (parse_iso_ms parse_date input.last_proactive_at) now
          (cooldown_hours input.attempt_cooldown_hours input.min_interval_hours)
      then refused attempt_cooldown (some (now, activity))
      else eligible (now, activity)

  unfoldable pub is_proactive_eligible : EligibilityInput → ℕ → Verdict
  is_proactive_eligible input now =
      if not (is_blank input.bot_status) && not (same input.bot_status (units "active"))
      then refused bot_inactive none
      else if not (is_truthy_flag input.bot_proactive_enabled)
      then refused bot_off none
      else if not (is_truthy_flag input.peer_approved)
      then refused peer_unapproved none
      else if not (is_truthy_flag input.peer_proactive_enabled)
      then refused peer_off none
      else if not input.has_context_token
      then refused no_context_token none
      else if is_quiet_now format_hour local_hour (parse_quiet_hours input.quiet_hours)
          input.quiet_time_zone now
      then refused in_quiet_hours none
      else if ltb 0 input.max_per_day && leb input.max_per_day input.day_count
      then refused day_cap none
      else check_times input now
          (resolve_activity_ms parse_date input.last_activity_at input.peer_created_at)
