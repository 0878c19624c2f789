-- ===== src/RateLimit/Window.antt =====
-- The limiter against the log of what it allowed, with a clock that does not go back: no false denial, and
-- no more than the cap in any window while no key has to be evicted.
use we_chat_ai.Base.{
  ℕ, ◌+◌, ◌≤◌, ◌<◌, ◌≡◌, ◌≢◌, refl, ap, ◌∙◌, ◌⊎◌, inl, inr, true, List, [], ◌∷◌, arith, Text,
  text_discrete, length, leb, ltb, if◌then◌else◌, ite, All, All-append,
}
use native.Mathlib.Nat.{le_refl}
use we_chat_ai.JsMap.{get, Distinct}
use we_chat_ai.RateLimit.{RateLimiter, new, or_empty, stored, prev, try_take}
use we_chat_ai.RateLimit.Prune.{
  live, live_antitone, Ascending, live-prune, length-prune, live-append, prune-All, prune-Ascending,
  append-Ascending, All-le_trans,
}
use we_chat_ai.RateLimit.Step.{
  verdict-try_take, try_take-Distinct, get-try_take_ne, get-try_take_roomy, try_take_cases,
  SameLimits, try_take-SameLimits,
}

-- The allowed calls, newest first.
abbrev pub Log : Type 0
Log = List (Text × ℕ)

-- How many allowed calls of a key lie in the window (now - window, now].
unfoldable pub within : ℕ → ℕ → Text → Log → ℕ
within window now key [] = 0
within window now key ((k, t) ∷ log) =
    let rest = within window now key log in
    ite (text_discrete k key)
      (if leb t now then (if ltb now (t + window) then rest + 1 else rest) else rest) rest

module _ (ceil_tenth : ℕ → ℕ) where
  -- A run of calls in order; the log grows by the calls that are allowed.
  unfoldable pub run : RateLimiter → Log → List (Text × ℕ) → RateLimiter × Log
  run l log [] = (l, log)
  run l log ((key, now) ∷ calls) =
      let (l', allowed) = try_take ceil_tenth l key now in
      run l' (if allowed then (key, now) ∷ log else log) calls

-- The clock does not go back.
abbrev pub Clocked : ℕ → List (Text × ℕ) → Type 0
Clocked last [] = Unit
Clocked last ((key, now) ∷ calls) = (last ≤ now) × Clocked now calls

module _ (ceil_tenth : ℕ → ℕ) where
  -- Every call of the run finds the map below its bound on keys, so that nothing is evicted.
  abbrev pub IsRoomy : RateLimiter → List (Text × ℕ) → Type 0
  IsRoomy l [] = Unit
  IsRoomy l ((key, now) ∷ calls) =
      (length l.hits < l.max_keys) × IsRoomy (try_take ceil_tenth l key now).0 calls

-- The arrays never hold more live times than the log.
pub record Tracks (l : RateLimiter) (log : Log) (last : ℕ) : Type 0 where
  pub distinct : Distinct text_discrete l.hits
  pub ascending : (key : Text) → Ascending (stored l key)
  pub bounded : (key : Text) → All (λ t. t ≤ last) (stored l key)
  pub live_le :
      (key : Text) (now : ℕ)
      → last ≤ now
      → live l.window_ms now (stored l key) ≤ within l.window_ms now key log

-- And where nothing was evicted, they hold all of them; no window has more than the cap.
pub record Matches (l : RateLimiter) (log : Log) (last : ℕ) : Type 0 where
  pub live_eq :
      (key : Text) (now : ℕ)
      → last ≤ now
      → live l.window_ms now (stored l key) ≡ within l.window_ms now key log
  pub capped : (key : Text) (now : ℕ) → within l.window_ms now key log ≤ l.max_hits

length-prev :
    (l : RateLimiter) (key : Text) (now : ℕ)
    → Ascending (stored l key)
    → length (prev l key now) ≡ live l.window_ms now (stored l key)
length-prev l key now a = length-prune l.window_ms now (stored l key) a

module _ (ceil_tenth : ℕ → ℕ) (l : RateLimiter) (log : Log) (last : ℕ) (key : Text) (now : ℕ)
    (v : Tracks l log last) (clock : last ≤ now) where
  -- A key with fewer allowed calls in its window than the cap is never denied.
  pub allowed_of_within-lt :
      within l.window_ms now key log < l.max_hits → (try_take ceil_tenth l key now).1 ≡ true
  allowed_of_within-lt h = ground (
    arith,
    verdict-try_take ceil_tenth l key now,
    length-prev l key now (v.ascending key),
    v.live_le key now clock,
  )

  abbrev after : RateLimiter
  after = (try_take ceil_tenth l key now).0

  abbrev log_after : Log
  log_after = if (try_take ceil_tenth l key now).1 then (key, now) ∷ log else log

  prev-bounded : All (λ t. t ≤ now) (prev l key now)
  prev-bounded =
      prune-All (λ t. t ≤ now) l.window_ms now (stored l key)
        (All-le_trans last now (stored l key) clock (v.bounded key))

  prev-Ascending : Ascending (prev l key now)
  prev-Ascending = prune-Ascending l.window_ms now (stored l key) (v.ascending key)

  self-Ascending : Ascending (stored after key) × All (λ t. t ≤ now) (stored after key)
  self-Ascending = elim (try_take_cases ceil_tenth l key now) [
    | inl (denied, e, full) ↦ rw e (prev-Ascending, prev-bounded)
    | inr (allowed, e, room) ↦ rw e (
      append-Ascending now (prev l key now) prev-bounded prev-Ascending,
      All-append (λ t. t ≤ now) (prev l key now) (now ∷ []) prev-bounded (le_refl now, tt),
    )
  ]

  self_live :
      (t : ℕ)
      → now ≤ t
      → live l.window_ms t (stored after key) + within l.window_ms t key log
        ≡ live l.window_ms t (stored l key) + within l.window_ms t key log_after
  unfolding within
  self_live t h = elim (try_take_cases ceil_tenth l key now) [
    | inl (denied, e, full) ↦
        rw (e, denied) (omega (arith, live-prune l.window_ms now t (stored l key) h))
    | inr (allowed, e, room) ↦
        rw (e, allowed)
          (ground (
            arith,
            live-append l.window_ms t now (prev l key now),
            live-prune l.window_ms now t (stored l key) h,
          ))
  ]

  within_ne :
      (j : Text) (t : ℕ) → key ≢ j → within l.window_ms t j log_after ≡ within l.window_ms t j log
  unfolding within
  within_ne j t h = ground arith

  other : (j : Text) → key ≢ j → (stored after j ≡ []) ⊎ (stored after j ≡ stored l j)
  other j h = elim (get-try_take_ne ceil_tenth l key now j h v.distinct) [
    | inl e ↦ inl (ap or_empty e)
    | inr e ↦ inr (ap or_empty e)
  ]

  each-Ascending : (j : Text) → Ascending (stored after j) × All (λ t. t ≤ now) (stored after j)
  each-Ascending j = elim (text_discrete key j) [
    | yes p ↦ rw (← p) self-Ascending
    | no h ↦ elim (other j h) [
      | inl e ↦ rw e (tt, tt)
      | inr e ↦ rw e (v.ascending j, All-le_trans last now (stored l j) clock (v.bounded j))
    ]
  ]

  each_live :
      (j : Text) (t : ℕ)
      → now ≤ t
      → live l.window_ms t (stored after j) ≤ within l.window_ms t j log_after
  each_live j t h = elim (text_discrete key j) [
    | yes p ↦ rw (← p) (omega (arith, self_live t h, v.live_le key t (omega arith)))
    | no d ↦ rw (within_ne j t d) (elim (other j d) [
      | inl e ↦ rw e (unfold live in omega arith)
      | inr e ↦ rw e (v.live_le j t (omega arith))
    ])
  ]

  -- One call keeps the arrays below the log.
  pub try_take-Tracks : Tracks after log_after now
  try_take-Tracks = record {
    distinct = try_take-Distinct ceil_tenth l key now v.distinct;
    ascending = λ j. (each-Ascending j).0;
    bounded = λ j. (each-Ascending j).1;
    live_le = λ j t h. rw ((try_take-SameLimits ceil_tenth l key now).0) (each_live j t h);
  }

  module _ (m : Matches l log last) (roomy : length l.hits < l.max_keys) where
    each_live_eq :
        (j : Text) (t : ℕ)
        → now ≤ t
        → live l.window_ms t (stored after j) ≡ within l.window_ms t j log_after
    each_live_eq j t h = elim (text_discrete key j) [
      | yes p ↦ rw (← p) (omega (arith, self_live t h, m.live_eq key t (omega arith)))
      | no d ↦
          rw (within_ne j t d, ap or_empty (get-try_take_roomy ceil_tenth l key now j d roomy))
            (m.live_eq j t (omega arith))
    ]

    capped_self : (t : ℕ) → within l.window_ms t key log_after ≤ l.max_hits
    unfolding within
    capped_self t = elim (try_take_cases ceil_tenth l key now) [
      | inl (denied, e, full) ↦ rw denied (m.capped key t)
      | inr (allowed, e, room) ↦ rw allowed (
          ground (
            arith,
            m.capped key t,
            m.live_eq key t,
            live_antitone l.window_ms now t (stored l key),
            length-prev l key now (v.ascending key),
          ))
    ]

    each_capped : (j : Text) (t : ℕ) → within l.window_ms t j log_after ≤ l.max_hits
    each_capped j t = elim (text_discrete key j) [
      | yes p ↦ rw (← p) (capped_self t)
      | no d ↦ rw (within_ne j t d) (m.capped j t)
    ]

    -- One call that finds room keeps the arrays equal to the log, and the log below the cap.
    pub try_take-Matches : Matches after log_after now
    try_take-Matches =
        let (same_window, same_max, _) = try_take-SameLimits ceil_tenth l key now in
        record {
          live_eq = λ j t h. rw same_window (each_live_eq j t h);
          capped = λ j t. rw (same_window, same_max) (each_capped j t);
        }

abbrev pub last_time : ℕ → List (Text × ℕ) → ℕ
last_time last [] = last
last_time last ((key, now) ∷ calls) = last_time now calls

module _ (max_hits window_ms max_keys : ℕ) where
  new-Tracks : Tracks (new max_hits window_ms max_keys) [] 0
  new-Tracks =
      unfold get live within in
      record {
        distinct = tt;
        ascending = λ key. tt;
        bounded = λ key. tt;
        live_le = λ key now h. omega arith;
      }

  new-Matches : Matches (new max_hits window_ms max_keys) [] 0
  new-Matches =
      unfold get live within in
      record { live_eq = λ key now h. refl; capped = λ key now. omega arith }

module _ (ceil_tenth : ℕ → ℕ) where
  run-Tracks :
      (l : RateLimiter) (log : Log) (last : ℕ) (calls : List (Text × ℕ))
      → Tracks l log last
      → Clocked last calls
      → Tracks (run ceil_tenth l log calls).0 (run ceil_tenth l log calls).1 (last_time last calls)
  unfolding run
  run-Tracks l log last [] v c = v
  run-Tracks l log last ((key, now) ∷ calls) v (le, c) =
      run-Tracks (try_take ceil_tenth l key now).0
        (if (try_take ceil_tenth l key now).1 then (key, now) ∷ log else log) now calls
        (try_take-Tracks ceil_tenth l log last key now v le) c

  run-SameLimits :
      (l : RateLimiter) (log : Log) (calls : List (Text × ℕ))
      → SameLimits (run ceil_tenth l log calls).0 l
  unfolding run
  run-SameLimits l log [] = (refl, refl, refl)
  run-SameLimits l log ((key, now) ∷ calls) = ground (
    arith,
    run-SameLimits (try_take ceil_tenth l key now).0
        (if (try_take ceil_tenth l key now).1 then (key, now) ∷ log else log) calls,
    try_take-SameLimits ceil_tenth l key now,
  )

  run-capped :
      (l : RateLimiter) (log : Log) (last : ℕ) (calls : List (Text × ℕ)) {window cap : ℕ}
      → l.window_ms ≡ window
      → l.max_hits ≡ cap
      → Tracks l log last
      → Matches l log last
      → Clocked last calls
      → IsRoomy ceil_tenth l calls
      → (key : Text) (now : ℕ) → within window now key (run ceil_tenth l log calls).1 ≤ cap
  unfolding run
  run-capped l log last [] ew ec v m c r key now = rw (← ew, ← ec) (m.capped key now)
  run-capped l log last ((k, t) ∷ calls) ew ec v m (le, c) (room, r) key now =
      let (same_window, same_max, _) = try_take-SameLimits ceil_tenth l k t in
      run-capped (try_take ceil_tenth l k t).0
        (if (try_take ceil_tenth l k t).1 then (k, t) ∷ log else log) t calls (same_window ∙ ew)
        (same_max ∙ ec) (try_take-Tracks ceil_tenth l log last k t v le)
        (try_take-Matches ceil_tenth l log last k t v le m room) c r key now

module _ (ceil_tenth : ℕ → ℕ) (max_hits window_ms max_keys : ℕ) (calls : List (Text × ℕ)) where
  -- After any calls with a clock that does not go back, evictions included, a key with fewer allowed
  -- calls in the window that ends now than the cap is allowed: no call is denied without cause.
  pub try_take-no_false_denial :
      Clocked 0 calls
      → (key : Text) (now : ℕ) → last_time 0 calls ≤ now
      → within window_ms now key (run ceil_tenth (new max_hits window_ms max_keys) [] calls).1
        < max_hits
      → (try_take ceil_tenth
          (run ceil_tenth (new max_hits window_ms max_keys) [] calls).0
          key
          now).1
        ≡ true
  try_take-no_false_denial c key now le few =
      let (same_window, same_max, _) =
        run-SameLimits ceil_tenth (new max_hits window_ms max_keys) [] calls in
      allowed_of_within-lt ceil_tenth _ _ _ key now
        (run-Tracks ceil_tenth _ [] 0 calls (new-Tracks max_hits window_ms max_keys) c) le
        (rw (same_window, same_max) few)

  -- In calls with a clock that does not go back, of which none finds the map of keys full, so that nothing
  -- is evicted, no window of `windowMs` holds more allowed calls of a key than the cap, wherever the window
  -- ends.
  pub run-within-le-max :
      Clocked 0 calls
      → IsRoomy ceil_tenth (new max_hits window_ms max_keys) calls
      → (key : Text) (now : ℕ)
      → within window_ms now key (run ceil_tenth (new max_hits window_ms max_keys) [] calls).1
        ≤ max_hits
  run-within-le-max c r =
      run-capped ceil_tenth (new max_hits window_ms max_keys) [] 0 calls refl refl
        (new-Tracks max_hits window_ms max_keys) (new-Matches max_hits window_ms max_keys) c r
