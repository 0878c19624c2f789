-- ===== src/RateLimit/Keys.antt =====
-- The bound on tracked keys, `remaining` and `setLimits`.
use we_chat_ai.Base.{
  ℕ, ◌≤◌, ◌<◌, ◌≡◌, refl, ◌↔◌, inl, inr, true, Option, none, some, List, [], ◌∷◌, ◌++◌, arith, Text,
  text_discrete, length, leb, ltb, Bool-cases,
}
use we_chat_ai.JsMap.{Map, get, delete, length-set-le, length-set_present, length-delete-le}
use we_chat_ai.JsMap.Evict.{evict_from, length-evict_from-lt}
use we_chat_ai.RateLimit.{
  RateLimiter, prev, stored, or_empty, prune_in_place, evict_if_full, make_room, record_hit,
  try_take, remaining, set_limits, size,
}
use we_chat_ai.RateLimit.Step.{
  length-prune_in_place, verdict-try_take, stored-prune_in_place_self, prune_found-SameLimits,
}

-- `tryTake` allows exactly when `remaining` reports that something is left.
pub remaining-try_take :
    (ceil_tenth : ℕ → ℕ) (l : RateLimiter) (key : Text) (now : ℕ)
    → ((try_take ceil_tenth l key now).1 ≡ true) ↔ (0 < (remaining l key now).1)
unfolding remaining
remaining-try_take ceil_tenth l key now = ground (arith, verdict-try_take ceil_tenth l key now)

module _ (ceil_tenth : ℕ → ℕ) where
  length-evict_if_full :
      (l : RateLimiter) (n : ℕ)
      → n ≡ l.max_keys
      → 0 < n
      → length l.hits ≤ n
      → length (evict_if_full ceil_tenth l).hits < n
  unfolding evict_if_full
  length-evict_if_full l n e pos le = elim (Bool-cases (ltb (length l.hits) l.max_keys)) [
    | inl room ↦ rw room (ground arith)
    | inr full ↦ rw full (shrunk l.hits le (ground arith))
  ]
    where
      shrunk :
          (m : Map Text (List ℕ))
          → length m ≤ n
          → n ≤ length m
          → length (evict_from (ceil_tenth l.max_keys) 0 m) < n
      shrunk [] h k = absurd (omega arith)
      shrunk (x ∷ m) h k = omega (arith, length-evict_from-lt (ceil_tenth l.max_keys) 0 x m)

  present_of_or_empty :
      (o : Option (List ℕ)) (t : ℕ) (list : List ℕ)
      → or_empty o ≡ t ∷ list
      → (found : List ℕ) × (o ≡ some found)
  present_of_or_empty none t list e = cc
  present_of_or_empty (some found) t list e = (found, refl)

  module _ (m : RateLimiter) (key : Text) (now : ℕ) (pos : 0 < m.max_keys)
      (le : length m.hits ≤ m.max_keys) where
    length-recorded :
        (list : List ℕ)
        → stored m key ≡ list
        → length (record_hit (make_room ceil_tenth m key list) key list now).hits ≤ m.max_keys
    unfolding record_hit make_room
    length-recorded [] e = omega (
      arith,
      length-set-le text_discrete key (now ∷ [])
          (evict_if_full ceil_tenth (record m { hits = delete text_discrete key m.hits })).hits,
      length-evict_if_full (record m { hits = delete text_discrete key m.hits }) m.max_keys refl pos
          (omega (arith, length-delete-le text_discrete key m.hits)),
    )
    length-recorded (t ∷ list) e =
        let (found, present) = present_of_or_empty (get text_discrete key m.hits) t list e in
        rw (length-set_present text_discrete key ((t ∷ list) ++ now ∷ []) found m.hits present) le

  -- The map never holds more keys than its bound, whatever the callers' keys are and however many
  -- entries an eviction means to drop.
  pub length-try_take-le :
      (l : RateLimiter) (key : Text) (now : ℕ)
      → 0 < l.max_keys
      → size l ≤ l.max_keys
      → size (try_take ceil_tenth l key now).0 ≤ l.max_keys
  unfolding try_take
  length-try_take-le l key now pos le =
      let (_, _, same) = prune_found-SameLimits l key now (get text_discrete key l.hits) in
      elim (Bool-cases (leb l.max_hits (length (prev l key now)))) [
        | inl e ↦ rw e (omega (arith, length-prune_in_place l key now))
        | inr e ↦ rw e (
            omega (
              arith,
              same,
              length-prune_in_place l key now,
              length-recorded (prune_in_place l key now) key now (omega (arith, same))
                  (omega (arith, same, length-prune_in_place l key now)) (prev l key now)
                  (stored-prune_in_place_self l key now),
            ))
      ]

-- A reload of the settings keeps every array, and no reload leaves a cap below 1 or a window below
-- one second.
pub set_limits-bounds :
    (l : RateLimiter) (max_hits : ℕ) (window_ms : Option ℕ)
    → ((set_limits l max_hits window_ms).hits ≡ l.hits)
      × (1 ≤ (set_limits l max_hits window_ms).max_hits)
      × (max_hits ≤ (set_limits l max_hits window_ms).max_hits)
      × (1000 ≤ (set_limits l max_hits window_ms).window_ms)
unfolding set_limits
set_limits-bounds l max_hits window_ms = (refl, omega arith, omega arith, omega arith)
