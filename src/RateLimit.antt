-- ===== src/RateLimit.antt =====
-- apps/api/src/rate-limit.ts: the sliding-window rate limiter. Times and limits are milliseconds and
-- counts, as natural numbers. `t <= now - windowMs` is written `t + windowMs <= now`, which is the
-- same over the integers and needs no negative number. `ceil_tenth` stands for
-- `Math.ceil(n * 0.1)`, a computation in floating point.
mod Prune
mod Step
pub mod Window
pub mod Keys
mod Tests
use we_chat_ai.Base.{
  ℕ, ◌+◌, ◌-◌, max, Bool, true, false, Option, none, some, List, [], ◌∷◌, ◌++◌, Text, text_discrete,
  length, leb, ltb, ◌==◌, if◌then◌else◌,
}
use we_chat_ai.JsMap.{Map, get, set, delete}
use we_chat_ai.JsMap.Evict.{evict_from}

pub record RateLimiter : Type 0 where
  pub hits : Map Text (List ℕ)
  pub max_hits : ℕ
  pub window_ms : ℕ
  pub max_keys : ℕ

-- the constructor; `maxKeys = 20_000` is its default
abbrev pub new : ℕ → ℕ → ℕ → RateLimiter
new max_hits window_ms max_keys = record {
  hits = [];
  max_hits = max_hits;
  window_ms = window_ms;
  max_keys = max 64 max_keys;
}

-- the default of `windowMs` is the window in force
abbrev pub window_or : Option ℕ → ℕ → ℕ
window_or none current = current
window_or (some window_ms) current = window_ms

pub set_limits : RateLimiter → ℕ → Option ℕ → RateLimiter
set_limits l max_hits window_ms = record l {
  max_hits = max 1 max_hits;
  window_ms = max 1000 (window_or window_ms l.window_ms);
}

-- `prune(list, now - windowMs)`
pub prune : ℕ → ℕ → List ℕ → List ℕ
prune window now [] = []
prune window now (t ∷ list) =
    let rest = prune window now list in if leb (t + window) now then rest else t ∷ list

abbrev pub or_empty : Option (List ℕ) → List ℕ
or_empty none = []
or_empty (some list) = list

-- The array of a key, and the empty one for a key that is not there.
abbrev pub stored : RateLimiter → Text → List ℕ
stored l key = or_empty (get text_discrete key l.hits)

-- `existing ? this.prune(existing, cutoff) : []`
abbrev pub prev : RateLimiter → Text → ℕ → List ℕ
prev l key now = prune l.window_ms now (stored l key)

-- `prune` shortens the array that the map holds.
abbrev pub prune_found : RateLimiter → Text → ℕ → Option (List ℕ) → RateLimiter
prune_found l key now none = l
prune_found l key now (some list) = record l {
  hits = set text_discrete key (prune l.window_ms now list) l.hits;
}

abbrev pub prune_in_place : RateLimiter → Text → ℕ → RateLimiter
prune_in_place l key now = prune_found l key now (get text_discrete key l.hits)

-- the two lines that record the hit
pub record_hit : RateLimiter → Text → List ℕ → ℕ → RateLimiter
record_hit l key list now = record l { hits = set text_discrete key (list ++ now ∷ []) l.hits }

module _ (ceil_tenth : ℕ → ℕ) where
  pub evict_if_full : RateLimiter → RateLimiter
  evict_if_full l =
      if ltb (length l.hits) l.max_keys
      then l
      else record l { hits = evict_from (ceil_tenth l.max_keys) 0 l.hits }

  -- the `if (!prev.length)` block
  pub make_room : RateLimiter → Text → List ℕ → RateLimiter
  make_room l key [] = evict_if_full (record l { hits = delete text_discrete key l.hits })
  make_room l key (t ∷ list) = l

  pub try_take : RateLimiter → Text → ℕ → RateLimiter × Bool
  try_take l key now =
      let list = prev l key now in
      let pruned = prune_in_place l key now in
      if leb l.max_hits (length list)
      then (pruned, false)
      else (record_hit (make_room pruned key list) key list now, true)

pub remaining : RateLimiter → Text → ℕ → RateLimiter × ℕ
remaining l key now = (prune_in_place l key now, l.max_hits - length (prev l key now))

abbrev pub size : RateLimiter → ℕ
size l = length l.hits
