-- ===== src/RateLimit/Step.antt =====
-- One call of `tryTake`, seen through the map's `get`.
use we_chat_ai.Base.{
  ℕ, ◌≤◌, ◌<◌, ◌≡◌, ◌≢◌, refl, ◌⊎◌, inl, inr, true, false, Option, none, some, List, [], ◌∷◌, ◌++◌,
  arith, Text, text_discrete, length, leb, if◌then◌else◌, not, Bool-cases,
}
use we_chat_ai.JsMap.{
  get, delete, Distinct, get-set, get-set_ne, get-delete, set-Distinct, delete-Distinct,
  length-set_present, length-delete-le,
}
use we_chat_ai.JsMap.Evict.{get-evict_from, evict_from-Distinct}
use we_chat_ai.RateLimit.{
  RateLimiter, prune, stored, prev, prune_found, prune_in_place, evict_if_full, make_room,
  record_hit, try_take,
}

abbrev pub SameLimits : RateLimiter → RateLimiter → Type 0
SameLimits a b = (a.window_ms ≡ b.window_ms) × (a.max_hits ≡ b.max_hits) × (a.max_keys ≡ b.max_keys)

module _ (l : RateLimiter) (key : Text) (now : ℕ) where
  -- What the pruning in place does to each key.
  pub stored-prune_in_place_self : stored (prune_in_place l key now) key ≡ prev l key now
  unfolding prune
  stored-prune_in_place_self = ground (arith, get-set text_discrete key key (prev l key now) l.hits)

  pub get-prune_in_place_ne :
      (j : Text)
      → key ≢ j
      → get text_discrete j (prune_in_place l key now).hits ≡ get text_discrete j l.hits
  get-prune_in_place_ne j h = ground (arith, get-set text_discrete key j (prev l key now) l.hits)

  prune_found-Distinct :
      (o : Option (List ℕ))
      → Distinct text_discrete l.hits
      → Distinct text_discrete (prune_found l key now o).hits
  prune_found-Distinct none d = d
  prune_found-Distinct (some list) d =
      set-Distinct text_discrete key (prune l.window_ms now list) l.hits d

  pub prune_in_place-Distinct :
      Distinct text_discrete l.hits → Distinct text_discrete (prune_in_place l key now).hits
  prune_in_place-Distinct d = prune_found-Distinct (get text_discrete key l.hits) d

  pub length-prune_found :
      (o : Option (List ℕ))
      → get text_discrete key l.hits ≡ o
      → length (prune_found l key now o).hits ≡ length l.hits
  length-prune_found none e = refl
  length-prune_found (some list) e =
      length-set_present text_discrete key (prune l.window_ms now list) list l.hits e

  -- Pruning keeps the number of keys.
  pub length-prune_in_place : length (prune_in_place l key now).hits ≡ length l.hits
  length-prune_in_place = length-prune_found (get text_discrete key l.hits) refl

  pub prune_found-SameLimits : (o : Option (List ℕ)) → SameLimits (prune_found l key now o) l
  prune_found-SameLimits none = (refl, refl, refl)
  prune_found-SameLimits (some list) = (refl, refl, refl)

module _ (ceil_tenth : ℕ → ℕ) (l : RateLimiter) (key : Text) (now : ℕ) where
  -- The verdict depends on the pruned array alone.
  pub verdict-try_take :
      (try_take ceil_tenth l key now).1 ≡ not (leb l.max_hits (length (prev l key now)))
  unfolding try_take
  verdict-try_take = ground arith

  -- A denied call leaves the pruned array; an allowed one adds its time at the end.
  pub stored-try_take_self : stored (try_take ceil_tenth l key now).0 key ≡ (
      if leb l.max_hits (length (prev l key now))
      then prev l key now
      else prev l key now ++ now ∷ [])
  unfolding try_take record_hit
  stored-try_take_self = elim (Bool-cases (leb l.max_hits (length (prev l key now)))) [
    | inl e ↦ rw e (stored-prune_in_place_self l key now)
    | inr e ↦ rw e (
        ground (
          arith,
          get-set text_discrete key key (prev l key now ++ now ∷ [])
              (make_room ceil_tenth (prune_in_place l key now) key (prev l key now)).hits,
        ))
  ]

  make_room-Distinct :
      (m : RateLimiter) (list : List ℕ)
      → Distinct text_discrete m.hits
      → Distinct text_discrete (make_room ceil_tenth m key list).hits
  unfolding make_room evict_if_full
  make_room-Distinct m [] d = ground (
    arith,
    delete-Distinct text_discrete key m.hits d,
    evict_from-Distinct text_discrete (ceil_tenth m.max_keys) 0 (delete text_discrete key m.hits),
  )
  make_room-Distinct m (t ∷ list) d = d

  pub try_take-Distinct :
      Distinct text_discrete l.hits → Distinct text_discrete (try_take ceil_tenth l key now).0.hits
  unfolding try_take record_hit
  try_take-Distinct d = elim (Bool-cases (leb l.max_hits (length (prev l key now)))) [
    | inl e ↦ rw e (prune_in_place-Distinct l key now d)
    | inr e ↦ rw e (
        set-Distinct text_discrete key (prev l key now ++ now ∷ []) _
          (make_room-Distinct _ (prev l key now) (prune_in_place-Distinct l key now d)))
  ]

  get-make_room :
      (m : RateLimiter) (list : List ℕ) (j : Text)
      → key ≢ j
      → Distinct text_discrete m.hits
      → (get text_discrete j (make_room ceil_tenth m key list).hits ≡ none)
        ⊎ (get text_discrete j (make_room ceil_tenth m key list).hits ≡ get text_discrete j m.hits)
  unfolding make_room evict_if_full
  get-make_room m [] j h d = ground (
    arith,
    get-delete text_discrete key j m.hits,
    get-evict_from text_discrete (ceil_tenth m.max_keys) 0 j (delete text_discrete key m.hits)
        (delete-Distinct text_discrete key m.hits d),
  )
  get-make_room m (t ∷ list) j h d = inr refl

  -- Another key keeps its array, or is evicted with it.
  pub get-try_take_ne :
      (j : Text)
      → key ≢ j
      → Distinct text_discrete l.hits
      → (get text_discrete j (try_take ceil_tenth l key now).0.hits ≡ none)
        ⊎ (get text_discrete j (try_take ceil_tenth l key now).0.hits ≡ get text_discrete j l.hits)
  unfolding try_take record_hit
  get-try_take_ne j h d = ground (
    arith,
    get-prune_in_place_ne l key now j h,
    get-make_room (prune_in_place l key now) (prev l key now) j h
        (prune_in_place-Distinct l key now d),
    get-set_ne text_discrete key j (prev l key now ++ now ∷ [])
        (make_room ceil_tenth (prune_in_place l key now) key (prev l key now)).hits h,
  )

  get-make_room_roomy :
      (m : RateLimiter) (list : List ℕ) (j : Text)
      → key ≢ j
      → length m.hits < m.max_keys
      → get text_discrete j (make_room ceil_tenth m key list).hits ≡ get text_discrete j m.hits
  unfolding make_room evict_if_full
  get-make_room_roomy m [] j h r =
      ground
        (arith, get-delete text_discrete key j m.hits, length-delete-le text_discrete key m.hits)
  get-make_room_roomy m (t ∷ list) j h r = refl

  -- While the map has room nothing is evicted.
  pub get-try_take_roomy :
      (j : Text)
      → key ≢ j
      → length l.hits < l.max_keys
      → get text_discrete j (try_take ceil_tenth l key now).0.hits ≡ get text_discrete j l.hits
  unfolding try_take record_hit
  get-try_take_roomy j h r = ground (
    arith,
    get-prune_in_place_ne l key now j h,
    get-make_room_roomy (prune_in_place l key now) (prev l key now) j h,
    length-prune_in_place l key now,
    get-set_ne text_discrete key j (prev l key now ++ now ∷ [])
        (make_room ceil_tenth (prune_in_place l key now) key (prev l key now)).hits h,
  )

  -- The two outcomes of a call, for its own key.
  pub try_take_cases :
      (((try_take ceil_tenth l key now).1 ≡ false)
        × (stored (try_take ceil_tenth l key now).0 key ≡ prev l key now)
        × (l.max_hits ≤ length (prev l key now)))
      ⊎ (((try_take ceil_tenth l key now).1 ≡ true)
          × (stored (try_take ceil_tenth l key now).0 key ≡ prev l key now ++ now ∷ [])
          × (length (prev l key now) < l.max_hits))
  try_take_cases = elim (Bool-cases (leb l.max_hits (length (prev l key now)))) [
    | inl e ↦
        inl (ground (arith, verdict-try_take), ground (arith, stored-try_take_self), ground arith)
    | inr e ↦
        inr (ground (arith, verdict-try_take), ground (arith, stored-try_take_self), ground arith)
  ]

  made_room-SameLimits :
      (m : RateLimiter) (list : List ℕ) → SameLimits (make_room ceil_tenth m key list) m
  unfolding make_room evict_if_full
  made_room-SameLimits m [] = ground arith
  made_room-SameLimits m (t ∷ list) = (refl, refl, refl)

  -- A call leaves the limits alone.
  pub try_take-SameLimits : SameLimits (try_take ceil_tenth l key now).0 l
  unfolding try_take record_hit
  try_take-SameLimits = ground (
    arith,
    made_room-SameLimits (prune_in_place l key now) (prev l key now),
    prune_found-SameLimits l key now (get text_discrete key l.hits),
  )
