-- ===== src/HotCache/Ttl/Bounds.antt =====
-- The cache never grows past its bound.
use we_chat_ai.Base.{
  ℕ, ◌+◌, max, ◌≤◌, ◌<◌, ◌≡◌, refl, inl, inr, Bool, List, [], ◌∷◌, arith, Text, text_discrete,
  length, leb, Bool-cases,
}
use we_chat_ai.JsMap.{Map, length-set-le, length-delete-le}
use we_chat_ai.JsMap.Evict.{evict_from, length-evict_from-lt}
use we_chat_ai.HotCache.Ttl.{Entry, TtlCache, new, get, set, make_room, del, clear}
use we_chat_ai.HotCache.Ttl.History.{Call, gets, sets, dels, clears, step, run}

abbrev pub IsBounded : {V : Type 0} → ℕ → TtlCache V → Type 0
IsBounded n c = (c.bound ≡ n) × (length c.entries ≤ n)

module _ {V : Type 0} (ceil_tenth : ℕ → ℕ) (enabled : Bool) (n : ℕ) (pos : 0 < n) where
  evicted :
      (k : ℕ) (m : Map Text (Entry V)) → length m ≤ n → n ≤ length m → length (evict_from k 0 m) < n
  evicted k [] h g = absurd (omega arith)
  evicted k (e ∷ m) h g = omega (arith, length-evict_from-lt k 0 e m)

  make_room-lt : (c : TtlCache V) → IsBounded n c → length (make_room ceil_tenth c) < n
  unfolding make_room
  make_room-lt c (same, le) = elim (Bool-cases (leb c.bound (length c.entries))) [
    | inl full ↦ rw full (evicted (ceil_tenth c.bound) c.entries le (ground arith))
    | inr room ↦ rw room (ground arith)
  ]

  step-IsBounded :
      (c : TtlCache V) (call : Call V)
      → IsBounded n c
      → IsBounded n (step ceil_tenth enabled c call)
  unfolding step get set del clear
  step-IsBounded c (gets now key) h = ground (arith, length-delete-le text_discrete key c.entries)
  step-IsBounded c (sets now key value) h = ground (
    arith,
    make_room-lt c h,
    length-set-le text_discrete key (record { value = value; exp = now + c.ttl_ms })
        (make_room ceil_tenth c),
  )
  step-IsBounded c (dels key) h = ground (arith, length-delete-le text_discrete key c.entries)
  step-IsBounded c clears h = ground arith

  run-IsBounded :
      (c : TtlCache V) (calls : List (Call V))
      → IsBounded n c
      → IsBounded n (run ceil_tenth enabled c calls)
  unfolding run
  run-IsBounded c [] h = h
  run-IsBounded c (call ∷ older) h = step-IsBounded _ call (run-IsBounded c older h)

-- After any calls the cache holds at most its bound of entries, which is at least 32.
pub length-run-le :
    {V : Type 0} (ceil_tenth : ℕ → ℕ) (enabled : Bool) (ttl_ms bound : ℕ) (calls : List (Call V))
    → length (run ceil_tenth enabled (new ttl_ms bound) calls).entries ≤ max 32 bound
length-run-le ceil_tenth enabled ttl_ms bound calls =
    (run-IsBounded ceil_tenth enabled (max 32 bound) (omega arith) (new ttl_ms bound) calls
      (refl, omega arith)).1
