-- ===== src/HotCache/Ttl/History.antt =====
-- What a cache may answer, against the history of the calls that it received.
use we_chat_ai.Base.{
  ℕ, ◌+◌, max, ◌≤◌, ◌≡◌, refl, ◌⊎◌, inl, inr, Bool, true, Option, none, some, List, [], ◌∷◌, arith,
  Text, text_discrete, leb, if◌then◌else◌, ite, Option-cases,
}
use we_chat_ai.JsMap
use we_chat_ai.JsMap.{Distinct, get-set, get-delete, set-Distinct, delete-Distinct}
use we_chat_ai.JsMap.Evict.{get-evict_from, evict_from-Distinct}
use we_chat_ai.HotCache.Ttl.{Entry, TtlCache, new, get, set, make_room, del, clear}

-- A call, with its clock where it reads one.
pub data Call (V : Type 0) : Type 0 where
  gets : ℕ → Text → Call V
  sets : ℕ → Text → V → Call V
  dels : Text → Call V
  clears : Call V

module _ {V : Type 0} (ceil_tenth : ℕ → ℕ) (enabled : Bool) where
  unfoldable pub step : TtlCache V → Call V → TtlCache V
  step c (gets now key) = (get enabled now key c).0
  step c (sets now key value) = set ceil_tenth enabled now key value c
  step c (dels key) = del key c
  step c clears = clear c

  -- The calls newest first.
  unfoldable pub run : TtlCache V → List (Call V) → TtlCache V
  unfolding step
  run c [] = c
  run c (call ∷ older) = step (run c older) call

-- The value that a key was last set to, and when, if nothing removed it since.
module _ {V : Type 0} where
  unfoldable pub last_write : Text → List (Call V) → Option (V × ℕ)
  last_write key [] = none
  last_write key (gets now j ∷ older) = last_write key older
  last_write key (sets now j value ∷ older) =
      ite (text_discrete j key) (some (value, now)) (last_write key older)
  last_write key (dels j ∷ older) = ite (text_discrete j key) none (last_write key older)
  last_write key (clears ∷ older) = none

-- Every entry is the last write of its key.
pub record Remembers {V : Type 0} (ttl : ℕ) (c : TtlCache V) (calls : List (Call V)) : Type 0 where
  pub ttl_kept : c.ttl_ms ≡ ttl
  pub distinct : Distinct text_discrete c.entries
  pub latest :
      (key : Text) (e : Entry V)
      → JsMap.get text_discrete key c.entries ≡ some e
      → (t : ℕ) × (last_write key calls ≡ some (e.value, t)) × (e.exp ≡ t + ttl)

module _ {V : Type 0} {ttl : ℕ} {c : TtlCache V} {calls : List (Call V)}
    (r : Remembers ttl c calls) where
  del-latest :
      (key j : Text) (e : Entry V)
      → JsMap.get text_discrete j (del key c).entries ≡ some e
      → (t : ℕ) × (last_write j (dels key ∷ calls) ≡ some (e.value, t)) × (e.exp ≡ t + ttl)
  unfolding del last_write
  del-latest key j e found = ground (arith, get-delete text_discrete key j c.entries, r.latest j e)

  del-Remembers : (key : Text) → Remembers ttl (del key c) (dels key ∷ calls)
  unfolding del
  del-Remembers key = record {
    ttl_kept = r.ttl_kept;
    distinct = delete-Distinct text_discrete key c.entries r.distinct;
    latest = del-latest key;
  }

  get-latest :
      (enabled : Bool) (now : ℕ) (key j : Text) (e : Entry V)
      → JsMap.get text_discrete j (get enabled now key c).0.entries ≡ some e
      → (t : ℕ) × (last_write j calls ≡ some (e.value, t)) × (e.exp ≡ t + ttl)
  unfolding get
  get-latest enabled now key j e found =
      ground (arith, get-delete text_discrete key j c.entries, r.latest j e)

  get-Distinct :
      (enabled : Bool) (now : ℕ) (key : Text)
      → Distinct text_discrete (get enabled now key c).0.entries
  unfolding get
  get-Distinct enabled now key =
      ground (arith, r.distinct, delete-Distinct text_discrete key c.entries r.distinct)

  get-ttl : (enabled : Bool) (now : ℕ) (key : Text) → (get enabled now key c).0.ttl_ms ≡ ttl
  unfolding get
  get-ttl enabled now key = ground (arith, r.ttl_kept)

  module _ (ceil_tenth : ℕ → ℕ) where
    make_room-Distinct : Distinct text_discrete (make_room ceil_tenth c)
    unfolding make_room
    make_room-Distinct =
        ground
          (arith, r.distinct, evict_from-Distinct text_discrete (ceil_tenth c.bound) 0 c.entries)

    get-make_room :
        (j : Text)
        → (JsMap.get text_discrete j (make_room ceil_tenth c) ≡ none)
          ⊎ (JsMap.get text_discrete j (make_room ceil_tenth c)
              ≡ JsMap.get text_discrete j c.entries)
    unfolding make_room
    get-make_room j =
        ground (arith, get-evict_from text_discrete (ceil_tenth c.bound) 0 j c.entries r.distinct)

    set-latest :
        (now : ℕ) (key : Text) (value : V) (j : Text) (e : Entry V)
        → JsMap.get text_discrete j (set ceil_tenth true now key value c).entries ≡ some e
        → (t : ℕ) × (last_write j (sets now key value ∷ calls) ≡ some (e.value, t))
          × (e.exp ≡ t + ttl)
    unfolding set last_write
    set-latest now key value j e found =
        let written : Entry V = record { value = value; exp = now + c.ttl_ms } in
        let after = get-set text_discrete key j written (make_room ceil_tenth c) in
        elim (text_discrete key j) [
          | yes p ↦ (now, ground (arith, after), ground (arith, after, r.ttl_kept))
          | no p ↦ ground (arith, after, get-make_room j, r.latest j e)
        ]

    set-Remembers :
        (now : ℕ) (key : Text) (value : V)
        → Remembers ttl (set ceil_tenth true now key value c) (sets now key value ∷ calls)
    set-Remembers now key value = record {
      ttl_kept = unfold set in r.ttl_kept;
      distinct = unfold set in set-Distinct text_discrete key _ _ make_room-Distinct;
      latest = set-latest now key value;
    }

  clear-Remembers : Remembers ttl (clear c) (clears ∷ calls)
  unfolding clear
  clear-Remembers = record {
    ttl_kept = r.ttl_kept;
    distinct = tt;
    latest = λ j e found. unfold JsMap.get in cc;
  }

  get-Remembers :
      (enabled : Bool) (now : ℕ) (key : Text)
      → Remembers ttl (get enabled now key c).0 (gets now key ∷ calls)
  unfolding last_write
  get-Remembers enabled now key = record {
    ttl_kept = get-ttl enabled now key;
    distinct = get-Distinct enabled now key;
    latest = get-latest enabled now key;
  }

  -- The answer itself.
  get-fresh :
      (enabled : Bool) (now : ℕ) (key : Text) (v : V)
      → (get enabled now key c).1 ≡ some v
      → (t : ℕ) × (last_write key calls ≡ some (v, t)) × (now ≤ t + ttl)
  unfolding get
  get-fresh enabled now key v hit = elim (Option-cases (JsMap.get text_discrete key c.entries)) [
    | inl missing ↦ absurd (ground arith)
    | inr (e, found) ↦
        let (t, written, expires) = r.latest key e found in
        (t, ground (arith, written), ground arith)
  ]

module _ {V : Type 0} (ceil_tenth : ℕ → ℕ) (ttl_ms bound : ℕ) where
  run-Remembers :
      (calls : List (Call V))
      → Remembers (max 100 ttl_ms) (run ceil_tenth true (new ttl_ms bound) calls) calls
  unfolding run
  run-Remembers [] = record {
    ttl_kept = refl;
    distinct = tt;
    latest = λ j e found. unfold JsMap.get in cc;
  }
  run-Remembers (gets now key ∷ older) = get-Remembers (run-Remembers older) true now key
  run-Remembers (sets now key value ∷ older) =
      set-Remembers (run-Remembers older) ceil_tenth now key value
  run-Remembers (dels key ∷ older) = del-Remembers (run-Remembers older) key
  run-Remembers (clears ∷ older) = clear-Remembers (run-Remembers older)

  -- Whatever calls the cache received, evictions and expiries included, a hit is the value that the
  -- key was last set to, nothing has deleted or cleared it since, and it was set no longer ago than
  -- the time to live.
  pub get-last_write :
      (calls : List (Call V)) (now : ℕ) (key : Text) (v : V)
      → (get true now key (run ceil_tenth true (new ttl_ms bound) calls)).1 ≡ some v
      → (t : ℕ) × (last_write key calls ≡ some (v, t)) × (now ≤ t + max 100 ttl_ms)
  get-last_write calls now key v hit = get-fresh (run-Remembers calls) true now key v hit

-- A value that was just set is answered until its time to live is over, and then no more, whatever
-- the cache held before and however many entries the call evicted.
pub get-set_fresh :
    {V : Type 0} (ceil_tenth : ℕ → ℕ) (c : TtlCache V) (key : Text) (v : V) (t now : ℕ)
    → (get true now key (set ceil_tenth true t key v c)).1
      ≡ (if leb now (t + c.ttl_ms) then some v else none)
unfolding get set
get-set_fresh ceil_tenth c key v t now = ground (
  arith,
  JsMap.get-set_self text_discrete key (record { value = v; exp = t + c.ttl_ms })
      (make_room ceil_tenth c),
)
