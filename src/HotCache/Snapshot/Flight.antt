-- ===== src/HotCache/Snapshot/Flight.antt =====
-- At most one shared load is under way.
use we_chat_ai.Base.{
  ℕ, suc, ◌+◌, ◌≤◌, ◌≡◌, refl, ap, Bool, true, Option, none, some, List, ◌∷◌, ◌++◌, arith, length,
  length-append,
}
use we_chat_ai.HotCache.Snapshot.{
  Snapshot, new, get, invalidate, store, finish, Step, asked, dropped, loaded, failed, finished,
  Reach, here, next,
}

-- `inflight` is set exactly while one load is under way, and there is never a second.
abbrev pub running : Option ℕ → ℕ
running none = 0
running (some load) = 1

abbrev pub IsSingle : {V : Type 0} → Snapshot V → Type 0
IsSingle s = length s.pending + length s.closing ≡ running s.inflight

running-le : (o : Option ℕ) → running o ≤ 1
running-le none = omega arith
running-le (some load) = omega arith

removed :
    (before after : List ℕ) (load : ℕ)
    → length (before ++ load ∷ after) ≡ suc (length (before ++ after))
removed before after load =
    omega (arith, length-append before (load ∷ after), length-append before after)

module _ {V : Type 0} where
  get-IsSingle :
      (s : Snapshot V) (enabled : Bool) (now : ℕ) → IsSingle s → IsSingle (get enabled now s).0
  unfolding get
  get-IsSingle s enabled now h = ground arith

  Step-IsSingle : {s t : Snapshot V} → Step s t → IsSingle s → IsSingle t
  unfolding invalidate store finish
  Step-IsSingle (asked s now) h = get-IsSingle s true now h
  Step-IsSingle (dropped s) h = h
  Step-IsSingle (loaded s load now v before after e) h =
      omega (arith, removed before after load, ap length e)
  Step-IsSingle (failed s load before after e) h =
      omega (arith, removed before after load, ap length e)
  Step-IsSingle (finished s load before after e) h =
      omega (arith, removed before after load, ap length e, running-le s.inflight)

  Reach-IsSingle : {s t : Snapshot V} → Reach s t → IsSingle s → IsSingle t
  Reach-IsSingle here h = h
  Reach-IsSingle (next r step) h = Step-IsSingle step (Reach-IsSingle r h)

-- From a new cache, in whatever order the calls and the callbacks come, at most one shared load is
-- under way, and `inflight` is set exactly while one is.
pub Reach-single_flight :
    {V : Type 0} (ttl_ms : ℕ) (s : Snapshot V)
    → Reach (new ttl_ms) s
    → (length s.pending + length s.closing ≤ 1)
      × (length s.pending + length s.closing ≡ running s.inflight)
Reach-single_flight ttl_ms s r =
    let single : IsSingle s = Reach-IsSingle r refl in
    (omega (arith, single, running-le s.inflight), single)
