-- ===== src/HotCache/Snapshot.antt =====
-- `SnapshotCache` of packages/db/src/hot-cache.ts: one shared load at a time. A load is a promise;
-- `pending` lists the loads that have not settled and `closing` those whose `finally` has still to
-- run, so that the callbacks are steps of their own between which other calls may come.
pub mod Flight
use we_chat_ai.Base.{
  ℕ, zero, suc, ◌+◌, ◌≡◌, Bool, true, false, ◌&&◌, Option, none, some, List, [], ◌∷◌, ◌++◌, ltb,
  ◌==◌, if◌then◌else◌,
}

pub record Snapshot (V : Type 0) : Type 0 where
  pub value : Option V
  pub exp : ℕ
  pub inflight : Option ℕ
  pub ttl_ms : ℕ
  pub pending : List ℕ
  pub closing : List ℕ
  pub next_load : ℕ

-- What a caller of `get` is handed: a load of its own, the value at hand, or the shared load.
pub data Answer (V : Type 0) : Type 0 where
  own_load : Answer V
  hit : V → Answer V
  shared : ℕ → Answer V

module _ {V : Type 0} where
  abbrev pub new : ℕ → Snapshot V
  new ttl_ms = record {
    value = none;
    exp = 0;
    inflight = none;
    ttl_ms = ttl_ms;
    pending = [];
    closing = [];
    next_load = 0;
  }

  -- the value while it is fresh, `this.value !== undefined && Date.now() < this.exp`
  pub fresh : Option V → ℕ → ℕ → Option V
  fresh none exp now = none
  fresh (some v) exp now = if ltb now exp then some v else none

  pub join_or_start : Snapshot V → Option ℕ → Snapshot V × Answer V
  join_or_start s (some load) = (s, shared load)
  join_or_start s none = (
    record s {
      inflight = some s.next_load;
      pending = s.next_load ∷ s.pending;
      next_load = s.next_load + 1;
    },
    shared s.next_load,
  )

  pub get_value : Snapshot V → Option V → Snapshot V × Answer V
  unfolding join_or_start
  get_value s (some v) = (s, hit v)
  get_value s none = join_or_start s s.inflight

  unfoldable pub get : Bool → ℕ → Snapshot V → Snapshot V × Answer V
  unfolding get_value fresh
  get enabled now s =
      if enabled
      then (if s.ttl_ms == 0 then (s, own_load) else get_value s (fresh s.value s.exp now))
      else (s, own_load)

  unfoldable pub invalidate : Snapshot V → Snapshot V
  invalidate s = record s { value = none; exp = 0 }

  -- the callback of `then`
  unfoldable pub store : ℕ → V → Snapshot V → Snapshot V
  store now v s = record s { value = some v; exp = now + s.ttl_ms }

  -- the callback of `finally`
  unfoldable pub finish : Snapshot V → Snapshot V
  finish s = record s { inflight = none }

-- What may happen next. A load settles once, by a value or by an error; its `finally` follows.
pub data Step {V : Type 0} : Snapshot V → Snapshot V → Type 0 where
  asked : (s : Snapshot V) (now : ℕ) → Step s (get true now s).0
  dropped : (s : Snapshot V) → Step s (invalidate s)
  loaded :
      (s : Snapshot V) (load now : ℕ) (v : V) (before after : List ℕ)
      → s.pending ≡ before ++ load ∷ after
      → Step s (store now v (record s { pending = before ++ after; closing = load ∷ s.closing }))
  failed :
      (s : Snapshot V) (load : ℕ) (before after : List ℕ)
      → s.pending ≡ before ++ load ∷ after
      → Step s (record s { pending = before ++ after; closing = load ∷ s.closing })
  finished :
      (s : Snapshot V) (load : ℕ) (before after : List ℕ)
      → s.closing ≡ before ++ load ∷ after
      → Step s (finish (record s { closing = before ++ after }))

pub data Reach {V : Type 0} (s : Snapshot V) : Snapshot V → Type 0 where
  here : Reach s s
  next : {t u : Snapshot V} → Reach s t → Step t u → Reach s u
