-- ===== src/Lease/Store.antt =====
-- packages/db/src/worker-fleet.ts, `claimBotLeases`, `releaseBotLease` and `forceReleaseBotLease`, on
-- the keys of Redis that they use: the leases `botLease(bot)` and the sets `workerBots(worker)`. A claim
-- is one function of the store, with nothing of another client between its round trips and with no
-- lease that runs out meanwhile; what others do between the round trips of a release is an argument. The
-- order of the pollable bots, which the source shuffles, is an argument.
use we_chat_ai.Base.{
  ℕ, zero, suc, ◌-◌, ◌*◌, min, max, Bool, true, false, Option, none, some, List, [], ◌∷◌, ◌++◌,
  Text, text_discrete, ite, length, take, drop, ltb, same, if◌then◌else◌,
}
use we_chat_ai.JsMap.{Map, get, set, delete}

-- the members of `workerBots` as pairs of worker and bot, a member perhaps more than once
pub record Store : Type 0 where
  pub leases : Map Text Text
  pub worker_bots : List (Text × Text)

abbrev pub sadd : Text → List Text → List (Text × Text) → List (Text × Text)
sadd worker [] members = members
sadd worker (bot ∷ bots) members = (worker, bot) ∷ sadd worker bots members

-- `srem`
abbrev pub srem : Text → Text → List (Text × Text) → List (Text × Text)
srem worker bot [] = []
srem worker bot ((w, b) ∷ members) =
    let rest = srem worker bot members in
    ite (text_discrete w worker) (ite (text_discrete b bot) rest ((w, b) ∷ rest)) ((w, b) ∷ rest)

-- `SET botLease worker EX ttl NX` of one bot: the leases, and whether the answer is "OK"
unfoldable pub set_nx : Text → Text → Map Text Text → Map Text Text × Bool
set_nx worker bot leases = set_nx_found worker bot leases (get text_discrete bot leases)
  where
    set_nx_found : Text → Text → Map Text Text → Option Text → Map Text Text × Bool
    set_nx_found worker bot leases none = (set text_discrete bot worker leases, true)
    set_nx_found worker bot leases (some owner) = (leases, false)

-- the pipeline of a batch: the leases, and the bots that were got
unfoldable pub set_all_nx : Text → List Text → Map Text Text → Map Text Text × List Text
set_all_nx worker [] leases = (leases, [])
set_all_nx worker (bot ∷ bots) leases =
    let (after, ok) = set_nx worker bot leases in
    let (final, got) = set_all_nx worker bots after in (final, if ok then bot ∷ got else got)

-- the pipeline that drops what was got beyond the need
unfoldable pub del_all : List Text → Map Text Text → Map Text Text
del_all [] leases = leases
del_all (bot ∷ bots) leases = del_all bots (delete text_discrete bot leases)

-- `Math.min(80, Math.max(need, Math.min(need * 2, 80)))`
abbrev pub fetch : ℕ → ℕ
fetch need = min 80 (max need (min (need * 2) 80))

-- One batch: the store and the claimed bots after it.
unfoldable pub claim_batch : Text → ℕ → List Text → Store → List Text → Store × List Text
claim_batch worker slots batch s claimed =
    let (leases, got) = set_all_nx worker batch s.leases in
    let keep = take (slots - length claimed) got in
    (
      record {
        leases = del_all (drop (length keep) got) leases;
        worker_bots = sadd worker keep s.worker_bots;
      },
      claimed ++ keep,
    )

-- The loop, on fuel: each round takes at least one bot off the pollable ones.
unfoldable pub claim_loop : ℕ → Text → ℕ → List Text → Store → List Text → Store × List Text
claim_loop zero worker slots pollable s claimed = (s, claimed)
claim_loop (suc fuel) worker slots [] s claimed = (s, claimed)
claim_loop (suc fuel) worker slots (bot ∷ pollable) s claimed =
    let n = fetch (slots - length claimed) in
    let (after, more) = claim_batch worker slots (take n (bot ∷ pollable)) s claimed in
    let rest = claim_loop fuel worker slots (drop n (bot ∷ pollable)) after more in
    if ltb (length claimed) slots then rest else (s, claimed)

unfoldable pub claim_bot_leases : Text → ℕ → List Text → Store → Store × List Text
claim_bot_leases worker slots pollable s = claim_loop (length pollable) worker slots pollable s []

abbrev pub is_owner : Text → Option Text → Bool
is_owner worker none = false
is_owner worker (some owner) = same owner worker

-- the DEL and the SREM of `releaseBotLease`, after the owner that its GET gave
unfoldable pub release_read : Text → Text → Option Text → Store → Store
release_read worker bot owner s = record {
  leases = if is_owner worker owner then delete text_discrete bot s.leases else s.leases;
  worker_bots = srem worker bot s.worker_bots;
}

-- `releaseBotLease`, with what others do to the store between its GET and its DEL
unfoldable pub release_bot_lease : Text → Text → (Store → Store) → Store → Store
release_bot_lease worker bot others s =
    release_read worker bot (get text_discrete bot s.leases) (others s)

abbrev pub srem_owner : Option Text → Text → List (Text × Text) → List (Text × Text)
srem_owner none bot members = members
srem_owner (some []) bot members = members
srem_owner (some (c ∷ owner)) bot members = srem (c ∷ owner) bot members

unfoldable pub force_release_bot_lease : Text → Store → Store
force_release_bot_lease bot s = record {
  leases = delete text_discrete bot s.leases;
  worker_bots = srem_owner (get text_discrete bot s.leases) bot s.worker_bots;
}
