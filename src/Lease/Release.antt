-- ===== src/Lease/Release.antt =====
-- A release whose two round trips another worker's claim comes between.
use we_chat_ai.Base.{
  same_refl, ap, ◌∙◌, ◌<◌, Bool-cases, ℕ, zero, suc, ◌-◌, ◌≡◌, refl, inl, inr, none, some, List, [],
  ◌∷◌, arith, Text, text_discrete, length, take, ltb,
}
use we_chat_ai.JsMap.{Map, get, set, delete, get-delete}
use we_chat_ai.Lease.Store.{
  Store, set_nx, set_all_nx, fetch, claim_batch, claim_loop, claim_bot_leases, release_read,
  release_bot_lease,
}

-- The lease of the bot runs out, and another worker claims that bot.
abbrev pub claimed_after_expiry : Text → ℕ → Text → Store → Store × List Text
claimed_after_expiry other slots bot s =
    claim_bot_leases other slots (bot ∷ [])
      (record s { leases = delete text_discrete bot s.leases })

take-one : (n : ℕ) (bot : Text) → 0 < n → take n (bot ∷ []) ≡ bot ∷ []
take-one n bot h = take-all n h
  where
    take-all : (n : ℕ) → 0 < n → take n (bot ∷ []) ≡ bot ∷ []
    take-all zero h = absurd (omega (arith, h))
    take-all (suc zero) h = refl
    take-all (suc (suc n)) h = refl

set_all_nx-one :
    (worker bot : Text) (leases : Map Text Text)
    → get text_discrete bot leases ≡ none
    → set_all_nx worker (bot ∷ []) leases ≡ (set text_discrete bot worker leases, bot ∷ [])
unfolding set_all_nx set_nx
set_all_nx-one worker bot leases e = rw e refl

claim_batch-one :
    (worker bot : Text) (slots : ℕ) (s : Store)
    → 0 < slots
    → get text_discrete bot s.leases ≡ none
    → (claim_batch worker slots (bot ∷ []) s []).1 ≡ bot ∷ []
unfolding claim_batch
claim_batch-one worker bot slots s pos e =
    rw (set_all_nx-one worker bot s.leases e)
      (take-one (slots - length {A = Text} []) bot (omega (arith, pos)))

claim_bot_leases-one :
    (worker bot : Text) (slots : ℕ) (s : Store)
    → 0 < slots
    → claim_bot_leases worker slots (bot ∷ []) s ≡ claim_batch worker slots (bot ∷ []) s []
unfolding claim_bot_leases claim_loop
claim_bot_leases-one worker bot slots s pos = elim (Bool-cases (ltb (length {A = Text} []) slots)) [
  | inl e ↦ rw e (
      ap (λ batch. claim_batch worker slots batch s [])
        (take-one (fetch (slots - length {A = Text} [])) bot (omega (arith, pos))))
  | inr e ↦ absurd (ground (arith, e, pos))
]

claimed_after_expiry_lem :
    (other bot : Text) (slots : ℕ) (s : Store)
    → 0 < slots
    → (claimed_after_expiry other slots bot s).1 ≡ bot ∷ []
claimed_after_expiry_lem other bot slots s pos =
    let free = record s { leases = delete text_discrete bot s.leases } in
    ap (λ r. r.1) (claim_bot_leases-one other bot slots free pos)
    ∙ claim_batch-one other bot slots free pos
        (ground (arith, get-delete text_discrete bot bot s.leases))

-- The check of the owner and the deletion of a release are two round trips. Where the lease of the worker runs
-- out between them and another worker claims the bot, that worker has it among the bots it claimed, and the
-- release takes the lease away: nobody holds the bot after it.
pub release_bot_lease-race :
    (worker bot other : Text) (slots : ℕ) (s : Store)
    → get text_discrete bot s.leases ≡ some worker
    → 0 < slots
    → ((claimed_after_expiry other slots bot s).1 ≡ bot ∷ [])
      × (get text_discrete bot
            (release_bot_lease worker bot
              (λ s. (claimed_after_expiry other slots bot s).0)
              s).leases
          ≡ none)
unfolding release_bot_lease release_read
release_bot_lease-race worker bot other slots s mine pos = (
  claimed_after_expiry_lem other bot slots s pos,
  rw (mine, same_refl worker)
      (ground (
        arith,
        get-delete text_discrete bot bot (claimed_after_expiry other slots bot s).0.leases,
      )),
)
