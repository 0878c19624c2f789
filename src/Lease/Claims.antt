-- ===== src/Lease/Claims.antt =====
-- A worker claims no more bots than it has slots for, and takes no lease that another one holds.
use we_chat_ai.Base.{
  Bool, Option-cases, Bool-cases, All, ◌≢◌, ℕ, zero, suc, ◌-◌, ◌≤◌, ◌≡◌, refl, ◌⊎◌, inl, inr, true,
  false, some, List, [], ◌∷◌, arith, Text, text_discrete, length, take, drop, length-append,
  length-take-le, if◌then◌else◌, ltb,
}
use we_chat_ai.JsMap.{Map, get, delete, get-set, get-set_self, get-delete}
use we_chat_ai.Lease.Store.{
  Store, set_nx, set_all_nx, del_all, fetch, claim_batch, claim_loop, claim_bot_leases,
}

abbrev pub IsLeased : Text → Map Text Text → Text → Type 0
IsLeased worker leases bot = get text_discrete bot leases ≡ some worker

abbrev pub IsOther : Text → Text → Type 0
IsOther bot b = b ≢ bot

set_nx-keeps :
    (worker bot owner other : Text) (leases : Map Text Text)
    → IsLeased owner leases bot
    → IsLeased owner (set_nx worker other leases).0 bot
      × (((set_nx worker other leases).1 ≡ false) ⊎ IsOther bot other)
unfolding set_nx
set_nx-keeps worker bot owner other leases h = elim (text_discrete other bot) [
  | yes p ↦ rw p (rw h (h, inl refl))
  | no n ↦ (
    elim (Option-cases (get text_discrete other leases)) [
      | inl e ↦ rw e (ground (arith, get-set text_discrete other bot worker leases))
      | inr (_, e) ↦ rw e h
    ],
    inr n,
  )
]

pub set_nx-gets :
    (worker bot : Text) (leases : Map Text Text)
    → (set_nx worker bot leases).1 ≡ true
    → IsLeased worker (set_nx worker bot leases).0 bot
unfolding set_nx
set_nx-gets worker bot leases h = elim (Option-cases (get text_discrete bot leases)) [
  | inl e ↦ rw e (get-set_self text_discrete bot worker leases)
  | inr (_, e) ↦ absurd (ground (arith, h, e))
]

true_ne_false : ¬ (true ≡ false)
true_ne_false e = cc

got_others :
    (bot b : Text) (ok : Bool) (got : List Text)
    → (ok ≡ false) ⊎ IsOther bot b
    → All (IsOther bot) got
    → All (IsOther bot) (if ok then b ∷ got else got)
got_others bot b true got (inl e) a = absurd (true_ne_false e)
got_others bot b true got (inr n) a = (n, a)
got_others bot b false got other a = a

-- A lease that is held stays, and its bot is not among those that are got.
pub set_all_nx-keeps :
    (worker bot owner : Text) (bots : List Text) (leases : Map Text Text)
    → IsLeased owner leases bot
    → IsLeased owner (set_all_nx worker bots leases).0 bot
      × All (IsOther bot) (set_all_nx worker bots leases).1
unfolding set_all_nx
set_all_nx-keeps worker bot owner [] leases h = (h, tt)
set_all_nx-keeps worker bot owner (b ∷ bots) leases h =
    let (held, other) = set_nx-keeps worker bot owner b leases h in
    let (final, others) = set_all_nx-keeps worker bot owner bots (set_nx worker b leases).0 held in
    (final, got_others bot b (set_nx worker b leases).1 _ other others)

del_all-keeps :
    (bot owner : Text) (bots : List Text) (leases : Map Text Text)
    → All (IsOther bot) bots
    → IsLeased owner leases bot
    → IsLeased owner (del_all bots leases) bot
unfolding del_all
del_all-keeps bot owner [] leases n h = h
del_all-keeps bot owner (b ∷ bots) leases (ne, n) h =
    del_all-keeps bot owner bots (delete text_discrete b leases) n
      (ground (arith, ne, h, get-delete text_discrete b bot leases))

drop-IsOther :
    (bot : Text) (n : ℕ) (xs : List Text) → All (IsOther bot) xs → All (IsOther bot) (drop n xs)
drop-IsOther bot zero xs h = h
drop-IsOther bot (suc n) [] h = tt
drop-IsOther bot (suc n) (x ∷ xs) (p, h) = drop-IsOther bot n xs h

-- One batch leaves every lease that was held.
claim_batch-keeps :
    (worker : Text) (slots : ℕ) (batch : List Text) (s : Store) (claimed : List Text)
    (bot owner : Text)
    → IsLeased owner s.leases bot
    → IsLeased owner (claim_batch worker slots batch s claimed).0.leases bot
unfolding claim_batch
claim_batch-keeps worker slots batch s claimed bot owner h =
    let (final, others) = set_all_nx-keeps worker bot owner batch s.leases h in
    del_all-keeps bot owner _ _ (drop-IsOther bot _ _ others) final

claim_batch-le :
    (worker : Text) (slots : ℕ) (batch : List Text) (s : Store) (claimed : List Text)
    → length claimed ≤ slots
    → length (claim_batch worker slots batch s claimed).1 ≤ slots
unfolding claim_batch
claim_batch-le worker slots batch s claimed h = omega (
  arith,
  length-append claimed (take (slots - length claimed) (set_all_nx worker batch s.leases).1),
  length-take-le (slots - length claimed) (set_all_nx worker batch s.leases).1,
)

claim_loop-le :
    (fuel : ℕ) (worker : Text) (slots : ℕ) (pollable : List Text) (s : Store) (claimed : List Text)
    → length claimed ≤ slots
    → length (claim_loop fuel worker slots pollable s claimed).1 ≤ slots
unfolding claim_loop
claim_loop-le zero worker slots pollable s claimed h = h
claim_loop-le (suc fuel) worker slots [] s claimed h = h
claim_loop-le (suc fuel) worker slots (b ∷ pollable) s claimed h =
    let n = fetch (slots - length claimed) in
    let batch = take n (b ∷ pollable) in
    let rest =
      claim_loop-le fuel worker slots (drop n (b ∷ pollable))
        (claim_batch worker slots batch s claimed).0 (claim_batch worker slots batch s claimed).1
        (claim_batch-le worker slots batch s claimed h) in
    elim (Bool-cases (ltb (length claimed) slots)) [ inl e ↦ rw e rest | inr e ↦ rw e h ]

pub claim_loop-keeps :
    (fuel : ℕ) (worker : Text) (slots : ℕ) (pollable : List Text) (s : Store) (claimed : List Text)
    (bot owner : Text)
    → IsLeased owner s.leases bot
    → IsLeased owner (claim_loop fuel worker slots pollable s claimed).0.leases bot
unfolding claim_loop
claim_loop-keeps zero worker slots pollable s claimed bot owner o = o
claim_loop-keeps (suc fuel) worker slots [] s claimed bot owner o = o
claim_loop-keeps (suc fuel) worker slots (b ∷ pollable) s claimed bot owner o =
    let n = fetch (slots - length claimed) in
    let batch = take n (b ∷ pollable) in
    let rest =
      claim_loop-keeps fuel worker slots (drop n (b ∷ pollable))
        (claim_batch worker slots batch s claimed).0 (claim_batch worker slots batch s claimed).1
        bot owner (claim_batch-keeps worker slots batch s claimed bot owner o) in
    elim (Bool-cases (ltb (length claimed) slots)) [ inl e ↦ rw e rest | inr e ↦ rw e o ]

-- Every lease of the one store is there in the other, with the same owner.
abbrev pub KeepsLeases : Store → Store → Type 0
KeepsLeases s s' =
    (bot owner : Text)
    → get text_discrete bot s.leases ≡ some owner
    → get text_discrete bot s'.leases ≡ some owner

-- However the pollable bots are ordered and whatever leases there are, none included, a worker claims at most
-- as many bots as it has slots, and every lease that is held before the claim, by whomever, has the same owner
-- after it.
pub claim_bot_leases-keeps :
    (worker : Text) (slots : ℕ) (pollable : List Text) (s : Store)
    → (length (claim_bot_leases worker slots pollable s).1 ≤ slots)
      × KeepsLeases s (claim_bot_leases worker slots pollable s).0
unfolding claim_bot_leases
claim_bot_leases-keeps worker slots pollable s = (
  claim_loop-le (length pollable) worker slots pollable s [] (omega arith),
  λ bot owner h. claim_loop-keeps (length pollable) worker slots pollable s [] bot owner h,
)
