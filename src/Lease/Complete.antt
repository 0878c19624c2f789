-- ===== src/Lease/Complete.antt =====
-- A claim goes through all the pollable bots: it ends with all slots taken or with no bot left to take.
use mathlib.Core.Path.{subst}
use we_chat_ai.Base.{
  ap, dec_lt, ◌<◌, Bool, Option-cases, Bool-cases, All, All-append, ℕ, zero, suc, ◌-◌, ◌≤◌, ◌≡◌,
  refl, inl, inr, true, false, some, List, [], ◌∷◌, ◌++◌, arith, Text, text_discrete, length, take,
  drop, length-append, if◌then◌else◌, ltb,
}
use we_chat_ai.JsMap.{Map, get, get-set}
use we_chat_ai.Lease.Store.{
  Store, set_nx, set_all_nx, del_all, fetch, claim_batch, claim_loop, claim_bot_leases,
}
use we_chat_ai.Lease.Claims.{set_all_nx-keeps, claim_loop-keeps}

-- somebody holds the bot
abbrev pub IsHeld : Map Text Text → Text → Type 0
IsHeld leases bot = (owner : Text) × (get text_discrete bot leases ≡ some owner)

set_nx-IsHeld :
    (worker bot : Text) (leases : Map Text Text) → IsHeld (set_nx worker bot leases).0 bot
unfolding set_nx
set_nx-IsHeld worker bot leases = elim (Option-cases (get text_discrete bot leases)) [
  | inl e ↦ (worker, rw e (ground (arith, get-set text_discrete bot bot worker leases)))
  | inr (owner, e) ↦ (owner, rw e e)
]

-- After the pipeline of a batch every bot of it is held.
set_all_nx-IsHeld :
    (worker : Text) (bots : List Text) (leases : Map Text Text)
    → All (IsHeld (set_all_nx worker bots leases).0) bots
unfolding set_all_nx
set_all_nx-IsHeld worker [] leases = tt
set_all_nx-IsHeld worker (b ∷ bots) leases =
    let (owner, h) = set_nx-IsHeld worker b leases in
    (
      (owner, (set_all_nx-keeps worker b owner bots (set_nx worker b leases).0 h).0),
      set_all_nx-IsHeld worker bots (set_nx worker b leases).0,
    )

length-take-eq : {A : Type 0} (n : ℕ) (xs : List A) → n ≤ length xs → length (take n xs) ≡ n
length-take-eq zero xs h = refl
length-take-eq (suc n) [] h = absurd (omega arith)
length-take-eq (suc n) (x ∷ xs) h = omega (arith, length-take-eq n xs (omega arith))

take-short : {A : Type 0} (n : ℕ) (xs : List A) → length xs ≤ n → (length (take n xs) ≡ length xs)
take-short zero [] h = refl
take-short zero (x ∷ xs) h = absurd (omega arith)
take-short (suc n) [] h = refl
take-short (suc n) (x ∷ xs) h = omega (arith, take-short n xs (omega arith))

drop-length : {A : Type 0} (n : ℕ) (xs : List A) → length xs ≤ n → drop n xs ≡ []
drop-length zero [] h = refl
drop-length zero (x ∷ xs) h = absurd (omega arith)
drop-length (suc n) [] h = refl
drop-length (suc n) (x ∷ xs) h = drop-length n xs (omega arith)

-- A batch fills the slots, or leaves none of its bots free.
claim_batch-IsHeld :
    (worker : Text) (slots : ℕ) (batch : List Text) (s : Store) (claimed : List Text)
    → length (claim_batch worker slots batch s claimed).1 < slots
    → All (IsHeld (claim_batch worker slots batch s claimed).0.leases) batch
unfolding claim_batch del_all
claim_batch-IsHeld worker slots batch s claimed few =
    rw (drop-length (length keep) got (omega (arith, all_kept)))
      (set_all_nx-IsHeld worker batch s.leases)
  where
    got : List Text
    got = (set_all_nx worker batch s.leases).1

    keep : List Text
    keep = take (slots - length claimed) got

    short : length got ≤ slots - length claimed
    short = elim (dec_lt (slots - length claimed) (length got)) [
      | yes more ↦ absurd (
          omega (
            arith,
            few,
            length-append claimed keep,
            length-take-eq (slots - length claimed) got (omega (arith, more)),
          ))
      | no enough ↦ omega (arith, enough)
    ]

    all_kept : length keep ≡ length got
    all_kept = take-short (slots - length claimed) got short

take-drop : {A : Type 0} (n : ℕ) (xs : List A) → take n xs ++ drop n xs ≡ xs
take-drop zero xs = refl
take-drop (suc n) [] = refl
take-drop (suc n) (x ∷ xs) = ap (◌∷◌ x) (take-drop n xs)

length-drop-le :
    (n : ℕ) (bot : Text) (bots : List Text) → 0 < n → length (drop n (bot ∷ bots)) ≤ length bots
length-drop-le zero bot bots h = absurd (omega (arith, h))
length-drop-le (suc zero) bot bots h = omega arith
length-drop-le (suc (suc n)) bot [] h = omega arith
length-drop-le (suc (suc n)) bot (b ∷ bots) h =
    omega (arith, length-drop-le (suc n) b bots (omega arith))

All-IsHeld-map :
    (leases leases' : Map Text Text) (bots : List Text)
    → ((bot owner : Text)
        → get text_discrete bot leases ≡ some owner
        → get text_discrete bot leases' ≡ some owner)
    → All (IsHeld leases) bots
    → All (IsHeld leases') bots
All-IsHeld-map leases leases' [] keeps h = tt
All-IsHeld-map leases leases' (b ∷ bots) keeps ((owner, e), h) =
    ((owner, keeps b owner e), All-IsHeld-map leases leases' bots keeps h)

claim_loop-grows :
    (fuel : ℕ) (worker : Text) (slots : ℕ) (pollable : List Text) (s : Store) (claimed : List Text)
    → length claimed ≤ length (claim_loop fuel worker slots pollable s claimed).1
unfolding claim_loop claim_batch
claim_loop-grows zero worker slots pollable s claimed = omega arith
claim_loop-grows (suc fuel) worker slots [] s claimed = omega arith
claim_loop-grows (suc fuel) worker slots (b ∷ pollable) s claimed =
    let n = fetch (slots - length claimed) in
    let batch = take n (b ∷ pollable) in
    let more = (claim_batch worker slots batch s claimed).1 in
    let rest =
      claim_loop-grows fuel worker slots (drop n (b ∷ pollable))
        (claim_batch worker slots batch s claimed).0 more in
    elim (Bool-cases (ltb (length claimed) slots)) [
      | inl e ↦ rw e (
          omega (
            arith,
            rest,
            length-append claimed
                (take (slots - length claimed) (set_all_nx worker batch s.leases).1),
          ))
      | inr e ↦ rw e (omega arith)
    ]

claim_loop-IsHeld :
    (fuel : ℕ) (worker : Text) (slots : ℕ) (pollable : List Text) (s : Store) (claimed : List Text)
    → length pollable ≤ fuel
    → length (claim_loop fuel worker slots pollable s claimed).1 < slots
    → All (IsHeld (claim_loop fuel worker slots pollable s claimed).0.leases) pollable
unfolding claim_loop
claim_loop-IsHeld zero worker slots [] s claimed h few = tt
claim_loop-IsHeld zero worker slots (b ∷ pollable) s claimed h few = absurd (omega (arith, h))
claim_loop-IsHeld (suc fuel) worker slots [] s claimed h few = tt
claim_loop-IsHeld (suc fuel) worker slots (b ∷ pollable) s claimed h few =
    go (claim_loop-IsHeld fuel worker slots left after more) (ltb (length claimed) slots) refl few
  where
    n : ℕ
    n = fetch (slots - length claimed)

    batch : List Text
    batch = take n (b ∷ pollable)

    left : List Text
    left = drop n (b ∷ pollable)

    after : Store
    after = (claim_batch worker slots batch s claimed).0

    more : List Text
    more = (claim_batch worker slots batch s claimed).1

    rest : Store × List Text
    rest = claim_loop fuel worker slots left after more

    Whole : Type 0
    Whole = length left ≤ fuel → length rest.1 < slots → All (IsHeld rest.0.leases) left

    ended :
        Whole
        → length claimed < slots
        → length rest.1 < slots
        → All (IsHeld rest.0.leases) (b ∷ pollable)
    ended ih lt less =
        subst (λ bots. All (IsHeld rest.0.leases) bots) (take-drop n (b ∷ pollable))
          (All-append (IsHeld rest.0.leases) batch left
            (All-IsHeld-map after.leases rest.0.leases batch
              (claim_loop-keeps fuel worker slots left after more)
              (claim_batch-IsHeld worker slots batch s claimed
                (omega (arith, less, claim_loop-grows fuel worker slots left after more))))
            (ih (omega (arith, h, length-drop-le n b pollable (omega (arith, lt)))) less))

    go :
        Whole
        → (c : Bool) → ltb (length claimed) slots ≡ c
        → length (if c then rest else (s, claimed)).1 < slots
        → All (IsHeld (if c then rest else (s, claimed)).0.leases) (b ∷ pollable)
    go ih true e less = ended ih (ground (arith, e)) less
    go ih false e less = absurd (ground (arith, e, less))

-- A claim ends with all slots taken, or with every pollable bot held by some worker: no bot that is free is
-- passed over while there is a slot for it, whatever the order and the leases are.
pub claim_bot_leases-IsHeld :
    (worker : Text) (slots : ℕ) (pollable : List Text) (s : Store)
    → length (claim_bot_leases worker slots pollable s).1 < slots
    → All (IsHeld (claim_bot_leases worker slots pollable s).0.leases) pollable
unfolding claim_bot_leases
claim_bot_leases-IsHeld worker slots pollable s few =
    claim_loop-IsHeld (length pollable) worker slots pollable s [] (omega arith) few
