-- ===== src/RateLimit/Prune.antt =====
-- Pruning: what is left of an ascending list of times is what is live.
use we_chat_ai.Base.{
  ℕ, ◌+◌, ◌≤◌, ◌<◌, ◌≡◌, List, [], ◌∷◌, ◌++◌, arith, length, All, All-append, ltb, if◌then◌else◌,
}
use we_chat_ai.RateLimit.{prune}

-- How many of the times lie within the window that ends at `now`.
unfoldable pub live : ℕ → ℕ → List ℕ → ℕ
live window now [] = 0
live window now (t ∷ list) =
    if ltb now (t + window) then live window now list + 1 else live window now list

abbrev pub Ascending : List ℕ → Type 0
Ascending [] = Unit
Ascending (t ∷ list) = All (λ u. t ≤ u) list × Ascending list

pub live-prune :
    (window now t : ℕ) (list : List ℕ)
    → now ≤ t
    → live window t (prune window now list) ≡ live window t list
unfolding live prune
live-prune window now t [] h = omega arith
live-prune window now t (u ∷ list) h = ground (arith, live-prune window now t list)

live-length :
    (window now u : ℕ) (list : List ℕ)
    → now < u + window
    → All (λ v. u ≤ v) list
    → live window now list ≡ length list
unfolding live
live-length window now u [] h a = omega arith
live-length window now u (v ∷ list) h (p, a) = ground (arith, live-length window now u list)

pub length-prune :
    (window now : ℕ) (list : List ℕ)
    → Ascending list
    → length (prune window now list) ≡ live window now list
unfolding live prune
length-prune window now [] a = omega arith
length-prune window now (u ∷ list) (p, a) =
    ground (arith, length-prune window now list, live-length window now u list)

pub live-append :
    (window t now : ℕ) (list : List ℕ)
    → live window t (list ++ now ∷ [])
      ≡ live window t list + (if ltb t (now + window) then 1 else 0)
unfolding live
live-append window t now [] = ground arith
live-append window t now (u ∷ list) = ground (arith, live-append window t now list)

pub prune-All :
    (P : ℕ → Type 0) (window now : ℕ) (list : List ℕ) → All P list → All P (prune window now list)
unfolding prune
prune-All P window now [] a = tt
prune-All P window now (u ∷ list) (p, a) = ground (arith, prune-All P window now list)

pub prune-Ascending :
    (window now : ℕ) (list : List ℕ) → Ascending list → Ascending (prune window now list)
unfolding prune
prune-Ascending window now [] a = tt
prune-Ascending window now (u ∷ list) (p, a) = ground (arith, prune-Ascending window now list)

pub append-Ascending :
    (now : ℕ) (list : List ℕ)
    → All (λ u. u ≤ now) list
    → Ascending list
    → Ascending (list ++ now ∷ [])
append-Ascending now [] a s = (tt, tt)
append-Ascending now (u ∷ list) (le, a) (p, s) =
    (All-append (λ v. u ≤ v) list (now ∷ []) p (le, tt), append-Ascending now list a s)

pub live_antitone :
    (window now t : ℕ) (list : List ℕ) → now ≤ t → live window t list ≤ live window now list
unfolding live
live_antitone window now t [] h = omega arith
live_antitone window now t (u ∷ list) h = ground (arith, live_antitone window now t list)

pub All-le_trans : (m n : ℕ) (list : List ℕ) → m ≤ n → All (λ u. u ≤ m) list → All (λ u. u ≤ n) list
All-le_trans m n [] h a = tt
All-le_trans m n (u ∷ list) h (p, a) = (omega arith, All-le_trans m n list h a)
