-- ===== src/Fleet/Plan/Sums.antt =====
-- Sums over lists that are sorted, filtered or split, and over the values of a map.
use we_chat_ai.Base.{
  ℕ, ◌+◌, ◌≤◌, ◌≡◌, ◌≢◌, refl, sym, Bool, some, List, [], ◌∷◌, arith, if◌then◌else◌, length,
  keep_if, not, Text, text_discrete, All,
}
use we_chat_ai.JsMap.{Map, get, set}
use we_chat_ai.Fleet.Shed.{sum_by}
use we_chat_ai.Fleet.Plan.{insert_by, sort_by, placed}

module _ {A : Type 0} where
  sum_by-insert_by :
      (f : A → ℕ) (before : A → A → Bool) (x : A) (xs : List A)
      → sum_by f (insert_by before x xs) ≡ f x + sum_by f xs
  unfolding insert_by
  sum_by-insert_by f before x [] = refl
  sum_by-insert_by f before x (y ∷ ys) = ground (arith, sum_by-insert_by f before x ys)

  pub sum_by-sort_by :
      (f : A → ℕ) (before : A → A → Bool) (xs : List A) → sum_by f (sort_by before xs) ≡ sum_by f xs
  unfolding sort_by
  sum_by-sort_by f before [] = refl
  sum_by-sort_by f before (x ∷ xs) =
      omega (arith, sum_by-insert_by f before x (sort_by before xs), sum_by-sort_by f before xs)

  insert_by-All :
      (P : A → Type 0) (before : A → A → Bool) (x : A) (xs : List A)
      → P x
      → All P xs
      → All P (insert_by before x xs)
  unfolding insert_by
  insert_by-All P before x [] p h = (p, tt)
  insert_by-All P before x (y ∷ ys) p (q, h) = ground (arith, insert_by-All P before x ys p h)

  pub sort_by-All :
      (P : A → Type 0) (before : A → A → Bool) (xs : List A) → All P xs → All P (sort_by before xs)
  unfolding sort_by
  sort_by-All P before [] h = tt
  sort_by-All P before (x ∷ xs) (p, h) =
      insert_by-All P before x (sort_by before xs) p (sort_by-All P before xs h)

  pub keep_if-All : (P : A → Type 0) (q : A → Bool) (xs : List A) → All P xs → All P (keep_if q xs)
  keep_if-All P q [] h = tt
  keep_if-All P q (x ∷ xs) (p, h) = ground (arith, keep_if-All P q xs h)

  pub sum_by-length : (xs : List A) → sum_by (λ x. 1) xs ≡ length xs
  sum_by-length [] = refl
  sum_by-length (x ∷ xs) = omega (arith, sum_by-length xs)

  -- A sum over the items that pass a test and over those that do not.
  pub sum_by-keep_if :
      (f : A → ℕ) (q : A → Bool) (xs : List A)
      → sum_by f (keep_if q xs) + sum_by f (keep_if (λ x. not (q x)) xs) ≡ sum_by f xs
  sum_by-keep_if f q [] = refl
  sum_by-keep_if f q (x ∷ xs) = ground (arith, sum_by-keep_if f q xs)

  pub sum_by-if :
      (f : A → ℕ) (q : A → Bool) (xs : List A)
      → sum_by (λ x. if q x then f x else 0) xs ≡ sum_by f (keep_if q xs)
  sum_by-if f q [] = refl
  sum_by-if f q (x ∷ xs) = ground (arith, sum_by-if f q xs)

  pub sum_by_congr :
      (f g : A → ℕ) (xs : List A) → All (λ x. f x ≡ g x) xs → sum_by f xs ≡ sum_by g xs
  sum_by_congr f g [] h = refl
  sum_by_congr f g (x ∷ xs) (p, h) = omega (arith, sum_by_congr f g xs h)

  pub sum_by_le : (f g : A → ℕ) (xs : List A) → All (λ x. f x ≤ g x) xs → sum_by f xs ≤ sum_by g xs
  sum_by_le f g [] h = omega arith
  sum_by_le f g (x ∷ xs) (p, h) = omega (arith, sum_by_le f g xs h)

  pub length-keep_if-le : (q : A → Bool) (xs : List A) → length (keep_if q xs) ≤ length xs
  length-keep_if-le q [] = omega arith
  length-keep_if-le q (x ∷ xs) = ground (arith, length-keep_if-le q xs)

  -- Keys that differ pairwise.
  module _ (key : A → Text) where
    abbrev pub Apart : List A → Type 0
    Apart [] = Unit
    Apart (x ∷ xs) = All (λ y. key x ≢ key y) xs × Apart xs

    insert_by-Apart :
        (before : A → A → Bool) (x : A) (xs : List A)
        → All (λ y. key x ≢ key y) xs
        → Apart xs
        → Apart (insert_by before x xs)
    unfolding insert_by
    insert_by-Apart before x [] h a = (tt, tt)
    insert_by-Apart before x (y ∷ ys) (p, h) (q, a) = ground (
      arith,
      insert_by-Apart before x ys h a,
      insert_by-All (λ z. key y ≢ key z) before x ys (λ e. p (sym e)) q,
    )

    pub sort_by-Apart : (before : A → A → Bool) (xs : List A) → Apart xs → Apart (sort_by before xs)
    unfolding sort_by
    sort_by-Apart before [] a = tt
    sort_by-Apart before (x ∷ xs) (h, a) =
        insert_by-Apart before x (sort_by before xs) (sort_by-All (λ y. key x ≢ key y) before xs h)
          (sort_by-Apart before xs a)

    pub keep_if-Apart : (q : A → Bool) (xs : List A) → Apart xs → Apart (keep_if q xs)
    keep_if-Apart q [] a = tt
    keep_if-Apart q (x ∷ xs) (h, a) =
        ground (arith, keep_if-Apart q xs a, keep_if-All (λ y. key x ≢ key y) q xs h)

-- Writing an entry changes the sum of the values by the difference.
pub placed-set :
    (key : Text) (old v : ℕ) (m : Map Text ℕ)
    → get text_discrete key m ≡ some old
    → placed (set text_discrete key v m) + old ≡ placed m + v
unfolding get set
placed-set key old v [] e = cc
placed-set key old v ((k, w) ∷ m) e = ground (arith, placed-set key old v m)
