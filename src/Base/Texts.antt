-- ===== src/Base/Texts.antt =====
-- A JavaScript string is the list of its UTF-16 code units. `units` reads a literal whose characters
-- all lie below U+10000, so that each is one unit.
use Prim.Native.Nat.{ℕ}
use Prim.Native.Char.{code}
use Prim.Native.String.{String}
use mathlib.Core.Path.{◌≡◌, refl, sym, ap₂}
use mathlib.Core.List.{List, [], ◌∷◌}
use native.Mathlib.Decide.{ℕ_discrete}

abbrev pub Text : Type 0
Text = List ℕ

abbrev pub units : String → Text
units String.[] = []
units (String.◌∷◌ c s) = code c ∷ units s

pub nil_ne_cons : {x : ℕ} {xs : Text} → ¬ ([] ≡ x ∷ xs)
nil_ne_cons e = cc

pub unequal_heads : {x y : ℕ} {xs ys : Text} → ¬ (x ≡ y) → ¬ (x ∷ xs ≡ y ∷ ys)
unequal_heads h e = h (cc)

pub unequal_tails : {x y : ℕ} {xs ys : Text} → ¬ (xs ≡ ys) → ¬ (x ∷ xs ≡ y ∷ ys)
unequal_tails h e = h (cc)

unfoldable pub text_discrete : Discrete Text
unfolding ℕ_discrete
text_discrete [] [] = yes refl
text_discrete [] (y ∷ ys) = no nil_ne_cons
text_discrete (x ∷ xs) [] = no (λ e. nil_ne_cons (sym e))
text_discrete (x ∷ xs) (y ∷ ys) = elim (ℕ_discrete x y) [
  | yes p ↦ elim (text_discrete xs ys) [ yes q ↦ yes (ap₂ ◌∷◌ p q) | no q ↦ no (unequal_tails q) ]
  | no p ↦ no (unequal_heads p)
]
