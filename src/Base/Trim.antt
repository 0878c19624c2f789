-- ===== src/Base/Trim.antt =====
-- Operations of the JavaScript strings: `trim` and `===`.
use Prim.Native.Nat.{ℕ}
use mathlib.Core.Path.{◌≡◌, refl, sym, ap, ◌∙◌}
use native.Mathlib.Omega.{arith}
use mathlib.Core.Bool.{Bool, true, false, ◌&&◌, ◌||◌}
use mathlib.Core.List.{[], ◌∷◌}
use we_chat_ai.Base.Tests.{leb, ◌==◌, if◌then◌else◌}
use we_chat_ai.Base.Texts.{Text}

-- the white space and line terminators that `String.prototype.trim` removes
unfoldable pub is_space : ℕ → Bool
is_space c =
    (leb 9 c && leb c 13)
    || (c == 32)
    || (c == 160)
    || (c == 5760)
    || (leb 8192 c && leb c 8202)
    || (c == 8232)
    || (c == 8233)
    || (c == 8239)
    || (c == 8287)
    || (c == 12288)
    || (c == 65279)

-- a unit in front of a text that has no space at its end
abbrev pub drop_space : ℕ → Text → Text
drop_space c [] = if is_space c then [] else c ∷ []
drop_space c (d ∷ rest) = c ∷ d ∷ rest

unfoldable pub trim_end : Text → Text
trim_end [] = []
trim_end (c ∷ text) = drop_space c (trim_end text)

unfoldable pub trim_start : Text → Text
trim_start [] = []
trim_start (c ∷ text) = let rest = trim_start text in if is_space c then rest else c ∷ text

abbrev pub trim : Text → Text
trim text = trim_end (trim_start text)

-- `===` on strings
unfoldable pub same : Text → Text → Bool
same [] [] = true
same [] (c ∷ text) = false
same (p ∷ ps) [] = false
same (p ∷ ps) (c ∷ text) = (p == c) && same ps text

pub true_ne_false : ¬ (true ≡ false)
true_ne_false e = cc

pub same_sound : (a b : Text) → same a b ≡ true → a ≡ b
unfolding same
same_sound [] [] h = refl
same_sound [] (y ∷ b) h = absurd (true_ne_false (sym h))
same_sound (x ∷ a) [] h = absurd (true_ne_false (sym h))
same_sound (x ∷ a) (y ∷ b) h = ground (arith, same_sound a b)

pub same_refl : (a : Text) → same a a ≡ true
unfolding same
same_refl [] = refl
same_refl (x ∷ a) = ground (arith, same_refl a)

abbrev IsFlush : Text → Type 0
IsFlush [] = Unit
IsFlush (c ∷ text) = is_space c ≡ false

trim_start-IsFlush : (text : Text) → IsFlush (trim_start text)
unfolding trim_start
trim_start-IsFlush [] = tt
trim_start-IsFlush (c ∷ text) = choose (is_space c) refl (trim_start-IsFlush text)
  where
    choose :
        (b : Bool)
        → is_space c ≡ b
        → IsFlush (trim_start text)
        → IsFlush (if b then trim_start text else c ∷ text)
    choose true e h = h
    choose false e h = e

trim_start-fixed : (text : Text) → IsFlush text → trim_start text ≡ text
unfolding trim_start
trim_start-fixed [] h = refl
trim_start-fixed (c ∷ text) h = ground (arith, h)

drop_space-IsFlush : (c : ℕ) (text : Text) → is_space c ≡ false → IsFlush (drop_space c text)
drop_space-IsFlush c [] h = rw h h
drop_space-IsFlush c (d ∷ text) h = h

trim_end-IsFlush : (text : Text) → IsFlush text → IsFlush (trim_end text)
unfolding trim_end
trim_end-IsFlush [] h = tt
trim_end-IsFlush (c ∷ text) h = drop_space-IsFlush c (trim_end text) h

trim_end-drop_space :
    (c : ℕ) (text : Text) → trim_end text ≡ text → trim_end (drop_space c text) ≡ drop_space c text
unfolding trim_end
trim_end-drop_space c [] h = ground arith
trim_end-drop_space c (d ∷ text) h = ap (drop_space c) h

trim_end-trim_end : (text : Text) → trim_end (trim_end text) ≡ trim_end text
unfolding trim_end
trim_end-trim_end [] = refl
trim_end-trim_end (c ∷ text) = trim_end-drop_space c (trim_end text) (trim_end-trim_end text)

-- Trimming twice is trimming once.
pub trim-trim : (text : Text) → trim (trim text) ≡ trim text
trim-trim text =
    ap trim_end
      (trim_start-fixed (trim text) (trim_end-IsFlush (trim_start text) (trim_start-IsFlush text)))
    ∙ trim_end-trim_end (trim_start text)
