-- ===== src/Bubbles/Marks.antt =====
-- What becomes of the marks between clauses where a long part is cut up at them.
use mathlib.Core.List.{append_assoc}
use we_chat_ai.Base.{
  ℕ, ◌*◌, ◌<◌, ◌≡◌, refl, sym, ap, ◌∙◌, Bool, true, false, ◌&&◌, List, [], ◌∷◌, ◌++◌, Text, inl,
  inr, Bool-cases, trim, trim_start, trim_end, drop_space, is_space, any_of, length, leb, ltb,
  prepend, if_cases, arith, All,
}
use we_chat_ai.Bubbles.Split.{
  is_filled, trimmed, concat, is_clause_end, clauses, rebuild, flat_map, slice_if_long,
  split_clauses, split_long_part,
}
use we_chat_ai.Bubbles.Letters.{concat-rebuild, concat-one, concat-hard_slice}

abbrev pub HasNoMark : Text → Type 0
HasNoMark text = any_of is_clause_end text ≡ false

append-HasNoMark : (a b : Text) → HasNoMark a → HasNoMark b → HasNoMark (a ++ b)
append-HasNoMark [] b h k = k
append-HasNoMark (c ∷ a) b h k = ground (arith, h, append-HasNoMark a b (ground (arith, h)) k)

trim_start-HasNoMark : (a : Text) → HasNoMark a → HasNoMark (trim_start a)
unfolding trim_start
trim_start-HasNoMark [] h = refl
trim_start-HasNoMark (c ∷ a) h = ground (arith, h, trim_start-HasNoMark a)

trim_end-HasNoMark : (a : Text) → HasNoMark a → HasNoMark (trim_end a)
unfolding trim_end
trim_end-HasNoMark [] h = refl
trim_end-HasNoMark (c ∷ a) h =
    front c (trim_end a) (ground (arith, h)) (trim_end-HasNoMark a (ground (arith, h)))
  where
    front : (c : ℕ) (t : Text) → is_clause_end c ≡ false → HasNoMark t → HasNoMark (drop_space c t)
    front c [] e k = ground (arith, e)
    front c (d ∷ t) e k = ground (arith, e, k)

trimmed-HasNoMark : (parts : List Text) → All HasNoMark parts → All HasNoMark (trimmed parts)
trimmed-HasNoMark [] h = tt
trimmed-HasNoMark (part ∷ parts) (h, k) =
    if_cases (All HasNoMark) (is_filled (trim part))
      (λ e. (
        trim_end-HasNoMark (trim_start part) (trim_start-HasNoMark part h),
        trimmed-HasNoMark parts k,
      ))
      (λ e. trimmed-HasNoMark parts k)

prepend-HasNoMark :
    (c : ℕ) (parts : List Text)
    → is_clause_end c ≡ false
    → All HasNoMark parts
    → All HasNoMark (prepend c parts)
prepend-HasNoMark c [] e h = (ground (arith, e), tt)
prepend-HasNoMark c (part ∷ parts) e (h, k) = (ground (arith, e, h), k)

clauses-HasNoMark : (matching : Bool) (text : Text) → All HasNoMark (clauses matching text)
unfolding clauses
clauses-HasNoMark matching [] = (refl, tt)
clauses-HasNoMark matching (c ∷ text) = elim (Bool-cases (is_clause_end c)) [
  | inl e ↦ rw (e, All) (refl, clauses-HasNoMark true text)
  | inr e ↦ elim (Bool-cases (matching && is_space c)) [
    | inl m ↦ rw (e, m, All) (clauses-HasNoMark true text)
    | inr m ↦
        rw (e, m, All) (prepend-HasNoMark c (clauses false text) e (clauses-HasNoMark false text))
  ]
]

concat-HasNoMark : (parts : List Text) → All HasNoMark parts → HasNoMark (concat parts)
unfolding concat
concat-HasNoMark [] h = refl
concat-HasNoMark (part ∷ parts) (h, k) =
    append-HasNoMark part (concat parts) h (concat-HasNoMark parts k)

concat-append : (xs ys : List Text) → concat (xs ++ ys) ≡ concat xs ++ concat ys
unfolding concat
concat-append [] ys = refl
concat-append (x ∷ xs) ys =
    ap (λ rest. x ++ rest) (concat-append xs ys) ∙ sym (append_assoc x (concat xs) (concat ys))

module _ (size : ℕ) (pos : 0 < size) where
  concat-slice_if_long : (part : Text) → concat (slice_if_long size part) ≡ part
  concat-slice_if_long part =
      if_cases (λ (ps : List Text). concat ps ≡ part) (ltb (size * 3) (length part * 2))
        (λ e. concat-hard_slice size pos part) (λ e. concat-one part)

  concat-sliced : (parts : List Text) → concat (flat_map (slice_if_long size) parts) ≡ concat parts
  unfolding concat
  concat-sliced [] = refl
  concat-sliced (part ∷ parts) =
      concat-append (slice_if_long size part) (flat_map (slice_if_long size) parts)
      ∙ ap (λ front. front ++ concat (flat_map (slice_if_long size) parts))
          (concat-slice_if_long part)
      ∙ ap (λ rest. part ++ rest) (concat-sliced parts)

  concat-split_clauses :
      (part : Text) (cs : List Text)
      → 1 < length cs
      → concat (split_clauses size part cs) ≡ concat cs
  concat-split_clauses part [] more = absurd (omega (arith, more))
  concat-split_clauses part (a ∷ []) more = absurd (omega (arith, more))
  concat-split_clauses part (a ∷ b ∷ cs) more =
      concat-sliced (rebuild size [] (a ∷ b ∷ cs)) ∙ concat-rebuild size [] (a ∷ b ∷ cs)

-- A part that is longer than a bubble and has two clauses or more loses all the marks between its clauses:
-- they are not in any bubble.
pub split_long_part-HasNoMark :
    (size : ℕ) (part : Text)
    → 0 < size
    → size < length part
    → 1 < length (trimmed (clauses false part))
    → HasNoMark (concat (split_long_part size part))
split_long_part-HasNoMark size part pos long several =
    if_cases (λ (ps : List Text). HasNoMark (concat ps)) (leb (length part) size)
      (λ e. absurd (ground (arith, e, long)))
      (λ e.
        ap (any_of is_clause_end)
          (concat-split_clauses size pos part (trimmed (clauses false part)) several)
        ∙ concat-HasNoMark (trimmed (clauses false part))
            (trimmed-HasNoMark (clauses false part) (clauses-HasNoMark false part)))
