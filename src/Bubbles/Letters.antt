-- ===== src/Bubbles/Letters.antt =====
-- What the split of a reply keeps: every unit but white space and the marks between clauses, in order.
use mathlib.Core.List.{append_assoc}
use we_chat_ai.Base.{
  ℕ, zero, suc, ◌*◌, ◌≤◌, ◌<◌, ◌≡◌, refl, sym, ap, ◌∙◌, inl, inr, Bool, true, false, not, ◌&&◌,
  List, [], ◌∷◌, ◌++◌, Text, trim, trim_start, trim_end, drop_space, is_space, keep_if, take, drop,
  length, split, prepend, arith, includes, leb, ltb, if◌then◌else◌, if_cases, Bool-cases,
}
use we_chat_ai.Bubbles.Split.{
  SplitReplyOptions, is_filled, trimmed, unix_lines, Place, sentences, match_ends, next_place,
  cut_if, outside, or_whole, is_clause_end, clauses, slices, hard_slice, rebuild, flat_map,
  slice_if_long, split_clauses, split_long_part, merge_into, merge_tiny, concat, cap, first_parts,
  split_normalized, split_reply_into_bubbles, or_default,
}

abbrev pub is_letter : ℕ → Bool
is_letter c = not (is_space c) && not (is_clause_end c)

abbrev pub letters : Text → Text
letters text = keep_if is_letter text

letters-append : (a b : Text) → letters (a ++ b) ≡ letters a ++ letters b
letters-append [] b = refl
letters-append (c ∷ a) b = ground (arith, letters-append a b)

letters-trim_start : (a : Text) → letters (trim_start a) ≡ letters a
unfolding trim_start
letters-trim_start [] = refl
letters-trim_start (c ∷ a) = ground (arith, letters-trim_start a)

letters-drop_space : (c : ℕ) (a : Text) → letters (drop_space c a) ≡ letters (c ∷ a)
letters-drop_space c [] = ground arith
letters-drop_space c (d ∷ a) = refl

letters-trim_end : (a : Text) → letters (trim_end a) ≡ letters a
unfolding trim_end
letters-trim_end [] = refl
letters-trim_end (c ∷ a) = letters-drop_space c (trim_end a) ∙ ground (arith, letters-trim_end a)

letters-trim : (a : Text) → letters (trim a) ≡ letters a
letters-trim a = letters-trim_end (trim_start a) ∙ letters-trim_start a

letters-unix_lines : (a : Text) → letters (unix_lines a) ≡ letters a
unfolding unix_lines is_space
letters-unix_lines [] = refl
letters-unix_lines (c ∷ []) = refl
letters-unix_lines (c ∷ d ∷ a) = ground (arith, letters-unix_lines (d ∷ a))

-- The letters of all parts.
abbrev pub all_letters : List Text → Text
all_letters parts = letters (concat parts)

all_letters-cons :
    (part : Text) (parts : List Text)
    → all_letters (part ∷ parts) ≡ letters part ++ all_letters parts
unfolding concat
all_letters-cons part parts = letters-append part (concat parts)

all_letters-trimmed : (parts : List Text) → all_letters (trimmed parts) ≡ all_letters parts
unfolding concat
all_letters-trimmed [] = refl
all_letters-trimmed (part ∷ parts) =
    filled (trim part)
    ∙ ap (λ front. front ++ all_letters (trimmed parts)) (letters-trim part)
    ∙ ap (λ back. letters part ++ back) (all_letters-trimmed parts)
    ∙ sym (all_letters-cons part parts)
  where
    filled :
        (t : Text)
        → all_letters (if is_filled t then t ∷ trimmed parts else trimmed parts)
          ≡ letters t ++ all_letters (trimmed parts)
    filled [] = refl
    filled (c ∷ t) = all_letters-cons (c ∷ t) (trimmed parts)

concat-prepend : (c : ℕ) (parts : List Text) → concat (prepend c parts) ≡ c ∷ concat parts
unfolding concat
concat-prepend c [] = refl
concat-prepend c (part ∷ parts) = refl

all_letters-split : (text : Text) → all_letters (split 10 text) ≡ letters text
unfolding split concat is_space
all_letters-split [] = refl
all_letters-split (c ∷ text) =
    ground (arith, all_letters-split text, concat-prepend c (split 10 text))

concat-sentences : (place : Place) (text : Text) → concat (sentences place text) ≡ text
unfolding sentences concat
concat-sentences place [] = refl
concat-sentences place (c ∷ text) =
    uncut (match_ends place c) (prepend c (sentences (next_place place c) text))
    ∙ concat-prepend c (sentences (next_place place c) text)
    ∙ ap (λ t. c ∷ t) (concat-sentences (next_place place c) text)
  where
    uncut : (b : Bool) (parts : List Text) → concat (cut_if b parts) ≡ concat parts
    uncut true parts = refl
    uncut false parts = refl

all_letters-clauses :
    (matching : Bool) (text : Text) → all_letters (clauses matching text) ≡ letters text
unfolding clauses concat
all_letters-clauses matching [] = refl
all_letters-clauses matching (c ∷ text) = ground (
  arith,
  all_letters-clauses true text,
  all_letters-clauses false text,
  concat-prepend c (clauses false text),
)

take-drop : (n : ℕ) (t : Text) → take n t ++ drop n t ≡ t
take-drop zero t = refl
take-drop (suc n) [] = refl
take-drop (suc n) (c ∷ t) = ap (λ u. c ∷ u) (take-drop n t)

length-drop-le : (n : ℕ) (t : Text) → length (drop n t) ≤ length t
length-drop-le zero t = omega arith
length-drop-le (suc n) [] = omega arith
length-drop-le (suc n) (c ∷ t) = omega (arith, length-drop-le n t)

concat-slices :
    (fuel size : ℕ) (text : Text)
    → 0 < size
    → length text ≤ fuel
    → concat (slices fuel size text) ≡ text
unfolding slices concat
concat-slices fuel size [] pos enough = refl
concat-slices zero size (c ∷ text) pos enough = absurd (omega (arith, enough))
concat-slices (suc fuel) size (c ∷ text) pos enough =
    ap (λ rest. take size (c ∷ text) ++ rest)
      (concat-slices fuel size (drop size (c ∷ text)) pos (shorter size text pos enough))
    ∙ take-drop size (c ∷ text)
  where
    shorter :
        (n : ℕ) (t : Text) → 0 < n → suc (length t) ≤ suc fuel → length (drop n (c ∷ t)) ≤ fuel
    shorter zero t p e = absurd (omega (arith, p))
    shorter (suc n) t p e = omega (arith, length-drop-le n t, e)

all_letters-append : (xs ys : List Text) → all_letters (xs ++ ys) ≡ all_letters xs ++ all_letters ys
unfolding concat
all_letters-append [] ys = refl
all_letters-append (part ∷ xs) ys =
    all_letters-cons part (xs ++ ys)
    ∙ ap (λ back. letters part ++ back) (all_letters-append xs ys)
    ∙ sym (append_assoc (letters part) (all_letters xs) (all_letters ys))
    ∙ ap (λ front. front ++ all_letters ys) (sym (all_letters-cons part xs))

all_letters-flat_map :
    (f : Text → List Text)
    → ((part : Text) → all_letters (f part) ≡ letters part)
    → (parts : List Text) → all_letters (flat_map f parts) ≡ all_letters parts
unfolding concat
all_letters-flat_map f h [] = refl
all_letters-flat_map f h (part ∷ parts) =
    all_letters-append (f part) (flat_map f parts)
    ∙ ap (λ front. front ++ all_letters (flat_map f parts)) (h part)
    ∙ ap (λ back. letters part ++ back) (all_letters-flat_map f h parts)
    ∙ sym (all_letters-cons part parts)

pub concat-rebuild :
    (size : ℕ) (buf : Text) (cs : List Text) → concat (rebuild size buf cs) ≡ buf ++ concat cs
unfolding rebuild concat
concat-rebuild size [] [] = refl
concat-rebuild size (b ∷ buf) [] = refl
concat-rebuild size buf (c ∷ cs) =
    elim (Bool-cases (ltb size (length (buf ++ c)) && is_filled buf)) [
      | inl e ↦ rw (e, concat) (ap (λ rest. buf ++ rest) (concat-rebuild size c cs))
      | inr e ↦ rw (e, concat) (concat-rebuild size (buf ++ c) cs ∙ append_assoc buf c (concat cs))
    ]

concat-merge_into :
    (least : ℕ) (last : Text) (parts : List Text)
    → concat (merge_into least last parts) ≡ last ++ concat parts
unfolding merge_into concat
concat-merge_into least last [] = refl
concat-merge_into least last (part ∷ parts) = elim (Bool-cases (ltb (length part) least)) [
  | inl e ↦
      rw (e, concat)
        (concat-merge_into least (last ++ part) parts ∙ append_assoc last part (concat parts))
  | inr e ↦ rw (e, concat) (ap (λ rest. last ++ rest) (concat-merge_into least part parts))
]

concat-merge_tiny : (least : ℕ) (parts : List Text) → concat (merge_tiny least parts) ≡ concat parts
unfolding concat
concat-merge_tiny least [] = refl
concat-merge_tiny least (part ∷ parts) = concat-merge_into least part parts

append-nil : (t : Text) → t ++ [] ≡ t
append-nil [] = refl
append-nil (c ∷ t) = ap (λ u. c ∷ u) (append-nil t)

pub concat-one : (part : Text) → concat (part ∷ []) ≡ part
unfolding concat
concat-one part = append-nil part

concat-take-drop :
    (n : ℕ) (parts : List Text)
    → concat (take n parts ++ (concat (drop n parts) ∷ [])) ≡ concat parts
unfolding concat
concat-take-drop zero parts = append-nil (concat parts)
concat-take-drop (suc n) [] = refl
concat-take-drop (suc n) (part ∷ parts) = ap (λ rest. part ++ rest) (concat-take-drop n parts)

concat-cap : (n : ℕ) (parts : List Text) → concat (cap n parts) ≡ concat parts
concat-cap zero parts = refl
concat-cap (suc n) parts =
    if_cases (λ (ps : List Text). concat ps ≡ concat parts) (ltb (suc n) (length parts))
      (λ e. concat-take-drop n parts) (λ e. refl)

module _ (size : ℕ) (pos : 0 < size) where
  pub concat-hard_slice : (part : Text) → concat (hard_slice part size) ≡ part
  concat-hard_slice part = concat-slices (length part) size part pos (omega arith)

  all_letters-slice_if_long : (part : Text) → all_letters (slice_if_long size part) ≡ letters part
  all_letters-slice_if_long part =
      if_cases (λ (ps : List Text). all_letters ps ≡ letters part)
        (ltb (size * 3) (length part * 2)) (λ e. ap letters (concat-hard_slice part))
        (λ e. ap letters (concat-one part))

  all_letters-split_clauses :
      (part : Text) (cs : List Text)
      → all_letters cs ≡ letters part
      → all_letters (split_clauses size part cs) ≡ letters part
  all_letters-split_clauses part [] h = ap letters (concat-hard_slice part)
  all_letters-split_clauses part (a ∷ []) h = ap letters (concat-hard_slice part)
  all_letters-split_clauses part (a ∷ b ∷ cs) h =
      all_letters-flat_map (slice_if_long size) all_letters-slice_if_long
        (rebuild size [] (a ∷ b ∷ cs))
      ∙ ap letters (concat-rebuild size [] (a ∷ b ∷ cs))
      ∙ h

  all_letters-split_long_part :
      (part : Text) → all_letters (split_long_part size part) ≡ letters part
  all_letters-split_long_part part =
      if_cases (λ (ps : List Text). all_letters ps ≡ letters part) (leb (length part) size)
        (λ e. ap letters (concat-one part))
        (λ e.
          all_letters-split_clauses part (trimmed (clauses false part))
            (all_letters-trimmed (clauses false part) ∙ all_letters-clauses false part))

all_letters-or_whole :
    (text : Text) (parts : List Text)
    → all_letters parts ≡ letters text
    → all_letters (or_whole text parts) ≡ letters text
all_letters-or_whole text [] h = ap letters (concat-one text)
all_letters-or_whole text (part ∷ parts) h = h

all_letters-first_parts : (text : Text) → all_letters (first_parts text) ≡ letters text
all_letters-first_parts text =
    if_cases (λ (ps : List Text). all_letters ps ≡ letters text) (includes 10 text)
      (λ e. all_letters-trimmed (split 10 text) ∙ all_letters-split text)
      (λ e.
        all_letters-or_whole text (trimmed (sentences outside text)) (
          all_letters-trimmed (sentences outside text)
          ∙ ap letters (concat-sentences outside text)))

all_letters-split_normalized :
    (o : SplitReplyOptions) (text : Text)
    → 0 < or_default o.max_chunk_chars 80
    → all_letters (split_normalized o text) ≡ letters text
unfolding concat
all_letters-split_normalized o [] pos = refl
all_letters-split_normalized o (c ∷ text) pos =
    if_cases (λ (ps : List Text). all_letters ps ≡ letters (c ∷ text))
      (leb (length (c ∷ text)) (or_default o.max_chunk_chars 80) && not (includes 10 (c ∷ text)))
      (λ e. ap letters (concat-one (c ∷ text)))
      (λ e.
        all_letters-trimmed _
        ∙ ap letters (
            concat-cap (or_default o.max_chunks 5) _
            ∙ concat-merge_tiny (or_default o.min_chunk_chars 8) _)
        ∙ all_letters-flat_map (split_long_part size) (all_letters-split_long_part size pos)
            (first_parts (c ∷ text))
        ∙ all_letters-first_parts (c ∷ text))
  where
    size : ℕ
    size = or_default o.max_chunk_chars 80

-- Where a bubble may hold a unit at least, the bubbles of a reply hold its units in their order, none left
-- out and none added, but for white space and the marks between clauses.
pub split_reply_into_bubbles-keeps_letters :
    (o : SplitReplyOptions) (text : Text)
    → 0 < or_default o.max_chunk_chars 80
    → letters (concat (split_reply_into_bubbles o text)) ≡ letters text
unfolding split_reply_into_bubbles
split_reply_into_bubbles-keeps_letters o text pos =
    all_letters-split_normalized o (trim (unix_lines text)) pos
    ∙ letters-trim (unix_lines text)
    ∙ letters-unix_lines text
