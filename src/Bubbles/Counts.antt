-- ===== src/Bubbles/Counts.antt =====
-- How many bubbles a reply has, and what each of them is like.
use we_chat_ai.Base.{
  ℕ, zero, suc, ◌≤◌, ◌<◌, ◌≡◌, refl, true, not, ◌&&◌, List, [], ◌∷◌, Text, trim, take, drop, length,
  length-append, leb, ltb, includes, if_cases, arith, All, trim-trim,
}
use we_chat_ai.Bubbles.Split.{
  SplitReplyOptions, or_default, is_filled, trimmed, unix_lines, concat, cap, split_normalized,
  split_reply_into_bubbles,
}

-- A bubble is not empty, and has no white space around it.
abbrev pub IsBubble : Text → Type 0
IsBubble text = (is_filled text ≡ true) × (trim text ≡ text)

trimmed-IsBubble : (parts : List Text) → All IsBubble (trimmed parts)
trimmed-IsBubble [] = tt
trimmed-IsBubble (part ∷ parts) =
    if_cases (All IsBubble) (is_filled (trim part))
      (λ e. ((e, trim-trim part), trimmed-IsBubble parts)) (λ e. trimmed-IsBubble parts)

length-trimmed-le : (parts : List Text) → length (trimmed parts) ≤ length parts
length-trimmed-le [] = omega arith
length-trimmed-le (part ∷ parts) =
    if_cases (λ (ps : List Text). length ps ≤ suc (length parts)) (is_filled (trim part))
      (λ e. omega (arith, length-trimmed-le parts)) (λ e. omega (arith, length-trimmed-le parts))

length-take-le : (n : ℕ) (parts : List Text) → length (take n parts) ≤ n
length-take-le zero parts = omega arith
length-take-le (suc n) [] = omega arith
length-take-le (suc n) (part ∷ parts) = omega (arith, length-take-le n parts)

length-cap-le : (n : ℕ) (parts : List Text) → 0 < n → length (cap n parts) ≤ n
length-cap-le zero parts pos = absurd (omega (arith, pos))
length-cap-le (suc n) parts pos =
    if_cases (λ (ps : List Text). length ps ≤ suc n) (ltb (suc n) (length parts))
      (λ e.
        omega (
          arith,
          length-append (take n parts) (concat (drop n parts) ∷ []),
          length-take-le n parts,
        ))
      (λ e. ground (arith, e))

-- What is asked of the bubbles of a text.
abbrev AreBubbles : ℕ → List Text → Type 0
AreBubbles n parts = All IsBubble parts × (length parts ≤ n)

split_normalized-AreBubbles :
    (o : SplitReplyOptions) (text : Text)
    → trim text ≡ text
    → 0 < or_default o.max_chunks 5
    → AreBubbles (or_default o.max_chunks 5) (split_normalized o text)
split_normalized-AreBubbles o [] e pos = (tt, omega arith)
split_normalized-AreBubbles o (c ∷ text) e pos =
    if_cases (AreBubbles (or_default o.max_chunks 5))
      (leb (length (c ∷ text)) (or_default o.max_chunk_chars 80) && not (includes 10 (c ∷ text)))
      {x = (c ∷ text) ∷ []} (λ h. (((refl, e), tt), omega (arith, pos)))
      (λ h. (trimmed-IsBubble _, few _))
  where
    few :
        (parts : List Text)
        → length (trimmed (cap (or_default o.max_chunks 5) parts)) ≤ or_default o.max_chunks 5
    few parts = omega (
      arith,
      length-trimmed-le (cap (or_default o.max_chunks 5) parts),
      length-cap-le (or_default o.max_chunks 5) parts pos,
    )

-- Where one bubble at least is allowed and a bubble may hold a unit at least, so that the slicing ends, a
-- reply has no more bubbles than are allowed, and none of them is empty or has white space around it.
pub split_reply_into_bubbles-IsBubble :
    (o : SplitReplyOptions) (text : Text)
    → 0 < or_default o.max_chunk_chars 80
    → 0 < or_default o.max_chunks 5
    → All IsBubble (split_reply_into_bubbles o text)
      × (length (split_reply_into_bubbles o text) ≤ or_default o.max_chunks 5)
unfolding split_reply_into_bubbles
split_reply_into_bubbles-IsBubble o text ends pos =
    split_normalized-AreBubbles o (trim (unix_lines text)) (trim-trim (unix_lines text)) pos
