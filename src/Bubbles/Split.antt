-- ===== src/Bubbles/Split.antt =====
-- packages/core/src/split-reply.ts: `splitReplyIntoBubbles` with its helpers. A part is cut up by scans in
-- place of the regular expressions, whose classes of units are disjoint.
use we_chat_ai.Base.{
  ℕ, zero, suc, ◌*◌, Bool, true, false, not, ◌&&◌, ◌||◌, Option, none, some, List, [], ◌∷◌, ◌++◌,
  map, Text, units, trim, is_space, keep_if, take, drop, length, split, prepend, includes, leb, ltb,
  ◌==◌, if◌then◌else◌,
}

pub record SplitReplyOptions : Type 0 where
  pub max_chunks : Option ℕ
  pub min_chunk_chars : Option ℕ
  pub max_chunk_chars : Option ℕ

abbrev pub or_default : Option ℕ → ℕ → ℕ
or_default none n = n
or_default (some n) default = n

abbrev pub is_filled : Text → Bool
is_filled [] = false
is_filled (c ∷ text) = true

-- `.map((p) => p.trim()).filter(Boolean)`
abbrev pub trimmed : List Text → List Text
trimmed parts = keep_if is_filled (map (λ part. trim part) parts)

-- `text.replace(/\r\n/g, "\n")`
unfoldable pub unix_lines : Text → Text
unix_lines [] = []
unix_lines (c ∷ []) = c ∷ []
unix_lines (c ∷ d ∷ text) =
    let rest = unix_lines (d ∷ text) in if c == 13 && d == 10 then rest else c ∷ rest

abbrev pub is_sentence_end : ℕ → Bool
is_sentence_end c = includes c (units "。！？!?…～~")

abbrev pub is_closing : ℕ → Bool
is_closing c = includes c (units "\"'」』）)]")

-- where a scan stands in a match of SENTENCE_END
pub data Place : Type 0 where
  outside : Place
  at_ends : Place
  at_closings : Place
  at_spaces : Place

-- whether a unit that is no sentence end goes on with the match
abbrev pub goes_on : Place → ℕ → Bool
goes_on outside c = true
goes_on at_ends c = is_closing c || is_space c
goes_on at_closings c = is_closing c || is_space c
goes_on at_spaces c = is_space c

-- whether a match ends in front of a unit
abbrev pub match_ends : Place → ℕ → Bool
match_ends outside c = false
match_ends at_ends c = not (is_sentence_end c) && not (goes_on at_ends c)
match_ends at_closings c = is_sentence_end c || not (goes_on at_closings c)
match_ends at_spaces c = is_sentence_end c || not (goes_on at_spaces c)

abbrev pub next_place : Place → ℕ → Place
next_place place c = if is_sentence_end c then at_ends else later place c
  where
    within : Place → ℕ → Place
    within last c = if is_space c then at_spaces else last

    later : Place → ℕ → Place
    later outside c = outside
    later at_ends c = if goes_on at_ends c then within at_closings c else outside
    later at_closings c = if goes_on at_closings c then within at_closings c else outside
    later at_spaces c = if is_space c then at_spaces else outside

abbrev pub cut_if : Bool → List Text → List Text
cut_if false parts = parts
cut_if true parts = [] ∷ parts

-- the parts of a text, each with the end of its sentence
unfoldable pub sentences : Place → Text → List Text
sentences place [] = [] ∷ []
sentences place (c ∷ text) =
    cut_if (match_ends place c) (prepend c (sentences (next_place place c) text))

abbrev pub or_whole : Text → List Text → List Text
or_whole text [] = text ∷ []
or_whole text (part ∷ parts) = part ∷ parts

abbrev pub split_by_regex : Text → List Text
split_by_regex text = or_whole text (trimmed (sentences outside text))

abbrev pub is_clause_end : ℕ → Bool
is_clause_end c = includes c (units "；;，,")

-- `part.split(CLAUSE_END)`, by whether the scan stands in a match
unfoldable pub clauses : Bool → Text → List Text
clauses matching [] = [] ∷ []
clauses matching (c ∷ text) = elim (is_clause_end c) [
  | true ↦ [] ∷ clauses true text
  | false ↦ elim (matching && is_space c) [
    | true ↦ clauses true text
    | false ↦ prepend c (clauses false text)
  ]
]

-- `for (let i = 0; i < text.length; i += size)`: each step takes at least one unit where the size is not 0
unfoldable pub slices : ℕ → ℕ → Text → List Text
slices fuel size [] = []
slices zero size (c ∷ text) = []
slices (suc fuel) size (c ∷ text) = take size (c ∷ text) ∷ slices fuel size (drop size (c ∷ text))

abbrev pub hard_slice : Text → ℕ → List Text
hard_slice text size = slices (length text) size text

-- the clauses, put together again up to the length
unfoldable pub rebuild : ℕ → Text → List Text → List Text
rebuild size buf [] = if is_filled buf then buf ∷ [] else []
rebuild size buf (c ∷ cs) = elim (ltb size (length (buf ++ c)) && is_filled buf) [
  | true ↦ buf ∷ rebuild size c cs
  | false ↦ rebuild size (buf ++ c) cs
]

abbrev pub flat_map : (Text → List Text) → List Text → List Text
flat_map f [] = []
flat_map f (part ∷ parts) = f part ++ flat_map f parts

-- `p.length > maxChunkChars * 1.5`
abbrev pub slice_if_long : ℕ → Text → List Text
slice_if_long size part =
    if ltb (size * 3) (length part * 2) then hard_slice part size else part ∷ []

abbrev pub split_clauses : ℕ → Text → List Text → List Text
split_clauses size part (a ∷ b ∷ cs) = flat_map (slice_if_long size) (rebuild size [] (a ∷ b ∷ cs))
split_clauses size part [] = hard_slice part size
split_clauses size part (a ∷ []) = hard_slice part size

abbrev pub split_long_part : ℕ → Text → List Text
split_long_part size part =
    if leb (length part) size
    then part ∷ []
    else split_clauses size part (trimmed (clauses false part))

-- the loop of mergeTiny, with the last part of `out`
unfoldable pub merge_into : ℕ → Text → List Text → List Text
merge_into least last [] = last ∷ []
merge_into least last (part ∷ parts) = elim (ltb (length part) least) [
  | true ↦ merge_into least (last ++ part) parts
  | false ↦ last ∷ merge_into least part parts
]

abbrev pub merge_tiny : ℕ → List Text → List Text
merge_tiny least [] = []
merge_tiny least (part ∷ parts) = merge_into least part parts

unfoldable pub concat : List Text → Text
concat [] = []
concat (part ∷ parts) = part ++ concat parts

-- `parts.slice(0, n)` and the rest as one part; with no chunk allowed, `slice(0, -1)` and the last part
abbrev pub cap : ℕ → List Text → List Text
cap zero parts = parts
cap (suc n) parts =
    if ltb (suc n) (length parts) then take n parts ++ (concat (drop n parts) ∷ []) else parts

-- the parts before they are cut to length
abbrev pub first_parts : Text → List Text
first_parts text = if includes 10 text then trimmed (split 10 text) else split_by_regex text

abbrev pub split_normalized : SplitReplyOptions → Text → List Text
split_normalized o [] = []
split_normalized o (c ∷ text) =
    let size = or_default o.max_chunk_chars 80 in
    if leb (length (c ∷ text)) size && not (includes 10 (c ∷ text))
    then (c ∷ text) ∷ []
    else trimmed (
        cap (or_default o.max_chunks 5) (
          merge_tiny (or_default o.min_chunk_chars 8)
            (flat_map (split_long_part size) (first_parts (c ∷ text)))))

unfoldable pub split_reply_into_bubbles : SplitReplyOptions → Text → List Text
split_reply_into_bubbles o text = split_normalized o (trim (unix_lines text))
