-- ===== src/Bubbles/Tests.antt =====
-- Concrete replies.
use we_chat_ai.Base.{
  ◌≤◌, ◌<◌, ◌≡◌, refl, some, false, [], ◌∷◌, Text, units, trim_start, trim_end, is_space, split,
  length, arith, All,
}
use we_chat_ai.Bubbles.Split.{
  SplitReplyOptions, unix_lines, sentences, clauses, slices, rebuild, merge_into, concat, trimmed,
  split_long_part, split_reply_into_bubbles,
}
use we_chat_ai.Bubbles.Letters.{letters, split_reply_into_bubbles-keeps_letters}
use we_chat_ai.Bubbles.Counts.{IsBubble, split_reply_into_bubbles-IsBubble}
use we_chat_ai.Bubbles.Marks.{HasNoMark, split_long_part-HasNoMark}

abbrev options : SplitReplyOptions
options = record { max_chunks = some 2; min_chunk_chars = some 2; max_chunk_chars = some 6 }

abbrev reply : Text
reply = units "one, two!  three? four"

bubbles : split_reply_into_bubbles options reply ≡ units "one" ∷ units "two!three?four" ∷ []
unfolding split_reply_into_bubbles unix_lines sentences clauses slices rebuild merge_into concat
    trim_start trim_end is_space split
bubbles = refl

split_reply_into_bubbles-keeps_letters_example :
    letters (concat (split_reply_into_bubbles options reply)) ≡ letters reply
split_reply_into_bubbles-keeps_letters_example =
    split_reply_into_bubbles-keeps_letters options reply (omega arith)

split_reply_into_bubbles-IsBubble_example :
    All IsBubble (split_reply_into_bubbles options reply)
    × (length (split_reply_into_bubbles options reply) ≤ 2)
split_reply_into_bubbles-IsBubble_example =
    split_reply_into_bubbles-IsBubble options reply (omega arith) (omega arith)

two_clauses : 1 < length (trimmed (clauses false (units "one, two!")))
unfolding clauses trim_start trim_end is_space
two_clauses = omega arith

split_long_part-HasNoMark_example : HasNoMark (concat (split_long_part 6 (units "one, two!")))
split_long_part-HasNoMark_example =
    split_long_part-HasNoMark 6 (units "one, two!") (omega arith) (omega arith) two_clauses
