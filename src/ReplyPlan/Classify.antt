-- ===== src/ReplyPlan/Classify.antt =====
-- adaptive-reply-plan.ts, `classifyItem` and its regular expressions. A pattern is tested on the
-- UTF-16 units of the text; every character of a pattern but the three emojis is one unit, and an
-- emoji is its two surrogates.
use we_chat_ai.Base.{
  same, trim, ℕ, ◌+◌, Bool, true, false, not, ◌&&◌, ◌||◌, List, [], ◌∷◌, Text, units, every, any_of,
  leb, ◌==◌, if◌then◌else◌,
}

pub data BatchItemKind : Type 0 where
  continuation : BatchItemKind
  correction : BatchItemKind
  filler_or_reaction : BatchItemKind
  new_question_or_request : BatchItemKind
  emotional_bid : BatchItemKind

pub record AdaptiveReplyPlanItem : Type 0 where
  pub id : Text
  pub kind : BatchItemKind
  pub reply_obligation : Bool

pub record SourceItem : Type 0 where
  pub id : Text
  pub text : Text
  pub has_attachments : Bool

unfoldable pub starts_with : Text → Text → Bool
starts_with [] text = true
starts_with (p ∷ ps) [] = false
starts_with (p ∷ ps) (c ∷ text) = (p == c) && starts_with ps text

unfoldable pub contains : Text → Text → Bool
contains p [] = starts_with p []
contains p (c ∷ text) = starts_with p (c ∷ text) || contains p text

-- `^c*$` and, of a character of two units, `^(hl)*$`
unfoldable pub repeats : ℕ → Text → Bool
repeats p text = every (λ c. p == c) text

unfoldable pub repeats_pair : ℕ → ℕ → Text → Bool
repeats_pair high low [] = true
repeats_pair high low (c ∷ []) = false
repeats_pair high low (c ∷ d ∷ text) = (high == c) && (low == d) && repeats_pair high low text

abbrev pub is_empty : Text → Bool
is_empty [] = true
is_empty (c ∷ text) = false

-- the case folding of `/iu`, as far as the letters o, k, a and y go: U+212A is the Kelvin sign
unfoldable pub fold_case : ℕ → ℕ
fold_case c = if leb 65 c && leb c 90 then c + 32 else (if c == 8490 then 107 else c)

unfoldable pub fold_text : Text → Text
fold_text [] = []
fold_text (c ∷ text) = fold_case c ∷ fold_text text

-- `p+` over the whole text
abbrev pub repeats_some : ℕ → Text → Bool
repeats_some p text = not (is_empty text) && repeats p text

abbrev pub repeats_pair_some : ℕ → ℕ → Text → Bool
repeats_pair_some high low text = not (is_empty text) && repeats_pair high low text

-- `哈哈哈*`
abbrev pub laughs : Text → Bool
laughs [] = false
laughs (c ∷ []) = false
laughs (c ∷ d ∷ text) = (c == 21704) && (d == 21704) && repeats 21704 text

abbrev pub filler_words : List Text
filler_words =
    units "好" ∷ units "好的" ∷ units "好呀" ∷ units "好啊" ∷ units "行" ∷ units "收到" ∷ units "谢谢" ∷ []

-- `[.。…]`
abbrev pub is_dot : ℕ → Bool
is_dot c = (c == 46) || (c == 12290) || (c == 8230)

unfoldable pub is_filler : Text → Bool
is_filler text =
    repeats_some 21704 text
    || laughs text
    || repeats_some 21999 text
    || repeats_some 21734 text
    || repeats_some 22114 text
    || any_of (λ word. same word text) filler_words
    || same (units "ok") (fold_text text)
    || same (units "okay") (fold_text text)
    || repeats_some 35874 text
    || repeats_pair_some 55357 56834 text
    || repeats_pair_some 55358 56611 text
    || repeats_pair_some 55357 56397 text
    || (not (is_empty text) && every is_dot text)

abbrev pub openings : List Text
openings =
    units "对了"
    ∷ units "还有"
    ∷ units "然后"
    ∷ units "就是"
    ∷ units "那个"
    ∷ units "我想问"
    ∷ units "我想说"
    ∷ units "我想补充"
    ∷ units "等一下"
    ∷ units "先等等"
    ∷ units "稍等"
    ∷ []

-- `^opening[：:]?$`
unfoldable pub opening_alone : Text → Text → Bool
opening_alone [] [] = true
opening_alone [] (c ∷ []) = (c == 65306) || (c == 58)
opening_alone [] (c ∷ d ∷ text) = false
opening_alone (p ∷ ps) [] = false
opening_alone (p ∷ ps) (c ∷ text) = (p == c) && opening_alone ps text

unfoldable pub is_incomplete_continuation : Text → Bool
is_incomplete_continuation text = any_of (λ opening. opening_alone opening text) openings

abbrev pub correction_openings : List Text
correction_openings =
    units "不对"
    ∷ units "不是"
    ∷ units "改成"
    ∷ units "更正"
    ∷ units "我说错了"
    ∷ units "应该是"
    ∷ units "准确地说"
    ∷ []

unfoldable pub is_correction : Text → Bool
is_correction text = any_of (λ opening. starts_with opening text) correction_openings

abbrev pub request_words : List Text
request_words =
    units "请"
    ∷ units "帮我"
    ∷ units "麻烦"
    ∷ units "能不能"
    ∷ units "可以帮"
    ∷ units "可以给"
    ∷ units "可以告诉"
    ∷ units "可以解释"
    ∷ units "怎么"
    ∷ units "如何"
    ∷ units "为什么"
    ∷ units "什么"
    ∷ units "哪里"
    ∷ units "哪个"
    ∷ units "哪些"
    ∷ units "几点"
    ∷ units "几个"
    ∷ units "几天"
    ∷ units "要不要"
    ∷ units "是不是"
    ∷ units "是否"
    ∷ []

-- `[?？]`, or one of the words anywhere
unfoldable pub is_question_or_request : Text → Bool
is_question_or_request text =
    any_of (λ c. (c == 63) || (c == 65311)) text
    || any_of (λ word. contains word text) request_words

abbrev pub emotion_words : List Text
emotion_words =
    units "难过"
    ∷ units "伤心"
    ∷ units "害怕"
    ∷ units "焦虑"
    ∷ units "崩溃"
    ∷ units "绝望"
    ∷ units "生气"
    ∷ units "孤独"
    ∷ units "想哭"
    ∷ units "撑不住"
    ∷ units "好累"
    ∷ units "很累"
    ∷ units "需要你"
    ∷ units "陪陪我"
    ∷ []

unfoldable pub is_emotional_bid : Text → Bool
is_emotional_bid text = any_of (λ word. contains word text) emotion_words

unfoldable pub classify_text : Text → Text → AdaptiveReplyPlanItem
classify_text id text =
    if is_filler text
    then record { id = id; kind = filler_or_reaction; reply_obligation = false }
    else if is_emotional_bid text
    then record { id = id; kind = emotional_bid; reply_obligation = true }
    else if is_question_or_request text
    then record { id = id; kind = new_question_or_request; reply_obligation = true }
    else if is_correction text
    then record { id = id; kind = correction; reply_obligation = true }
    else record {
      id = id;
      kind = continuation;
      reply_obligation = not (is_incomplete_continuation text);
    }

unfoldable pub classify_item : SourceItem → AdaptiveReplyPlanItem
classify_item item =
    if item.has_attachments
    then record { id = item.id; kind = new_question_or_request; reply_obligation = true }
    else classify_text item.id (trim item.text)
