-- ===== src/ReplyPlan/Plan.antt =====
-- adaptive-reply-plan.ts, `planAdaptiveReply`. A selector is a function of the weights and the key to
-- a number; `none` is the source's default.
use we_chat_ai.Base.{
  ℕ, ◌+◌, min, Bool, true, false, ◌&&◌, Option, none, some, List, [], ◌∷◌, ◌++◌, map, Text, Number,
  not_finite, negative, natural, keep_if, every, leb, ◌==◌, if◌then◌else◌,
}
use we_chat_ai.ReplyPlan.Classify.{
  BatchItemKind, filler_or_reaction, continuation, correction, new_question_or_request,
  emotional_bid, AdaptiveReplyPlanItem, SourceItem, classify_item,
}
use we_chat_ai.ReplyPlan.Select.{normalize_weights, select}

pub data Reason : Type 0 where
  no_reply_obligation : Reason
  reply_obligation : Reason
  conservative_no_obligation : Reason

pub data Decision : Type 0 where
  skip : Decision
  reply : Decision

pub record AdaptiveReplyPlan : Type 0 where
  pub decision : Decision
  pub target_part_count : ℕ
  pub covered_item_ids : List Text
  pub reason : Reason
  pub skip_bias_percent : ℕ
  pub items : List AdaptiveReplyPlanItem

abbrev pub Selector : Type 0
Selector = List Number → Text → Number

pub record AdaptiveReplyPlannerOptions : Type 0 where
  pub batch_id : Option Text
  pub skip_bias_percent : Number
  pub reply_count_weights : List Number
  pub selector : Option Selector

abbrev pub clamp_percent : Number → ℕ
clamp_percent not_finite = 10
clamp_percent (negative n) = 0
clamp_percent (natural n) = min 100 n

abbrev pub is_filler_kind : BatchItemKind → Bool
is_filler_kind filler_or_reaction = true
is_filler_kind continuation = false
is_filler_kind correction = false
is_filler_kind new_question_or_request = false
is_filler_kind emotional_bid = false

unfoldable pub should_skip_no_obligation : List AdaptiveReplyPlanItem → ℕ → Bool
should_skip_no_obligation items bias_percent =
    if bias_percent == 0
    then false
    else if every (λ (item : AdaptiveReplyPlanItem). is_filler_kind item.kind) items
    then true
    else leb 50 bias_percent

-- `ids.join("\0")`
unfoldable pub join_nul : List Text → Text
join_nul [] = []
join_nul (id ∷ []) = id
join_nul (id ∷ next ∷ ids) = id ++ (0 ∷ join_nul (next ∷ ids))

abbrev pub text_or_empty : Option Text → Text
text_or_empty none = []
text_or_empty (some text) = text

abbrev pub stable_key : Option Text → List SourceItem → Text
stable_key batch_id source_items =
    text_or_empty batch_id ++ (0 ∷ join_nul (map (λ (item : SourceItem). item.id) source_items))

-- `(options.selector ?? new WeightedReplyCountSelector()).select(…)`
abbrev pub selected : Option Selector → List Number → Text → Number
selected none weights key = natural (select weights key)
selected (some selector) weights key = selector weights key

-- `Number.isInteger(selected) && selected >= 0 && selected <= 3 ? selected + 1 : 1`
abbrev pub part_count : Number → ℕ
part_count not_finite = 1
part_count (negative n) = 1
part_count (natural n) = if leb n 3 then n + 1 else 1

abbrev pub obliged : List AdaptiveReplyPlanItem → List Text
obliged items =
    map (λ (item : AdaptiveReplyPlanItem). item.id)
      (keep_if (λ (item : AdaptiveReplyPlanItem). item.reply_obligation) items)

abbrev pub no_ids : List Text → Bool
no_ids [] = true
no_ids (id ∷ ids) = false

unfoldable pub plan_adaptive_reply :
    List SourceItem → AdaptiveReplyPlannerOptions → AdaptiveReplyPlan
plan_adaptive_reply source_items options =
    let items = map classify_item source_items in
    let covered = obliged items in
    let bias = clamp_percent options.skip_bias_percent in
    if no_ids covered && should_skip_no_obligation items bias
    then record {
      decision = skip;
      target_part_count = 0;
      covered_item_ids = covered;
      reason = no_reply_obligation;
      skip_bias_percent = bias;
      items = items;
    }
    else record {
      decision = reply;
      target_part_count = part_count (
          selected options.selector (map natural (normalize_weights options.reply_count_weights))
            (stable_key options.batch_id source_items));
      covered_item_ids = covered;
      reason = if no_ids covered then conservative_no_obligation else reply_obligation;
      skip_bias_percent = bias;
      items = items;
    }
