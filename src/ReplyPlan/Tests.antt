-- ===== src/ReplyPlan/Tests.antt =====
-- Plans of concrete batches.
use we_chat_ai.Base.{
  same, trim_end, trim_start, is_space, ◌*◌, ◌^◌, ◌≤◌, ◌<◌, ◌≡◌, refl, true, false, none, some, [],
  ◌∷◌, units, not_finite, natural, take, suc,
}
use mathlib.Core.List.{Memᴰ}
use we_chat_ai.ReplyPlan.Classify.{
  SourceItem, classify_item, is_filler, is_incomplete_continuation, is_question_or_request,
  is_emotional_bid, is_correction, repeats, repeats_pair, fold_text, fold_case, contains,
  starts_with, opening_alone, classify_text,
}
use we_chat_ai.ReplyPlan.Select.{
  select, stable_hash, normalize_weights, sum, select-share, bucket, fnv,
}
use we_chat_ai.ReplyPlan.Plan.{
  AdaptiveReplyPlannerOptions, plan_adaptive_reply, skip, reply, should_skip_no_obligation,
  join_nul,
}
use we_chat_ai.ReplyPlan.Cover.{plan_adaptive_reply-covers}

abbrev question : SourceItem
question = record { id = units "a"; text = units " 你怎么看 "; has_attachments = false }

abbrev laugh : SourceItem
laugh = record { id = units "b"; text = units "哈哈哈"; has_attachments = false }

abbrev options : AdaptiveReplyPlannerOptions
options = record {
  batch_id = some (units "batch_1");
  skip_bias_percent = natural 10;
  reply_count_weights = natural 0 ∷ natural 3 ∷ natural 1 ∷ natural 0 ∷ [];
  selector = none;
}

-- a selector that answers out of range
abbrev careless : AdaptiveReplyPlannerOptions
careless = record {
  batch_id = none;
  skip_bias_percent = not_finite;
  reply_count_weights = [];
  selector = some (λ weights key. natural 9);
}

ok_is_filler : is_filler (units "OK") ≡ true
unfolding is_filler repeats repeats_pair same fold_text fold_case
ok_is_filler = refl

-- the known FNV-1a value of "a"
hash_of_a : stable_hash (units "a") ≡ 3826002220
unfolding stable_hash fnv
hash_of_a = refl

laugh_is_skipped : (plan_adaptive_reply (laugh ∷ []) options).decision ≡ skip
unfolding plan_adaptive_reply classify_item classify_text should_skip_no_obligation is_filler
    trim_end trim_start is_space repeats repeats_pair same fold_text fold_case contains starts_with
    is_question_or_request is_emotional_bid is_correction is_incomplete_continuation opening_alone
    normalize_weights select bucket stable_hash fnv join_nul
laugh_is_skipped = refl

plan_adaptive_reply-covers_example :
    ((plan_adaptive_reply (laugh ∷ question ∷ []) options).decision ≡ reply)
    × Memᴰ (units "a") (plan_adaptive_reply (laugh ∷ question ∷ []) options).covered_item_ids
unfolding plan_adaptive_reply classify_item classify_text should_skip_no_obligation is_filler
    trim_end trim_start is_space repeats repeats_pair same fold_text fold_case contains starts_with
    is_question_or_request is_emotional_bid is_correction is_incomplete_continuation opening_alone
    normalize_weights select bucket stable_hash fnv join_nul
plan_adaptive_reply-covers_example =
    plan_adaptive_reply-covers (laugh ∷ question ∷ []) options question (Memᴰ.tail (Memᴰ.head refl))
      refl

select-share_example :
    (select (natural 0 ∷ natural 3 ∷ natural 1 ∷ natural 0 ∷ []) (units "a") < 4)
    × (sum (
            take
              (select (natural 0 ∷ natural 3 ∷ natural 1 ∷ natural 0 ∷ []) (units "a"))
              (normalize_weights (natural 0 ∷ natural 3 ∷ natural 1 ∷ natural 0 ∷ [])))
          * 2 ^ 32
        ≤ stable_hash (units "a")
          * sum (normalize_weights (natural 0 ∷ natural 3 ∷ natural 1 ∷ natural 0 ∷ [])))
    × (stable_hash (units "a")
          * sum (normalize_weights (natural 0 ∷ natural 3 ∷ natural 1 ∷ natural 0 ∷ []))
        < sum (
            take
              (suc (select (natural 0 ∷ natural 3 ∷ natural 1 ∷ natural 0 ∷ []) (units "a")))
              (normalize_weights (natural 0 ∷ natural 3 ∷ natural 1 ∷ natural 0 ∷ [])))
          * 2 ^ 32)
select-share_example = select-share (natural 0 ∷ natural 3 ∷ natural 1 ∷ natural 0 ∷ []) (units "a")

select_bucket : select (natural 0 ∷ natural 3 ∷ natural 1 ∷ natural 0 ∷ []) (units "a") ≡ 2
unfolding select bucket normalize_weights stable_hash fnv
select_bucket = refl
