-- ===== src/ReplyPlan/Cover.antt =====
-- What the plan of a batch guarantees: no obligation is skipped, a skip is harmless, and the number of
-- parts is in range.
use we_chat_ai.Base.{
  trim, Number, not_finite, negative, natural, Bool-cases, ap, sym, every, ◌≤◌, ◌<◌, ◌≡◌, refl, ◌⊎◌,
  inl, inr, true, false, List, [], ◌∷◌, map, arith, Text, All,
}
use mathlib.Core.List.{Memᴰ}
use we_chat_ai.ReplyPlan.Classify.{
  AdaptiveReplyPlanItem, SourceItem, classify_item, classify_text, is_filler, is_emotional_bid,
  is_question_or_request, is_correction, is_incomplete_continuation,
}
use we_chat_ai.ReplyPlan.Select.{normalize_weights}
use we_chat_ai.ReplyPlan.Plan.{
  AdaptiveReplyPlannerOptions, skip, reply, plan_adaptive_reply, part_count, selected, stable_key,
  clamp_percent, no_ids, obliged, is_filler_kind, should_skip_no_obligation,
}

-- The texts that ask for no reply.
abbrev pub IsHarmless : Text → Type 0
IsHarmless text =
    (is_filler text ≡ true)
    ⊎ ((is_incomplete_continuation text ≡ true)
        × (is_emotional_bid text ≡ false)
        × (is_question_or_request text ≡ false)
        × (is_correction text ≡ false))

id-classify_item : (item : SourceItem) → (classify_item item).id ≡ item.id
unfolding classify_item classify_text
id-classify_item item = ground arith

IsHarmless-of_classify_item :
    (item : SourceItem)
    → (classify_item item).reply_obligation ≡ false
    → (item.has_attachments ≡ false) × IsHarmless (trim item.text)
unfolding classify_item classify_text
IsHarmless-of_classify_item item h = ground arith

filler_of_classify_item :
    (item : SourceItem)
    → is_filler_kind (classify_item item).kind ≡ true
    → is_filler (trim item.text) ≡ true
unfolding classify_item classify_text
filler_of_classify_item item h = ground arith

obliged_mem :
    (item : SourceItem) (items : List SourceItem)
    → Memᴰ item items
    → (classify_item item).reply_obligation ≡ true
    → Memᴰ item.id (obliged (map classify_item items))
obliged_mem item [] m h = elim m [ ]
obliged_mem item (i ∷ items) (Memᴰ.head e) h =
    rw (ap classify_item (sym e), h) (Memᴰ.head (sym (id-classify_item item)))
obliged_mem item (i ∷ items) (Memᴰ.tail m) h =
    elim (Bool-cases (classify_item i).reply_obligation) [
      | inl e ↦ rw e (Memᴰ.tail (obliged_mem item items m h))
      | inr e ↦ rw e (obliged_mem item items m h)
    ]

unobliged :
    (items : List SourceItem)
    → no_ids (obliged (map classify_item items)) ≡ true
    → All
        (λ (item : SourceItem). (item.has_attachments ≡ false) × IsHarmless (trim item.text))
        items
unobliged [] h = tt
unobliged (item ∷ items) h = elim (Bool-cases (classify_item item).reply_obligation) [
  | inl e ↦ ground arith
  | inr e ↦ (IsHarmless-of_classify_item item e, unobliged items (rw e at h))
]

All-filler :
    (items : List SourceItem)
    → every (λ (item : AdaptiveReplyPlanItem). is_filler_kind item.kind) (map classify_item items)
      ≡ true
    → All (λ (item : SourceItem). is_filler (trim item.text) ≡ true) items
All-filler [] h = tt
All-filler (item ∷ items) h = ground (arith, filler_of_classify_item item, All-filler items)

no_ids-mem : {id : Text} {ids : List Text} → Memᴰ id ids → no_ids ids ≡ false
no_ids-mem (Memᴰ.head e) = refl
no_ids-mem (Memᴰ.tail m) = refl

part_count_bounds : (selected : Number) → (1 ≤ part_count selected) × (part_count selected ≤ 4)
part_count_bounds not_finite = omega arith
part_count_bounds (negative n) = omega arith
part_count_bounds (natural n) = ground arith

module _ (source_items : List SourceItem) (options : AdaptiveReplyPlannerOptions) where
  -- An item that asks for a reply gets one, and is among those that the reply covers, whatever the
  -- settings and the selector are.
  pub plan_adaptive_reply-covers :
      (item : SourceItem)
      → Memᴰ item source_items
      → (classify_item item).reply_obligation ≡ true
      → ((plan_adaptive_reply source_items options).decision ≡ reply)
        × Memᴰ item.id (plan_adaptive_reply source_items options).covered_item_ids
  unfolding plan_adaptive_reply
  plan_adaptive_reply-covers item m h =
      let covered = obliged_mem item source_items m h in rw (no_ids-mem covered) (refl, covered)

  -- A batch is skipped only where the skip bias is not 0 and no item of it has an attachment or a
  -- text that asks for a reply; and below a bias of 50 only where every text is a filler.
  pub plan_adaptive_reply-skip-IsHarmless :
      (plan_adaptive_reply source_items options).decision ≡ skip
      → (0 < clamp_percent options.skip_bias_percent)
        × All
            (λ (item : SourceItem). (item.has_attachments ≡ false) × IsHarmless (trim item.text))
            source_items
        × ((50 ≤ clamp_percent options.skip_bias_percent)
            ⊎ All (λ (item : SourceItem). is_filler (trim item.text) ≡ true) source_items)
  unfolding plan_adaptive_reply should_skip_no_obligation
  plan_adaptive_reply-skip-IsHarmless h =
      ground (arith, unobliged source_items, All-filler source_items)

  -- A skipped batch has no part, and an answered one from one to four, whatever the selector returns.
  pub plan_adaptive_reply-part_count :
      ((plan_adaptive_reply source_items options).decision ≡ skip
        × ((plan_adaptive_reply source_items options).target_part_count ≡ 0))
      ⊎ ((plan_adaptive_reply source_items options).decision ≡ reply
          × (1 ≤ (plan_adaptive_reply source_items options).target_part_count)
          × ((plan_adaptive_reply source_items options).target_part_count ≤ 4))
  unfolding plan_adaptive_reply
  plan_adaptive_reply-part_count = ground (
    arith,
    part_count_bounds (
        selected options.selector (map natural (normalize_weights options.reply_count_weights))
          (stable_key options.batch_id source_items)),
  )
