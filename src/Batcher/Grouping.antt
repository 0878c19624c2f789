-- ===== src/Batcher/Grouping.antt =====
-- Every batch, open or handed over, holds items of one bot and one peer, and at least one.
use we_chat_ai.Base.{
  ℕ, ◌<◌, ◌≡◌, refl, Bool, true, Option, none, some, List, [], ◌∷◌, map, Text, text_discrete,
  ℕ_discrete, length, All-append, ◌==◌,
}
use we_chat_ai.JsMap.{Map, get, delete}
use we_chat_ai.Batcher.State.{
  Item, ReplyBatch, Timer, OpenBatch, Batcher, Event, adds, fires, flushes, stops, starts, applies,
  settles, new, deliver, hand_over, close_found, close, close_all, fire_found, fire,
  apply_runtime_options, step, run, get_last,
}
use we_chat_ai.Batcher.Grouped.{
  IsFrom, IsPure, IsGrouped, choose-IsGrouped, new-IsGrouped, left_of_delete, add-IsGrouped,
  arm_all-IsGrouped,
}

module _ {P : Type 0} where
  module _ (throws : ReplyBatch P → Bool) where
    deliver-IsGrouped :
        (batch : ReplyBatch P) (b : Batcher P)
        → IsPure batch
        → IsGrouped b
        → IsGrouped (deliver throws batch b)
    unfolding deliver
    deliver-IsGrouped batch b p g =
        let pure = All-append IsPure b.closed (batch ∷ []) g.closed_pure (p, tt) in
        choose-IsGrouped (throws batch) _ _ record { open_fits = g.open_fits; closed_pure = pure }
          record { open_fits = g.open_fits; closed_pure = pure }

    hand_over-IsGrouped :
        (now : ℕ) (batch : OpenBatch P) (newest : Option (Item P)) (b : Batcher P)
        → IsFrom batch.bot_id batch.peer_id batch.items × (0 < length batch.items)
        → IsGrouped b
        → IsGrouped (hand_over throws now batch newest b)
    unfolding hand_over
    hand_over-IsGrouped now batch none b p g = g
    hand_over-IsGrouped now batch (some newest) b p g = deliver-IsGrouped _ b p g

    close_found-IsGrouped :
        (now : ℕ) (key : Text) (expected : ℕ) (b : Batcher P) (o : Option (OpenBatch P))
        → get text_discrete key b.opened ≡ o
        → IsGrouped b
        → IsGrouped (close_found throws now key expected b o)
    unfolding close_found
    close_found-IsGrouped now key expected b none e g = g
    close_found-IsGrouped now key expected b (some batch) e g =
        let (_, from, filled) = g.open_fits key batch e in
        choose-IsGrouped (batch.seq == expected) _ b
          (hand_over-IsGrouped now batch (get_last batch.items) _ (from, filled)
            record {
              open_fits = λ j found h. g.open_fits j found (left_of_delete key j found b.opened h);
              closed_pure = g.closed_pure;
            })
          g

    close-IsGrouped :
        (now : ℕ) (key : Text) (expected : ℕ) (b : Batcher P)
        → IsGrouped b
        → IsGrouped (close throws now key expected b)
    unfolding close
    close-IsGrouped now key expected b g =
        close_found-IsGrouped now key expected b (get text_discrete key b.opened) refl g

    close_all-IsGrouped :
        (now : ℕ) (entries : Map Text (OpenBatch P)) (b : Batcher P)
        → IsGrouped b
        → IsGrouped (close_all throws now entries b)
    unfolding close_all
    close_all-IsGrouped now [] b g = g
    close_all-IsGrouped now ((key, batch) ∷ entries) b g =
        close_all-IsGrouped now entries (close throws now key batch.seq b)
          (close-IsGrouped now key batch.seq b g)

    fire_found-IsGrouped :
        (now handle : ℕ) (b : Batcher P) (o : Option Timer)
        → IsGrouped b
        → IsGrouped (fire_found throws now handle b o)
    unfolding fire_found
    fire_found-IsGrouped now handle b none g = g
    fire_found-IsGrouped now handle b (some t) g =
        close-IsGrouped now t.key t.seq (record b { timers = delete ℕ_discrete handle b.timers })
          record { open_fits = g.open_fits; closed_pure = g.closed_pure }

    step-IsGrouped : (b : Batcher P) (e : Event P) → IsGrouped b → IsGrouped (step throws b e)
    unfolding step fire apply_runtime_options
    step-IsGrouped b (adds now item) g = add-IsGrouped now item b g
    step-IsGrouped b (fires now handle) g =
        fire_found-IsGrouped now handle b (get ℕ_discrete handle b.timers) g
    step-IsGrouped b (flushes now) g = close_all-IsGrouped now b.opened b g
    step-IsGrouped b (stops now) g =
        close_all-IsGrouped now b.opened (record b { stopped = true })
          record { open_fits = g.open_fits; closed_pure = g.closed_pure }
    step-IsGrouped b starts g = record { open_fits = g.open_fits; closed_pure = g.closed_pure }
    step-IsGrouped b (applies now silence_ms max_wait_ms) g =
        arm_all-IsGrouped now (map (λ e. e.0) b.opened) _
          record { open_fits = g.open_fits; closed_pure = g.closed_pure }
    step-IsGrouped b (settles seq failed) g = record {
      open_fits = g.open_fits;
      closed_pure = g.closed_pure;
    }

    -- After any events, every batch that was handed over has at least one item, and all its items are
    -- from the bot and the peer that the batch names; and the same holds of every open batch, whose
    -- key is that of its bot and peer.
    pub run-IsGrouped :
        (silence_ms max_wait_ms : Option ℕ) (events : List (Event P))
        → IsGrouped (run throws (new silence_ms max_wait_ms) events)
    unfolding run
    run-IsGrouped s m [] = new-IsGrouped s m
    run-IsGrouped s m (e ∷ older) =
        step-IsGrouped (run throws (new s m) older) e (run-IsGrouped s m older)
