-- ===== src/Batcher/Tests.antt =====
-- Runs of the batcher on concrete events.
use we_chat_ai.Base.{
  ℕ, ◌+◌, ◌≡◌, refl, Bool, true, false, none, List, [], ◌∷◌, map, Text, units, text_discrete,
  ℕ_discrete,
}
use we_chat_ai.JsMap.{get, set, delete}
use we_chat_ai.Batcher.Key.{batch_key, batch_key-injective, decimal}
use we_chat_ai.Batcher.State.{
  Item, ReplyBatch, Event, adds, fires, new, run, stop, add, fire, positive_ms,
}
use we_chat_ai.Batcher.Tally.{waiting, delivered, accepted}
use we_chat_ai.Batcher.Grouped.{IsGrouped}
use we_chat_ai.Batcher.Grouping.{run-IsGrouped}
use we_chat_ai.Batcher.Conserve.{run-keeps_items, stop-delivers}

abbrev from : Text → Text → Item ℕ
from peer id = record {
  id = id;
  bot_id = units "bot";
  peer_id = peer;
  context_token = units "token";
  text = units "hi";
  attached = 0;
}

abbrev throws : ReplyBatch ℕ → Bool
throws batch = false

abbrev any_item : Item ℕ → Bool
any_item item = true

-- Newest first: two items of one peer, one of another; the first peer's timer fires.
abbrev events : List (Event ℕ)
events =
    fires 14000 1
    ∷ adds 6000 (from (units "q") (units "3"))
    ∷ adds 4000 (from (units "p") (units "2"))
    ∷ adds 0 (from (units "p") (units "1"))
    ∷ []

key_text : batch_key (units "bot") (units "p") ≡ units "3:botp"
unfolding batch_key decimal
key_text = refl

handed_over :
    map (λ b. map (λ i. i.id) b.items) (run throws (new none none) events).closed
    ≡ (units "1" ∷ units "2" ∷ []) ∷ []
unfolding run batch_key decimal get set delete text_discrete ℕ_discrete positive_ms add fire
handed_over = refl

run-keeps_items_example :
    waiting any_item (run throws (new none none) events).opened
      + delivered any_item (run throws (new none none) events).closed
    ≡ accepted any_item throws (new none none) events
run-keeps_items_example = run-keeps_items throws none none any_item events

stop-delivers_example :
    ((stop throws 20000 (run throws (new none none) events)).opened ≡ [])
    × (delivered any_item (stop throws 20000 (run throws (new none none) events)).closed
        ≡ accepted any_item throws (new none none) events)
stop-delivers_example = stop-delivers throws none none any_item events 20000

batch_key-injective_example : (units "b" ≡ units "b") × (units "1:x" ≡ units "1:x")
batch_key-injective_example =
    batch_key-injective (units "b") (units "1:x") (units "b") (units "1:x") refl

run-IsGrouped_example : IsGrouped (run throws (new none none) events)
run-IsGrouped_example = run-IsGrouped throws none none events
