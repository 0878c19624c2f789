-- ===== src/Batcher/State.antt =====
-- The state of `AdaptiveReplyBatcher` and its operations. `throws` says for which batches `onClose`
-- throws at once; the settling of a delivery is an event of its own.
use we_chat_ai.Base.{
  ℕ, zero, suc, ◌+◌, max, min, Bool, true, false, Option, none, some, List, [], ◌∷◌, ◌++◌, map,
  Text, text_discrete, ℕ_discrete, ◌==◌, if◌then◌else◌,
}
use we_chat_ai.JsMap.{Map, get, set, delete}
use we_chat_ai.Batcher.Key.{batch_key}

pub record Item (P : Type 0) : Type 0 where
  pub id : Text
  pub bot_id : Text
  pub peer_id : Text
  pub context_token : Text
  pub text : Text
  pub attached : P

-- `AdaptiveReplyBatch`, as `onClose` receives it
pub record ReplyBatch (P : Type 0) : Type 0 where
  pub seq : ℕ
  pub bot_id : Text
  pub peer_id : Text
  pub context_token : Text
  pub opened_at : ℕ
  pub closed_at : ℕ
  pub items : List (Item P)

pub record OpenBatch (P : Type 0) : Type 0 where
  pub seq : ℕ
  pub bot_id : Text
  pub peer_id : Text
  pub opened_at : ℕ
  pub last_item_at : ℕ
  pub items : List (Item P)
  pub timer : Option ℕ

-- A pending `setTimeout`: the arguments of the `close` that it calls, and when.
pub record Timer : Type 0 where
  pub key : Text
  pub seq : ℕ
  pub due : ℕ

pub record Batcher (P : Type 0) : Type 0 where
  pub silence_ms : ℕ
  pub max_wait_ms : ℕ
  pub sequence : ℕ
  pub opened : Map Text (OpenBatch P)
  pub deliveries : List ℕ
  pub stopped : Bool
  pub timers : Map ℕ Timer
  pub next_timer : ℕ
  pub closed : List (ReplyBatch P)
  pub errors : List ℕ

-- a value that is absent or not positive is replaced
unfoldable pub positive_ms : Option ℕ → ℕ → ℕ
positive_ms none fallback = fallback
positive_ms (some zero) fallback = fallback
positive_ms (some (suc n)) fallback = suc n

-- an option that is absent leaves the value in force
abbrev pub new_ms : Option ℕ → ℕ → ℕ → ℕ
new_ms none fallback current = current
new_ms (some n) fallback current = positive_ms (some n) fallback

abbrev pub new : {P : Type 0} → Option ℕ → Option ℕ → Batcher P
new silence_ms max_wait_ms = record {
  silence_ms = positive_ms silence_ms 10000;
  max_wait_ms = positive_ms max_wait_ms 20000;
  sequence = 0;
  opened = [];
  deliveries = [];
  stopped = false;
  timers = [];
  next_timer = 0;
  closed = [];
  errors = [];
}

abbrev pub get_last : {A : Type 0} → List A → Option A
get_last [] = none
get_last (x ∷ []) = some x
get_last (x ∷ y ∷ xs) = get_last (y ∷ xs)

-- `if (timer !== undefined) this.clock.clearTimeout(timer)`
abbrev pub clear_timeout : Option ℕ → Map ℕ Timer → Map ℕ Timer
clear_timeout none timers = timers
clear_timeout (some handle) timers = delete ℕ_discrete handle timers

module _ {P : Type 0} where
  abbrev pub close_at : Batcher P → OpenBatch P → ℕ
  close_at b batch = min (batch.last_item_at + b.silence_ms) (batch.opened_at + b.max_wait_ms)

  -- The delay is never negative, so the timer is due at `closeAt` or now.
  unfoldable pub arm : ℕ → Text → OpenBatch P → Batcher P → Batcher P
  arm now key batch b = record b {
    opened = set text_discrete key (record batch { timer = some b.next_timer }) b.opened;
    timers =
        set ℕ_discrete b.next_timer
          (record { key = key; seq = batch.seq; due = max now (close_at b batch) })
          (clear_timeout batch.timer b.timers);
    next_timer = b.next_timer + 1;
  }

  -- `batch.items.push(item); batch.lastItemAtMs = now;`
  abbrev pub push_item : ℕ → Item P → OpenBatch P → OpenBatch P
  push_item now item batch = record batch { items = batch.items ++ item ∷ []; last_item_at = now }

  -- the batch that `add` opens for a key without one
  abbrev pub fresh_batch : ℕ → Item P → ℕ → OpenBatch P
  fresh_batch now item seq = record {
    seq = seq;
    bot_id = item.bot_id;
    peer_id = item.peer_id;
    opened_at = now;
    last_item_at = now;
    items = [];
    timer = none;
  }

  unfoldable pub add_to : ℕ → Item P → Text → Batcher P → Option (OpenBatch P) → Batcher P
  unfolding arm
  add_to now item key b none =
      arm now key (push_item now item (fresh_batch now item (b.sequence + 1)))
        (record b { sequence = b.sequence + 1 })
  add_to now item key b (some batch) = arm now key (push_item now item batch) b

  unfoldable pub add : ℕ → Item P → Batcher P → Batcher P
  unfolding add_to
  add now item b =
      let key = batch_key item.bot_id item.peer_id in
      if b.stopped then b else add_to now item key b (get text_discrete key b.opened)

  module _ (throws : ReplyBatch P → Bool) where
    -- the call of `onClose`, and the delivery that waits for it
    unfoldable pub deliver : ReplyBatch P → Batcher P → Batcher P
    deliver batch b =
        if throws batch
        then record b { closed = b.closed ++ batch ∷ []; errors = batch.seq ∷ b.errors }
        else record b { closed = b.closed ++ batch ∷ []; deliveries = batch.seq ∷ b.deliveries }

    -- `items.at(-1)!`: on an empty batch the source would throw here.
    unfoldable pub hand_over : ℕ → OpenBatch P → Option (Item P) → Batcher P → Batcher P
    unfolding deliver
    hand_over now batch none b = b
    hand_over now batch (some newest) b =
        deliver
          (record {
            seq = batch.seq;
            bot_id = batch.bot_id;
            peer_id = batch.peer_id;
            context_token = newest.context_token;
            opened_at = batch.opened_at;
            closed_at = now;
            items = batch.items;
          })
          b

    -- `expected` is compared as an object
    unfoldable pub close_found : ℕ → Text → ℕ → Batcher P → Option (OpenBatch P) → Batcher P
    unfolding hand_over
    close_found now key expected b none = b
    close_found now key expected b (some batch) =
        if batch.seq == expected
        then hand_over now batch (get_last batch.items) (record b {
          opened = delete text_discrete key b.opened;
          timers = clear_timeout batch.timer b.timers;
        })
        else b

    unfoldable pub close : ℕ → Text → ℕ → Batcher P → Batcher P
    unfolding close_found
    close now key expected b = close_found now key expected b (get text_discrete key b.opened)

    -- the loop of `flush`, over a copy of the entries
    unfoldable pub close_all : ℕ → Map Text (OpenBatch P) → Batcher P → Batcher P
    unfolding close
    close_all now [] b = b
    close_all now ((key, batch) ∷ entries) b = close_all now entries (close now key batch.seq b)

    abbrev pub flush : ℕ → Batcher P → Batcher P
    flush now b = close_all now b.opened b

    -- `stop`, up to its wait for the deliveries
    abbrev pub stop : ℕ → Batcher P → Batcher P
    stop now b = flush now (record b { stopped = true })

    -- A timer fires: it is gone, and calls `close`.
    unfoldable pub fire_found : ℕ → ℕ → Batcher P → Option Timer → Batcher P
    unfolding close
    fire_found now handle b none = b
    fire_found now handle b (some t) =
        close now t.key t.seq (record b { timers = delete ℕ_discrete handle b.timers })

    unfoldable pub fire : ℕ → ℕ → Batcher P → Batcher P
    unfolding fire_found
    fire now handle b = fire_found now handle b (get ℕ_discrete handle b.timers)

  abbrev pub start : Batcher P → Batcher P
  start b = record b { stopped = false }

  -- the loop of `applyRuntimeOptions`, over the keys, each with the batch that the map has for it
  abbrev pub arm_found : ℕ → Text → Batcher P → Option (OpenBatch P) → Batcher P
  arm_found now key b none = b
  arm_found now key b (some batch) = arm now key batch b

  unfoldable pub arm_all : ℕ → List Text → Batcher P → Batcher P
  unfolding arm
  arm_all now [] b = b
  arm_all now (key ∷ keys) b =
      arm_all now keys (arm_found now key b (get text_discrete key b.opened))

  unfoldable pub apply_runtime_options : ℕ → Option ℕ → Option ℕ → Batcher P → Batcher P
  unfolding arm_all
  apply_runtime_options now silence_ms max_wait_ms b =
      arm_all now (map (λ e. e.0) b.opened) (record b {
        silence_ms = new_ms silence_ms 10000 b.silence_ms;
        max_wait_ms = new_ms max_wait_ms 20000 b.max_wait_ms;
      })

-- the `finally` of a delivery, and its `catch` when the callback failed or took too long
abbrev pub without : ℕ → List ℕ → List ℕ
without n [] = []
without n (m ∷ ms) = let rest = without n ms in if m == n then rest else m ∷ rest

abbrev pub settle : {P : Type 0} → ℕ → Bool → Batcher P → Batcher P
settle seq failed b = record b {
  deliveries = without seq b.deliveries;
  errors = if failed then seq ∷ b.errors else b.errors;
}

-- What may happen to a batcher, with the clock's reading.
pub data Event (P : Type 0) : Type 0 where
  adds : ℕ → Item P → Event P
  fires : ℕ → ℕ → Event P
  flushes : ℕ → Event P
  stops : ℕ → Event P
  starts : Event P
  applies : ℕ → Option ℕ → Option ℕ → Event P
  settles : ℕ → Bool → Event P

module _ {P : Type 0} (throws : ReplyBatch P → Bool) where
  unfoldable pub step : Batcher P → Event P → Batcher P
  step b (adds now item) = add now item b
  step b (fires now handle) = fire throws now handle b
  step b (flushes now) = flush throws now b
  step b (stops now) = stop throws now b
  step b starts = start b
  step b (applies now silence_ms max_wait_ms) = apply_runtime_options now silence_ms max_wait_ms b
  step b (settles seq failed) = settle seq failed b

  -- The events newest first.
  unfoldable pub run : Batcher P → List (Event P) → Batcher P
  unfolding step
  run b [] = b
  run b (e ∷ older) = step (run b older) e
