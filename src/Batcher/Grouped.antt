-- ===== src/Batcher/Grouped.antt =====
-- What it is for the batches to hold items of one bot and one peer each, and how opening, extending and
-- arming a batch keep it.
use we_chat_ai.Base.{
  ℕ, ◌+◌, ◌<◌, ◌≡◌, refl, sym, ◌∙◌, Bool, true, false, Option, none, some, List, [], ◌∷◌, arith,
  Text, text_discrete, length, All, All-append, ite, if◌then◌else◌, length-append,
}
use mathlib.Core.Path.{subst}
use we_chat_ai.JsMap.{Map, get, delete, get-set, get-delete}
use we_chat_ai.Batcher.Key.{batch_key, batch_key-injective}
use we_chat_ai.Batcher.State.{
  Item, ReplyBatch, OpenBatch, Batcher, new, arm, add_to, add, arm_found, arm_all, push_item,
  fresh_batch,
}

module _ {P : Type 0} where
  -- The items of a list come from one bot and one peer.
  abbrev pub IsFrom : Text → Text → List (Item P) → Type 0
  IsFrom bot_id peer_id items =
      All (λ (item : Item P). (item.bot_id ≡ bot_id) × (item.peer_id ≡ peer_id)) items

  abbrev pub IsPure : ReplyBatch P → Type 0
  IsPure batch = IsFrom batch.bot_id batch.peer_id batch.items × (0 < length batch.items)

  abbrev pub FitsKey : Text → OpenBatch P → Type 0
  FitsKey key batch =
      (batch_key batch.bot_id batch.peer_id ≡ key)
      × IsFrom batch.bot_id batch.peer_id batch.items
      × (0 < length batch.items)

  pub record IsGrouped (b : Batcher P) : Type 0 where
    pub open_fits :
        (key : Text) (batch : OpenBatch P)
        → get text_discrete key b.opened ≡ some batch
        → FitsKey key batch
    pub closed_pure : All IsPure b.closed

  pub choose-IsGrouped :
      (c : Bool) (a b : Batcher P) → IsGrouped a → IsGrouped b → IsGrouped (if c then a else b)
  choose-IsGrouped true a b g h = g
  choose-IsGrouped false a b g h = h

  pub new-IsGrouped : (silence_ms max_wait_ms : Option ℕ) → IsGrouped (new silence_ms max_wait_ms)
  unfolding get
  new-IsGrouped s m = record { open_fits = λ key batch h. ground (arith, h); closed_pure = tt }

  fits_of_choice :
      (key j : Text) (batch found : OpenBatch P) (rest : Option (OpenBatch P)) (d : Dec (key ≡ j))
      → FitsKey key batch
      → (rest ≡ some found → FitsKey j found)
      → ite d (some batch) rest ≡ some found
      → FitsKey j found
  fits_of_choice key j batch found rest (yes p) f k e =
      subst (FitsKey j) (the_same e) (subst (λ i. FitsKey i batch) p f)
    where
      the_same : some batch ≡ some found → batch ≡ found
      the_same e = cc
  fits_of_choice key j batch found rest (no n) f k e = k e

  pub left_of_delete :
      (key j : Text) (found : OpenBatch P) (m : Map Text (OpenBatch P))
      → get text_discrete j (delete text_discrete key m) ≡ some found
      → get text_discrete j m ≡ some found
  left_of_delete key j found m h = ground (arith, get-delete text_discrete key j m)

  arm-IsGrouped :
      (now : ℕ) (key : Text) (batch : OpenBatch P) (b : Batcher P)
      → FitsKey key batch
      → IsGrouped b
      → IsGrouped (arm now key batch b)
  unfolding arm
  arm-IsGrouped now key batch b f g = record {
    open_fits = λ j found h.
        fits_of_choice key j _ found (get text_discrete j b.opened) (text_discrete key j) f
          (g.open_fits j found)
          (sym (get-set text_discrete key j (record batch { timer = some b.next_timer }) b.opened)
            ∙ h);
    closed_pure = g.closed_pure;
  }

  pushed-FitsKey :
      (now : ℕ) (item : Item P) (batch : OpenBatch P)
      → FitsKey (batch_key item.bot_id item.peer_id) batch
      → FitsKey (batch_key item.bot_id item.peer_id) (push_item now item batch)
  pushed-FitsKey now item batch (e, same, some_items) =
      let (bots, peers) =
        batch_key-injective batch.bot_id batch.peer_id item.bot_id item.peer_id e in
      (
        e,
        All-append (λ (i : Item P). (i.bot_id ≡ batch.bot_id) × (i.peer_id ≡ batch.peer_id))
            batch.items (item ∷ []) same ((sym bots, sym peers), tt),
        omega (arith, length-append batch.items (item ∷ [])),
      )

  add_to-IsGrouped :
      (now : ℕ) (item : Item P) (b : Batcher P) (o : Option (OpenBatch P))
      → get text_discrete (batch_key item.bot_id item.peer_id) b.opened ≡ o
      → IsGrouped b
      → IsGrouped (add_to now item (batch_key item.bot_id item.peer_id) b o)
  unfolding add_to
  add_to-IsGrouped now item b none e g =
      arm-IsGrouped now (batch_key item.bot_id item.peer_id)
        (push_item now item (fresh_batch now item (b.sequence + 1)))
        (record b { sequence = b.sequence + 1 }) (refl, ((refl, refl), tt), omega arith)
        record { open_fits = g.open_fits; closed_pure = g.closed_pure }
  add_to-IsGrouped now item b (some batch) e g =
      arm-IsGrouped now (batch_key item.bot_id item.peer_id) (push_item now item batch) b
        (pushed-FitsKey now item batch (g.open_fits (batch_key item.bot_id item.peer_id) batch e)) g

  pub add-IsGrouped :
      (now : ℕ) (item : Item P) (b : Batcher P) → IsGrouped b → IsGrouped (add now item b)
  unfolding add
  add-IsGrouped now item b g = choose-IsGrouped b.stopped b _ g (
      add_to-IsGrouped now item b (get text_discrete (batch_key item.bot_id item.peer_id) b.opened)
        refl g)

  pub arm_all-IsGrouped :
      (now : ℕ) (keys : List Text) (b : Batcher P) → IsGrouped b → IsGrouped (arm_all now keys b)
  unfolding arm_all
  arm_all-IsGrouped now [] b g = g
  arm_all-IsGrouped now (key ∷ keys) b g =
      arm_all-IsGrouped now keys (arm_found now key b (get text_discrete key b.opened))
        (one (get text_discrete key b.opened) refl)
    where
      one :
          (o : Option (OpenBatch P))
          → get text_discrete key b.opened ≡ o
          → IsGrouped (arm_found now key b o)
      one none e = g
      one (some batch) e = arm-IsGrouped now key batch b (g.open_fits key batch e) g
