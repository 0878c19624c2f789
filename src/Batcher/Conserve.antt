-- ===== src/Batcher/Conserve.antt =====
-- Every accepted item is in exactly one batch, open or handed over.
use we_chat_ai.Base.{
  ℕ, ◌+◌, ◌≡◌, ◌≢◌, refl, ap, sym, ◌∙◌, inl, inr, Bool, true, false, Option, none, some, List, [],
  ◌∷◌, map, arith, Text, text_discrete, ℕ_discrete, ◌==◌, if◌then◌else◌, Bool-cases,
}
use mathlib.Core.Path.{subst}
use we_chat_ai.JsMap.{Map, get, delete, Distinct, set-Distinct, delete-Distinct}
use we_chat_ai.Batcher.Key.{batch_key}
use we_chat_ai.Batcher.State.{
  Item, ReplyBatch, OpenBatch, Batcher, Timer, new, get_last, clear_timeout, arm, add, add_to,
  push_item, deliver, hand_over, close, close_found, close_all, stop, fire, fire_found, arm_all,
  arm_found, new_ms, apply_runtime_options, Event, adds, fires, flushes, stops, starts, applies,
  settles, step, run,
}
use we_chat_ai.Batcher.Tally.{
  tally, tally-append, waiting, delivered, total, accepted, delivered-append, waiting-set_new,
  waiting-set, delete_absent, waiting-delete,
}

==_refl : (n : ℕ) → (n == n) ≡ true
==_refl n = ground arith

abbrev pub IsDistinct : {P : Type 0} → Batcher P → Type 0
IsDistinct b = Distinct text_discrete b.opened

get_last-cons : {A : Type 0} (z : A) (zs : List A) → get_last (z ∷ zs) ≢ none
get_last-cons z [] h = cc
get_last-cons z (w ∷ zs) h = get_last-cons w zs h

none_left : {A : Type 0} (p : A → Bool) (items : List A) → get_last items ≡ none → tally p items ≡ 0
unfolding tally
none_left p [] e = refl
none_left p (x ∷ items) e = absurd (get_last-cons x items e)

module _ {P : Type 0} (p : Item P → Bool) where
  arm_found-total :
      (now : ℕ) (key : Text) (b : Batcher P) (o : Option (OpenBatch P))
      → get text_discrete key b.opened ≡ o
      → total p (arm_found now key b o) ≡ total p b
  unfolding arm
  arm_found-total now key b none e = refl
  arm_found-total now key b (some batch) e =
      omega (arith, waiting-set p key batch (record batch { timer = some b.next_timer }) b.opened e)

  arm_found-IsDistinct :
      (now : ℕ) (key : Text) (b : Batcher P) (o : Option (OpenBatch P))
      → IsDistinct b
      → IsDistinct (arm_found now key b o)
  unfolding arm
  arm_found-IsDistinct now key b none d = d
  arm_found-IsDistinct now key b (some batch) d = set-Distinct text_discrete key _ b.opened d

  arm_all-total :
      (now : ℕ) (keys : List Text) (b : Batcher P)
      → IsDistinct b
      → (total p (arm_all now keys b) ≡ total p b) × IsDistinct (arm_all now keys b)
  unfolding arm_all
  arm_all-total now [] b d = (refl, d)
  arm_all-total now (key ∷ keys) b d =
      let o = get text_discrete key b.opened in
      let (same, d') =
        arm_all-total now keys (arm_found now key b o) (arm_found-IsDistinct now key b o d) in
      (same ∙ arm_found-total now key b o refl, d')

  -- `add` on a running batcher adds its item to those that wait.
  add_to-total :
      (now : ℕ) (item : Item P) (key : Text) (b : Batcher P) (o : Option (OpenBatch P))
      → get text_discrete key b.opened ≡ o
      → total p (add_to now item key b o) ≡ total p b + tally p (item ∷ [])
  unfolding add_to
  add_to-total now item key b none e = omega (arith, waiting-set_new p key _ b.opened e)
  add_to-total now item key b (some batch) e = omega (
    arith,
    waiting-set p key batch (record (push_item now item batch) { timer = some b.next_timer })
        b.opened e,
    tally-append p batch.items (item ∷ []),
  )

  add_to-IsDistinct :
      (now : ℕ) (item : Item P) (key : Text) (b : Batcher P) (o : Option (OpenBatch P))
      → IsDistinct b
      → IsDistinct (add_to now item key b o)
  unfolding add_to
  add_to-IsDistinct now item key b none d = set-Distinct text_discrete key _ b.opened d
  add_to-IsDistinct now item key b (some batch) d = set-Distinct text_discrete key _ b.opened d

  module _ (throws : ReplyBatch P → Bool) where
    -- What the call of `onClose` leaves behind, whether it throws or not.
    deliver-total :
        (batch : ReplyBatch P) (b : Batcher P)
        → (total p (deliver throws batch b) ≡ total p b + tally p batch.items)
          × ((deliver throws batch b).opened ≡ b.opened)
    unfolding deliver
    deliver-total batch b = ground (arith, delivered-append p b.closed batch)

    hand_over-total :
        (now : ℕ) (batch : OpenBatch P) (b : Batcher P) (o : Option (Item P))
        → get_last batch.items ≡ o
        → (total p (hand_over throws now batch o b) ≡ total p b + tally p batch.items)
          × ((hand_over throws now batch o b).opened ≡ b.opened)
    unfolding hand_over
    hand_over-total now batch b none e = (omega (arith, none_left p batch.items e), refl)
    hand_over-total now batch b (some newest) e = deliver-total _ b

    close_found-total :
        (now : ℕ) (key : Text) (expected : ℕ) (b : Batcher P) (o : Option (OpenBatch P))
        → get text_discrete key b.opened ≡ o
        → IsDistinct b
        → (total p (close_found throws now key expected b o) ≡ total p b)
          × IsDistinct (close_found throws now key expected b o)
    unfolding close_found
    close_found-total now key expected b none e d = (refl, d)
    close_found-total now key expected b (some batch) e d =
        elim (Bool-cases (batch.seq == expected)) [
          | inl same ↦
              let b' : Batcher P = record b {
                opened = delete text_discrete key b.opened;
                timers = clear_timeout batch.timer b.timers;
              } in
              let (sums, kept) = hand_over-total now batch b' (get_last batch.items) refl in
              rw same (
                omega (arith, sums, waiting-delete p key batch b.opened d e),
                subst (λ m. Distinct text_discrete m) (sym kept)
                    (delete-Distinct text_discrete key b.opened d),
              )
          | inr other ↦ rw other (refl, d)
        ]

    close_all-total :
        (now : ℕ) (entries : Map Text (OpenBatch P)) (b : Batcher P)
        → IsDistinct b
        → (total p (close_all throws now entries b) ≡ total p b)
          × IsDistinct (close_all throws now entries b)
    unfolding close_all
    close_all-total now [] b d = (refl, d)
    close_all-total now ((key, batch) ∷ entries) b d =
        let (same, d') =
          close_found-total now key batch.seq b (get text_discrete key b.opened) refl d in
        let (same', d'') =
          close_all-total now entries
            (close_found throws now key batch.seq b (get text_discrete key b.opened)) d' in
        (same' ∙ same, d'')

    fire_found-total :
        (now handle : ℕ) (b : Batcher P) (o : Option Timer)
        → IsDistinct b
        → (total p (fire_found throws now handle b o) ≡ total p b)
          × IsDistinct (fire_found throws now handle b o)
    unfolding fire_found
    fire_found-total now handle b none d = (refl, d)
    fire_found-total now handle b (some t) d =
        close_found-total now t.key t.seq (record b { timers = delete ℕ_discrete handle b.timers })
          (get text_discrete t.key b.opened) refl d

    one_item : (item : Item P) → tally p (item ∷ []) ≡ (if p item then 1 else 0)
    unfolding tally
    one_item item = ground arith

    add_unless-total :
        (now : ℕ) (item : Item P) (key : Text) (b : Batcher P) (off : Bool)
        → IsDistinct b
        → (total p (if off then b else add_to now item key b (get text_discrete key b.opened))
            ≡ total p b + (if off then 0 else (if p item then 1 else 0)))
          × IsDistinct (if off then b else add_to now item key b (get text_discrete key b.opened))
    add_unless-total now item key b true d = (omega arith, d)
    add_unless-total now item key b false d =
        let o = get text_discrete key b.opened in
        (
          omega (arith, add_to-total now item key b o refl, one_item item),
          add_to-IsDistinct now item key b o d,
        )

    -- the items that one event brings in
    abbrev taken : Batcher P → Event P → ℕ
    taken b (adds now item) = if b.stopped then 0 else (if p item then 1 else 0)
    taken b _ = 0

    step-total :
        (b : Batcher P) (e : Event P)
        → IsDistinct b
        → (total p (step throws b e) ≡ total p b + taken b e) × IsDistinct (step throws b e)
    unfolding step
    step-total b (adds now item) d =
        let key = batch_key item.bot_id item.peer_id in
        unfold add in add_unless-total now item key b b.stopped d
    step-total b (fires now handle) d =
        let (same, d') = fire_found-total now handle b (get ℕ_discrete handle b.timers) d in
        (unfold fire in omega (arith, same), unfold fire in d')
    step-total b (flushes now) d =
        let (same, d') = close_all-total now b.opened b d in (omega (arith, same), d')
    step-total b (stops now) d =
        let (same, d') = close_all-total now b.opened (record b { stopped = true }) d in
        (omega (arith, same), d')
    step-total b starts d = (omega arith, d)
    step-total b (applies now silence_ms max_wait_ms) d =
        let (same, d') =
          arm_all-total now (map (λ e. e.0) b.opened)
            (record b {
              silence_ms = new_ms silence_ms 10000 b.silence_ms;
              max_wait_ms = new_ms max_wait_ms 20000 b.max_wait_ms;
            })
            d in
        (unfold apply_runtime_options in omega (arith, same), unfold apply_runtime_options in d')
    step-total b (settles seq failed) d = (omega arith, d)

    accepted-cons :
        (b : Batcher P) (e : Event P) (older : List (Event P))
        → accepted p throws b (e ∷ older) ≡ accepted p throws b older + taken (run throws b older) e
    unfolding accepted
    accepted-cons b (adds now item) older = ground arith
    accepted-cons b (fires now handle) older = omega arith
    accepted-cons b (flushes now) older = omega arith
    accepted-cons b (stops now) older = omega arith
    accepted-cons b starts older = omega arith
    accepted-cons b (applies now silence_ms max_wait_ms) older = omega arith
    accepted-cons b (settles seq failed) older = omega arith

    run-total :
        (b : Batcher P) (events : List (Event P))
        → IsDistinct b
        → (total p (run throws b events) ≡ total p b + accepted p throws b events)
          × IsDistinct (run throws b events)
    unfolding run accepted
    run-total b [] d = (omega arith, d)
    run-total b (e ∷ older) d =
        let (same, d') = run-total b older d in
        let (one, d'') = step-total (run throws b older) e d' in
        (omega (arith, same, one, accepted-cons b e older), d'')

    close_found-opened :
        (now : ℕ) (key : Text) (b : Batcher P) (batch : OpenBatch P)
        → (close_found throws now key batch.seq b (some batch)).opened
          ≡ delete text_discrete key b.opened
    unfolding close_found
    close_found-opened now key b batch = rw (==_refl batch.seq) (
        (hand_over-total now batch
          (record b {
            opened = delete text_discrete key b.opened;
            timers = clear_timeout batch.timer b.timers;
          })
          (get_last batch.items) refl).1)

    delete_head :
        (key : Text) (batch : OpenBatch P) (m : Map Text (OpenBatch P))
        → get text_discrete key m ≡ none
        → delete text_discrete key ((key, batch) ∷ m) ≡ m
    unfolding delete
    delete_head key batch m e = ground (arith, delete_absent p key m)

    get_head :
        (key : Text) (batch : OpenBatch P) (m : Map Text (OpenBatch P))
        → get text_discrete key ((key, batch) ∷ m) ≡ some batch
    unfolding get
    get_head key batch m = ground arith

    head_closed :
        (now : ℕ) (key : Text) (batch : OpenBatch P) (rest : Map Text (OpenBatch P)) (b : Batcher P)
        → b.opened ≡ (key, batch) ∷ rest
        → get text_discrete key rest ≡ none
        → (close throws now key batch.seq b).opened ≡ rest
    unfolding close
    head_closed now key batch rest b e fresh =
        ap (λ o. (close_found throws now key batch.seq b o).opened)
          (ap (get text_discrete key) e ∙ get_head key batch rest)
        ∙ close_found-opened now key b batch
        ∙ ap (delete text_discrete key) e
        ∙ delete_head key batch rest fresh

    close_all-opened :
        (now : ℕ) (entries : Map Text (OpenBatch P)) (b : Batcher P)
        → b.opened ≡ entries
        → Distinct text_discrete entries
        → (close_all throws now entries b).opened ≡ []
    unfolding close_all
    close_all-opened now [] b e d = e
    close_all-opened now ((key, batch) ∷ entries) b e (fresh, d) =
        close_all-opened now entries (close throws now key batch.seq b)
          (head_closed now key batch entries b e fresh) d

module _ {P : Type 0} (throws : ReplyBatch P → Bool) (silence_ms max_wait_ms : Option ℕ)
    (p : Item P → Bool) (events : List (Event P)) where
  abbrev reached : Batcher P
  reached = run throws (new silence_ms max_wait_ms) events

  new-total : total p (new silence_ms max_wait_ms) ≡ 0
  unfolding waiting delivered
  new-total = refl

  -- Whatever happens, timers, flushes, changes of the options and failing callbacks included, and for
  -- every test on items: the accepted items that pass it are those in open batches and those handed
  -- over in closed ones, each as often as it was accepted. No item is lost, doubled or made up.
  pub run-keeps_items :
      waiting p reached.opened + delivered p reached.closed
      ≡ accepted p throws (new silence_ms max_wait_ms) events
  run-keeps_items =
      omega (arith, (run-total p throws (new silence_ms max_wait_ms) events tt).0, new-total)

  -- `stop` leaves no batch open, so that every accepted item has been handed over.
  pub stop-delivers :
      (now : ℕ)
      → ((stop throws now reached).opened ≡ [])
        × (delivered p (stop throws now reached).closed
            ≡ accepted p throws (new silence_ms max_wait_ms) events)
  unfolding waiting
  stop-delivers now =
      let (same, d) = run-total p throws (new silence_ms max_wait_ms) events tt in
      let stopping : Batcher P = record reached { stopped = true } in
      let empty = close_all-opened p throws now reached.opened stopping refl d in
      let (kept, _) = close_all-total p throws now reached.opened stopping d in
      (empty, omega (arith, same, kept, new-total, ap (waiting p) empty))
