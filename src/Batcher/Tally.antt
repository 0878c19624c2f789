-- ===== src/Batcher/Tally.antt =====
-- Counting the items that wait in open batches and those handed over.
use we_chat_ai.Base.{
  ℕ, ◌+◌, ◌≡◌, refl, Bool, none, some, List, [], ◌∷◌, ◌++◌, arith, Text, text_discrete,
  if◌then◌else◌,
}
use we_chat_ai.JsMap.{Map, get, set, delete, Distinct}
use we_chat_ai.Batcher.State.{Item, ReplyBatch, OpenBatch, Batcher, Event, adds, run}

-- How many items pass a test.
unfoldable pub tally : {A : Type 0} → (A → Bool) → List A → ℕ
tally p [] = 0
tally p (x ∷ xs) = let rest = tally p xs in if p x then rest + 1 else rest

pub tally-append :
    {A : Type 0} (p : A → Bool) (xs ys : List A) → tally p (xs ++ ys) ≡ tally p xs + tally p ys
unfolding tally
tally-append p [] ys = omega arith
tally-append p (x ∷ xs) ys = ground (arith, tally-append p xs ys)

module _ {P : Type 0} (p : Item P → Bool) where
  -- The items that wait, and those handed over.
  unfoldable pub waiting : Map Text (OpenBatch P) → ℕ
  unfolding tally
  waiting [] = 0
  waiting ((key, batch) ∷ m) = tally p batch.items + waiting m

  unfoldable pub delivered : List (ReplyBatch P) → ℕ
  unfolding tally
  delivered [] = 0
  delivered (batch ∷ closed) = tally p batch.items + delivered closed

  abbrev pub total : Batcher P → ℕ
  total b = waiting b.opened + delivered b.closed

  -- The items that `add` took: those that came while the batcher was not stopped.
  unfoldable pub accepted : (ReplyBatch P → Bool) → Batcher P → List (Event P) → ℕ
  accepted throws b [] = 0
  accepted throws b (adds now item ∷ older) =
      let rest = accepted throws b older in
      if (run throws b older).stopped then rest else (if p item then rest + 1 else rest)
  accepted throws b (_ ∷ older) = accepted throws b older

  pub delivered-append :
      (closed : List (ReplyBatch P)) (batch : ReplyBatch P)
      → delivered (closed ++ batch ∷ []) ≡ delivered closed + tally p batch.items
  unfolding delivered
  delivered-append [] batch = omega arith
  delivered-append (c ∷ closed) batch = omega (arith, delivered-append closed batch)

  pub waiting-set_new :
      (key : Text) (batch : OpenBatch P) (m : Map Text (OpenBatch P))
      → get text_discrete key m ≡ none
      → waiting (set text_discrete key batch m) ≡ waiting m + tally p batch.items
  unfolding waiting get set
  waiting-set_new key batch [] e = omega arith
  waiting-set_new key batch ((k, c) ∷ m) e = ground (arith, waiting-set_new key batch m)

  pub waiting-set :
      (key : Text) (old batch : OpenBatch P) (m : Map Text (OpenBatch P))
      → get text_discrete key m ≡ some old
      → waiting (set text_discrete key batch m) + tally p old.items
        ≡ waiting m + tally p batch.items
  unfolding waiting get set
  waiting-set key old batch [] e = cc
  waiting-set key old batch ((k, c) ∷ m) e = ground (arith, waiting-set key old batch m)

  pub delete_absent :
      (key : Text) (m : Map Text (OpenBatch P))
      → get text_discrete key m ≡ none
      → delete text_discrete key m ≡ m
  unfolding get delete
  delete_absent key [] e = refl
  delete_absent key ((k, c) ∷ m) e = ground (arith, delete_absent key m)

  pub waiting-delete :
      (key : Text) (old : OpenBatch P) (m : Map Text (OpenBatch P))
      → Distinct text_discrete m
      → get text_discrete key m ≡ some old
      → waiting (delete text_discrete key m) + tally p old.items ≡ waiting m
  unfolding waiting get delete
  waiting-delete key old [] d e = cc
  waiting-delete key old ((k, c) ∷ m) (fresh, d) e = elim (text_discrete k key) [
    | yes q ↦ ground (arith, delete_absent key m)
    | no q ↦ ground (arith, waiting-delete key old m)
  ]
