-- ===== src/Fleet/Plan/Round.antt =====
-- One round of the planner hands out exactly what remains.
use native.Mathlib.Nat.{div-add-mod, mod-lt, le_of_mul-le-mul_right, mul-le-mul_left}
use we_chat_ai.Base.{
  ℕ, zero, suc, ◌+◌, ◌-◌, ◌*◌, ◌/◌, ◌^◌, ◌≤◌, ◌<◌, ◌≡◌, ◌≢◌, refl, min, Bool, true, false, List, [],
  ◌∷◌, arith, ltb, if◌then◌else◌, length, map, Text, All, inl, inr, Bool-cases,
}
use we_chat_ai.Fleet.Weight.{weight_or_default-le}
use we_chat_ai.Fleet.Shed.{sum_by}
use we_chat_ai.Fleet.Plan.{
  Float, Node, Row, exact_share, make_row, row_before, hand_out, round, sort_by, node_weight,
}
use we_chat_ai.Fleet.Plan.Sums.{sum_by-sort_by, sort_by-All, sum_by-length, Apart, sort_by-Apart}

floor_low : (a d : ℕ) → 0 < d → a / d * d ≤ a
floor_low a d h = omega (arith, div-add-mod a d)

floor_high : (a d : ℕ) → 0 < d → a ≤ (a / d + 1) * d
floor_high a d h = omega (arith, div-add-mod a d, mod-lt a h)

abbrev floored : {A : Type 0} → (A → ℕ) → ℕ → ℕ → A → ℕ
floored e r d x = r * e x / d

module _ {A : Type 0} (e : A → ℕ) (r d : ℕ) (pos : 0 < d) where
  floors_low : (xs : List A) → sum_by (floored e r d) xs * d ≤ r * sum_by e xs
  floors_low [] = omega arith
  floors_low (x ∷ xs) = omega (arith, floors_low xs, floor_low (r * e x) d pos)

  floors_high : (xs : List A) → r * sum_by e xs ≤ (sum_by (floored e r d) xs + length xs) * d
  floors_high [] = omega arith
  floors_high (x ∷ xs) = omega (arith, floors_high xs, floor_high (r * e x) d pos)

-- The floors of all shares miss the total by at most one for each share.
floors_bounds :
    {A : Type 0} (e : A → ℕ) (r d : ℕ) (xs : List A)
    → 0 < d
    → sum_by e xs ≡ d
    → (sum_by (floored e r d) xs ≤ r) × (r ≤ sum_by (floored e r d) xs + length xs)
floors_bounds e r d xs pos whole = (
  le_of_mul-le-mul_right (rw whole at (floors_low e r d pos xs)) pos,
  le_of_mul-le-mul_right (rw whole at (floors_high e r d pos xs)) pos,
)

module _ (float : Float) where
  sum_alloc-hand_out :
      (left : ℕ) (rows : List (Row float))
      → sum_by (λ r. r.alloc) (hand_out float left rows)
        ≡ sum_by (λ r. r.alloc) rows + min left (length rows)
  unfolding hand_out
  sum_alloc-hand_out zero [] = omega arith
  sum_alloc-hand_out (suc left) [] = omega arith
  sum_alloc-hand_out zero (r ∷ rows) = omega arith
  sum_alloc-hand_out (suc left) (r ∷ rows) = omega (arith, sum_alloc-hand_out left rows)

  sum_node-hand_out :
      (g : Node → ℕ) (left : ℕ) (rows : List (Row float))
      → sum_by (λ r. g r.node) (hand_out float left rows) ≡ sum_by (λ r. g r.node) rows
  unfolding hand_out
  sum_node-hand_out g zero [] = refl
  sum_node-hand_out g (suc left) [] = refl
  sum_node-hand_out g zero (r ∷ rows) = refl
  sum_node-hand_out g (suc left) (r ∷ rows) = omega (arith, sum_node-hand_out g left rows)

  hand_out-All :
      (P : Node → Type 0) (left : ℕ) (rows : List (Row float))
      → All (λ r. P r.node) rows
      → All (λ r. P r.node) (hand_out float left rows)
  unfolding hand_out
  hand_out-All P zero [] h = tt
  hand_out-All P (suc left) [] h = tt
  hand_out-All P zero (r ∷ rows) h = h
  hand_out-All P (suc left) (r ∷ rows) (p, h) = (p, hand_out-All P left rows h)

  abbrev pub row_id : Row float → Text
  row_id r = r.node.id

  hand_out-Apart :
      (left : ℕ) (rows : List (Row float))
      → Apart row_id rows
      → Apart row_id (hand_out float left rows)
  unfolding hand_out
  hand_out-Apart zero [] h = tt
  hand_out-Apart (suc left) [] h = tt
  hand_out-Apart zero (r ∷ rows) h = h
  hand_out-Apart (suc left) (r ∷ rows) (p, h) =
      (hand_out-All (λ n. r.node.id ≢ n.id) left rows p, hand_out-Apart left rows h)

  module _ (remaining total_weight size : ℕ) where
    abbrev made : List Node → List (Row float)
    made = map (make_row float remaining total_weight size)

    sum_node-made :
        (g : Node → ℕ) (pool : List Node) → sum_by (λ r. g r.node) (made pool) ≡ sum_by g pool
    sum_node-made g [] = refl
    sum_node-made g (n ∷ pool) = omega (arith, sum_node-made g pool)

    made-All : (P : Node → Type 0) (pool : List Node) → All P pool → All (λ r. P r.node) (made pool)
    made-All P [] h = tt
    made-All P (n ∷ pool) (p, h) = (p, made-All P pool h)

    made-Apart : (pool : List Node) → Apart (λ n. n.id) pool → Apart row_id (made pool)
    made-Apart [] a = tt
    made-Apart (n ∷ pool) (p, a) = (made-All (λ m. n.id ≢ m.id) pool p, made-Apart pool a)

    -- the weight that a node has in this round, and what the shares are divided by
    abbrev effective : Node → ℕ
    effective n = if ltb 0 total_weight then node_weight n else 1

    abbrev divisor : ℕ
    divisor = if ltb 0 total_weight then total_weight else size

    alloc-made :
        (n : Node)
        → remaining * 500 < 2 ^ 53
        → 0 < size
        → float.floor (exact_share float remaining total_weight size (node_weight n))
          ≡ floored effective remaining divisor n
    unfolding exact_share
    alloc-made n small pos = elim (Bool-cases (ltb 0 total_weight)) [
      | inl weighted ↦ rw weighted (
          float.floor-div (remaining * node_weight n) total_weight
            (omega (arith, mul-le-mul_left remaining (weight_or_default-le n.weight)))
            (ground arith))
      | inr even ↦
          let same : remaining * 1 ≡ remaining = omega arith in
          rw (even, same) (float.floor-div remaining size (omega arith) pos)
    ]

    allocs-made :
        (pool : List Node)
        → remaining * 500 < 2 ^ 53
        → 0 < size
        → sum_by (λ r. r.alloc) (made pool) ≡ sum_by (floored effective remaining divisor) pool
    allocs-made [] small pos = refl
    allocs-made (n ∷ pool) small pos =
        omega (arith, alloc-made n small pos, allocs-made pool small pos)

  ones-length : (xs : List Node) → sum_by (λ n. 1) xs ≡ length xs
  ones-length = sum_by-length

  whole_share :
      (weighted : Bool) (pool : List Node)
      → sum_by (λ n. if weighted then node_weight n else 1) pool
        ≡ (if weighted then sum_by node_weight pool else length pool)
  whole_share true pool = refl
  whole_share false pool = ones-length pool

  divisor-effective :
      (remaining : ℕ) (pool : List Node)
      → 0 < length pool
      → (0 < divisor remaining (sum_by node_weight pool) (length pool))
        × (sum_by (effective remaining (sum_by node_weight pool) (length pool)) pool
            ≡ divisor remaining (sum_by node_weight pool) (length pool))
  divisor-effective remaining pool pos = elim (Bool-cases (ltb 0 (sum_by node_weight pool))) [
    | inl weighted ↦
        (rw weighted (ground arith), whole_share (ltb 0 (sum_by node_weight pool)) pool)
    | inr even ↦ (rw even pos, whole_share (ltb 0 (sum_by node_weight pool)) pool)
  ]

  -- What the rows of a round are given sums to what remained before it.
  pub sum_alloc-round :
      (remaining : ℕ) (pool : List Node)
      → remaining * 500 < 2 ^ 53
      → 0 < length pool
      → sum_by (λ r. r.alloc) (round float remaining pool) ≡ remaining
  unfolding round
  sum_alloc-round remaining pool small pos =
      let w = sum_by node_weight pool in
      let k = length pool in
      let rows = made remaining w k pool in
      let (positive, whole) = divisor-effective remaining pool pos in
      let (low, high) =
        floors_bounds (effective remaining w k) remaining (divisor remaining w k) pool positive
          whole in
      omega (
        arith,
        low,
        high,
        allocs-made remaining w k pool small pos,
        sum_alloc-hand_out (remaining - sum_by (λ r. r.alloc) rows)
            (sort_by (row_before float) rows),
        sum_by-sort_by (λ r. r.alloc) (row_before float) rows,
        sum_by-sort_by (λ r. 1) (row_before float) rows,
        sum_by-length (sort_by (row_before float) rows),
        sum_node-made remaining w k (λ n. 1) pool,
        ones-length pool,
      )

  -- The rows of a round are the nodes of its pool, in another order.
  pub sum_node-round :
      (g : Node → ℕ) (remaining : ℕ) (pool : List Node)
      → sum_by (λ r. g r.node) (round float remaining pool) ≡ sum_by g pool
  unfolding round
  sum_node-round g remaining pool =
      let rows = made remaining (sum_by node_weight pool) (length pool) pool in
      omega (
        arith,
        sum_node-hand_out g (remaining - sum_by (λ r. r.alloc) rows)
            (sort_by (row_before float) rows),
        sum_by-sort_by (λ r. g r.node) (row_before float) rows,
        sum_node-made remaining (sum_by node_weight pool) (length pool) g pool,
      )

  pub round-All :
      (P : Node → Type 0) (remaining : ℕ) (pool : List Node)
      → All P pool
      → All (λ r. P r.node) (round float remaining pool)
  unfolding round
  round-All P remaining pool h = hand_out-All P _ _ (
      sort_by-All (λ r. P r.node) (row_before float) _
        (made-All remaining (sum_by node_weight pool) (length pool) P pool h))

  pub round-Apart :
      (remaining : ℕ) (pool : List Node)
      → Apart (λ n. n.id) pool
      → Apart row_id (round float remaining pool)
  unfolding round
  round-Apart remaining pool a = hand_out-Apart _ _ (
      sort_by-Apart row_id (row_before float) _
        (made-Apart remaining (sum_by node_weight pool) (length pool) pool a))
