-- ===== src/Fleet/Plan/Exact.antt =====
-- The targets sum to the bots there are, or to all that the nodes can hold.
use we_chat_ai.Base.{
  ℕ, zero, suc, ◌+◌, ◌-◌, ◌*◌, ◌^◌, ◌≤◌, ◌<◌, ◌≡◌, ◌≢◌, refl, ap, ◌∙◌, min, Bool, false, Option,
  some, List, [], ◌∷◌, arith, ◌==◌, if◌then◌else◌, length, keep_if, any_of, not, Text,
  text_discrete, ite, All, inl, inr, Bool-cases,
}
use we_chat_ai.JsMap.{Map, get, set, get-set_ne, get-set_self, get-set}
use we_chat_ai.Fleet.Shed.{sum_by}
use we_chat_ai.Fleet.Plan.{
  Float, Node, Row, round, assign, pin, is_over, is_capped, cap_of, text_eq, plan_loop, zeros,
  compute_weighted_targets, id_before, sort_by, placed, plan_node_load,
}
use we_chat_ai.Fleet.Plan.Sums.{
  sum_by-sort_by, sort_by-All, keep_if-All, sum_by-length, sum_by-keep_if, sum_by-if, sum_by_congr,
  Apart, sort_by-Apart, keep_if-Apart, placed-set,
}
use we_chat_ai.Fleet.Plan.Round.{row_id, sum_alloc-round, sum_node-round, round-All, round-Apart}

-- A node with no cap takes any number of bots.
abbrev pub uncapped : List Node → ℕ
uncapped = sum_by (λ n. if cap_of n == 0 then 1 else 0)

-- How many of `total` bots the nodes can hold.
abbrev pub placeable : ℕ → List Node → ℕ
placeable total nodes = if uncapped nodes == 0 then min total (sum_by cap_of nodes) else total

abbrev IsZero : Map Text ℕ → Text → Type 0
IsZero out id = get text_discrete id out ≡ some 0

module _ (float : Float) where
  IsZero-kept :
      (id : Text) (v : ℕ) (rows : List (Row float)) (out : Map Text ℕ)
      → All (λ r. id ≢ r.node.id) rows
      → All (λ r. IsZero out r.node.id) rows
      → All (λ r. IsZero (set text_discrete id v out) r.node.id) rows
  IsZero-kept id v [] out a z = tt
  IsZero-kept id v (r ∷ rows) out (p, a) (z, zs) =
      (get-set_ne text_discrete id r.node.id v out p ∙ z, IsZero-kept id v rows out a zs)

  placed-assign :
      (rows : List (Row float)) (out : Map Text ℕ)
      → Apart (row_id float) rows
      → All (λ r. IsZero out r.node.id) rows
      → placed (assign float rows out) ≡ placed out + sum_by (λ r. r.alloc) rows
  unfolding assign
  placed-assign [] out a z = omega arith
  placed-assign (r ∷ rows) out (p, a) (z, zs) = omega (
    arith,
    placed-assign rows (set text_discrete r.node.id r.alloc out) a
        (IsZero-kept r.node.id r.alloc rows out p zs),
    placed-set r.node.id 0 r.alloc out z,
  )

  placed-pin :
      (rows : List (Row float)) (out : Map Text ℕ)
      → Apart (row_id float) rows
      → All (λ r. IsZero out r.node.id) rows
      → placed (pin float rows out) ≡ placed out + sum_by (λ r. cap_of r.node) rows
  unfolding pin
  placed-pin [] out a z = omega arith
  placed-pin (r ∷ rows) out (p, a) (z, zs) = omega (
    arith,
    placed-pin rows (set text_discrete r.node.id (cap_of r.node) out) a
        (IsZero-kept r.node.id (cap_of r.node) rows out p zs),
    placed-set r.node.id 0 (cap_of r.node) out z,
  )

  -- A node whose id is not pinned keeps its entry.
  get-pin :
      (id : Text) (rows : List (Row float)) (out : Map Text ℕ)
      → any_of (λ r. text_eq r.node.id id) rows ≡ false
      → get text_discrete id (pin float rows out) ≡ get text_discrete id out
  unfolding pin
  get-pin id [] out e = refl
  get-pin id (r ∷ rows) out e = ground (
    arith,
    get-pin id rows (set text_discrete r.node.id (cap_of r.node) out),
    get-set text_discrete r.node.id id (cap_of r.node) out,
  )

  zeros_left :
      (over : List (Row float)) (pool : List Node) (out : Map Text ℕ)
      → All (λ n. IsZero out n.id) pool
      → All
          (λ n. IsZero (pin float over out) n.id)
          (keep_if (λ n. not (is_capped float over n)) pool)
  zeros_left over [] out z = tt
  zeros_left over (n ∷ pool) out (z, zs) = elim (Bool-cases (is_capped float over n)) [
    | inl pinned ↦ rw pinned (zeros_left over pool out zs)
    | inr kept ↦ rw kept (get-pin n.id over out kept ∙ z, zeros_left over pool out zs)
  ]

  -- Among rows with different ids, the capped ones are those that are over.
  not_capped :
      (q : Row float → Bool) (n : Node) (rows : List (Row float))
      → All (λ r. n.id ≢ r.node.id) rows
      → is_capped float (keep_if q rows) n ≡ false
  not_capped q n [] a = refl
  not_capped q n (r ∷ rows) (p, a) = ground (arith, not_capped q n rows a)

  capped_more :
      (q : Row float → Bool) (x : Row float) (kept rows : List (Row float))
      → All (λ r. row_id float x ≢ r.node.id) rows
      → All (λ r. is_capped float kept r.node ≡ q r) rows
      → All (λ r. is_capped float (if q x then x ∷ kept else kept) r.node ≡ q r) rows
  capped_more q x kept [] a h = tt
  capped_more q x kept (r ∷ rows) (p, a) (e, h) = (ground arith, capped_more q x kept rows a h)

  capped-eq :
      (q : Row float → Bool) (rows : List (Row float))
      → Apart (row_id float) rows
      → All (λ r. is_capped float (keep_if q rows) r.node ≡ q r) rows
  capped-eq q [] a = tt
  capped-eq q (r ∷ rows) (p, a) = (
    ground (arith, not_capped q r.node rows p),
    capped_more q r (keep_if q rows) rows p (capped-eq q rows a),
  )

  -- A sum over a pool is one over the nodes that stay and one over the rows that are pinned.
  split_pool :
      (f : Node → ℕ) (remaining : ℕ) (pool : List Node)
      → Apart (λ n. n.id) pool
      → sum_by f (
            keep_if
              (λ n. not (is_capped float (keep_if (is_over float) (round float remaining pool)) n))
              pool)
          + sum_by (λ r. f r.node) (keep_if (is_over float) (round float remaining pool))
        ≡ sum_by f pool
  split_pool f remaining pool a =
      let rows = round float remaining pool in
      let over = keep_if (is_over float) rows in
      let capped : Node → Bool = is_capped float over in
      omega (
        arith,
        sum_by-keep_if f capped pool,
        sum_by-if f capped pool,
        sum_node-round float (λ n. if capped n then f n else 0) remaining pool,
        sum_by_congr (λ r. if capped r.node then f r.node else 0)
            (λ r. if is_over float r then f r.node else 0) rows
            (over_congr f capped rows
              (capped-eq (is_over float) rows (round-Apart float remaining pool a))),
        sum_by-if (λ r. f r.node) (is_over float) rows,
      )
    where
      over_congr :
          (g : Node → ℕ) (capped : Node → Bool) (xs : List (Row float))
          → All (λ r. capped r.node ≡ is_over float r) xs
          → All
              (λ r.
                (if capped r.node then g r.node else 0) ≡ (if is_over float r then g r.node else 0))
              xs
      over_congr g capped [] h = tt
      over_congr g capped (r ∷ xs) (e, h) =
          (ap (λ b. if b then g r.node else 0) e, over_congr g capped xs h)

  -- The rows that are over their cap have one, and were given more.
  over_facts :
      (rows : List (Row float))
      → (sum_by (λ r. if cap_of r.node == 0 then 1 else 0) (keep_if (is_over float) rows) ≡ 0)
        × (sum_by (λ r. cap_of r.node) (keep_if (is_over float) rows) ≤ sum_by (λ r. r.alloc) rows)
  over_facts [] = (refl, omega arith)
  over_facts (r ∷ rows) = ground (arith, over_facts rows)

  -- Where no row is over its cap and every node has one, the caps suffice.
  under_caps :
      (rows : List (Row float))
      → keep_if (is_over float) rows ≡ []
      → sum_by (λ r. if cap_of r.node == 0 then 1 else 0) rows ≡ 0
      → sum_by (λ r. r.alloc) rows ≤ sum_by (λ r. cap_of r.node) rows
  under_caps [] e z = omega arith
  under_caps (r ∷ rows) e z = ground (arith, under_caps rows)

  by_rows :
      (over : List (Row float)) (a b : Map Text ℕ) (n : ℕ)
      → (over ≡ [] → placed a ≡ n)
      → ((o : Row float) (os : List (Row float)) → over ≡ o ∷ os → placed b ≡ n)
      → placed (elim over [ [] ↦ a | _ ↦ b ]) ≡ n
  by_rows [] a b n none_over some_over = none_over refl
  by_rows (o ∷ os) a b n none_over some_over = some_over o os refl

  module _ (remaining : ℕ) (pool : List Node) (out : Map Text ℕ) (small : remaining * 500 < 2 ^ 53)
      (positive : 0 < length pool) (apart : Apart (λ n. n.id) pool)
      (zero : All (λ n. IsZero out n.id) pool) where
    abbrev rows : List (Row float)
    rows = round float remaining pool

    abbrev over : List (Row float)
    over = keep_if (is_over float) rows

    rows-Apart : Apart (row_id float) rows
    rows-Apart = round-Apart float remaining pool apart

    rows-IsZero : All (λ r. IsZero out r.node.id) rows
    rows-IsZero = round-All float (λ n. IsZero out n.id) remaining pool zero

    settled : over ≡ [] → placed (assign float rows out) ≡ placed out + placeable remaining pool
    settled e = ground (
      arith,
      placed-assign rows out rows-Apart rows-IsZero,
      sum_alloc-round float remaining pool small positive,
      under_caps rows e,
      sum_node-round float (λ n. if cap_of n == 0 then 1 else 0) remaining pool,
      sum_node-round float cap_of remaining pool,
    )

    abbrev rest : List Node
    rest = keep_if (λ n. not (is_capped float over n)) pool

    abbrev less : ℕ
    less = remaining - sum_by (λ r. cap_of r.node) over

    pinned :
        placed (pin float over out) + placeable less rest ≡ placed out + placeable remaining pool
    pinned = ground (
      arith,
      placed-pin over out (keep_if-Apart (row_id float) (is_over float) rows rows-Apart)
          (keep_if-All (λ r. IsZero out r.node.id) (is_over float) rows rows-IsZero),
      split_pool (λ n. if cap_of n == 0 then 1 else 0) remaining pool apart,
      split_pool cap_of remaining pool apart,
      over_facts rows,
      sum_alloc-round float remaining pool small positive,
    )

    fewer : (o : Row float) (os : List (Row float)) → over ≡ o ∷ os → length rest < length pool
    fewer o os e = omega (
      arith,
      split_pool (λ n. 1) remaining pool apart,
      sum_by-length rest,
      sum_by-length pool,
      sum_by-length over,
      ap length e,
    )

  loop_exact :
      (fuel : ℕ) (pool : List Node) (remaining : ℕ) (out : Map Text ℕ)
      → length pool ≤ fuel
      → remaining * 500 < 2 ^ 53
      → Apart (λ n. n.id) pool
      → All (λ n. IsZero out n.id) pool
      → placed (plan_loop float fuel pool remaining out) ≡ placed out + placeable remaining pool
  unfolding plan_loop
  loop_exact zero [] remaining out le small a z = omega arith
  loop_exact zero (n ∷ ns) remaining out le small a z = absurd (omega arith)
  loop_exact (suc fuel) [] remaining out le small a z = omega arith
  loop_exact (suc fuel) (n ∷ ns) remaining out le small a z =
      let pool : List Node = n ∷ ns in
      let pos : 0 < length pool = omega arith in
      let left = rest remaining pool out small pos a z in
      let less_left = less remaining pool out small pos a z in
      let pinned_out = pin float (over remaining pool out small pos a z) out in
      elim (Bool-cases (remaining == 0)) [
        | inl done ↦ rw done (ground arith)
        | inr more ↦ rw more (
            by_rows (over remaining pool out small pos a z) _ _ _
              (settled remaining pool out small pos a z)
              (λ o os e. omega (
                arith,
                loop_exact fuel left less_left pinned_out
                    (omega (arith, fewer remaining pool out small pos a z o os e)) (omega arith)
                    (keep_if-Apart (λ m. m.id)
                      (λ m. not (is_capped float (over remaining pool out small pos a z) m)) pool a)
                    (zeros_left (over remaining pool out small pos a z) pool out z),
                pinned remaining pool out small pos a z,
              )))
      ]

zeros-kept :
    (id : Text) (nodes : List Node) (out : Map Text ℕ) → IsZero out id → IsZero (zeros nodes out) id
unfolding zeros
zeros-kept id [] out z = z
zeros-kept id (n ∷ nodes) out z =
    zeros-kept id nodes (set text_discrete n.id 0 out)
      (rw (get-set text_discrete n.id id 0 out) (kept id z))
  where
    kept :
        (j : Text)
        → IsZero out j
        → ite (text_discrete n.id j) (some 0) (get text_discrete j out) ≡ some 0
    kept j e = ground arith

zeros-IsZero :
    (nodes : List Node) (out : Map Text ℕ) → All (λ n. IsZero (zeros nodes out) n.id) nodes
unfolding zeros
zeros-IsZero [] out = tt
zeros-IsZero (n ∷ nodes) out = (
  zeros-kept n.id nodes (set text_discrete n.id 0 out) (get-set_self text_discrete n.id 0 out),
  zeros-IsZero nodes (set text_discrete n.id 0 out),
)

abbrev AllZeroes : Map Text ℕ → Type 0
AllZeroes [] = Unit
AllZeroes ((id, v) ∷ out) = (v ≡ 0) × AllZeroes out

set-AllZeroes :
    (id : Text) (out : Map Text ℕ) → AllZeroes out → AllZeroes (set text_discrete id 0 out)
unfolding set
set-AllZeroes id [] h = (refl, tt)
set-AllZeroes id ((k, v) ∷ out) (p, h) = ground (arith, set-AllZeroes id out)

AllZeroes-placed : (out : Map Text ℕ) → AllZeroes out → placed out ≡ 0
AllZeroes-placed [] h = refl
AllZeroes-placed ((id, v) ∷ out) (p, h) = omega (arith, AllZeroes-placed out h)

zeros-AllZeroes :
    (nodes : List Node) (out : Map Text ℕ) → AllZeroes out → AllZeroes (zeros nodes out)
unfolding zeros
zeros-AllZeroes [] out h = h
zeros-AllZeroes (n ∷ nodes) out h =
    zeros-AllZeroes nodes (set text_discrete n.id 0 out) (set-AllZeroes n.id out h)

-- The targets of nodes with different ids sum to the number of bots; or, where every node has a cap
-- and the caps together are less, to the caps. No bot is stranded by rounding and none is counted
-- twice, whatever the weights are, all zero included, and however the remainders compare. The
-- counts are those at which the quotients are exact.
pub placed-compute_weighted_targets :
    (float : Float) (nodes : List Node) (total : ℕ)
    → Apart (λ n. n.id) nodes
    → total * 500 < 2 ^ 53
    → placed (compute_weighted_targets float nodes total) ≡ placeable total nodes
unfolding compute_weighted_targets
placed-compute_weighted_targets float nodes total apart small =
    let pool = sort_by id_before nodes in
    ground (
      arith,
      loop_exact float (length nodes) pool total (zeros nodes [])
          (omega (
            arith,
            sum_by-length pool,
            sum_by-length nodes,
            sum_by-sort_by (λ n. 1) id_before nodes,
          ))
          small (sort_by-Apart (λ n. n.id) id_before nodes apart)
          (sort_by-All (λ n. IsZero (zeros nodes []) n.id) id_before nodes (zeros-IsZero nodes [])),
      AllZeroes-placed (zeros nodes []) (zeros-AllZeroes nodes [] tt),
      sum_by-sort_by cap_of id_before nodes,
      sum_by-sort_by (λ n. if cap_of n == 0 then 1 else 0) id_before nodes,
    )

-- The number of bots that a node's plan reports as unplaceable is what the caps leave over, whatever
-- the node and its slack are.
pub plan_node_load-unplaceable :
    (float : Float) (self_id : Text) (nodes : List Node) (total : ℕ) (slack : Option ℕ)
    → Apart (λ n. n.id) nodes
    → total * 500 < 2 ^ 53
    → (plan_node_load float self_id nodes total slack).unplaceable + placeable total nodes ≡ total
unfolding plan_node_load
plan_node_load-unplaceable float self_id nodes total slack apart small =
    ground (arith, placed-compute_weighted_targets float nodes total apart small)
