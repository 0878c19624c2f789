-- ===== src/Fleet/Plan.antt =====
-- `computeWeightedTargets` and `planNodeLoad` of packages/db/src/worker-fleet.ts. Quotients are
-- floating-point numbers in the source; they enter as the record `Float`. `Array.prototype.sort` is a
-- stable sort by the comparator, here by insertion. The rows that `alloc++` changes are carried in
-- the sorted order; `out` is read by id, so that their order does not show.
mod Sums
mod Round
pub mod Exact
use we_chat_ai.Base.{
  ℕ, zero, suc, ◌+◌, ◌-◌, ◌*◌, ◌/◌, ◌^◌, ◌≤◌, ◌<◌, ◌≡◌, max, min, Bool, true, false, ◌&&◌, Option,
  none, some, List, [], ◌∷◌, arith, ltb, leb, ◌==◌, if◌then◌else◌, length, map, keep_if, any_of,
  not, Text, text_discrete,
}
use we_chat_ai.JsMap.{Map, get, set}
use we_chat_ai.Base.{Number}
use we_chat_ai.Fleet.Weight.{weight_or_default}
use we_chat_ai.Fleet.Shed.{sum_by, get_or, claim_cap_for_target}

-- What the planner uses of floating point: division, `Math.floor`, and the sign of
-- `(b - nb) - (a - na)`, by which the rows are sorted. Below 2^53 the floor of a rounded quotient
-- is the quotient of the integers.
pub record Float : Type 1 where
  pub F : Type 0
  pub div : ℕ → ℕ → F
  pub floor : F → ℕ
  pub gap_is_negative : F → ℕ → F → ℕ → Bool
  pub gap_is_zero : F → ℕ → F → ℕ → Bool
  pub floor-div : (a b : ℕ) → a < 2 ^ 53 → 0 < b → floor (div a b) ≡ a / b

pub record Node : Type 0 where
  pub id : Text
  pub weight : Option Number
  pub max_bots : Option ℕ

abbrev pub text_eq : Text → Text → Bool
text_eq s t = elim (text_discrete s t) [ yes p ↦ true | no p ↦ false ]

-- `<` on JavaScript strings
unfoldable pub text_lt : Text → Text → Bool
text_lt [] [] = false
text_lt [] (d ∷ t) = true
text_lt (c ∷ s) [] = false
text_lt (c ∷ s) (d ∷ t) = let rest = text_lt s t in if c == d then rest else ltb c d

-- A stable sort; `before y x` says that the comparator puts `y` before `x`.
pub insert_by : {A : Type 0} → (A → A → Bool) → A → List A → List A
insert_by before x [] = x ∷ []
insert_by before x (y ∷ ys) =
    let rest = insert_by before x ys in if before y x then y ∷ rest else x ∷ y ∷ ys

unfoldable pub sort_by : {A : Type 0} → (A → A → Bool) → List A → List A
unfolding insert_by
sort_by before [] = []
sort_by before (x ∷ xs) = insert_by before x (sort_by before xs)

-- `Number(maxBots || 0)`; 0 is no cap
abbrev pub cap_of : Node → ℕ
cap_of n = get_or n.max_bots 0

abbrev pub node_weight : Node → ℕ
node_weight n = weight_or_default n.weight

module _ (float : Float) where
  pub record Row : Type 0 where
    pub node : Node
    pub exact : float.F
    pub alloc : ℕ

  -- the share of one node in a round
  pub exact_share : ℕ → ℕ → ℕ → ℕ → float.F
  exact_share remaining total_weight pool_size weight =
      if ltb 0 total_weight
      then float.div (remaining * weight) total_weight
      else float.div remaining pool_size

  abbrev pub make_row : ℕ → ℕ → ℕ → Node → Row
  make_row remaining total_weight pool_size n =
      let exact = exact_share remaining total_weight pool_size (node_weight n) in
      record { node = n; exact = exact; alloc = float.floor exact }

  -- the comparator of the remainders, ties by id
  abbrev pub row_before : Row → Row → Bool
  row_before a b =
      if float.gap_is_negative b.exact b.alloc a.exact a.alloc
      then true
      else float.gap_is_zero b.exact b.alloc a.exact a.alloc && text_lt a.node.id b.node.id

  -- one more for each of the first `left` rows
  unfoldable pub hand_out : ℕ → List Row → List Row
  hand_out left [] = []
  hand_out zero (r ∷ rows) = r ∷ rows
  hand_out (suc left) (r ∷ rows) = record r { alloc = r.alloc + 1 } ∷ hand_out left rows

  unfoldable pub round : ℕ → List Node → List Row
  unfolding exact_share
  round remaining pool =
      let rows = map (make_row remaining (sum_by node_weight pool) (length pool)) pool in
      hand_out (remaining - sum_by (λ r. r.alloc) rows) (sort_by row_before rows)

  abbrev pub is_over : Row → Bool
  is_over r = ltb 0 (cap_of r.node) && ltb (cap_of r.node) r.alloc

  -- `out[r.node.id] = r.alloc`, and the cap of a row that is over it
  unfoldable pub assign : List Row → Map Text ℕ → Map Text ℕ
  assign [] out = out
  assign (r ∷ rows) out = assign rows (set text_discrete r.node.id r.alloc out)

  unfoldable pub pin : List Row → Map Text ℕ → Map Text ℕ
  pin [] out = out
  pin (r ∷ rows) out = pin rows (set text_discrete r.node.id (cap_of r.node) out)

  -- `capped.has(id)`
  abbrev pub is_capped : List Row → Node → Bool
  is_capped over n = any_of (λ r. text_eq r.node.id n.id) over

  -- the `while` loop; each round pins a node, so that `fuel` need not exceed the nodes
  unfoldable pub plan_loop : ℕ → List Node → ℕ → Map Text ℕ → Map Text ℕ
  plan_loop zero pool remaining out = out
  plan_loop (suc fuel) [] remaining out = out
  plan_loop (suc fuel) (n ∷ ns) remaining out =
      let rows = round remaining (n ∷ ns) in
      let over = keep_if is_over rows in
      let more =
        plan_loop fuel (keep_if (λ m. not (is_capped over m)) (n ∷ ns))
          (remaining - sum_by (λ r. cap_of r.node) over) (pin over out) in
      if remaining == 0 then out else elim over [ [] ↦ assign rows out | _ ↦ more ]

-- `for (const n of nodes) out[n.id] = 0`
unfoldable pub zeros : List Node → Map Text ℕ → Map Text ℕ
zeros [] out = out
zeros (n ∷ nodes) out = zeros nodes (set text_discrete n.id 0 out)

abbrev pub id_before : Node → Node → Bool
id_before a b = text_lt a.id b.id

unfoldable pub compute_weighted_targets : Float → List Node → ℕ → Map Text ℕ
unfolding zeros
compute_weighted_targets float nodes total =
    plan_loop float (length nodes) (sort_by id_before nodes) total (zeros nodes [])

-- `Object.values(targets).reduce((a, v) => a + v, 0)`
abbrev pub placed : Map Text ℕ → ℕ
placed = sum_by (λ e. e.1)

pub record NodeLoadPlan : Type 0 where
  pub target : ℕ
  pub claim_cap : ℕ
  pub slack : ℕ
  pub drained : Bool
  pub unplaceable : ℕ

-- `opts.nodes.find((n) => n.id === opts.selfId)?.weight`
abbrev pub weight_of : Text → List Node → Option Number
weight_of self_id [] = none
weight_of self_id (n ∷ nodes) = if text_eq n.id self_id then n.weight else weight_of self_id nodes

unfoldable pub plan_node_load : Float → Text → List Node → ℕ → Option ℕ → NodeLoadPlan
unfolding claim_cap_for_target
plan_node_load float self_id nodes total slack =
    let targets = compute_weighted_targets float nodes total in
    let target = get_or (get text_discrete self_id targets) 0 in
    let self_weight = weight_or_default (weight_of self_id nodes) in
    let drained = self_weight == 0 && ltb 0 (sum_by node_weight nodes) in
    let used : ℕ = if drained then 0 else get_or slack 2 in
    record {
      target = target;
      claim_cap = claim_cap_for_target target (some used);
      slack = used;
      drained = drained;
      unplaceable = total - placed targets;
    }
