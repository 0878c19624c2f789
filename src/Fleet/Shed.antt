-- ===== src/Fleet/Shed.antt =====
-- How many bots a node gives up, and how many it may hold: `weightedShare`, `shedAboveTarget`,
-- `claimCapForTarget`, `computeWeightedShedCount` and `computeRebalanceShedCount`. The products of
-- a count and a weight stay below 2^53, where `Math.floor(a / b)` is the quotient of integers.
use we_chat_ai.Base.{
  ℕ, ◌+◌, ◌-◌, ◌*◌, ◌/◌, ◌≤◌, ◌≡◌, max, min, ◌&&◌, Option, none, some, List, [], ◌∷◌, arith, ltb,
  leb, ◌==◌, if◌then◌else◌, length, map,
}
use we_chat_ai.Base.{Number}
use we_chat_ai.Fleet.Weight.{weight_or_default}

abbrev pub sum_by : {A : Type 0} → (A → ℕ) → List A → ℕ
sum_by f [] = 0
sum_by f (x ∷ xs) = f x + sum_by f xs

unfoldable pub weighted_share : ℕ → ℕ → ℕ → ℕ → ℕ
weighted_share total weight total_weight node_count =
    if total == 0
    then 0
    else if ltb 0 total_weight
    then total * weight / total_weight
    else if ltb 0 node_count
    then total / node_count
    else total

abbrev pub get_or : {A : Type 0} → Option A → A → A
get_or none d = d
get_or (some a) d = a

unfoldable pub shed_above_target : ℕ → ℕ → Option ℕ → Option ℕ → ℕ
shed_above_target local_count target slack max_per_tick =
    let target_max = target + get_or slack 2 in
    if leb local_count target_max
    then 0
    else min (local_count - target_max) (max 1 (get_or max_per_tick 50))

unfoldable pub claim_cap_for_target : ℕ → Option ℕ → ℕ
claim_cap_for_target target slack = target + get_or slack 2

pub record Peer : Type 0 where
  pub count : ℕ
  pub weight : Option Number

unfoldable pub compute_weighted_shed_count : ℕ → Option Number → List Peer → Option ℕ → Option ℕ → ℕ
unfolding weighted_share shed_above_target
compute_weighted_shed_count local_count local_weight [] slack max_per_tick = 0
compute_weighted_shed_count local_count local_weight (p ∷ peers) slack max_per_tick =
    let total = local_count + sum_by (λ q. q.count) (p ∷ peers) in
    let weight = weight_or_default local_weight in
    let total_weight = weight + sum_by (λ q. weight_or_default q.weight) (p ∷ peers) in
    if total == 0
    then 0
    else shed_above_target local_count
        (weighted_share total weight total_weight (1 + length (p ∷ peers)))
        (if ltb 0 total_weight && weight == 0 then some 0 else slack) max_per_tick

abbrev unweighted : ℕ → Peer
unweighted count = record { count = count; weight = none }

unfoldable pub compute_rebalance_shed_count : ℕ → List ℕ → Option ℕ → Option ℕ → ℕ
unfolding compute_weighted_shed_count
compute_rebalance_shed_count local_count peer_counts slack max_per_tick =
    compute_weighted_shed_count local_count none (map unweighted peer_counts) slack max_per_tick

-- A node sheds exactly while it holds more than its claim cap, never below the cap, and no more than
-- one tick's limit; so what a node claims up to its cap it does not shed.
pub shed_above_target-claim_cap :
    (local_count target : ℕ) (slack max_per_tick : Option ℕ)
    → (leb local_count (claim_cap_for_target target slack)
        ≡ (shed_above_target local_count target slack max_per_tick == 0))
      × (min local_count (claim_cap_for_target target slack)
          ≤ local_count - shed_above_target local_count target slack max_per_tick)
      × (shed_above_target local_count target slack max_per_tick ≤ max 1 (get_or max_per_tick 50))
unfolding shed_above_target claim_cap_for_target
shed_above_target-claim_cap local_count target slack max_per_tick = ground arith
