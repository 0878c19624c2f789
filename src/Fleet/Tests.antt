-- ===== src/Fleet/Tests.antt =====
-- Runs of the planner on concrete fleets. The quotients are fractions.
use we_chat_ai.Base.{
  ℕ, ◌-◌, ◌*◌, ◌/◌, ◌≡◌, refl, none, some, List, [], ◌∷◌, arith, units, text_discrete, ltb, ◌==◌,
  natural,
}
use we_chat_ai.JsMap.{set}
use we_chat_ai.Fleet.Weight.{normalize_worker_weight}
use we_chat_ai.Fleet.Plan.{
  Float, Node, compute_weighted_targets, placed, sort_by, plan_loop, round, hand_out, assign, pin,
  text_lt,
}
use we_chat_ai.Fleet.Plan.Exact.{placeable, placed-compute_weighted_targets}

abbrev fractions : Float
fractions = record {
  F = ℕ × ℕ;
  div = λ a b. (a, b);
  floor = λ q. q.0 / q.1;
  gap_is_negative = λ b nb a na. ltb ((b.0 - nb * b.1) * a.1) ((a.0 - na * a.1) * b.1);
  gap_is_zero = λ b nb a na. ((b.0 - nb * b.1) * a.1) == ((a.0 - na * a.1) * b.1);
  floor-div = λ a b small pos. refl;
}

-- A drained node, a node with a cap of 2, and one at the default.
abbrev fleet : List Node
fleet =
    record { id = units "b"; weight = none; max_bots = none }
    ∷ record { id = units "a"; weight = some (natural 300); max_bots = some 2 }
    ∷ record { id = units "c"; weight = some (natural 0); max_bots = none }
    ∷ []

targets :
    compute_weighted_targets fractions fleet 7
    ≡ (units "b", 5) ∷ (units "a", 2) ∷ (units "c", 0) ∷ []
unfolding compute_weighted_targets plan_loop sort_by text_lt round hand_out assign pin set
    text_discrete normalize_worker_weight
targets = refl

placed-compute_weighted_targets_example :
    placed (compute_weighted_targets fractions fleet 7) ≡ placeable 7 fleet
placed-compute_weighted_targets_example =
    placed-compute_weighted_targets fractions fleet 7 (ground arith) (omega arith)
