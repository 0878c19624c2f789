-- ===== src/Fleet/Weight.antt =====
-- Admin load weights of packages/db/src/worker-fleet.ts, of integers and of what is no finite number.
use we_chat_ai.Base.{
  Number, not_finite, negative, natural, ℕ, ◌≤◌, ◌≡◌, ◌↔◌, ◌⊎◌, min, Bool, Option, none, some, List,
  arith, ltb, ◌==◌, not, if◌then◌else◌, any_of,
}

-- DEFAULT_WORKER_WEIGHT, MIN_WORKER_WEIGHT, MAX_WORKER_WEIGHT
abbrev pub default_weight : ℕ
default_weight = 100

abbrev pub max_weight : ℕ
max_weight = 500

unfoldable pub normalize_worker_weight : Number → ℕ
normalize_worker_weight not_finite = default_weight
normalize_worker_weight (negative n) = 0
normalize_worker_weight (natural n) = min max_weight n

-- `normalizeWorkerWeight(n.weight ?? DEFAULT_WORKER_WEIGHT)`
abbrev pub weight_or_default : Option Number → ℕ
weight_or_default none = normalize_worker_weight (natural default_weight)
weight_or_default (some w) = normalize_worker_weight w

-- The value that a request brings: absent, a number, a text that is blank, a text with what
-- `Number` reads from it, or anything else.
pub data RawWeight : Type 0 where
  absent : RawWeight
  number : Number → RawWeight
  blank_text : RawWeight
  text_of : Number → RawWeight
  other : RawWeight

pub data ParseError : Type 0 where
  weight_required weight_not_a_number weight_out_of_range : ParseError

pub data Parsed : Type 0 where
  ok : ℕ → Parsed
  error : ParseError → Parsed

-- the checks after the conversion
pub check_range : Number → Parsed
check_range not_finite = error weight_not_a_number
check_range (negative n) = error weight_out_of_range
check_range (natural n) =
    if ltb max_weight n then error weight_out_of_range else ok (normalize_worker_weight (natural n))

unfoldable pub parse_worker_weight_input : RawWeight → Parsed
unfolding check_range normalize_worker_weight
parse_worker_weight_input absent = error weight_required
parse_worker_weight_input (number n) = check_range n
parse_worker_weight_input blank_text = error weight_not_a_number
parse_worker_weight_input (text_of n) = check_range n
parse_worker_weight_input other = error weight_not_a_number

pub has_worker_weight_overrides : List Number → Bool
has_worker_weight_overrides weights =
    any_of (λ w. not (normalize_worker_weight w == default_weight)) weights

-- A weight is accepted exactly when the request holds a number between 0 and 500, given as a number
-- or as a text, and then it is stored as it was given; so no malformed request drains a node.
pub parse_worker_weight_input-eq-ok_iff :
    (raw : RawWeight) (n : ℕ)
    → (parse_worker_weight_input raw ≡ ok n)
      ↔ (((raw ≡ number (natural n)) ⊎ (raw ≡ text_of (natural n))) × (n ≤ max_weight))
unfolding parse_worker_weight_input
parse_worker_weight_input-eq-ok_iff absent n = ground arith
parse_worker_weight_input-eq-ok_iff (number not_finite) n = ground arith
parse_worker_weight_input-eq-ok_iff (number (negative k)) n = ground arith
parse_worker_weight_input-eq-ok_iff (number (natural k)) n = ground arith
parse_worker_weight_input-eq-ok_iff blank_text n = ground arith
parse_worker_weight_input-eq-ok_iff (text_of not_finite) n = ground arith
parse_worker_weight_input-eq-ok_iff (text_of (negative k)) n = ground arith
parse_worker_weight_input-eq-ok_iff (text_of (natural k)) n = ground arith
parse_worker_weight_input-eq-ok_iff other n = ground arith

pub weight_or_default-le : (w : Option Number) → weight_or_default w ≤ max_weight
unfolding normalize_worker_weight
weight_or_default-le w = ground arith
