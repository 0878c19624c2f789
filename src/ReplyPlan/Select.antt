-- ===== src/ReplyPlan/Select.antt =====
-- adaptive-reply-plan.ts, the choice of the number of parts: `normalizeWeights`, the FNV-1a hash and
-- `WeightedReplyCountSelector`. A point of the unit interval is a hash over 2^32; the model keeps
-- the hash and multiplies the weights by 2^32. The source's floating point is exact on both while
-- the weights are integers whose sum is below 2^21.
use Prim.Native.Nat.{bit_xor}
use native.Mathlib.Nat.{mul-lt-mul_of_pos_right, mul_comm, zero-add}
use we_chat_ai.Base.{
  ℕ, suc, ◌+◌, ◌-◌, ◌*◌, ◌%◌, ◌^◌, ◌≤◌, ◌<◌, ◌≡◌, refl, Bool, true, false, not, ◌||◌, List, [], ◌∷◌,
  map, arith, Text, Number, not_finite, negative, natural, length, take, every, any_of, ltb, ◌==◌,
  if◌then◌else◌, dec_lt,
}

abbrev pub default_weights : List ℕ
default_weights = 50 ∷ 30 ∷ 15 ∷ 5 ∷ []

-- `!Number.isFinite(weight) || weight < 0`
abbrev pub refused : Number → Bool
refused not_finite = true
refused (negative n) = true
refused (natural n) = false

abbrev pub is_zero : Number → Bool
is_zero not_finite = false
is_zero (negative n) = false
is_zero (natural n) = n == 0

abbrev pub value : Number → ℕ
value not_finite = 0
value (negative n) = 0
value (natural n) = n

unfoldable pub normalize_weights : List Number → List ℕ
normalize_weights weights =
    if not (length weights == 4) || any_of refused weights || every is_zero weights
    then default_weights
    else map value weights

abbrev pub sum : List ℕ → ℕ
sum [] = 0
sum (w ∷ weights) = w + sum weights

-- one round of FNV-1a: the exclusive or, then `Math.imul` by the prime, on 32 bits
abbrev pub fnv_step : ℕ → ℕ → ℕ
fnv_step hash unit = (bit_xor hash unit * 16777619) % 2 ^ 32

unfoldable pub fnv : ℕ → Text → ℕ
fnv hash [] = hash
fnv hash (unit ∷ text) = fnv (fnv_step hash unit) text

-- `stableUnitInterval`, times 2^32
unfoldable pub stable_hash : Text → ℕ
stable_hash text = fnv 2166136261 text

-- The loop of `select` from bucket `i` on: `point` has the weights before `i` taken off.
unfoldable pub bucket : ℕ → ℕ → List ℕ → ℕ
bucket i point [] = i - 1
bucket i point (w ∷ weights) =
    let rest = bucket (suc i) (point - w * 2 ^ 32) weights in
    if ltb point (w * 2 ^ 32) then i else rest

unfoldable pub select : List Number → Text → ℕ
select weights stable_key =
    let normalized = normalize_weights weights in
    bucket 0 (stable_hash stable_key * sum normalized) normalized

fnv-lt : (hash : ℕ) (text : Text) → hash < 2 ^ 32 → fnv hash text < 2 ^ 32
unfolding fnv
fnv-lt hash [] h = h
fnv-lt hash (unit ∷ text) h = fnv-lt (fnv_step hash unit) text (omega arith)

-- The hash fits in 32 bits, so that the point lies in [0, 1).
pub stable_hash-lt : (text : Text) → stable_hash text < 2 ^ 32
unfolding stable_hash
stable_hash-lt text = fnv-lt 2166136261 text (omega arith)

length-map_value : (weights : List Number) → length (map value weights) ≡ length weights
length-map_value [] = refl
length-map_value (w ∷ weights) = omega (arith, length-map_value weights)

sum-map_value :
    (weights : List Number)
    → any_of refused weights ≡ false
    → every is_zero weights ≡ false
    → 0 < sum (map value weights)
sum-map_value [] h k = ground arith
sum-map_value (not_finite ∷ weights) h k = ground arith
sum-map_value (negative n ∷ weights) h k = ground arith
sum-map_value (natural n ∷ weights) h k = ground (arith, sum-map_value weights)

-- The weights in force are four, and not all of them are 0.
pub length-normalize_weights : (weights : List Number) → length (normalize_weights weights) ≡ 4
unfolding normalize_weights
length-normalize_weights weights = ground (arith, length-map_value weights)

pub sum-normalize_weights : (weights : List Number) → 0 < sum (normalize_weights weights)
unfolding normalize_weights
sum-normalize_weights weights = ground (arith, sum-map_value weights)

-- What `bucket` finds, as a place in the running sums.
pub bucket_lem :
    (i point : ℕ) (weights : List ℕ)
    → point < sum weights * 2 ^ 32
    → (k : ℕ) × (bucket i point weights ≡ i + k)
      × (k < length weights)
      × (sum (take k weights) * 2 ^ 32 ≤ point)
      × (point < sum (take (suc k) weights) * 2 ^ 32)
unfolding bucket
bucket_lem i point [] h = ground arith
bucket_lem i point (w ∷ weights) h = elim (dec_lt point (w * 2 ^ 32)) [
  | yes lt ↦ (0, ground arith, omega arith, omega arith, omega arith)
  | no ge ↦
      let (k, e, le, low, high) = bucket_lem (suc i) (point - w * 2 ^ 32) weights (omega arith) in
      (suc k, ground arith, omega arith, omega arith, omega arith)
]

-- The bucket chosen is the one in whose share of the whole the hash lies: with `total` the sum of the
-- weights in force, `hash / 2^32 * total` is at least the sum of the weights before it and below that
-- sum with its own. So it is one of the four.
pub select-share :
    (weights : List Number) (key : Text)
    → (select weights key < 4)
      × (sum (take (select weights key) (normalize_weights weights)) * 2 ^ 32
          ≤ stable_hash key * sum (normalize_weights weights))
      × (stable_hash key * sum (normalize_weights weights)
          < sum (take (suc (select weights key)) (normalize_weights weights)) * 2 ^ 32)
unfolding select
select-share weights key =
    let (k, e, le, low, high) =
      bucket_lem 0 (stable_hash key * sum (normalize_weights weights)) (normalize_weights weights) (
        rw (mul_comm (sum (normalize_weights weights)) (2 ^ 32))
          (mul-lt-mul_of_pos_right (stable_hash-lt key) (sum-normalize_weights weights))) in
    rw (e, zero-add k) (rw (← length-normalize_weights weights) le, low, high)
