-- ===== src/RateLimit/Tests.antt =====
-- Runs of the limiter on concrete calls.
use we_chat_ai.Base.{
  ℕ, ◌+◌, ◌/◌, ◌≤◌, ◌≡◌, refl, true, List, [], ◌∷◌, arith, Text, units, text_discrete,
}
use we_chat_ai.JsMap.{get, set, delete}
use we_chat_ai.JsMap.Evict.{evict_from}
use we_chat_ai.RateLimit.{RateLimiter, new, try_take, record_hit, make_room, evict_if_full, prune}
use we_chat_ai.RateLimit.Window.{within, run, try_take-no_false_denial, run-within-le-max}

abbrev tenth : ℕ → ℕ
tenth n = (n + 9) / 10

abbrev alice : Text
alice = units "alice"

abbrev two_a_second : RateLimiter
two_a_second = new 2 1000 64

abbrev burst : List (Text × ℕ)
burst = (alice, 0) ∷ (alice, 400) ∷ (alice, 900) ∷ (alice, 1000) ∷ []

-- The third call is denied, the fourth finds the first out of the window.
burst_log : (run tenth two_a_second [] burst).1 ≡ (alice, 1000) ∷ (alice, 400) ∷ (alice, 0) ∷ []
unfolding run try_take record_hit make_room evict_if_full prune get set delete evict_from
    text_discrete
burst_log = refl

run-within-le-max_example : within 1000 1000 alice (run tenth two_a_second [] burst).1 ≤ 2
unfolding run try_take record_hit make_room evict_if_full prune get set delete evict_from
    text_discrete
run-within-le-max_example =
    run-within-le-max tenth 2 1000 64 burst (omega arith) (omega arith) alice 1000

try_take-no_false_denial_example :
    (try_take tenth (run tenth two_a_second [] burst).0 alice 1400).1 ≡ true
unfolding run try_take record_hit make_room evict_if_full prune get set delete evict_from
    text_discrete within
try_take-no_false_denial_example =
    try_take-no_false_denial tenth 2 1000 64 burst (omega arith) alice 1400 (omega arith)
      (omega arith)
