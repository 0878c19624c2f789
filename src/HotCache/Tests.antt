-- ===== src/HotCache/Tests.antt =====
-- Runs of the two caches on concrete calls.
use we_chat_ai.Base.{
  ℕ, ◌+◌, ◌/◌, ◌≤◌, ◌≡◌, refl, true, some, List, [], ◌∷◌, Text, units, text_discrete, length, max,
}
use we_chat_ai.JsMap
use we_chat_ai.HotCache.Ttl
use we_chat_ai.HotCache.Ttl.{TtlCache}
use we_chat_ai.HotCache.Ttl.History.{
  Call, gets, sets, dels, clears, run, last_write, get-last_write,
}
use we_chat_ai.HotCache.Snapshot
use we_chat_ai.HotCache.Snapshot.{Snapshot, hit, shared, Reach, here, next, asked}
use we_chat_ai.HotCache.Snapshot.Flight.{running, Reach-single_flight}

abbrev tenth : ℕ → ℕ
tenth n = (n + 9) / 10

abbrev sid : Text
sid = units "sid"

-- Newest first: the session was set at 7 and read at 20.
abbrev calls : List (Call ℕ)
calls = gets 20 sid ∷ sets 7 sid 42 ∷ dels sid ∷ clears ∷ []

abbrev cache : TtlCache ℕ
cache = run tenth true (Ttl.new 100 32) calls

hit_at_100 : (Ttl.get true 100 sid cache).1 ≡ some 42
unfolding run Ttl.get Ttl.set Ttl.clear JsMap.get JsMap.set JsMap.delete text_discrete
hit_at_100 = refl

get-last_write_example : (t : ℕ) × (last_write sid calls ≡ some (42, t)) × (100 ≤ t + max 100 100)
get-last_write_example = get-last_write tenth 100 32 calls 100 sid 42 hit_at_100

-- One load under way.
abbrev flying : Snapshot ℕ
flying = (Snapshot.get true 5 (Snapshot.new 1000)).0

Reach-single_flight_example :
    (length flying.pending + length flying.closing ≤ 1)
    × (length flying.pending + length flying.closing ≡ running flying.inflight)
Reach-single_flight_example =
    Reach-single_flight 1000 flying (next here (asked (Snapshot.new 1000) 5))
