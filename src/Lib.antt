-- ===== src/Lib.antt =====
-- WeChat-AI: a self-hosted role-play chat service for WeChat. Nodes of one fleet poll bots, group the
-- inbound turns of a peer into batches, plan and send replies, and keep their state in Redis.
--
-- Parts that are modelled:
-- - RateLimit: apps/api/src/rate-limit.ts, the class RateLimiter. `try_take`, `remaining` and
--   `set_limits` are tryTake, remaining and setLimits; the pruning of an array that the map holds
--   changes the map, as in the source.
-- - HotCache: packages/db/src/hot-cache.ts. HotCache.Ttl is the class TtlCache, HotCache.Snapshot the
--   class SnapshotCache, whose promise callbacks are steps of their own.
-- - Batcher: apps/api/src/adaptive-reply-batcher.ts, the class AdaptiveReplyBatcher. Batcher.Key is
--   batchKey, Batcher.State the state, the methods and the events (timers, flushes, deliveries).
-- - Fleet: packages/db/src/worker-fleet.ts, the pure planning part. Fleet.Weight is the validation of
--   weights, Fleet.Shed the shed counts, Fleet.Plan computeWeightedTargets and planNodeLoad.
-- - ReplyPlan: packages/core/src/adaptive-reply-plan.ts. ReplyPlan.Classify is classifyItem with its
--   regular expressions, ReplyPlan.Select the weights and the stable selector, ReplyPlan.Plan
--   planAdaptiveReply.
-- - Proactive: packages/core/src/proactive.ts. Proactive.Quiet is the quiet hours, Proactive.Config
--   the flags and mergeBotProactiveConfig, Proactive.Eligible isProactiveEligible.
-- - Lease: packages/db/src/worker-fleet.ts, claimBotLeases and the releases over a store of Redis keys.
--   A claim is one step. What others do between the GET and the DEL of releaseBotLease is an argument of
--   `release_bot_lease`; claims that interleave between their round trips are not modelled.
-- - HttpGuard: packages/core/src/chatflow/http-guard.ts. HttpGuard.Address is normalizeHost and the readers
--   of addresses, HttpGuard.Ranges the verdicts on addresses, HttpGuard.Guard the checks of a host.
-- - Chatflow: packages/core/src/chatflow. Chatflow.Value is the values of JSON, Chatflow.Template the
--   templates and conditions and Chatflow.Graph the validation of validate.ts. Of engine.ts
--   Chatflow.Egress is assertHttpAllowed and fetchHttpNode, Chatflow.Options the constructor and
--   applyOptions, Chatflow.Engine the state of a run, Chatflow.Http and Chatflow.Nodes one pass for
--   each type of node, and Chatflow.Run the loop, the end of `run` and the graph of default-graph.ts.
--   The engine calls the host guard for each request.
-- - Bubbles: packages/core/src/split-reply.ts, splitReplyIntoBubbles. Bubbles.Split is the function with its
--   helpers; the delays between bubbles are not modelled.
-- - P2p: packages/db/src/p2p-repos.ts and packages/core/src/p2p-service.ts, the conversations between two
--   peers. P2p.Store is the keys of Redis, P2p.Repos the operations (Engagements: requests and sessions;
--   Binds: codes and binds; Blocks: block lists), P2p.Command the patterns of the commands, P2p.Service
--   handleInbound with its handlers. P2p.Reach is the steps that lead from the empty store.
-- - JsMap: the JavaScript `Map` with its insertion order, and the eviction loop that RateLimiter and
--   TtlCache share.
-- - Base: the names that the modules share.
--
-- Conventions. A string is the list of its UTF-16 code units. Times, counts and limits are natural
-- numbers, the clock is an argument of each call, and a difference that could be negative in the
-- source is moved to the other side of its test. A call returns the new state beside its result. A
-- configuration value that is fractional, infinite or no number is outside the model, but for
-- the weights of the fleet, which have a value for it.
--
-- Floating point. `Math.ceil(n * 0.1)` is a parameter `ceil_tenth` of which nothing is assumed. The
-- quotients of computeWeightedTargets are the record `Fleet.Plan.Float`; of it the documented fact is
-- assumed that below 2^53 the floor of a rounded quotient is the quotient of the integers, and the
-- comparison of the remainders is left open.
--
-- Parameters of Proactive stand for Date.parse, the hour that Intl formats and Date.getHours; where a theorem
-- needs it, it assumes that the hour is below 24. The stable selector's floating point is exact while the weights are integers
-- whose sum is below 2^21.
--
-- Parameters of Chatflow. `Platform` is the URL parser, the resolver and `fetch`, which reads the body
-- too and fails where the timeout aborts it; `Printing` is what prints numbers and objects; `World` adds JSON.parse
-- and the answers of the model and of the search, one for each step. A resolver answers the same for one
-- name all through a run. The theorems on credentials assume of the URL parser that a URL which it prints
-- is read back as that URL. `toLowerCase` and `toUpperCase` change the letters of ASCII only, the case of
-- the host names that the URL parser gives. An object has no keys of a prototype. Texts of errors are
-- constructors with what they name.
--
-- P2p. A handler is one function at one instant: nothing of another call comes between its round trips, and
-- the keys of a session have one deadline. The keys of Redis are functions of their arguments, a bot id
-- having no colon; an entry is gone at its deadline. The users, the tokens of repos.ts and the order of
-- `smembers` are the record `Directory`, an id that is made is an argument, and the texts of replies are
-- constructors. The counter of a day does not end. A code is given in capitals of ASCII.
--
-- Loops. All loops are recursions on lists, but the `while` of computeWeightedTargets, which has the
-- number of nodes for its fuel: each round that does not return pins at least one node, and the
-- theorem on the sum of the targets shows that this fuel is enough.
--
-- The loop of a Chatflow run counts its steps up to maxSteps, and the model recurs on the steps left; the
-- loop over redirects recurs on the redirects left, of which HTTP_NODE_MAX_REDIRECTS allows three.
--
-- hardSlice recurs on the length of its text, which is enough where the size of a bubble is not 0; with 0
-- the source does not end, and the theorems ask for a size that is not 0.
--
-- The loop of claimBotLeases has the number of pollable bots for its fuel; a round takes at least one, and
-- the theorem that a claim goes through all of them shows that this fuel is enough.
--
-- Not modelled: the routes and the wiring of apps/api, the other Redis repositories of packages/db, the LLM
-- and iLink clients, the chat services, the Cloudflare worker, the Python tools gateway, the static pages,
-- the scripts, and the wait of `AdaptiveReplyBatcher.stop` for its
-- deliveries, whose settling is an event.
pub mod Base
pub mod JsMap
pub mod RateLimit
pub mod HotCache
pub mod Batcher
pub mod Fleet
pub mod ReplyPlan
pub mod Proactive
pub mod Lease
pub mod P2p
pub mod HttpGuard
pub mod Bubbles
pub mod Chatflow
