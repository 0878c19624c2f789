-- ===== src/P2p/Store.antt =====
-- p2p-repos.ts: the records, and the keys of Redis that it uses, a map for each prefix of keys.ts. A bot id
-- has no colon in it, so that the keys of different endpoints are different. An entry that is written with
-- a time to live stands with its deadline.
use we_chat_ai.Base.{
  ℕ, ap, Bool, true, false, Option, none, some, Text, text_discrete, ite, ltb, same, ◌+◌, ◌*◌, max,
  ◌&&◌, if◌then◌else◌,
}

pub record Endpoint : Type 0 where
  pub bot_id : Text
  pub peer_id : Text

unfoldable pub endpoint_discrete : Discrete Endpoint
unfolding text_discrete
endpoint_discrete a b = elim (text_discrete a.bot_id b.bot_id) [
  | yes p ↦ elim (text_discrete a.peer_id b.peer_id) [
    | yes q ↦ yes (λ i. record { bot_id = p i; peer_id = q i })
    | no q ↦ no (λ e. q (ap (λ (x : Endpoint). x.peer_id) e))
  ]
  | no p ↦ no (λ e. p (ap (λ (x : Endpoint). x.bot_id) e))
]

pub record PeerIdentity : Type 0 where
  pub at : Endpoint
  pub user_id : Text
  pub username : Text

pub record UserWechatBind : Type 0 where
  pub user_id : Text
  pub username : Text
  pub at : Endpoint

pub record BindCodeRecord : Type 0 where
  pub code : Text
  pub user_id : Text
  pub username : Text

pub record ConnectRequest : Type 0 where
  pub id : Text
  pub from_peer : PeerIdentity
  pub to_peer : PeerIdentity

pub record P2pSession : Type 0 where
  pub id : Text
  pub a : PeerIdentity
  pub b : PeerIdentity

-- a value with its deadline
abbrev pub Timed : Type 0 → Type 0
Timed A = A × ℕ

pub record Store : Type 0 where
  pub bind_user : Text → Option UserWechatBind
  pub bind_peer : Endpoint → Option Text
  pub bind_code : Text → Option (Timed BindCodeRecord)
  pub connect_req : Text → Option (Timed ConnectRequest)
  pub connect_from : Endpoint → Option (Timed Text)
  pub connect_to : Endpoint → Option (Timed Text)
  pub session : Text → Option (Timed P2pSession)
  pub p2p_peer : Endpoint → Option (Timed Text)
  pub request_day : Endpoint → Text → ℕ
  pub blocks : Text → Text → Bool

abbrev pub empty_store : Store
empty_store = record {
  bind_user = λ u. none;
  bind_peer = λ k. none;
  bind_code = λ c. none;
  connect_req = λ id. none;
  connect_from = λ k. none;
  connect_to = λ k. none;
  session = λ id. none;
  p2p_peer = λ k. none;
  request_day = λ k day. 0;
  blocks = λ u v. false;
}

module _ {K V : Type 0} (dec : Discrete K) where
  abbrev pub put : K → V → (K → Option V) → K → Option V
  put k v m j = ite (dec k j) (some v) (m j)

  abbrev pub del : K → (K → Option V) → K → Option V
  del k m j = ite (dec k j) none (m j)

-- what is left of an entry at a time
abbrev pub live : {A : Type 0} → ℕ → Option (Timed A) → Option (Timed A)
live now none = none
live now (some (a, deadline)) = if ltb now deadline then some (a, deadline) else none

-- the store at a time: the entries whose deadline has come are gone
unfoldable pub sweep : ℕ → Store → Store
sweep now st = record st {
  bind_code = λ c. live now (st.bind_code c);
  connect_req = λ id. live now (st.connect_req id);
  connect_from = λ k. live now (st.connect_from k);
  connect_to = λ k. live now (st.connect_to k);
  session = λ id. live now (st.session id);
  p2p_peer = λ k. live now (st.p2p_peer k);
}

abbrev pub untimed : {A : Type 0} → Option (Timed A) → Option A
untimed none = none
untimed (some (a, deadline)) = some a

abbrev pub is_present : {A : Type 0} → Option A → Bool
is_present none = false
is_present (some a) = true

abbrev pub same_endpoint : Endpoint → Endpoint → Bool
same_endpoint a b = same a.bot_id b.bot_id && same a.peer_id b.peer_id

-- `SET ... EX ttl`: the deadline in milliseconds, for a time to live of so many seconds at least
abbrev pub deadline : ℕ → ℕ → ℕ → ℕ
deadline now least ttl_sec = now + max least ttl_sec * 1000
