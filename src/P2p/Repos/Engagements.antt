-- ===== src/P2p/Repos/Engagements.antt =====
-- p2p-repos.ts: the requests and the sessions, how they are read, made and ended. An id is never the empty
-- text, so that an entry that is read is one that is there.
use we_chat_ai.Base.{
  ℕ, ◌+◌, Bool, true, not, ◌||◌, Option, none, some, Text, text_discrete, same, ite, if◌then◌else◌,
}
use we_chat_ai.P2p.Store.{
  Endpoint, endpoint_discrete, PeerIdentity, ConnectRequest, P2pSession, Store, put, del, untimed,
  is_present, same_endpoint, deadline,
}

abbrev pub delete_connect_request : ConnectRequest → Store → Store
delete_connect_request r st = record st {
  connect_req = del text_discrete r.id st.connect_req;
  connect_from = del endpoint_discrete r.from_peer.at st.connect_from;
  connect_to = del endpoint_discrete r.to_peer.at st.connect_to;
}

abbrev pub delete_p2p_session : P2pSession → Store → Store
delete_p2p_session s st = record st {
  session = del text_discrete s.id st.session;
  p2p_peer = del endpoint_discrete s.b.at (del endpoint_discrete s.a.at st.p2p_peer);
}

-- what an id leads to; a pointer that leads to nothing is deleted
abbrev pub outbound_read : Endpoint → Store → Option ConnectRequest → Store × Option ConnectRequest
outbound_read k st none =
    (record st { connect_from = del endpoint_discrete k st.connect_from }, none)
outbound_read k st (some r) = (st, some r)

abbrev pub outbound_found : Endpoint → Store → Option Text → Store × Option ConnectRequest
outbound_found k st none = (st, none)
outbound_found k st (some id) = outbound_read k st (untimed (st.connect_req id))

unfoldable pub get_outbound_request : Endpoint → Store → Store × Option ConnectRequest
get_outbound_request k st = outbound_found k st (untimed (st.connect_from k))

abbrev pub inbound_read : Endpoint → Store → Option ConnectRequest → Store × Option ConnectRequest
inbound_read k st none = (record st { connect_to = del endpoint_discrete k st.connect_to }, none)
inbound_read k st (some r) = (st, some r)

abbrev pub inbound_found : Endpoint → Store → Option Text → Store × Option ConnectRequest
inbound_found k st none = (st, none)
inbound_found k st (some id) = inbound_read k st (untimed (st.connect_req id))

unfoldable pub get_inbound_request : Endpoint → Store → Store × Option ConnectRequest
get_inbound_request k st = inbound_found k st (untimed (st.connect_to k))

abbrev pub session_read : Endpoint → Store → Option P2pSession → Store × Option P2pSession
session_read k st none = (record st { p2p_peer = del endpoint_discrete k st.p2p_peer }, none)
session_read k st (some s) = (st, some s)

abbrev pub session_found : Endpoint → Store → Option Text → Store × Option P2pSession
session_found k st none = (st, none)
session_found k st (some id) = session_read k st (untimed (st.session id))

unfoldable pub get_p2p_session_for_peer : Endpoint → Store → Store × Option P2pSession
get_p2p_session_for_peer k st = session_found k st (untimed (st.p2p_peer k))

abbrev pub drop_session : Store → Option P2pSession → Store
drop_session st none = st
drop_session st (some s) = delete_p2p_session s st

abbrev pub drop_request : Store → Option ConnectRequest → Store
drop_request st none = st
drop_request st (some r) = delete_connect_request r st

unfoldable pub end_session : Endpoint → Store → Store
end_session k st = let (after, s) = get_p2p_session_for_peer k st in drop_session after s

unfoldable pub end_outbound : Endpoint → Store → Store
end_outbound k st = let (after, r) = get_outbound_request k st in drop_request after r

unfoldable pub end_inbound : Endpoint → Store → Store
end_inbound k st = let (after, r) = get_inbound_request k st in drop_request after r

-- `endSessionsAndRequestsForPeer`
unfoldable pub end_for_peer : Endpoint → Store → Store
end_for_peer k st = end_inbound k (end_outbound k (end_session k st))

-- why no request was made; `race` where a key is taken between the tests and the writes
pub data Busy : Type 0 where
  from_busy : Busy
  to_busy : Busy
  race : Busy

abbrev pub is_busy : Endpoint → Store → Bool
is_busy k st =
    is_present (st.connect_from k) || is_present (st.connect_to k) || is_present (st.p2p_peer k)

-- the writes, each of a pointer with NX
abbrev pub claim_request : ℕ → ConnectRequest → Store → Store × Option Busy
claim_request deadline r st =
    let claimed = record st {
      connect_from = put endpoint_discrete r.from_peer.at (r.id, deadline) st.connect_from;
    } in
    if is_present (st.connect_from r.from_peer.at)
    then (st, some race)
    else if is_present (claimed.connect_to r.to_peer.at)
    then (
      record claimed { connect_from = del endpoint_discrete r.from_peer.at claimed.connect_from },
      some race,
    )
    else (
      record claimed {
        connect_to = put endpoint_discrete r.to_peer.at (r.id, deadline) claimed.connect_to;
        connect_req = put text_discrete r.id (r, deadline) claimed.connect_req;
      },
      none,
    )

unfoldable pub create_connect_request :
    ℕ → Text → PeerIdentity → PeerIdentity → ℕ → Store → Store × Option Busy
create_connect_request now id from_peer to_peer ttl_sec st =
    if is_busy from_peer.at st
    then (st, some from_busy)
    else if is_busy to_peer.at st
    then (st, some to_busy)
    else claim_request (deadline now 30 ttl_sec)
        (record { id = id; from_peer = from_peer; to_peer = to_peer }) st

-- the three writes of a session, `createP2PSession` and `touchP2PSession`
unfoldable pub write_session : ℕ → ℕ → P2pSession → Store → Store
write_session now ttl_sec s st = record st {
  session = put text_discrete s.id (s, deadline now 60 ttl_sec) st.session;
  p2p_peer =
      put endpoint_discrete s.b.at (s.id, deadline now 60 ttl_sec)
        (put endpoint_discrete s.a.at (s.id, deadline now 60 ttl_sec) st.p2p_peer);
}

abbrev pub other_party : P2pSession → Endpoint → Option PeerIdentity
other_party s k =
    if same_endpoint s.a.at k then some s.b else if same_endpoint s.b.at k then some s.a else none

abbrev pub self_party : P2pSession → Endpoint → Option PeerIdentity
self_party s k =
    if same_endpoint s.a.at k then some s.a else if same_endpoint s.b.at k then some s.b else none

-- `acceptConnectRequest`: the session, where there is a request for this very peer
pub data Accepted : Type 0 where
  accepted : P2pSession → ConnectRequest → Accepted
  no_request : Accepted
  not_target : Accepted

-- both sessions are read first; the second is dropped where it is another one
abbrev pub is_other : P2pSession → Option P2pSession → Bool
is_other s none = true
is_other s (some t) = not (same s.id t.id)

abbrev pub drop_second : Store → Option P2pSession → Option P2pSession → Store
drop_second st none first = st
drop_second st (some s) first = if is_other s first then delete_p2p_session s st else st

abbrev pub accept_request : ℕ → Text → ℕ → ConnectRequest → Store → Store × Accepted
accept_request now id ttl_sec r st =
    let deleted = delete_connect_request r st in
    let (read_a, sa) = get_p2p_session_for_peer r.from_peer.at deleted in
    let (read_b, sb) = get_p2p_session_for_peer r.to_peer.at read_a in
    let s : P2pSession = record { id = id; a = r.from_peer; b = r.to_peer } in
    (write_session now ttl_sec s (drop_second (drop_session read_b sa) sb sa), accepted s r)

abbrev pub accept_found : ℕ → Text → ℕ → Endpoint → Store → Option ConnectRequest → Store × Accepted
accept_found now id ttl_sec k st none = (st, no_request)
accept_found now id ttl_sec k st (some r) =
    if same_endpoint r.to_peer.at k then accept_request now id ttl_sec r st else (st, not_target)

unfoldable pub accept_connect_request : ℕ → Text → ℕ → Endpoint → Store → Store × Accepted
accept_connect_request now id ttl_sec k st =
    let (after, r) = get_inbound_request k st in accept_found now id ttl_sec k after r

abbrev pub incr_request_day : Endpoint → Text → Store → Store
incr_request_day k day st = record st {
  request_day = λ j d.
      ite (endpoint_discrete k j)
        (if same day d then st.request_day j d + 1 else st.request_day j d) (st.request_day j d);
}
