-- ===== src/P2p/Tests/Runs.antt =====
-- Two users bind, one asks for the other, the other accepts, and they talk.
use we_chat_ai.Base.{
  trim_end, trim_start, is_space, sym, ◌∙◌, ℕ, ◌≡◌, ◌≢◌, refl, false, none, some, [], ◌∷◌, Text,
  units, text_discrete, ℕ_discrete, same, if◌then◌else◌,
}
use we_chat_ai.P2p.Store.{
  Endpoint, endpoint_discrete, UserWechatBind, BindCodeRecord, ConnectRequest, PeerIdentity, Store,
  empty_store, sweep,
}
use we_chat_ai.P2p.Repos.{
  create_bind_code, consume_bind_code, get_bind_by_peer, get_outbound_request, get_inbound_request,
  get_p2p_session_for_peer, end_session, end_outbound, end_inbound, end_for_peer,
  clear_bind_pointers, set_primary_bind, create_connect_request, write_session,
  is_blocked_either_way, accept_connect_request, end_relations_between_users, block_user,
  self_block, blocked,
}
use we_chat_ai.P2p.Command.{parse_command, unblock}
use we_chat_ai.P2p.Service.{
  User, Directory, is_peer_reachable, P2pServiceOptions, Moment, Inbound, Handled, talk_begins,
  has_accepted, replying, request_sent, asks_you, handle_bind, handle_at, handle_accept,
  handle_relay, handle_inbound,
}
use we_chat_ai.P2p.Reach.{IsNew, message, code, Reach, start, later}
use we_chat_ai.P2p.Codes.{code_record}
use we_chat_ai.P2p.Delivery.{delivery}

abbrev pub x_peer : Endpoint
x_peer = record { bot_id = units "b"; peer_id = units "x" }

abbrev pub y_peer : Endpoint
y_peer = record { bot_id = units "b"; peer_id = units "y" }

abbrev pub ann : User
ann = record { id = units "1"; username = units "ann" }

abbrev pub ben : User
ben = record { id = units "2"; username = units "ben" }

abbrev pub two_users : Directory
two_users = record {
  get_user = λ id.
      if same id (units "1") then some ann else if same id (units "2") then some ben else none;
  get_user_by_username = λ name.
      if same name (units "ann")
      then some ann
      else if same name (units "ben")
      then some ben
      else none;
  get_context_token = λ k. some (units "t");
  get_bot_token = λ bot. some (units "t");
  smembers = λ blocked. [];
}

abbrev pub options : P2pServiceOptions
options = record {
  request_ttl_sec = 120;
  session_idle_sec = 1800;
  relay_max_chars = 4;
  max_requests_per_day = 3;
}

abbrev pub moment : ℕ → Moment
moment now = record { now = now; day = units "d"; new_id = now ∷ [] }

abbrev pub says : Endpoint → Text → Inbound
says k text = record { at = k; text = text; media_only = false }

abbrev pub said : ℕ → Endpoint → Text → Store → Handled
said now k text st = handle_inbound two_users options (moment now) (says k text) st

abbrev pub with_codes : Store
with_codes =
    (create_bind_code 2 (units "2") (units "ben") 600 (units "BBBB" ∷ []) (
      sweep 2
        (create_bind_code 1 (units "1") (units "ann") 600 (units "AAAA" ∷ [])
          (sweep 1 empty_store)).0)).0

abbrev pub ann_bound : Store
ann_bound = (said 3 x_peer (units "/绑定 aaaa") with_codes).0

abbrev pub both_bound : Store
both_bound = (said 4 y_peer (units "/绑定 bbbb") ann_bound).0

abbrev pub ann_party : PeerIdentity
ann_party = record { at = x_peer; user_id = units "1"; username = units "ann" }

abbrev pub ben_party : PeerIdentity
ben_party = record { at = y_peer; user_id = units "2"; username = units "ben" }

abbrev pub asked_for : Store
asked_for = (said 5 x_peer (units "@ben") both_bound).0

abbrev pub talking_now : Store
talking_now = (said 6 y_peer (units "/同意") asked_for).0

pub test_parse : parse_command (units "/取消拉黑 @bob") ≡ some (unblock (units "bob"))
unfolding parse_command same is_space trim_start
test_parse = refl

pub test_answers :
    (get_bind_by_peer x_peer both_bound
      ≡ some (record { user_id = units "1"; username = units "ann"; at = x_peer }))
    × ((said 5 x_peer (units "@ben") both_bound).1
        ≡ replying (request_sent (units "ben") 2) y_peer (asks_you (units "ann") 2))
    × ((said 6 y_peer (units "/同意") asked_for).1
        ≡ replying (talk_begins (units "ann") 30) x_peer (has_accepted (units "ben")))
    × ((said 7 x_peer (units "hello") talking_now).1 ≡ delivery ann_party ben_party (units "hell"))
unfolding is_peer_reachable handle_inbound handle_bind handle_at handle_accept handle_relay
    parse_command sweep create_bind_code consume_bind_code set_primary_bind clear_bind_pointers
    end_for_peer end_session end_outbound end_inbound get_outbound_request get_inbound_request
    get_p2p_session_for_peer create_connect_request accept_connect_request write_session
    is_blocked_either_way text_discrete endpoint_discrete ℕ_discrete trim_end trim_start is_space
    same
test_answers = (refl, refl, refl, refl)

pub ids-IsNew :
    (IsNew (3 ∷ []) with_codes)
    × (IsNew (4 ∷ []) ann_bound)
    × (IsNew (5 ∷ []) both_bound)
    × (IsNew (6 ∷ []) asked_for)
unfolding is_peer_reachable handle_inbound handle_bind handle_at handle_accept handle_relay
    parse_command sweep create_bind_code consume_bind_code set_primary_bind clear_bind_pointers
    end_for_peer end_session end_outbound end_inbound get_outbound_request get_inbound_request
    get_p2p_session_for_peer create_connect_request accept_connect_request write_session
    is_blocked_either_way text_discrete endpoint_discrete ℕ_discrete trim_end trim_start is_space
    same
ids-IsNew = ((refl, refl), (refl, refl), (refl, refl), (refl, refl))

pub reach_codes : Reach with_codes
reach_codes =
    later (later start (code 1 (units "1") (units "ann") 600 (units "AAAA" ∷ []) refl))
      (code 2 (units "2") (units "ben") 600 (units "BBBB" ∷ []) refl)

pub reach_bound : Reach both_bound
reach_bound =
    later
      (later reach_codes
        (message two_users options (moment 3) (says x_peer (units "/绑定 aaaa")) ids-IsNew.0 refl))
      (message two_users options (moment 4) (says y_peer (units "/绑定 bbbb")) ids-IsNew.1 refl)

pub reach_asked : Reach asked_for
reach_asked =
    later reach_bound
      (message two_users options (moment 5) (says x_peer (units "@ben")) ids-IsNew.2 refl)

pub reach_talking : Reach talking_now
reach_talking =
    later reach_asked
      (message two_users options (moment 6) (says y_peer (units "/同意")) ids-IsNew.3 refl)

pub test_block : (block_user (units "1") (units "2") talking_now).1 ≡ blocked
unfolding is_peer_reachable handle_inbound handle_bind handle_at handle_accept handle_relay
    parse_command sweep create_bind_code consume_bind_code set_primary_bind clear_bind_pointers
    end_for_peer end_session end_outbound end_inbound get_outbound_request get_inbound_request
    get_p2p_session_for_peer create_connect_request accept_connect_request write_session
    is_blocked_either_way text_discrete endpoint_discrete ℕ_discrete trim_end trim_start is_space
    same block_user end_relations_between_users
test_block = refl

pub blocked_ne : blocked ≢ self_block
blocked_ne e = cc

pub made_block : (block_user (units "1") (units "2") talking_now).1 ≢ self_block
made_block e = blocked_ne (sym test_block ∙ e)

abbrev pub ann_at_y : UserWechatBind
ann_at_y = record { user_id = units "1"; username = units "ann"; at = y_peer }

abbrev pub ann_code : BindCodeRecord
ann_code = code_record (units "AAAA") (units "1") (units "ann")

pub made_code :
    (create_bind_code 1 (units "1") (units "ann") 600 (units "AAAA" ∷ []) empty_store).1
    ≡ some ann_code
unfolding create_bind_code
made_code = refl

abbrev pub ann_asks : ConnectRequest
ann_asks = record { id = 5 ∷ []; from_peer = ann_party; to_peer = ben_party }

pub asked_for_lem :
    (asked_for.connect_req (5 ∷ []) ≡ some (ann_asks, 120005)) × (asked_for.session (6 ∷ []) ≡ none)
unfolding is_peer_reachable handle_inbound handle_bind handle_at handle_accept handle_relay
    parse_command sweep create_bind_code consume_bind_code set_primary_bind clear_bind_pointers
    end_for_peer end_session end_outbound end_inbound get_outbound_request get_inbound_request
    get_p2p_session_for_peer create_connect_request accept_connect_request write_session
    is_blocked_either_way text_discrete endpoint_discrete ℕ_discrete trim_end trim_start is_space
    same
asked_for_lem = (refl, refl)
