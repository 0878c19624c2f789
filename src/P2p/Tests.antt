-- ===== src/P2p/Tests.antt =====
-- Each theorem of the properties on p2p-service.ts and p2p-repos.ts at the run of two users.
mod Runs
use we_chat_ai.Base.{
  trim_end, trim_start, is_space, sym, ◌∙◌, ℕ, ◌≡◌, ◌≢◌, refl, true, false, none, some, [], ◌∷◌,
  Text, units, text_discrete, ℕ_discrete, same, if◌then◌else◌, arith,
}
use we_chat_ai.P2p.Store.{
  Endpoint, endpoint_discrete, UserWechatBind, BindCodeRecord, ConnectRequest, PeerIdentity, Store,
  empty_store, sweep,
}
use we_chat_ai.P2p.Repos.{
  create_bind_code, consume_bind_code, get_bind_by_peer, get_outbound_request, get_inbound_request,
  get_p2p_session_for_peer, end_session, end_outbound, end_inbound, end_for_peer,
  clear_bind_pointers, set_primary_bind, create_connect_request, write_session,
  is_blocked_either_way, accept_connect_request, end_relations_between_users, block_user,
  self_block, blocked,
}
use we_chat_ai.P2p.Command.{parse_command, unblock}
use we_chat_ai.P2p.Service.{
  User, Directory, is_peer_reachable, P2pServiceOptions, Moment, Inbound, Handled, talk_begins,
  has_accepted, replying, request_sent, asks_you, handle_bind, handle_at, handle_accept,
  handle_disconnect, handle_relay, handle_inbound, no_command,
}
use we_chat_ai.P2p.Invariant.{Good, Free}
use we_chat_ai.P2p.Blocking.{Quiet, block_user-Quiet}
use we_chat_ai.P2p.Rebinding.{set_primary_bind-bound}
use we_chat_ai.P2p.Mentions.{AtResult, handle_at-AtResult}
use we_chat_ai.P2p.Relays.{RelayResult, no_command-RelayResult}
use we_chat_ai.P2p.Talks.{
  AcceptResult, handle_accept-AcceptResult, DisconnectResult, handle_disconnect-DisconnectResult,
}
use we_chat_ai.P2p.Reach.{IsNew, message, code, Reach, start, later, Reach-Good}
use we_chat_ai.P2p.Codes.{ReadBack, code_record, consume_bind_code-create}
use we_chat_ai.P2p.Delivery.{delivery, handle_accept-no_command}
use we_chat_ai.P2p.Tests.Runs.{
  x_peer, y_peer, ann, ben, two_users, options, moment, says, said, with_codes, ann_bound,
  both_bound, ann_party, ben_party, asked_for, talking_now, test_parse, test_answers, ids-IsNew,
  reach_codes, reach_bound, reach_asked, reach_talking, test_block, blocked_ne, made_block,
  ann_at_y, ann_code, made_code, ann_asks, asked_for_lem,
}

Reach-Good_example : Good talking_now
Reach-Good_example = Reach-Good reach_talking

handle_at-AtResult_example :
    AtResult two_users options
      (moment 5)
      x_peer
      (units "ben")
      both_bound
      (handle_at two_users options (moment 5) x_peer (units "ben") both_bound)
handle_at-AtResult_example =
    handle_at-AtResult two_users options (moment 5) x_peer (units "ben") both_bound
      (Reach-Good reach_bound)

handle_accept-AcceptResult_example :
    AcceptResult two_users options
      (moment 6)
      y_peer
      asked_for
      (handle_accept two_users options (moment 6) y_peer asked_for)
handle_accept-AcceptResult_example =
    handle_accept-AcceptResult two_users options (moment 6) y_peer asked_for
      (Reach-Good reach_asked)

no_command-RelayResult_example :
    RelayResult two_users options (moment 7) x_peer (units "hello") talking_now false (
      no_command two_users options
        (moment 7)
        x_peer
        (units "hello")
        false
        (get_p2p_session_for_peer x_peer talking_now))
no_command-RelayResult_example =
    no_command-RelayResult two_users options (moment 7) x_peer (units "hello") talking_now
      (Reach-Good reach_talking) false

handle_disconnect-DisconnectResult_example :
    DisconnectResult two_users options
      (moment 8)
      y_peer
      talking_now
      (handle_disconnect two_users options (moment 8) y_peer talking_now)
handle_disconnect-DisconnectResult_example =
    handle_disconnect-DisconnectResult two_users options (moment 8) y_peer talking_now
      (Reach-Good reach_talking)

block_user-Quiet_example :
    Quiet (units "1") (block_user (units "1") (units "2") talking_now).0
    × Quiet (units "2") (block_user (units "1") (units "2") talking_now).0
    × ((block_user (units "1") (units "2") talking_now).0.blocks (units "1") (units "2") ≡ true)
    × ((block_user (units "1") (units "2") talking_now).0.bind_user ≡ talking_now.bind_user)
block_user-Quiet_example =
    block_user-Quiet (units "1") (units "2") talking_now (Reach-Good reach_talking) made_block

set_primary_bind-bound_example :
    (get_bind_by_peer y_peer (set_primary_bind ann_at_y talking_now) ≡ some ann_at_y)
    × Free y_peer (set_primary_bind ann_at_y talking_now)
    × ((k : Endpoint)
        → (set_primary_bind ann_at_y talking_now).bind_peer k ≡ some (units "1")
        → k ≡ y_peer)
set_primary_bind-bound_example =
    set_primary_bind-bound ann_at_y talking_now (Reach-Good reach_talking)

consume_bind_code-create_example : ReadBack (units "1") (units "ann") ann_code empty_store (
    consume_bind_code
      (units "AAAA")
      (create_bind_code 1 (units "1") (units "ann") 600 (units "AAAA" ∷ []) empty_store).0)
consume_bind_code-create_example =
    consume_bind_code-create 1 (units "1") (units "ann") 600 (units "AAAA" ∷ []) empty_store
      ann_code made_code

handle_accept-no_command_example :
    ((no_command two_users options (moment 6) x_peer (units "hello") false (
        get_p2p_session_for_peer x_peer
          (handle_accept two_users options (moment 6) y_peer asked_for).0)).1
      ≡ delivery ann_party ben_party (units "hell"))
    × ((no_command two_users options (moment 6) y_peer (units "hello") false (
          get_p2p_session_for_peer y_peer
            (handle_accept two_users options (moment 6) y_peer asked_for).0)).1
        ≡ delivery ben_party ann_party (units "hell"))
handle_accept-no_command_example =
    handle_accept-no_command two_users options (moment 6) y_peer asked_for (Reach-Good reach_asked)
      ann_asks 120005 asked_for_lem.0 refl asked_for_lem.1 (units "hello") refl (omega arith)
