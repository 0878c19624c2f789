-- ===== src/P2p/Service/Talk.antt =====
-- p2p-service.ts: the handlers of the requests and of the sessions, and the relay.
use we_chat_ai.Base.{
  Bool, true, false, not, Option, none, some, [], ◌∷◌, Text, same, take, length, leb, ltb,
  if◌then◌else◌,
}
use we_chat_ai.P2p.Store.{Endpoint, PeerIdentity, UserWechatBind, ConnectRequest, P2pSession, Store}
use we_chat_ai.P2p.Repos.{
  get_bind_by_peer, delete_connect_request, delete_p2p_session, get_outbound_request,
  get_inbound_request, get_p2p_session_for_peer, Busy, from_busy, to_busy, race,
  create_connect_request, write_session, other_party, self_party, is_blocked_either_way, Accepted,
  accepted, no_request, not_target, accept_connect_request, incr_request_day, is_empty_text,
}
use we_chat_ai.P2p.Service.Types.{
  User, Directory, is_peer_reachable, P2pServiceOptions, Moment, HandleResult, local_only,
  fall_through, replying, fmt_min, or_username, Handled, username_of, not_bound, no_such_user,
  is_self, busy_talking, busy_waiting, busy_asked, blocked_by_list, target_unbound, unreachable,
  day_limit, target_busy, self_busy, not_created, request_sent, closed_by_list, nothing_asked,
  talk_begins, rejected, nothing_to_cancel, cancelled, not_talking, talk_ended, session_broken,
  empty_message, no_media, asks_you, has_accepted, has_rejected, has_cancelled, has_left, relayed,
}

module _ (d : Directory) (o : P2pServiceOptions) (m : Moment) (k : Endpoint) where
  -- the request of `handleAt`, after its tests
  abbrev pub answer_created : PeerIdentity → PeerIdentity → Store × Option Busy → Handled
  answer_created from_peer to_peer (st, some to_busy) =
      (st, local_only (target_busy to_peer.username))
  answer_created from_peer to_peer (st, some from_busy) = (st, local_only self_busy)
  answer_created from_peer to_peer (st, some race) = (st, local_only not_created)
  answer_created from_peer to_peer (st, none) = (
    incr_request_day k m.day st,
    replying (request_sent to_peer.username (fmt_min o.request_ttl_sec)) to_peer.at
        (asks_you from_peer.username (fmt_min o.request_ttl_sec)),
  )

  abbrev pub own_identity : UserWechatBind → PeerIdentity
  own_identity own = record {
    at = own.at;
    user_id = own.user_id;
    username = or_username own.username (d.get_user own.user_id);
  }

  abbrev pub target_identity : UserWechatBind → User → PeerIdentity
  target_identity their target = record {
    at = their.at;
    user_id = their.user_id;
    username = target.username;
  }

  abbrev pub ask : UserWechatBind → User → Store → Option UserWechatBind → Handled
  ask own target st none = (st, local_only (target_unbound target.username))
  ask own target st (some their) =
      if not (is_peer_reachable d their.at)
      then (st, local_only (unreachable target.username))
      else if leb o.max_requests_per_day (st.request_day k m.day)
      then (st, local_only (day_limit o.max_requests_per_day))
      else answer_created (own_identity own) (target_identity their target) (
          create_connect_request m.now m.new_id (own_identity own) (target_identity their target)
            o.request_ttl_sec st)

  abbrev pub at_target : Text → UserWechatBind → Store → Option User → Handled
  at_target name own st none = (st, local_only (no_such_user name))
  at_target name own st (some target) =
      if same target.id own.user_id
      then (st, local_only is_self)
      else if is_blocked_either_way own.user_id target.id st
      then (st, local_only (blocked_by_list target.username))
      else ask own target st (st.bind_user target.id)

  abbrev pub at_inbound : Text → UserWechatBind → Store × Option ConnectRequest → Handled
  at_inbound name own (st, some inn) = (st, local_only (busy_asked inn.from_peer.username))
  at_inbound name own (st, none) = at_target name own st (d.get_user_by_username name)

  abbrev pub at_outbound : Text → UserWechatBind → Store × Option ConnectRequest → Handled
  at_outbound name own (st, some out) = (st, local_only (busy_waiting out.to_peer.username))
  at_outbound name own (st, none) = at_inbound name own (get_inbound_request k st)

  abbrev pub at_session : Text → UserWechatBind → Store × Option P2pSession → Handled
  at_session name own (st, some s) = (st, local_only (busy_talking (username_of (other_party s k))))
  at_session name own (st, none) = at_outbound name own (get_outbound_request k st)

  abbrev pub at_bound : Text → Store → Option UserWechatBind → Handled
  at_bound name st none = (st, local_only not_bound)
  at_bound name st (some own) = at_session name own (get_p2p_session_for_peer k st)

  unfoldable pub handle_at : Text → Store → Handled
  handle_at name st = at_bound name st (get_bind_by_peer k st)

  abbrev pub accept_answer : Store × Accepted → Handled
  accept_answer (st, accepted s r) = (
    st,
    replying (talk_begins r.from_peer.username (fmt_min o.session_idle_sec)) r.from_peer.at
        (has_accepted r.to_peer.username),
  )
  accept_answer (st, no_request) = (st, local_only nothing_asked)
  accept_answer (st, not_target) = (st, local_only nothing_asked)

  abbrev pub accept_now : Store → Handled
  accept_now st = accept_answer (accept_connect_request m.now m.new_id o.session_idle_sec k st)

  abbrev pub accept_checked : ConnectRequest → Store → Option UserWechatBind → Handled
  accept_checked r st none = accept_now st
  accept_checked r st (some own) =
      if is_blocked_either_way own.user_id r.from_peer.user_id st
      then (delete_connect_request r st, local_only (closed_by_list r.from_peer.username))
      else accept_now st

  abbrev pub accept_read : Store × Option ConnectRequest → Handled
  accept_read (st, none) = accept_now st
  accept_read (st, some r) = accept_checked r st (get_bind_by_peer k st)

  unfoldable pub handle_accept : Store → Handled
  handle_accept st = accept_read (get_inbound_request k st)

  abbrev pub reject_read : Store × Option ConnectRequest → Handled
  reject_read (st, none) = (st, local_only nothing_asked)
  reject_read (st, some r) = (
    delete_connect_request r st,
    replying (rejected r.from_peer.username) r.from_peer.at (has_rejected r.to_peer.username),
  )

  unfoldable pub handle_reject : Store → Handled
  handle_reject st = reject_read (get_inbound_request k st)

  abbrev pub cancel_read : Store × Option ConnectRequest → Handled
  cancel_read (st, none) = (st, local_only nothing_to_cancel)
  cancel_read (st, some r) = (
    delete_connect_request r st,
    replying (cancelled r.to_peer.username) r.to_peer.at (has_cancelled r.from_peer.username),
  )

  unfoldable pub handle_cancel : Store → Handled
  handle_cancel st = cancel_read (get_outbound_request k st)

  abbrev pub left : Option PeerIdentity → Option PeerIdentity → HandleResult
  left (some me) (some other) = replying talk_ended other.at (has_left me.username)
  left none other = local_only talk_ended
  left (some me) none = local_only talk_ended

  abbrev pub disconnect_read : Store × Option P2pSession → Handled
  disconnect_read (st, none) = (st, local_only not_talking)
  disconnect_read (st, some s) = (delete_p2p_session s st, left (self_party s k) (other_party s k))

  unfoldable pub handle_disconnect : Store → Handled
  handle_disconnect st = disconnect_read (get_p2p_session_for_peer k st)

  -- the relay of a text that is trimmed
  abbrev pub relay_parties :
      P2pSession → Text → Store → Option PeerIdentity → Option PeerIdentity → Handled
  relay_parties s text st (some me) (some other) =
      let body =
        if ltb o.relay_max_chars (length text) then take o.relay_max_chars text else text in
      if is_empty_text body then (st, local_only empty_message) else (
        write_session m.now o.session_idle_sec s st,
        record {
          handled = true;
          local_replies = [];
          remote_sends = record { to = other.at; message = relayed me.username body } ∷ [];
        },
      )
  relay_parties s text st none other = (delete_p2p_session s st, local_only session_broken)
  relay_parties s text st (some me) none = (delete_p2p_session s st, local_only session_broken)

  unfoldable pub handle_relay : P2pSession → Text → Store → Handled
  handle_relay s text st = relay_parties s text st (self_party s k) (other_party s k)

  abbrev pub no_command : Text → Bool → Store × Option P2pSession → Handled
  no_command text media_only (st, none) = (st, fall_through)
  no_command text true (st, some s) = (st, local_only no_media)
  no_command text false (st, some s) = handle_relay s text st
