-- ===== src/P2p/Service.antt =====
-- p2p-service.ts, `P2PService.handleInbound`. A handler is one function of the store at one instant.
mod Types
mod Account
mod Talk
unfoldable pub use Types.*
unfoldable pub use Account.*
unfoldable pub use Talk.*
use we_chat_ai.Base.{
  ℕ, ◌+◌, ◌-◌, ◌/◌, max, Bool, true, false, not, ◌&&◌, ◌||◌, Option, none, some, List, [], ◌∷◌,
  ◌++◌, map, Text, units, trim, same, take, length, leb, ltb, if◌then◌else◌,
}
use we_chat_ai.P2p.Store.{
  Endpoint, PeerIdentity, UserWechatBind, BindCodeRecord, ConnectRequest, P2pSession, Store, sweep,
}
use we_chat_ai.P2p.Repos.{
  consume_bind_code, get_bind_by_peer, delete_connect_request, delete_p2p_session,
  get_outbound_request, get_inbound_request, get_p2p_session_for_peer, set_primary_bind,
  clear_primary_bind, Busy, from_busy, to_busy, race, create_connect_request, write_session,
  other_party, self_party, is_blocked_either_way, BlockResult, blocked, self_block, already,
  block_user, unblock_user, Accepted, accepted, no_request, not_target, accept_connect_request,
  incr_request_day, is_empty_text,
}
use we_chat_ai.P2p.Command.{
  Command, bind, unbind, whoami, accept, reject, disconnect, cancel, block, unblock, block_list,
  mention, parse_command,
}

module _ (d : Directory) (o : P2pServiceOptions) (m : Moment) (k : Endpoint) where
  abbrev pub dispatch : Command → Store → Handled
  dispatch (bind code) st = handle_bind d k code st
  dispatch unbind st = handle_unbind d k st
  dispatch whoami st = handle_whoami d k st
  dispatch accept st = handle_accept d o m k st
  dispatch reject st = handle_reject d o m k st
  dispatch disconnect st = handle_disconnect d o m k st
  dispatch cancel st = handle_cancel d o m k st
  dispatch (block name) st = handle_block d k name st
  dispatch (unblock name) st = handle_unblock d k name st
  dispatch block_list st = handle_block_list d k st
  dispatch (mention name) st = handle_at d o m k name st

  abbrev pub run_command : Text → Bool → Store → Option Command → Handled
  run_command text media_only st (some command) = dispatch command st
  run_command text media_only st none =
      no_command d o m k text media_only (get_p2p_session_for_peer k st)

-- the message as `handleInbound` takes it at an instant
unfoldable pub handle_inbound : Directory → P2pServiceOptions → Moment → Inbound → Store → Handled
handle_inbound d o m req st =
    let text = trim req.text in
    let media_only = req.media_only || is_empty_text text in
    run_command d o m req.at text media_only (sweep m.now st)
      (if media_only then none else parse_command text)
