-- ===== src/P2p/Service/Account.antt =====
-- p2p-service.ts: the handlers of the bind, of the state and of the block list.
use we_chat_ai.Base.{
  ℕ, ◌-◌, Bool, true, false, ◌&&◌, Option, none, some, List, [], ◌∷◌, map, Text, same, leb,
  if◌then◌else◌,
}
use we_chat_ai.P2p.Store.{
  Endpoint, UserWechatBind, BindCodeRecord, ConnectRequest, P2pSession, Store,
}
use we_chat_ai.P2p.Repos.{
  consume_bind_code, get_bind_by_peer, get_outbound_request, get_inbound_request,
  get_p2p_session_for_peer, set_primary_bind, clear_primary_bind, other_party, BlockResult, blocked,
  self_block, already, block_user, unblock_user,
}
use we_chat_ai.P2p.Service.Types.{
  User, Directory, State, Reply, local_only, Handled, username_of, idle, talking, waiting, asked,
  bad_code, no_account, bound, not_bound, unbound, who, no_such_user, is_self, already_blocked,
  has_blocked, not_blocked, has_unblocked, no_blocks, blocks,
}

module _ (d : Directory) (k : Endpoint) where
  abbrev pub bind_user_found : Store → Option User → Handled
  bind_user_found st none = (st, local_only no_account)
  bind_user_found st (some user) = (
    set_primary_bind (record { user_id = user.id; username = user.username; at = k }) st,
    local_only (bound user.username),
  )

  abbrev pub bind_code_found : Store → Option BindCodeRecord → Handled
  bind_code_found st none = (st, local_only bad_code)
  bind_code_found st (some rec) = bind_user_found st (d.get_user rec.user_id)

  unfoldable pub handle_bind : Text → Store → Handled
  handle_bind code st =
      let (after, rec) = consume_bind_code (map upper_unit code) st in bind_code_found after rec
    where
      upper_unit : ℕ → ℕ
      upper_unit c = if leb b'a' c && leb c b'z' then c - 32 else c

  abbrev pub unbind_found : Store → Option UserWechatBind → Handled
  unbind_found st none = (st, local_only not_bound)
  unbind_found st (some own) =
      (clear_primary_bind own.user_id st, local_only (unbound own.username))

  unfoldable pub handle_unbind : Store → Handled
  handle_unbind st = unbind_found st (get_bind_by_peer k st)

  abbrev pub state_of : Option P2pSession → Option ConnectRequest → Option ConnectRequest → State
  state_of (some s) out inn = talking (username_of (other_party s k))
  state_of none (some out) inn = waiting out.to_peer.username
  state_of none none (some inn) = asked inn.from_peer.username
  state_of none none none = idle

  abbrev pub whoami_found : Store → Option UserWechatBind → Handled
  whoami_found st none = (st, local_only not_bound)
  whoami_found st (some own) =
      let (s1, session) = get_p2p_session_for_peer k st in
      let (s2, out) = get_outbound_request k s1 in
      let (s3, inn) = get_inbound_request k s2 in
      (s3, local_only (who own.username (state_of session out inn)))

  unfoldable pub handle_whoami : Store → Handled
  handle_whoami st = whoami_found st (get_bind_by_peer k st)

  abbrev pub block_answer : Text → Store × BlockResult → Handled
  block_answer username (st, already) = (st, local_only (already_blocked username))
  block_answer username (st, blocked) = (st, local_only (has_blocked username))
  block_answer username (st, self_block) = (st, local_only (has_blocked username))

  abbrev pub block_target : Text → Store → UserWechatBind → Option User → Handled
  block_target name st own none = (st, local_only (no_such_user name))
  block_target name st own (some target) =
      if same target.id own.user_id
      then (st, local_only is_self)
      else block_answer target.username (block_user own.user_id target.id st)

  abbrev pub block_found : Text → Store → Option UserWechatBind → Handled
  block_found name st none = (st, local_only not_bound)
  block_found name st (some own) = block_target name st own (d.get_user_by_username name)

  unfoldable pub handle_block : Text → Store → Handled
  handle_block name st = block_found name st (get_bind_by_peer k st)

  abbrev pub unblock_answer : Text → Store × Bool → Handled
  unblock_answer username (st, true) = (st, local_only (has_unblocked username))
  unblock_answer username (st, false) = (st, local_only (not_blocked username))

  abbrev pub unblock_target : Text → Store → UserWechatBind → Option User → Handled
  unblock_target name st own none = (st, local_only (no_such_user name))
  unblock_target name st own (some target) =
      unblock_answer target.username (unblock_user own.user_id target.id st)

  abbrev pub unblock_found : Text → Store → Option UserWechatBind → Handled
  unblock_found name st none = (st, local_only not_bound)
  unblock_found name st (some own) = unblock_target name st own (d.get_user_by_username name)

  unfoldable pub handle_unblock : Text → Store → Handled
  handle_unblock name st = unblock_found name st (get_bind_by_peer k st)

  abbrev pub name_of_user : Option User → Option Text
  name_of_user none = none
  name_of_user (some user) = some user.username

  abbrev pub listed : List Text → Reply
  listed [] = no_blocks
  listed (id ∷ ids) = blocks (map (λ i. (i, name_of_user (d.get_user i))) (id ∷ ids))

  abbrev pub list_found : Store → Option UserWechatBind → Handled
  list_found st none = (st, local_only not_bound)
  list_found st (some own) = (st, local_only (listed (d.smembers (st.blocks own.user_id))))

  unfoldable pub handle_block_list : Store → Handled
  handle_block_list st = list_found st (get_bind_by_peer k st)
