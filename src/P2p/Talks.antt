-- ===== src/P2p/Talks.antt =====
-- The handlers of the requests and of the sessions: what they give, and that they keep the invariant where the
-- id that they may make is a new one.
use mathlib.Core.Path.{subst}
use we_chat_ai.Base.{◌≡◌, refl, sym, ◌∙◌, ap, Bool, false, Option, none, some, Text, ℕ}
use we_chat_ai.P2p.Store.{Endpoint, UserWechatBind, ConnectRequest, P2pSession, PeerIdentity, Store}
use we_chat_ai.P2p.Repos.{
  get_bind_by_peer, is_blocked_either_way, get_inbound_request, get_outbound_request,
  get_p2p_session_for_peer, Accepted, delete_connect_request, delete_p2p_session, write_session,
}
use we_chat_ai.P2p.Service.{
  Directory, P2pServiceOptions, Moment, Handled, nothing_asked, not_talking, talk_ended,
  talk_begins, has_accepted, has_left, local_only, replying, fmt_min, accept_answer, accept_now,
  accept_checked, accept_read, handle_accept, reject_read, handle_reject, cancel_read,
  handle_cancel, disconnect_read, handle_disconnect, handle_at, no_command,
}
use we_chat_ai.P2p.Endings.{same_some}
use we_chat_ai.P2p.Invariant.{Fitting, Good, Free}
use we_chat_ai.P2p.Endings.{
  Ending-Good, delete_connect_request-Ending, delete_p2p_session-Ending, delete_p2p_session-Free,
}
use we_chat_ai.P2p.Peers.{
  Read, nothing, found, session-Read, outbound-Read, inbound-Read, Talks, Asks, Asked,
}
use we_chat_ai.P2p.Starts.{write_session-Good_again}
use we_chat_ai.P2p.Asking.{with_request-Good, Fitting-distinct}
use we_chat_ai.P2p.Accepting.{
  Acceptance, unasked, begun, session_of, accept_connect_request-Acceptance, accepted-Good,
}
use we_chat_ai.P2p.Mentions.{AtResult, told, asks, handle_at-AtResult, get_bind_by_peer_lem}
use we_chat_ai.P2p.Relays.{
  RelayResult, fell_through, no_text, nothing_left, sent, no_command-RelayResult, Sides,
  OnSession-Sides, Sides-mine, Sides-theirs, Fitting-sym,
}
use we_chat_ai.P2p.Accounts.{aside-Good}

module _ (d : Directory) (o : P2pServiceOptions) (m : Moment) (k : Endpoint) (st : Store) where
  -- what `handleAccept` may give on a store between two calls
  pub data AcceptResult (got : Handled) : Type 0 where
    nobody : got ≡ (st, local_only nothing_asked) → st.connect_to k ≡ none → AcceptResult got
    begins :
        (r : ConnectRequest) (dl : ℕ)
        → st.connect_req r.id ≡ some (r, dl)
        → r.to_peer.at ≡ k
        → Fitting st r.from_peer r.to_peer
        → got ≡ (
          write_session m.now o.session_idle_sec
              (session_of m.new_id r)
              (delete_connect_request r st),
          replying
              (talk_begins r.from_peer.username (fmt_min o.session_idle_sec))
              r.from_peer.at
              (has_accepted r.to_peer.username),
        )
        → AcceptResult got

  -- what `handleDisconnect` may give on a store between two calls
  pub data DisconnectResult (got : Handled) : Type 0 where
    alone : got ≡ (st, local_only not_talking) → st.p2p_peer k ≡ none → DisconnectResult got
    parts :
        (s : P2pSession) (me other : PeerIdentity) (dl : ℕ)
        → st.session s.id ≡ some (s, dl)
        → Sides s k me other
        → got ≡ (delete_p2p_session s st, replying talk_ended other.at (has_left me.username))
        → Free me.at got.0
        → Free other.at got.0
        → DisconnectResult got

  module _ (g : Good st) where
    now_accepted : AcceptResult (accept_now d o m k st)
    now_accepted = go _ (accept_connect_request-Acceptance m.now m.new_id o.session_idle_sec k st g)
      where
        go :
            (got : Store × Accepted)
            → Acceptance m.now m.new_id o.session_idle_sec k st got
            → AcceptResult (accept_answer d o m k got)
        go got (unasked e n) = nobody (ap (accept_answer d o m k) e) n
        go got (begun r (dl, here, to) e) =
            begins r dl here to (g.fits.askers r.id r dl here) (ap (accept_answer d o m k) e)

    -- The sides of a request are not blocked, so that the test of `handleAccept` never ends one.
    clear_to_accept :
        (r : ConnectRequest)
        → Asked st k r
        → (own : UserWechatBind) → get_bind_by_peer k st ≡ some own
        → is_blocked_either_way own.user_id r.from_peer.user_id st ≡ false
    clear_to_accept r (dl, here, to) own h =
        let fit = g.fits.askers r.id r dl here in
        let (at, bound, mine) = get_bind_by_peer_lem k st own g.binds h in
        ap (λ (u : Text). is_blocked_either_way u r.from_peer.user_id st)
          (same_some (sym bound ∙ ap st.bind_peer (sym to) ∙ fit.bound_y))
        ∙ (Fitting-sym fit).unblocked

    -- Under the invariant, `/同意` of a request begins the session between its two sides, who are bound and
    -- have not blocked each other, in place of the request, and the asker is told; where nobody asks, the
    -- store is as it was and nobody else is told.
    pub handle_accept-AcceptResult : AcceptResult (handle_accept d o m k st)
    unfolding handle_accept
    handle_accept-AcceptResult = go (inbound-Read g.engaged k)
      where
        checked :
            (r : ConnectRequest)
            → Asked st k r
            → (x : Option UserWechatBind) → get_bind_by_peer k st ≡ x
            → AcceptResult (accept_checked d o m k r st x)
        checked r p none h = now_accepted
        checked r p (some own) h = rw (clear_to_accept r p own h) now_accepted

        go :
            Read st (get_inbound_request k st) (st.connect_to k ≡ none) (Asked st k)
            → AcceptResult (accept_read d o m k (get_inbound_request k st))
        go (nothing e n) = subst AcceptResult (ap (accept_read d o m k) (sym e)) now_accepted
        go (found r e p) =
            subst AcceptResult (ap (accept_read d o m k) (sym e))
              (checked r p (get_bind_by_peer k st) refl)

    -- Under the invariant, `/断开` ends the session of the sender: neither side has a request or a session
    -- afterwards, and the other one is told. Without a session the store is as it was and nobody else is
    -- told.
    pub handle_disconnect-DisconnectResult : DisconnectResult (handle_disconnect d o m k st)
    unfolding handle_disconnect
    handle_disconnect-DisconnectResult = go (session-Read g.engaged k)
      where
        parted :
            (s : P2pSession)
            → Talks st k s
            → DisconnectResult (disconnect_read d o m k (st, some s))
        parted s (dl, here, on) =
            let (me, other, sides) =
              OnSession-Sides s k (Fitting-distinct (g.fits.talkers s.id s dl here)) on in
            rw (sides.self, sides.across)
              (parts s me other dl here sides refl
                (delete_p2p_session-Free g.engaged s dl here me.at (Sides-mine sides))
                (delete_p2p_session-Free g.engaged s dl here other.at (Sides-theirs sides)))

        go :
            Read st (get_p2p_session_for_peer k st) (st.p2p_peer k ≡ none) (Talks st k)
            → DisconnectResult (disconnect_read d o m k (get_p2p_session_for_peer k st))
        go (nothing e n) = alone (ap (disconnect_read d o m k) e) n
        go (found s e p) =
            subst DisconnectResult (ap (disconnect_read d o m k) (sym e)) (parted s p)

    pub handle_reject-Good : Good (handle_reject d o m k st).0
    unfolding handle_reject
    handle_reject-Good = go (inbound-Read g.engaged k)
      where
        go :
            Read st (get_inbound_request k st) (st.connect_to k ≡ none) (Asked st k)
            → Good (reject_read d o m k (get_inbound_request k st)).0
        go (nothing e n) = rw e g
        go (found r e (dl, here, to)) =
            rw e (Ending-Good (delete_connect_request-Ending g.engaged r dl here) g)

    pub handle_cancel-Good : Good (handle_cancel d o m k st).0
    unfolding handle_cancel
    handle_cancel-Good = go (outbound-Read g.engaged k)
      where
        go :
            Read st (get_outbound_request k st) (st.connect_from k ≡ none) (Asks st k)
            → Good (cancel_read d o m k (get_outbound_request k st)).0
        go (nothing e n) = rw e g
        go (found r e (dl, here, to)) =
            rw e (Ending-Good (delete_connect_request-Ending g.engaged r dl here) g)

    pub handle_disconnect-Good : Good (handle_disconnect d o m k st).0
    handle_disconnect-Good = go _ handle_disconnect-DisconnectResult
      where
        go : (got : Handled) → DisconnectResult got → Good got.0
        go got (alone e n) = rw e g
        go got (parts s me other dl here sides e f f') =
            rw e (Ending-Good (delete_p2p_session-Ending g.engaged s dl here) g)

    pub handle_accept-Good : st.session m.new_id ≡ none → Good (handle_accept d o m k st).0
    handle_accept-Good fresh = go _ handle_accept-AcceptResult
      where
        go : (got : Handled) → AcceptResult got → Good got.0
        go got (nobody e n) = rw e g
        go got (begins r dl here to fit e) =
            rw e (accepted-Good m.now m.new_id o.session_idle_sec r dl st g here fresh)

    pub handle_at-Good :
        (name : Text) → st.connect_req m.new_id ≡ none → Good (handle_at d o m k name st).0
    handle_at-Good name fresh = go _ (handle_at-AtResult d o m k name st g)
      where
        go : (got : Handled) → AtResult d o m k name st got → Good got.0
        go got (told why e) = rw e g
        go got (asks r dl target id at known user free_x free_y fit reach room e) = rw e (
            aside-Good _ _ _
              (with_request-Good dl r st g fit (ap st.connect_req id ∙ fresh) free_x free_y))

    pub no_command-Good :
        (text : Text) (media_only : Bool)
        → Good (no_command d o m k text media_only (get_p2p_session_for_peer k st)).0
    no_command-Good text media_only = go _ (no_command-RelayResult d o m k text st g media_only)
      where
        go : (got : Handled) → RelayResult d o m k text st media_only got → Good got.0
        go got (fell_through e n) = rw e g
        go got (no_text media e) = rw e g
        go got (nothing_left cut e) = rw e g
        go got (sent s me other dl texted here sides fit e) =
            rw e (write_session-Good_again m.now o.session_idle_sec s dl st g here)
