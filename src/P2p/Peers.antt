-- ===== src/P2p/Peers.antt =====
-- The reads that follow a pointer of an endpoint, and `endSessionsAndRequestsForPeer`.
use mathlib.Core.Path.{subst}
use we_chat_ai.Base.{ℕ, ◌≡◌, refl, sym, ◌∙◌, ap, Option, none, some, Text}
use we_chat_ai.P2p.Store.{Endpoint, ConnectRequest, P2pSession, Timed, Store, untimed}
use we_chat_ai.P2p.Repos.{
  outbound_read, outbound_found, get_outbound_request, inbound_read, inbound_found,
  get_inbound_request, session_read, session_found, get_p2p_session_for_peer, drop_session,
  drop_request, end_session, end_outbound, end_inbound, end_for_peer, delete_connect_request,
}
use we_chat_ai.P2p.Invariant.{OnSession, Engaged, Free, Within-none}
use we_chat_ai.P2p.Endings.{
  Ending, Ending-refl, Ending-trans, delete_p2p_session-Ending, delete_p2p_session-Free,
  delete_connect_request-Ending, delete_connect_request-Free_from, delete_connect_request-Free_to,
}

-- what a read gives on a linked store, which it leaves as it is
pub data Read {C : Type 0} (st : Store) (got : Store × Option C) (Absent : Type 0)
    (Present : C → Type 0) : Type 0 where
  nothing : got ≡ (st, none) → Absent → Read st got Absent Present
  found : (c : C) → got ≡ (st, some c) → Present c → Read st got Absent Present

abbrev pub Talks : Store → Endpoint → P2pSession → Type 0
Talks st k s = (dl : ℕ) × (st.session s.id ≡ some (s, dl)) × OnSession s k

abbrev pub Asks : Store → Endpoint → ConnectRequest → Type 0
Asks st k r = (dl : ℕ) × (st.connect_req r.id ≡ some (r, dl)) × (r.from_peer.at ≡ k)

abbrev pub Asked : Store → Endpoint → ConnectRequest → Type 0
Asked st k r = (dl : ℕ) × (st.connect_req r.id ≡ some (r, dl)) × (r.to_peer.at ≡ k)

module _ {st : Store} (e : Engaged st) (k : Endpoint) where
  pub session-Read : Read st (get_p2p_session_for_peer k st) (st.p2p_peer k ≡ none) (Talks st k)
  unfolding get_p2p_session_for_peer
  session-Read = go (st.p2p_peer k) refl
    where
      go :
          (x : Option (Timed Text))
          → st.p2p_peer k ≡ x
          → Read st
              (session_found k st (untimed (st.p2p_peer k)))
              (st.p2p_peer k ≡ none)
              (Talks st k)
      go none h = nothing (ap (λ (y : Option (Timed Text)). session_found k st (untimed y)) h) h
      go (some (id, dl)) h =
          let (s, t, on) = e.sessions.back k id dl h in
          found s
            (ap (λ (y : Option (Timed Text)). session_found k st (untimed y)) h
              ∙ ap (λ (y : Option (Timed P2pSession)). session_read k st (untimed y)) t)
            (dl, ap st.session (e.sessions.names id s dl t) ∙ t, on)

  pub outbound-Read : Read st (get_outbound_request k st) (st.connect_from k ≡ none) (Asks st k)
  unfolding get_outbound_request
  outbound-Read = go (st.connect_from k) refl
    where
      go :
          (x : Option (Timed Text))
          → st.connect_from k ≡ x
          → Read st
              (outbound_found k st (untimed (st.connect_from k)))
              (st.connect_from k ≡ none)
              (Asks st k)
      go none h = nothing (ap (λ (y : Option (Timed Text)). outbound_found k st (untimed y)) h) h
      go (some (id, dl)) h =
          let (r, t, on) = e.outbound.back k id dl h in
          found r
            (ap (λ (y : Option (Timed Text)). outbound_found k st (untimed y)) h
              ∙ ap (λ (y : Option (Timed ConnectRequest)). outbound_read k st (untimed y)) t)
            (dl, ap st.connect_req (e.outbound.names id r dl t) ∙ t, sym on)

  pub inbound-Read : Read st (get_inbound_request k st) (st.connect_to k ≡ none) (Asked st k)
  unfolding get_inbound_request
  inbound-Read = go (st.connect_to k) refl
    where
      go :
          (x : Option (Timed Text))
          → st.connect_to k ≡ x
          → Read st
              (inbound_found k st (untimed (st.connect_to k)))
              (st.connect_to k ≡ none)
              (Asked st k)
      go none h = nothing (ap (λ (y : Option (Timed Text)). inbound_found k st (untimed y)) h) h
      go (some (id, dl)) h =
          let (r, t, on) = e.inbound.back k id dl h in
          found r
            (ap (λ (y : Option (Timed Text)). inbound_found k st (untimed y)) h
              ∙ ap (λ (y : Option (Timed ConnectRequest)). inbound_read k st (untimed y)) t)
            (dl, ap st.connect_req (e.inbound.names id r dl t) ∙ t, sym on)

  end_session_lem : Ending (end_session k st) st × ((end_session k st).p2p_peer k ≡ none)
  unfolding end_session
  end_session_lem = go session-Read
    where
      P : Store → Type 0
      P st' = Ending st' st × (st'.p2p_peer k ≡ none)

      go :
          Read st (get_p2p_session_for_peer k st) (st.p2p_peer k ≡ none) (Talks st k)
          → P (end_session k st)
      go (nothing q none_here) =
          subst P (ap (λ (g : Store × Option P2pSession). drop_session g.0 g.1) (sym q))
            (Ending-refl e, none_here)
      go (found s q (dl, here, on)) =
          subst P (ap (λ (g : Store × Option P2pSession). drop_session g.0 g.1) (sym q))
            (delete_p2p_session-Ending e s dl here, (delete_p2p_session-Free e s dl here k on).2)

  end_outbound_lem : Ending (end_outbound k st) st × ((end_outbound k st).connect_from k ≡ none)
  unfolding end_outbound
  end_outbound_lem = go outbound-Read
    where
      P : Store → Type 0
      P st' = Ending st' st × (st'.connect_from k ≡ none)

      go :
          Read st (get_outbound_request k st) (st.connect_from k ≡ none) (Asks st k)
          → P (end_outbound k st)
      go (nothing q none_here) =
          subst P (ap (λ (g : Store × Option ConnectRequest). drop_request g.0 g.1) (sym q))
            (Ending-refl e, none_here)
      go (found r q (dl, here, on)) =
          subst P (ap (λ (g : Store × Option ConnectRequest). drop_request g.0 g.1) (sym q)) (
            delete_connect_request-Ending e r dl here,
            subst (λ (j : Endpoint). (delete_connect_request r st).connect_from j ≡ none) on
                (delete_connect_request-Free_from e r dl here).0,
          )

  end_inbound_lem : Ending (end_inbound k st) st × ((end_inbound k st).connect_to k ≡ none)
  unfolding end_inbound
  end_inbound_lem = go inbound-Read
    where
      P : Store → Type 0
      P st' = Ending st' st × (st'.connect_to k ≡ none)

      go :
          Read st (get_inbound_request k st) (st.connect_to k ≡ none) (Asked st k)
          → P (end_inbound k st)
      go (nothing q none_here) =
          subst P (ap (λ (g : Store × Option ConnectRequest). drop_request g.0 g.1) (sym q))
            (Ending-refl e, none_here)
      go (found r q (dl, here, on)) =
          subst P (ap (λ (g : Store × Option ConnectRequest). drop_request g.0 g.1) (sym q)) (
            delete_connect_request-Ending e r dl here,
            subst (λ (j : Endpoint). (delete_connect_request r st).connect_to j ≡ none) on
                (delete_connect_request-Free_to e r dl here).1,
          )

-- After `endSessionsAndRequestsForPeer` the endpoint has no request and no session, and the store is linked.
pub end_for_peer_lem :
    {st : Store}
    → Engaged st
    → (k : Endpoint) → Ending (end_for_peer k st) st × Free k (end_for_peer k st)
unfolding end_for_peer
end_for_peer_lem {st} e k =
    let (f, p) = end_session_lem e k in
    let (g, q) = end_outbound_lem f.engaged k in
    let (h, r) = end_inbound_lem g.engaged k in
    (
      Ending-trans h (Ending-trans g f),
      (
        Within-none h.below.connect_from k q,
        r,
        Within-none h.below.p2p_peer k (Within-none g.below.p2p_peer k p),
      ),
    )
