-- ===== src/P2p/Accepting.antt =====
-- `acceptConnectRequest` on a store between two calls.
use mathlib.Core.Path.{subst}
use we_chat_ai.Base.{
  ℕ, ◌≡◌, inl, inr, refl, sym, ◌∙◌, ap, Bool, true, Option, none, some, Text, same_refl,
  if◌then◌else◌,
}
use we_chat_ai.P2p.Store.{
  Endpoint, ConnectRequest, P2pSession, Timed, Store, same_endpoint, untimed,
}
use we_chat_ai.P2p.Repos.{
  write_session, delete_connect_request, session_found, get_p2p_session_for_peer,
  get_inbound_request, Accepted, accepted, no_request, accept_request, accept_found,
  accept_connect_request, drop_session, drop_second,
}
use we_chat_ai.P2p.Invariant.{OnSession, Good, Free, Fitting-SameUsers}
use we_chat_ai.P2p.Endings.{
  delete_connect_request-Ending, delete_connect_request-Free_from, delete_connect_request-Free_to,
  Ending-Good,
}
use we_chat_ai.P2p.Peers.{Read, nothing, found, inbound-Read, Asked}
use we_chat_ai.P2p.Starts.{write_session-Good}

pub same_endpoint_refl : (k : Endpoint) → same_endpoint k k ≡ true
same_endpoint_refl k = rw (same_refl k.bot_id, same_refl k.peer_id) refl

pub same_endpoint-true : (j k : Endpoint) → j ≡ k → same_endpoint j k ≡ true
same_endpoint-true j k e = ap (λ (x : Endpoint). same_endpoint j x) (sym e) ∙ same_endpoint_refl j

free_read :
    (k : Endpoint) (st : Store) → st.p2p_peer k ≡ none → get_p2p_session_for_peer k st ≡ (st, none)
unfolding get_p2p_session_for_peer
free_read k st h = ap (λ (y : Option (Timed Text)). session_found k st (untimed y)) h

-- the session that an accepted request becomes
abbrev pub session_of : Text → ConnectRequest → P2pSession
session_of id r = record { id = id; a = r.from_peer; b = r.to_peer }

-- The parties of a request have no session, so that none is dropped.
accept_request_lem :
    (now : ℕ) (id : Text) (ttl_sec : ℕ) (r : ConnectRequest) (dl : ℕ) (st : Store)
    → Good st
    → st.connect_req r.id ≡ some (r, dl)
    → accept_request now id ttl_sec r st ≡ (
      write_session now ttl_sec (session_of id r) (delete_connect_request r st),
      accepted (session_of id r) r,
    )
accept_request_lem now id ttl_sec r dl st g here =
    ap first
      (free_read r.from_peer.at deleted (delete_connect_request-Free_from g.engaged r dl here).2)
    ∙ ap (second none)
        (free_read r.to_peer.at deleted (delete_connect_request-Free_to g.engaged r dl here).2)
  where
    deleted : Store
    deleted = delete_connect_request r st

    second : Option P2pSession → Store × Option P2pSession → Store × Accepted
    second sa got = (
      write_session now ttl_sec (session_of id r) (drop_second (drop_session got.0 sa) got.1 sa),
      accepted (session_of id r) r,
    )

    first : Store × Option P2pSession → Store × Accepted
    first got = second got.1 (get_p2p_session_for_peer r.to_peer.at got.0)

-- What `acceptConnectRequest` gives: nothing where nobody asks the endpoint, and else the session.
pub data Acceptance (now : ℕ) (id : Text) (ttl_sec : ℕ) (k : Endpoint) (st : Store)
    (got : Store × Accepted) : Type 0 where
  unasked : got ≡ (st, no_request) → st.connect_to k ≡ none → Acceptance now id ttl_sec k st got
  begun :
      (r : ConnectRequest)
      → Asked st k r
      → got ≡ (
        write_session now ttl_sec (session_of id r) (delete_connect_request r st),
        accepted (session_of id r) r,
      )
      → Acceptance now id ttl_sec k st got

pub accept_connect_request-Acceptance :
    (now : ℕ) (id : Text) (ttl_sec : ℕ) (k : Endpoint) (st : Store)
    → Good st
    → Acceptance now id ttl_sec k st (accept_connect_request now id ttl_sec k st)
unfolding accept_connect_request
accept_connect_request-Acceptance now id ttl_sec k st g = go (inbound-Read g.engaged k)
  where
    accept_got : Store × Option ConnectRequest → Store × Accepted
    accept_got got = accept_found now id ttl_sec k got.0 got.1

    go :
        Read st (get_inbound_request k st) (st.connect_to k ≡ none) (Asked st k)
        → Acceptance now id ttl_sec k st (accept_got (get_inbound_request k st))
    go (nothing q n) = unasked (ap accept_got q) n
    go (found r q (dl, here, to)) =
        begun r (dl, here, to)
          (ap accept_got q
            ∙ ap
                (λ (b : Bool).
                  if b then accept_request now id ttl_sec r st else (st, Accepted.not_target))
                (same_endpoint-true r.to_peer.at k to)
            ∙ accept_request_lem now id ttl_sec r dl st g here)

-- The session that begins is as good as the request was.
pub accepted-Good :
    (now : ℕ) (id : Text) (ttl_sec : ℕ) (r : ConnectRequest) (dl : ℕ) (st : Store)
    → Good st
    → st.connect_req r.id ≡ some (r, dl)
    → st.session id ≡ none
    → Good (write_session now ttl_sec (session_of id r) (delete_connect_request r st))
accepted-Good now id ttl_sec r dl st g here fresh =
    let ending = delete_connect_request-Ending g.engaged r dl here in
    write_session-Good now ttl_sec (session_of id r) (delete_connect_request r st)
      (Ending-Good ending g) fresh (λ k on. free k on)
      (Fitting-SameUsers ending.same (g.fits.askers r.id r dl here))
  where
    free : (k : Endpoint) → OnSession (session_of id r) k → Free k (delete_connect_request r st)
    free k (inl e) =
        subst (λ (j : Endpoint). Free j (delete_connect_request r st)) (sym e)
          (delete_connect_request-Free_from g.engaged r dl here)
    free k (inr e) =
        subst (λ (j : Endpoint). Free j (delete_connect_request r st)) (sym e)
          (delete_connect_request-Free_to g.engaged r dl here)
