-- ===== src/P2p/Delivery.antt =====
-- `handleAccept` and then `handleRelay`: what either side says after `/同意` gets to the other one.
use mathlib.Core.Path.{subst, ap₂}
use we_chat_ai.Base.{
  Bool-cases, ◌≡◌, ◌<◌, inl, inr, refl, sym, ◌∙◌, ap, true, false, Option, none, some, [], ◌∷◌,
  Text, ℕ, zero, suc, take, length, ltb, if◌then◌else◌, arith, text_discrete,
}
use we_chat_ai.P2p.Store.{
  Endpoint, ConnectRequest, P2pSession, PeerIdentity, Timed, Store, untimed, deadline,
}
use we_chat_ai.P2p.Repos.{
  session_found, session_read, get_p2p_session_for_peer, write_session, delete_connect_request,
  is_empty_text,
}
use we_chat_ai.P2p.Service.{
  Directory, P2pServiceOptions, Moment, Handled, HandleResult, relayed, relay_parties, handle_relay,
  handle_accept, no_command,
}
use we_chat_ai.P2p.Invariant.{Good, OnSession}
use we_chat_ai.P2p.Endings.{none-some, same_some}
use we_chat_ai.P2p.Starts.{put-here}
use we_chat_ai.P2p.Asking.{Fitting-distinct}
use we_chat_ai.P2p.Accepting.{session_of, accepted-Good}
use we_chat_ai.P2p.Relays.{Sides, Sides-a, Sides-b, cut}
use we_chat_ai.P2p.Talks.{AcceptResult, nobody, begins, handle_accept-AcceptResult}

-- a result that says nothing to the sender and one thing to another endpoint
abbrev pub delivery : PeerIdentity → PeerIdentity → Text → HandleResult
delivery me other body = record {
  handled = true;
  local_replies = [];
  remote_sends = record { to = other.at; message = relayed me.username body } ∷ [];
}

session_there :
    (k : Endpoint) (st : Store) (s : P2pSession) (id : Text) (dl : ℕ)
    → st.p2p_peer k ≡ some (id, dl)
    → st.session id ≡ some (s, dl)
    → get_p2p_session_for_peer k st ≡ (st, some s)
unfolding get_p2p_session_for_peer
session_there k st s id dl p q =
    ap (λ (y : Option (Timed Text)). session_found k st (untimed y)) p
    ∙ ap (λ (y : Option (Timed P2pSession)). session_read k st (untimed y)) q

cut-full :
    (most : ℕ) (text : Text)
    → 0 < most
    → is_empty_text text ≡ false
    → is_empty_text (if ltb most (length text) then take most text else text) ≡ false
cut-full zero text h e = absurd (omega arith)
cut-full (suc n) [] h e = absurd (cc)
cut-full (suc n) (c ∷ text) h e = elim (Bool-cases (ltb (suc n) (length (c ∷ text)))) [
  | inl t ↦ rw t refl
  | inr f ↦ rw f refl
]

module _ (d : Directory) (o : P2pServiceOptions) (m : Moment) where
  said :
      (k : Endpoint) (text : Text) (st : Store) (s : P2pSession) (me other : PeerIdentity)
      → get_p2p_session_for_peer k st ≡ (st, some s)
      → Sides s k me other
      → is_empty_text (cut d o m k text st) ≡ false
      → (no_command d o m k text false (get_p2p_session_for_peer k st)).1
        ≡ delivery me other (cut d o m k text st)
  unfolding handle_relay
  said k text st s me other e sides full =
      ap (λ (got : Handled). got.1)
        (ap (no_command d o m k text false) e
          ∙ ap₂ (relay_parties d o m k s text st) sides.self sides.across)
      ∙ rw full refl

  module _ (k : Endpoint) (st : Store) (g : Good st) (r : ConnectRequest) (dl : ℕ)
      (here : st.connect_req r.id ≡ some (r, dl)) (to : r.to_peer.at ≡ k) where
    accepted_store :
        (handle_accept d o m k st).0
        ≡ write_session m.now o.session_idle_sec
            (session_of m.new_id r)
            (delete_connect_request r st)
    accepted_store = go _ (handle_accept-AcceptResult d o m k st g)
      where
        pointed : st.connect_to k ≡ some (r.id, dl)
        pointed = g.engaged.inbound.forth r.id r dl k here (sym to)

        go :
            (got : Handled)
            → AcceptResult d o m k st got
            → got.0
              ≡ write_session m.now o.session_idle_sec
                  (session_of m.new_id r)
                  (delete_connect_request r st)
        go got (nobody e n) = absurd (none-some (sym n ∙ pointed))
        go got (begins x dx there at fit e) =
            let same_entry =
              same_some (sym (g.engaged.inbound.forth x.id x dx k there (sym at)) ∙ pointed) in
            let same_id = ap (λ (y : Timed Text). y.0) same_entry in
            let same_request =
              ap (λ (y : Timed ConnectRequest). y.0)
                (same_some (sym there ∙ ap st.connect_req same_id ∙ here)) in
            ap (λ (y : Handled). y.0) e
            ∙ ap
                (λ (y : ConnectRequest).
                  write_session m.now o.session_idle_sec (session_of m.new_id y)
                    (delete_connect_request y st))
                same_request

    -- Under the invariant, with a new id for the session and a limit of the relay that is not 0: after
    -- `/同意` of a request, a text that is not empty, from its sender or from the one that accepted, goes to
    -- the other of the two and to nobody else, cut to the limit.
    pub handle_accept-no_command :
        st.session m.new_id ≡ none
        → (text : Text) → is_empty_text text ≡ false
        → 0 < o.relay_max_chars
        → let st' = (handle_accept d o m k st).0 in
          let body =
            if ltb o.relay_max_chars (length text) then take o.relay_max_chars text else text in
          ((no_command d o m r.from_peer.at text false
              (get_p2p_session_for_peer r.from_peer.at st')).1
            ≡ delivery r.from_peer r.to_peer body)
          × ((no_command d o m k text false (get_p2p_session_for_peer k st')).1
              ≡ delivery r.to_peer r.from_peer body)
    unfolding write_session
    handle_accept-no_command fresh text full room = subst Delivered (sym accepted_store) (
      said r.from_peer.at text after s r.from_peer r.to_peer
          (session_there r.from_peer.at after s m.new_id dl' (points r.from_peer.at (inl refl))
            there)
          (Sides-a s) body_full,
      subst
          (λ (j : Endpoint).
            (no_command d o m j text false (get_p2p_session_for_peer j after)).1
            ≡ delivery r.to_peer r.from_peer body)
          to
          (said r.to_peer.at text after s r.to_peer r.from_peer
            (session_there r.to_peer.at after s m.new_id dl' (points r.to_peer.at (inr refl)) there)
            (Sides-b s (Fitting-distinct (g.fits.askers r.id r dl here))) body_full),
    )
      where
        body : Text
        body = if ltb o.relay_max_chars (length text) then take o.relay_max_chars text else text

        body_full : is_empty_text body ≡ false
        body_full = cut-full o.relay_max_chars text room full

        Delivered : Store → Type 0
        Delivered st' =
            ((no_command d o m r.from_peer.at text false
                (get_p2p_session_for_peer r.from_peer.at st')).1
              ≡ delivery r.from_peer r.to_peer body)
            × ((no_command d o m k text false (get_p2p_session_for_peer k st')).1
                ≡ delivery r.to_peer r.from_peer body)

        s : P2pSession
        s = session_of m.new_id r

        dl' : ℕ
        dl' = deadline m.now 60 o.session_idle_sec

        after : Store
        after = write_session m.now o.session_idle_sec s (delete_connect_request r st)

        there : after.session m.new_id ≡ some (s, dl')
        there =
            put-here text_discrete m.new_id (s, dl') (delete_connect_request r st).session m.new_id
              refl

        points : (j : Endpoint) → OnSession s j → after.p2p_peer j ≡ some (m.new_id, dl')
        points j on =
            (accepted-Good m.now m.new_id o.session_idle_sec r dl st g here
                fresh).engaged.sessions.forth
              m.new_id s dl' j there on
