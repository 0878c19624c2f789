-- ===== src/P2p/Mentions.antt =====
-- `handleAt`: a message to `@name` makes one request, or changes nothing and tells only the sender why.
use mathlib.Core.Path.{subst}
use we_chat_ai.Base.{
  Bool-cases, ℕ, ◌≡◌, inl, inr, refl, sym, ◌∙◌, ap, true, false, Option, none, some, Text, same,
  same_refl, leb,
}
use we_chat_ai.P2p.Store.{Endpoint, PeerIdentity, UserWechatBind, ConnectRequest, Store}
use we_chat_ai.P2p.Repos.{
  Busy, from_busy, to_busy, race, bind_of, get_bind_by_peer, get_p2p_session_for_peer,
  get_outbound_request, get_inbound_request, is_blocked_either_way, incr_request_day,
}
use we_chat_ai.P2p.Service.{
  User, Directory, is_peer_reachable, P2pServiceOptions, Moment, Reply, Handled, local_only,
  replying, request_sent, asks_you, fmt_min, own_identity, target_identity, answer_created, ask,
  at_target, at_inbound, at_outbound, at_session, at_bound, handle_at,
}
use we_chat_ai.P2p.Endings.{same_some}
use we_chat_ai.P2p.Invariant.{Binds, Fitting, Good, Free}
use we_chat_ai.P2p.Endings.{none-some}
use we_chat_ai.P2p.Peers.{
  Read, nothing, found, session-Read, outbound-Read, inbound-Read, Talks, Asks, Asked,
}
use we_chat_ai.P2p.Asking.{with_request, Creation, refused, made, create_connect_request-Creation}
use we_chat_ai.P2p.Rebinding.{true_false}

-- A bind that is found from the endpoint is the bind of its user there.
pub get_bind_by_peer_lem :
    (k : Endpoint) (st : Store) (b : UserWechatBind)
    → Binds st
    → get_bind_by_peer k st ≡ some b
    → (b.at ≡ k) × (st.bind_peer k ≡ some b.user_id) × (st.bind_user b.user_id ≡ some b)
get_bind_by_peer_lem k st b binds h = go (st.bind_peer k) refl
  where
    go :
        (x : Option Text)
        → st.bind_peer k ≡ x
        → (b.at ≡ k) × (st.bind_peer k ≡ some b.user_id) × (st.bind_user b.user_id ≡ some b)
    go none e = absurd (none-some (sym (ap (bind_of st) e) ∙ h))
    go (some u) e =
        let (x, p, q) = binds.back k u e in
        let x_b : x ≡ b = same_some (sym p ∙ sym (ap (bind_of st) e) ∙ h) in
        let named : b.user_id ≡ u = (binds.forth u b (p ∙ ap some x_b)).0 in
        (
          ap (λ (y : UserWechatBind). y.at) (sym x_b) ∙ q,
          e ∙ ap some (sym named),
          ap st.bind_user named ∙ p ∙ ap some x_b,
        )

module _ (d : Directory) (o : P2pServiceOptions) (m : Moment) (k : Endpoint) (name : Text)
    (st : Store) where
  -- what `handleAt` may give on a store between two calls
  pub data AtResult (got : Handled) : Type 0 where
    told : (why : Reply) → got ≡ (st, local_only why) → AtResult got
    asks :
        (r : ConnectRequest) (dl : ℕ) (target : User)
        → r.id ≡ m.new_id
        → r.from_peer.at ≡ k
        → d.get_user_by_username name ≡ some target
        → r.to_peer.user_id ≡ target.id
        → Free r.from_peer.at st
        → Free r.to_peer.at st
        → Fitting st r.from_peer r.to_peer
        → is_peer_reachable d r.to_peer.at ≡ true
        → leb o.max_requests_per_day (st.request_day k m.day) ≡ false
        → got ≡ (
          incr_request_day k m.day (with_request dl r st),
          replying
              (request_sent r.to_peer.username (fmt_min o.request_ttl_sec))
              r.to_peer.at
              (asks_you r.from_peer.username (fmt_min o.request_ttl_sec)),
        )
        → AtResult got

  module _ (g : Good st) (own : UserWechatBind) (here : get_bind_by_peer k st ≡ some own) where
    module _ (target : User) (known : d.get_user_by_username name ≡ some target) where
      created :
          (x y : PeerIdentity) (got : Store × Option Busy)
          → x.at ≡ k
          → y.user_id ≡ target.id
          → Fitting st x y
          → is_peer_reachable d y.at ≡ true
          → leb o.max_requests_per_day (st.request_day k m.day) ≡ false
          → Creation st (record { id = m.new_id; from_peer = x; to_peer = y }) got
          → AtResult (answer_created d o m k x y got)
      created x y got at user fit reach limit (refused from_busy e) =
          told _ (ap (answer_created d o m k x y) e)
      created x y got at user fit reach limit (refused to_busy e) =
          told _ (ap (answer_created d o m k x y) e)
      created x y got at user fit reach limit (refused race e) =
          told _ (ap (answer_created d o m k x y) e)
      created x y got at user fit reach limit (made dl e free_x free_y) =
          asks (record { id = m.new_id; from_peer = x; to_peer = y }) dl target refl at known user
            free_x free_y fit reach limit (ap (answer_created d o m k x y) e)

      asked_of :
          (x : Option UserWechatBind)
          → st.bind_user target.id ≡ x
          → same target.id own.user_id ≡ false
          → is_blocked_either_way own.user_id target.id st ≡ false
          → AtResult (ask d o m k own target st x)
      asked_of none h other clear = told _ refl
      asked_of (some their) h other clear = elim (Bool-cases (is_peer_reachable d their.at)) [
        | inr f ↦ rw f (told _ refl)
        | inl t ↦ elim (Bool-cases (leb o.max_requests_per_day (st.request_day k m.day))) [
          | inl full ↦ rw (t, full) (told _ refl)
          | inr room ↦
              rw (t, room)
                (created x y _ own_at theirs.0 fit t room
                  (create_connect_request-Creation m.now m.new_id x y o.request_ttl_sec st g fit))
        ]
      ]
        where
          x : PeerIdentity
          x = own_identity d o m k own

          y : PeerIdentity
          y = target_identity d o m k their target

          theirs : (their.user_id ≡ target.id) × (st.bind_peer their.at ≡ some target.id)
          theirs = g.binds.forth target.id their h

          own_at : own.at ≡ k
          own_at = (get_bind_by_peer_lem k st own g.binds here).0

          fit : Fitting st x y
          fit = record {
            bound_x = ap st.bind_peer own_at ∙ (get_bind_by_peer_lem k st own g.binds here).1;
            bound_y = theirs.1 ∙ ap some (sym theirs.0);
            unblocked = ap (λ (u : Text). is_blocked_either_way own.user_id u st) theirs.0 ∙ clear;
            distinct = λ e.
                true_false (same_refl target.id)
                  (ap (same target.id) (sym theirs.0 ∙ sym e) ∙ other);
          }

    targeted :
        (x : Option User)
        → d.get_user_by_username name ≡ x
        → AtResult (at_target d o m k name own st x)
    targeted none h = told _ refl
    targeted (some target) h = elim (Bool-cases (same target.id own.user_id)) [
      | inl t ↦ rw t (told _ refl)
      | inr f ↦ elim (Bool-cases (is_blocked_either_way own.user_id target.id st)) [
        | inl b ↦ rw (f, b) (told _ refl)
        | inr c ↦ rw (f, c) (asked_of target h (st.bind_user target.id) refl f c)
      ]
    ]

    by_inbound :
        Read st (get_inbound_request k st) (st.connect_to k ≡ none) (Asked st k)
        → AtResult (at_inbound d o m k name own (get_inbound_request k st))
    by_inbound (nothing q n) =
        subst AtResult (ap (at_inbound d o m k name own) (sym q))
          (targeted (d.get_user_by_username name) refl)
    by_inbound (found r q p) = told _ (ap (at_inbound d o m k name own) q)

    by_outbound :
        Read st (get_outbound_request k st) (st.connect_from k ≡ none) (Asks st k)
        → AtResult (at_outbound d o m k name own (get_outbound_request k st))
    by_outbound (nothing q n) =
        subst AtResult (ap (at_outbound d o m k name own) (sym q))
          (by_inbound (inbound-Read g.engaged k))
    by_outbound (found r q p) = told _ (ap (at_outbound d o m k name own) q)

    by_session :
        Read st (get_p2p_session_for_peer k st) (st.p2p_peer k ≡ none) (Talks st k)
        → AtResult (at_session d o m k name own (get_p2p_session_for_peer k st))
    by_session (nothing q n) =
        subst AtResult (ap (at_session d o m k name own) (sym q))
          (by_outbound (outbound-Read g.engaged k))
    by_session (found s q p) = told _ (ap (at_session d o m k name own) q)

  -- Under the invariant, a message to `@name` either leaves the store as it was and tells the sender alone
  -- why, or it makes one request between two endpoints that were free, whose users are bound there, are
  -- two and have not blocked each other, of which the target is reachable, within the limit of the day,
  -- and tells the target.
  pub handle_at-AtResult : Good st → AtResult (handle_at d o m k name st)
  unfolding handle_at
  handle_at-AtResult g = go (get_bind_by_peer k st) refl
    where
      go :
          (x : Option UserWechatBind)
          → get_bind_by_peer k st ≡ x
          → AtResult (at_bound d o m k name st x)
      go none h = told _ refl
      go (some own) h = by_session g own h (session-Read g.engaged k)
