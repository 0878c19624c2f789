-- ===== src/P2p/Endings.antt =====
-- How a request or a session ends: the deletions, the reads that follow a pointer, and
-- `endSessionsAndRequestsForPeer`.
use we_chat_ai.Base.{
  ℕ, ◌≡◌, refl, sym, ◌∙◌, inl, inr, if_pos, if_neg, Option, none, some, text_discrete,
}
use we_chat_ai.P2p.Store.{Endpoint, endpoint_discrete, ConnectRequest, P2pSession, Store, del}
use we_chat_ai.P2p.Repos.{delete_connect_request, delete_p2p_session}
use we_chat_ai.P2p.Linked.{del-Linked}
use we_chat_ai.P2p.Invariant.{
  session_id, request_id, OnSession, OnFrom, OnTo, Engaged, Free, Within, Below, Below-refl,
  Below-trans, SameUsers, SameUsers-refl, SameUsers-trans, Engaged-Below, Good, Binds-SameUsers,
  Fits-Below,
}

pub none-some : {A : Type 0} {a : A} → ¬ (none ≡ some a)
none-some e = cc

pub same_some : {A : Type 0} {x y : A} → some x ≡ some y → x ≡ y
same_some h = cc

pub none_unless : {A : Type 0} (x : Option A) → ((a : A) → ¬ (x ≡ some a)) → x ≡ none
none_unless none h = refl
none_unless (some a) h = absurd (h a refl)

module _ {K V : Type 0} (dec : Discrete K) (k : K) (m : K → Option V) where
  pub del-Within : Within (del dec k m) m
  del-Within j a h = elim (dec k j) [
    | yes p ↦ absurd (none-some (sym (if_pos (dec k j) p none (m j)) ∙ h))
    | no n ↦ sym (if_neg (dec k j) n none (m j)) ∙ h
  ]

  pub del-here : (j : K) → j ≡ k → del dec k m j ≡ none
  del-here j e = if_pos (dec k j) (sym e) none (m j)

  pub del-there : (j : K) → ¬ (j ≡ k) → del dec k m j ≡ m j
  del-there j n = if_neg (dec k j) (λ e. n (sym e)) none (m j)

pub OnSession-dec : (s : P2pSession) (k : Endpoint) → Dec (OnSession s k)
OnSession-dec s k = elim (endpoint_discrete k s.a.at) [
  | yes p ↦ yes (inl p)
  | no n ↦ elim (endpoint_discrete k s.b.at) [
    | yes q ↦ yes (inr q)
    | no m ↦ no (λ on. elim on [ inl p ↦ n p | inr q ↦ m q ])
  ]
]

pub OnFrom-dec : (r : ConnectRequest) (k : Endpoint) → Dec (OnFrom r k)
OnFrom-dec r k = endpoint_discrete k r.from_peer.at

pub OnTo-dec : (r : ConnectRequest) (k : Endpoint) → Dec (OnTo r k)
OnTo-dec r k = endpoint_discrete k r.to_peer.at

-- A store after an ending: linked as before, with no more than before, the users untouched.
pub record Ending (st' st : Store) : Type 0 where
  pub engaged : Engaged st'
  pub below : Below st' st
  pub same : SameUsers st' st

pub Ending-refl : {st : Store} → Engaged st → Ending st st
Ending-refl {st} e = record { engaged = e; below = Below-refl st; same = SameUsers-refl st }

pub Ending-trans : {x y z : Store} → Ending x y → Ending y z → Ending x z
Ending-trans f g = record {
  engaged = f.engaged;
  below = Below-trans f.below g.below;
  same = SameUsers-trans f.same g.same;
}

-- What ends leaves the whole invariant.
pub Ending-Good : {st' st : Store} → Ending st' st → Good st → Good st'
Ending-Good f g = record {
  engaged = f.engaged;
  binds = Binds-SameUsers f.same g.binds;
  fits = Fits-Below f.below f.same g.fits;
}

module _ {st : Store} (e : Engaged st) where
  module _ (s : P2pSession) (dl : ℕ) (here : st.session s.id ≡ some (s, dl)) where
    unpointed : (k : Endpoint) → OnSession s k → (delete_p2p_session s st).p2p_peer k ≡ none
    unpointed k (inr q) =
        del-here endpoint_discrete s.b.at (del endpoint_discrete s.a.at st.p2p_peer) k q
    unpointed k (inl p) = none_unless _ (λ x h. none-some (
        sym (del-here endpoint_discrete s.a.at st.p2p_peer k p)
        ∙ del-Within endpoint_discrete s.b.at (del endpoint_discrete s.a.at st.p2p_peer) k x h))

    untouched :
        (k : Endpoint) → ¬ OnSession s k → (delete_p2p_session s st).p2p_peer k ≡ st.p2p_peer k
    untouched k n =
        del-there endpoint_discrete s.b.at (del endpoint_discrete s.a.at st.p2p_peer) k
          (λ q. n (inr q))
        ∙ del-there endpoint_discrete s.a.at st.p2p_peer k (λ p. n (inl p))

    pub delete_p2p_session-Below : Below (delete_p2p_session s st) st
    delete_p2p_session-Below = record {
      connect_req = λ k a h. h;
      connect_from = λ k a h. h;
      connect_to = λ k a h. h;
      session = del-Within text_discrete s.id st.session;
      p2p_peer = λ k a h.
          del-Within endpoint_discrete s.a.at st.p2p_peer k a
            (del-Within endpoint_discrete s.b.at (del endpoint_discrete s.a.at st.p2p_peer) k a h);
    }

    pub delete_p2p_session-Ending : Ending (delete_p2p_session s st) st
    delete_p2p_session-Ending = record {
      engaged =
          Engaged-Below delete_p2p_session-Below e
            (del-Linked session_id OnSession e.sessions OnSession-dec s _ _ untouched dl here
              (λ id. refl) unpointed)
            e.outbound e.inbound;
      below = delete_p2p_session-Below;
      same = record { bind_user = refl; bind_peer = refl; blocks = refl };
    }

    -- Both parties are free after their session.
    pub delete_p2p_session-Free : (k : Endpoint) → OnSession s k → Free k (delete_p2p_session s st)
    delete_p2p_session-Free k on = (
      none_unless _ (λ x h. e.out_talk k x (s.id, dl) h (e.sessions.forth s.id s dl k here on)),
      none_unless _ (λ x h. e.in_talk k x (s.id, dl) h (e.sessions.forth s.id s dl k here on)),
      unpointed k on,
    )

  module _ (r : ConnectRequest) (dl : ℕ) (here : st.connect_req r.id ≡ some (r, dl)) where
    pub delete_connect_request-Below : Below (delete_connect_request r st) st
    delete_connect_request-Below = record {
      session = λ k a h. h;
      p2p_peer = λ k a h. h;
      connect_req = del-Within text_discrete r.id st.connect_req;
      connect_from = del-Within endpoint_discrete r.from_peer.at st.connect_from;
      connect_to = del-Within endpoint_discrete r.to_peer.at st.connect_to;
    }

    pub delete_connect_request-Ending : Ending (delete_connect_request r st) st
    delete_connect_request-Ending = record {
      engaged =
          Engaged-Below delete_connect_request-Below e e.sessions
            (del-Linked request_id OnFrom e.outbound OnFrom-dec r _ _
              (del-there endpoint_discrete r.from_peer.at st.connect_from) dl here (λ id. refl)
              (del-here endpoint_discrete r.from_peer.at st.connect_from))
            (del-Linked request_id OnTo e.inbound OnTo-dec r _ _
              (del-there endpoint_discrete r.to_peer.at st.connect_to) dl here (λ id. refl)
              (del-here endpoint_discrete r.to_peer.at st.connect_to));
      below = delete_connect_request-Below;
      same = record { bind_user = refl; bind_peer = refl; blocks = refl };
    }

    pub delete_connect_request-Free_from : Free r.from_peer.at (delete_connect_request r st)
    delete_connect_request-Free_from =
        let out = e.outbound.forth r.id r dl r.from_peer.at here refl in
        (
          del-here endpoint_discrete r.from_peer.at st.connect_from r.from_peer.at refl,
          none_unless _ (λ x h.
              e.out_in r.from_peer.at _ x out
                (del-Within endpoint_discrete r.to_peer.at st.connect_to r.from_peer.at x h)),
          none_unless _ (λ x h. e.out_talk r.from_peer.at _ x out h),
        )

    pub delete_connect_request-Free_to : Free r.to_peer.at (delete_connect_request r st)
    delete_connect_request-Free_to =
        let inn = e.inbound.forth r.id r dl r.to_peer.at here refl in
        (
          none_unless _ (λ x h.
              e.out_in r.to_peer.at x _
                (del-Within endpoint_discrete r.from_peer.at st.connect_from r.to_peer.at x h) inn),
          del-here endpoint_discrete r.to_peer.at st.connect_to r.to_peer.at refl,
          none_unless _ (λ x h. e.in_talk r.to_peer.at _ x inn h),
        )
