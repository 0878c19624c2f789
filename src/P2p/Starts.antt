-- ===== src/P2p/Starts.antt =====
-- How a request and a session begin, and how a session is written again when it is used.
use mathlib.Core.Path.{subst, fun_ext}
use we_chat_ai.Base.{
  ℕ, ◌≡◌, ◌⊎◌, inl, inr, refl, sym, ◌∙◌, ap, if_pos, if_neg, Option, none, some, text_discrete, ite,
}
use we_chat_ai.P2p.Store.{Endpoint, endpoint_discrete, P2pSession, Timed, Store, put, del, deadline}
use we_chat_ai.P2p.Repos.{delete_p2p_session, write_session}
use we_chat_ai.P2p.Linked.{put-Linked}
use we_chat_ai.P2p.Invariant.{
  session_id, OnSession, Good, Fitting, Fitting-SameUsers, SameUsers, Free, Binds-SameUsers,
}
use we_chat_ai.P2p.Endings.{
  none-some, OnSession-dec, delete_p2p_session-Ending, delete_p2p_session-Free, Ending-Good,
}

module _ {K V : Type 0} (dec : Discrete K) (k : K) (v : V) (m : K → Option V) where
  pub put-here : (j : K) → j ≡ k → put dec k v m j ≡ some v
  put-here j e = if_pos (dec k j) (sym e) (some v) (m j)

  pub put-there : (j : K) → ¬ (j ≡ k) → put dec k v m j ≡ m j
  put-there j n = if_neg (dec k j) (λ e. n (sym e)) (some v) (m j)

  pub put-old : (j : K) (w : V) → put dec k v m j ≡ some w → ((j ≡ k) × (w ≡ v)) ⊎ (m j ≡ some w)
  put-old j w h = elim (dec k j) [
    | yes p ↦ let q = sym (if_pos (dec k j) p (some v) (m j)) ∙ h in inl (sym p, cc)
    | no n ↦ inr (sym (if_neg (dec k j) n (some v) (m j)) ∙ h)
  ]

  put-del : put dec k v (del dec k m) ≡ put dec k v m
  put-del = fun_ext (λ j.
      elim (dec k j) as (λ d. ite d (some v) (ite d none (m j)) ≡ ite d (some v) (m j)) [
        | yes p ↦ refl
        | no n ↦ refl
      ])

-- The pointers of a session that is written again do not depend on the old ones.
put-put-del-del :
    {K V : Type 0} (dec : Discrete K) (a b : K) (v : V) (m : K → Option V)
    → put dec b v (put dec a v (del dec b (del dec a m))) ≡ put dec b v (put dec a v m)
put-put-del-del dec a b v m = fun_ext (λ j.
    elim (dec b j)
      as (λ d.
        ite d (some v) (ite (dec a j) (some v) (ite d none (ite (dec a j) none (m j))))
        ≡ ite d (some v) (ite (dec a j) (some v) (m j))) [
          | yes p ↦ refl
          | no n ↦
              elim (dec a j) as (λ d. ite d (some v) (ite d none (m j)) ≡ ite d (some v) (m j)) [
                | yes p ↦ refl
                | no n ↦ refl
              ]
        ])

module _ (now ttl_sec : ℕ) (s : P2pSession) (st : Store) (g : Good st) where
  abbrev written : Store
  written = write_session now ttl_sec s st

  points :
      (k : Endpoint) → OnSession s k → written.p2p_peer k ≡ some (s.id, deadline now 60 ttl_sec)
  unfolding write_session
  points k (inr q) =
      put-here endpoint_discrete s.b.at _ (put endpoint_discrete s.a.at _ st.p2p_peer) k q
  points k (inl p) = elim (endpoint_discrete k s.b.at) [
    | yes q ↦ put-here endpoint_discrete s.b.at _ (put endpoint_discrete s.a.at _ st.p2p_peer) k q
    | no n ↦
        put-there endpoint_discrete s.b.at _ (put endpoint_discrete s.a.at _ st.p2p_peer) k n
        ∙ put-here endpoint_discrete s.a.at _ st.p2p_peer k p
  ]

  keeps : (k : Endpoint) → ¬ OnSession s k → written.p2p_peer k ≡ st.p2p_peer k
  unfolding write_session
  keeps k n =
      put-there endpoint_discrete s.b.at _ (put endpoint_discrete s.a.at _ st.p2p_peer) k
        (λ q. n (inr q))
      ∙ put-there endpoint_discrete s.a.at _ st.p2p_peer k (λ p. n (inl p))

  pub write_session-SameUsers : SameUsers written st
  unfolding write_session
  write_session-SameUsers = record { bind_user = refl; bind_peer = refl; blocks = refl }

  -- A session under a new id between two free endpoints, whose parties fit.
  pub write_session-Good :
      st.session s.id ≡ none
      → ((k : Endpoint) → OnSession s k → Free k st)
      → Fitting st s.a s.b
      → Good written
  unfolding write_session
  write_session-Good fresh free fit = record {
    engaged = record {
      sessions =
          put-Linked session_id OnSession g.engaged.sessions OnSession-dec s _ _ keeps
            (deadline now 60 ttl_sec) fresh (λ k on. (free k on).2) (λ id. refl) points;
      outbound = g.engaged.outbound;
      inbound = g.engaged.inbound;
      out_in = g.engaged.out_in;
      out_talk = λ k a b p q. elim (OnSession-dec s k) [
        | yes on ↦ none-some (sym (free k on).0 ∙ p)
        | no n ↦ g.engaged.out_talk k a b p (sym (keeps k n) ∙ q)
      ];
      in_talk = λ k a b p q. elim (OnSession-dec s k) [
        | yes on ↦ none-some (sym (free k on).1 ∙ p)
        | no n ↦ g.engaged.in_talk k a b p (sym (keeps k n) ∙ q)
      ];
    };
    binds = Binds-SameUsers write_session-SameUsers g.binds;
    fits = record {
      askers = λ id r dl h. Fitting-SameUsers write_session-SameUsers (g.fits.askers id r dl h);
      talkers = λ id x dl h.
          Fitting-SameUsers write_session-SameUsers
            (elim (put-old text_discrete s.id (s, deadline now 60 ttl_sec) st.session id (x, dl)
              h) [
                | inl e ↦
                    subst (λ (y : P2pSession). Fitting st y.a y.b)
                      (sym (ap (λ (y : Timed P2pSession). y.0) e.1)) fit
                | inr old ↦ g.fits.talkers id x dl old
              ]);
    };
  }

-- A session that is there is written again.
pub write_session-Good_again :
    (now ttl_sec : ℕ) (s : P2pSession) (dl : ℕ) (st : Store)
    → Good st
    → st.session s.id ≡ some (s, dl)
    → Good (write_session now ttl_sec s st)
unfolding write_session
write_session-Good_again now ttl_sec s dl st g here =
    let ending = delete_p2p_session-Ending g.engaged s dl here in
    subst Good again (
      write_session-Good now ttl_sec s (delete_p2p_session s st) (Ending-Good ending g)
        (if_pos (text_discrete s.id s.id) refl none (st.session s.id))
        (delete_p2p_session-Free g.engaged s dl here)
        (Fitting-SameUsers ending.same (g.fits.talkers s.id s dl here)))
  where
    again : write_session now ttl_sec s (delete_p2p_session s st) ≡ write_session now ttl_sec s st
    again = λ i. record st {
      session = put-del text_discrete s.id (s, deadline now 60 ttl_sec) st.session i;
      p2p_peer =
          put-put-del-del endpoint_discrete s.a.at s.b.at (s.id, deadline now 60 ttl_sec)
            st.p2p_peer i;
    }
