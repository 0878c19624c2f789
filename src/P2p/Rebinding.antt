-- ===== src/P2p/Rebinding.antt =====
-- `setPrimaryBind`: one endpoint for a user, one user for an endpoint.
use mathlib.Core.Path.{subst}
use we_chat_ai.Base.{
  Bool-cases, ◌≡◌, inl, inr, refl, sym, ◌∙◌, ap, Bool, true, false, Option, none, some, Text,
  text_discrete, same, same_sound, same_refl, if◌then◌else◌,
}
use we_chat_ai.P2p.Store.{Endpoint, endpoint_discrete, UserWechatBind, Store, put}
use we_chat_ai.P2p.Repos.{
  end_for_peer, get_bind_by_peer, bind_of, clear_other, clear_owner, clear_previous,
  set_primary_bind,
}
use we_chat_ai.P2p.Invariant.{Engaged, Binds, Good, Free}
use we_chat_ai.P2p.Endings.{
  same_some, none-some, none_unless, del-Within, del-here, del-there, Ending-Good,
}
use we_chat_ai.P2p.Peers.{end_for_peer_lem}
use we_chat_ai.P2p.Starts.{put-here, put-there, put-old}
use we_chat_ai.P2p.Accepting.{same_endpoint-true}
use we_chat_ai.P2p.Binding.{Fits-SameBut, unbound, unbound-Good}

pub true_false : {A : Type 0} {b : Bool} → b ≡ true → b ≡ false → A
true_false p q = absurd (cc)

module _ (b : UserWechatBind) where
  -- no other user has the endpoint, and the user has the bind that it had
  record Owned (st' st : Store) : Type 0 where
    good : Good st'
    only : (u : Text) → st'.bind_peer b.at ≡ some u → u ≡ b.user_id
    own : st'.bind_user b.user_id ≡ st.bind_user b.user_id

  module _ (st : Store) (g : Good st) where
    clear_other-Owned :
        (owner : Text)
        → st.bind_peer b.at ≡ some owner
        → same owner b.user_id ≡ false
        → Owned (clear_other b st (st.bind_user owner)) st
    clear_other-Owned owner h differs =
        let (x, p, e) = g.binds.back b.at owner h in
        let (named, q) = g.binds.forth owner x p in
        let here = ap st.bind_user named ∙ p in
        let (good, users) = unbound-Good x st g here in
        subst (λ (y : Store). Owned y st)
          (sym (
            ap (clear_other b st) p
            ∙ ap (λ (t : Bool). if t then unbound x st else st) (same_endpoint-true x.at b.at e)))
          (record {
            good = good;
            only = λ u q. absurd (
                none-some (
                  sym (
                    ap (λ (m : Endpoint → Option Text). m b.at) users.bind_peer
                    ∙ del-here endpoint_discrete x.at st.bind_peer b.at (sym e))
                  ∙ q));
            own =
                ap (λ (m : Text → Option UserWechatBind). m b.user_id) users.bind_user
                ∙ del-there text_discrete x.user_id st.bind_user b.user_id (λ q.
                  true_false
                    (ap (λ (t : Text). same t b.user_id) (sym named ∙ sym q) ∙ same_refl b.user_id)
                    differs);
          })

    clear_owner-Owned : (x : Option Text) → st.bind_peer b.at ≡ x → Owned (clear_owner b st x) st
    clear_owner-Owned none h = record {
      good = g;
      only = λ u q. absurd (none-some (sym h ∙ q));
      own = refl;
    }
    clear_owner-Owned (some owner) h = elim (Bool-cases (same owner b.user_id)) [
      | inl t ↦
          subst (λ (c : Bool). Owned (if c then st else clear_other b st (st.bind_user owner)) st)
            (sym t)
            (record {
              good = g;
              only = λ u q. same_some (sym q ∙ h) ∙ same_sound owner b.user_id t;
              own = refl;
            })
      | inr f ↦
          subst (λ (c : Bool). Owned (if c then st else clear_other b st (st.bind_user owner)) st)
            (sym f) (clear_other-Owned owner h f)
    ]

    -- the user and the endpoint have no bind
    record Vacant (st' : Store) : Type 0 where
      good : Good st'
      no_user : st'.bind_user b.user_id ≡ none
      no_peer : st'.bind_peer b.at ≡ none

    Vacant_lem :
        {st' : Store}
        → Good st'
        → st'.bind_user b.user_id ≡ none
        → ((u : Text) → st'.bind_peer b.at ≡ some u → u ≡ b.user_id)
        → Vacant st'
    Vacant_lem {st'} good no_user only = record {
      good = good;
      no_user = no_user;
      no_peer = none_unless _ (λ u h.
          let (x, p, e) = good.binds.back b.at u h in
          none-some (sym no_user ∙ ap st'.bind_user (sym (only u h)) ∙ p));
    }

    clear_previous-Vacant :
        {st' : Store}
        → Owned st' st
        → (x : Option UserWechatBind) → st.bind_user b.user_id ≡ x
        → Vacant (clear_previous st' x)
    clear_previous-Vacant o none h = Vacant_lem o.good (o.own ∙ h) o.only
    clear_previous-Vacant {st'} o (some x) h =
        let named = (g.binds.forth b.user_id x h).0 in
        let (good, users) = unbound-Good x st' o.good (ap st'.bind_user named ∙ o.own ∙ h) in
        Vacant_lem good
          (ap (λ (m : Text → Option UserWechatBind). m b.user_id) users.bind_user
            ∙ del-here text_discrete x.user_id st'.bind_user b.user_id (sym named))
          (λ u q. o.only u (
            del-Within endpoint_discrete x.at st'.bind_peer b.at u
              (ap (λ (m : Endpoint → Option Text). m b.at) (sym users.bind_peer) ∙ q)))

  -- the store with the bind
  abbrev with_bind : Store → Store
  with_bind st = record st {
    bind_user = put text_discrete b.user_id b st.bind_user;
    bind_peer = put endpoint_discrete b.at b.user_id st.bind_peer;
  }

  with_bind-Binds :
      (st : Store)
      → Binds st
      → st.bind_user b.user_id ≡ none
      → st.bind_peer b.at ≡ none
      → Binds (with_bind st)
  with_bind-Binds st binds no_user no_peer = record {
    forth = λ u x h. elim (put-old text_discrete b.user_id b st.bind_user u x h) [
      | inl (e, f) ↦ (
        ap (λ (y : UserWechatBind). y.user_id) f ∙ sym e,
        put-here endpoint_discrete b.at b.user_id st.bind_peer x.at
              (ap (λ (y : UserWechatBind). y.at) f)
            ∙ ap some (sym e),
      )
      | inr old ↦
          let (e, p) = binds.forth u x old in
          (
            e,
            put-there endpoint_discrete b.at b.user_id st.bind_peer x.at
                  (λ q. none-some (sym no_peer ∙ ap st.bind_peer (sym q) ∙ p))
                ∙ p,
          )
    ];
    back = λ k u h. elim (put-old endpoint_discrete b.at b.user_id st.bind_peer k u h) [
      | inl (e, f) ↦ (b, put-here text_discrete b.user_id b st.bind_user u f, sym e)
      | inr old ↦
          let (x, p, e) = binds.back k u old in
          (
            x,
            put-there text_discrete b.user_id b st.bind_user u
                  (λ q. none-some (sym no_user ∙ ap st.bind_user (sym q) ∙ p))
                ∙ p,
            e,
          )
    ];
  }

  with_bind-Good :
      (st : Store)
      → Good st
      → Free b.at st
      → st.bind_user b.user_id ≡ none
      → st.bind_peer b.at ≡ none
      → Good (with_bind st)
  with_bind-Good st g free no_user no_peer = record {
    engaged = engaged;
    binds = with_bind-Binds st g.binds no_user no_peer;
    fits =
        Fits-SameBut {k = b.at} {st = st} engaged free (λ k a q. q) (λ k a q. q)
          (λ j n. put-there endpoint_discrete b.at b.user_id st.bind_peer j n, refl) g.fits;
  }
    where
      engaged : Engaged (with_bind st)
      engaged = record {
        sessions = g.engaged.sessions;
        outbound = g.engaged.outbound;
        inbound = g.engaged.inbound;
        out_in = g.engaged.out_in;
        out_talk = g.engaged.out_talk;
        in_talk = g.engaged.in_talk;
      }

  -- The bind is there afterwards, with nothing at its endpoint, and the invariant holds.
  pub set_primary_bind-Good : (st : Store) → Good st → Good (set_primary_bind b st)
  unfolding set_primary_bind
  set_primary_bind-Good st g =
      let owned = clear_owner-Owned st g (st.bind_peer b.at) refl in
      let vacant = clear_previous-Vacant st g owned (st.bind_user b.user_id) refl in
      let (ending, free) = end_for_peer_lem vacant.good.engaged b.at in
      with_bind-Good _ (Ending-Good ending vacant.good) free
        (ap (λ (m : Text → Option UserWechatBind). m b.user_id) ending.same.bind_user
          ∙ vacant.no_user)
        (ap (λ (m : Endpoint → Option Text). m b.at) ending.same.bind_peer ∙ vacant.no_peer)

  -- Under the invariant, after `setPrimaryBind` its endpoint leads to the new bind and has no request and
  -- no session, and no other endpoint leads to the user, whatever was bound before.
  pub set_primary_bind-bound :
      (st : Store)
      → Good st
      → (get_bind_by_peer b.at (set_primary_bind b st) ≡ some b)
        × Free b.at (set_primary_bind b st)
        × ((k : Endpoint) → (set_primary_bind b st).bind_peer k ≡ some b.user_id → k ≡ b.at)
  unfolding set_primary_bind
  set_primary_bind-bound st g =
      let owned = clear_owner-Owned st g (st.bind_peer b.at) refl in
      let vacant = clear_previous-Vacant st g owned (st.bind_user b.user_id) refl in
      let (ending, free) = end_for_peer_lem vacant.good.engaged b.at in
      let final = set_primary_bind-Good st g in
      let ended =
        end_for_peer b.at
          (clear_previous (clear_owner b st (st.bind_peer b.at)) (st.bind_user b.user_id)) in
      let user_here = put-here text_discrete b.user_id b ended.bind_user b.user_id refl in
      (
        ap (bind_of (set_primary_bind b st))
              (put-here endpoint_discrete b.at b.user_id ended.bind_peer b.at refl)
            ∙ user_here,
        free,
        λ k h.
            let (x, p, e) = final.binds.back k b.user_id h in
            sym e ∙ ap (λ (y : UserWechatBind). y.at) (same_some (sym p ∙ user_here)),
      )
