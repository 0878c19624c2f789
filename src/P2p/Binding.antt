-- ===== src/P2p/Binding.antt =====
-- `setPrimaryBind` and `clearPrimaryBind`: a bind is replaced, with all that the endpoints had.
use mathlib.Core.Path.{subst}
use we_chat_ai.Base.{
  ◌≡◌, inl, inr, refl, sym, ◌∙◌, ap, Bool, Option, none, some, Text, text_discrete, same, same_refl,
  if◌then◌else◌,
}
use we_chat_ai.P2p.Store.{Endpoint, endpoint_discrete, PeerIdentity, UserWechatBind, Store, del}
use we_chat_ai.P2p.Repos.{
  end_for_peer, forget_peer, clear_bind_pointers, clear_found, clear_primary_bind,
  is_blocked_either_way,
}
use we_chat_ai.P2p.Invariant.{
  Engaged, Binds, Fits, Fitting, Good, Free, Within, SameUsers, Binds-SameUsers,
}
use we_chat_ai.P2p.Endings.{same_some, none-some, del-Within, del-here, del-there, Ending-Good}
use we_chat_ai.P2p.Peers.{end_for_peer_lem}

-- the binds of one store are those of another but at one endpoint
abbrev pub SameBut : Endpoint → Store → Store → Type 0
SameBut k st' st =
    ((j : Endpoint) → ¬ (j ≡ k) → st'.bind_peer j ≡ st.bind_peer j) × (st'.blocks ≡ st.blocks)

Fitting-SameBut :
    {k : Endpoint} {st' st : Store} {x y : PeerIdentity}
    → SameBut k st' st
    → ¬ (x.at ≡ k)
    → ¬ (y.at ≡ k)
    → Fitting st x y
    → Fitting st' x y
unfolding is_blocked_either_way
Fitting-SameBut {k} {st'} {st} {x} {y} (binds, blocks) nx ny f = record {
  bound_x = binds x.at nx ∙ f.bound_x;
  bound_y = binds y.at ny ∙ f.bound_y;
  unblocked =
      rw
        (
          ap (λ (m : Text → Text → Bool). m x.user_id y.user_id) blocks,
          ap (λ (m : Text → Text → Bool). m y.user_id x.user_id) blocks,
        )
        f.unblocked;
  distinct = f.distinct;
}

-- A bind may change at an endpoint that has no request and no session.
pub Fits-SameBut :
    {k : Endpoint} {st' st : Store}
    → Engaged st'
    → Free k st'
    → Within st'.session st.session
    → Within st'.connect_req st.connect_req
    → SameBut k st' st
    → Fits st
    → Fits st'
Fits-SameBut {k} {st'} {st} e (no_out, no_in, no_talk) ws wr same fits = record {
  talkers = λ id s dl h.
      Fitting-SameBut same
        (λ p. none-some (sym no_talk ∙ e.sessions.forth id s dl k h (inl (sym p))))
        (λ p. none-some (sym no_talk ∙ e.sessions.forth id s dl k h (inr (sym p))))
        (fits.talkers id s dl (ws id (s, dl) h));
  askers = λ id r dl h.
      Fitting-SameBut same (λ p. none-some (sym no_out ∙ e.outbound.forth id r dl k h (sym p)))
        (λ p. none-some (sym no_in ∙ e.inbound.forth id r dl k h (sym p)))
        (fits.askers id r dl (wr id (r, dl) h));
}

-- the store without the two pointers of a bind
abbrev pub cleared : UserWechatBind → Store → Store
cleared b st = record st {
  bind_user = del text_discrete b.user_id st.bind_user;
  bind_peer = del endpoint_discrete b.at st.bind_peer;
}

cleared-Engaged : (b : UserWechatBind) {st : Store} → Engaged st → Engaged (cleared b st)
cleared-Engaged b e = record {
  sessions = e.sessions;
  outbound = e.outbound;
  inbound = e.inbound;
  out_in = e.out_in;
  out_talk = e.out_talk;
  in_talk = e.in_talk;
}

module _ (b : UserWechatBind) (st : Store) (binds : Binds st)
    (here : st.bind_user b.user_id ≡ some b) where
  peer_here : st.bind_peer b.at ≡ some b.user_id
  peer_here = (binds.forth b.user_id b here).1

  clear_bind_pointers_lem : clear_bind_pointers b st ≡ cleared b st
  unfolding clear_bind_pointers
  clear_bind_pointers_lem =
      ap (forget_peer b (record st { bind_user = del text_discrete b.user_id st.bind_user }))
        peer_here
      ∙ ap
          (λ (t : Bool).
            if t
            then cleared b st
            else record st { bind_user = del text_discrete b.user_id st.bind_user })
          (same_refl b.user_id)

  cleared-Binds : Binds (cleared b st)
  cleared-Binds = record {
    forth = λ u x h.
        let old = del-Within text_discrete b.user_id st.bind_user u x h in
        let (e, p) = binds.forth u x old in
        (
          e,
          del-there endpoint_discrete b.at st.bind_peer x.at (λ q. none-some (
                sym (
                  del-here text_discrete b.user_id st.bind_user u
                    (same_some (sym p ∙ ap st.bind_peer q ∙ peer_here)))
                ∙ h))
              ∙ p,
        );
    back = λ k u h.
        let (x, p, e) = binds.back k u (del-Within endpoint_discrete b.at st.bind_peer k u h) in
        (
          x,
          del-there text_discrete b.user_id st.bind_user u (λ q. none-some (
                sym (
                  del-here endpoint_discrete b.at st.bind_peer k (
                    sym e
                    ∙ ap (λ (y : UserWechatBind). y.at)
                        (same_some (sym p ∙ ap st.bind_user q ∙ here))))
                ∙ h))
              ∙ p,
          e,
        );
  }

cleared-SameBut : (b : UserWechatBind) (st : Store) → SameBut b.at (cleared b st) st
cleared-SameBut b st = (del-there endpoint_discrete b.at st.bind_peer, refl)

-- A bind goes, and then what its endpoint had.
abbrev pub unbound : UserWechatBind → Store → Store
unbound b st = end_for_peer b.at (clear_bind_pointers b st)

module _ (b : UserWechatBind) (st : Store) (g : Good st)
    (here : st.bind_user b.user_id ≡ some b) where
  unbound_lem :
      (rest : Store)
      → rest ≡ cleared b st
      → Good (end_for_peer b.at rest) × SameUsers (end_for_peer b.at rest) (cleared b st)
  unbound_lem rest e =
      let (ending, free) = end_for_peer_lem (cleared-Engaged b g.engaged) b.at in
      subst
        (λ (x : Store). Good (end_for_peer b.at x) × SameUsers (end_for_peer b.at x) (cleared b st))
        (sym e)
        (
          record {
            engaged = ending.engaged;
            binds = Binds-SameUsers ending.same (cleared-Binds b st g.binds here);
            fits =
                Fits-SameBut ending.engaged free ending.below.session ending.below.connect_req
                  (
                    λ j n.
                        ap (λ (m : Endpoint → Option Text). m j) ending.same.bind_peer
                        ∙ (cleared-SameBut b st).0 j n,
                    ending.same.blocks,
                  )
                  g.fits;
          },
          ending.same,
        )

  pub unbound-Good : Good (unbound b st) × SameUsers (unbound b st) (cleared b st)
  unbound-Good = unbound_lem (clear_bind_pointers b st) (clear_bind_pointers_lem b st g.binds here)

-- What the endpoint has goes, and then the bind.
clear_found-Good :
    (st : Store) (x : Option UserWechatBind) (u : Text)
    → Good st
    → st.bind_user u ≡ x
    → Good (clear_found st x)
clear_found-Good st none u g h = g
clear_found-Good st (some b) u g h =
    let (ending, free) = end_for_peer_lem g.engaged b.at in
    let after = Ending-Good ending g in
    let here =
      ap (λ (m : Text → Option UserWechatBind). m b.user_id) ending.same.bind_user
      ∙ ap st.bind_user (g.binds.forth u b h).0
      ∙ h in
    subst Good (sym (clear_bind_pointers_lem b (end_for_peer b.at st) after.binds here)) (record {
      engaged = cleared-Engaged b after.engaged;
      binds = cleared-Binds b (end_for_peer b.at st) after.binds here;
      fits =
          Fits-SameBut {k = b.at} {st = end_for_peer b.at st} (cleared-Engaged b after.engaged) free
            (λ k a q. q) (λ k a q. q) (cleared-SameBut b (end_for_peer b.at st)) after.fits;
    })

pub clear_primary_bind-Good : (u : Text) (st : Store) → Good st → Good (clear_primary_bind u st)
unfolding clear_primary_bind
clear_primary_bind-Good u st g = clear_found-Good st (st.bind_user u) u g refl
