-- ===== src/P2p/Blocking.antt =====
-- `blockUser` and `unblockUser`: what a block ends, and what is left.
use mathlib.Core.Path.{subst}
use we_chat_ai.Base.{
  Bool-cases, ◌≡◌, ◌≢◌, same_refl, inl, inr, refl, sym, ◌∙◌, ap, Bool, true, false, ◌||◌, Option,
  none, some, Text, same, same_sound,
}
use we_chat_ai.P2p.Store.{Endpoint, PeerIdentity, UserWechatBind, Store}
use we_chat_ai.P2p.Repos.{
  is_empty_text, is_blocked_either_way, end_for_bind, end_relations_between_users, add_block,
  block_user, self_block,
}
use we_chat_ai.P2p.Invariant.{Engaged, Binds, Fitting, Good, Free, Free-Below}
use we_chat_ai.P2p.Endings.{none-some, Ending, Ending-refl, Ending-trans}
use we_chat_ai.P2p.Peers.{end_for_peer_lem}

-- the endpoint of a user has no request and no session
abbrev pub Quiet : Text → Store → Type 0
Quiet u st = (b : UserWechatBind) → st.bind_user u ≡ some b → Free b.at st

end_for_bind_lem :
    {st : Store}
    → Engaged st
    → (x : Option UserWechatBind)
    → Ending (end_for_bind st x) st
      × ((b : UserWechatBind) → x ≡ some b → Free b.at (end_for_bind st x))
end_for_bind_lem e none = (Ending-refl e, λ b h. absurd (none-some h))
end_for_bind_lem {st} e (some x) =
    let (ending, free) = end_for_peer_lem e x.at in
    (ending, λ b h. subst (λ (k : Endpoint). Free k (end_for_bind st (some x))) (cc) free)

pub end_relations-Ending :
    {st : Store}
    → Engaged st
    → (u v : Text)
    → Ending (end_relations_between_users u v st) st
      × Quiet u (end_relations_between_users u v st)
      × Quiet v (end_relations_between_users u v st)
unfolding end_relations_between_users
end_relations-Ending {st} e u v =
    let (f, free_u) = end_for_bind_lem e (st.bind_user u) in
    let (g, free_v) = end_for_bind_lem f.engaged (st.bind_user v) in
    let both = Ending-trans g f in
    (
      both,
      λ b h.
          Free-Below g.below (
            free_u b
              (ap (λ (m : Text → Option UserWechatBind). m u) (sym both.same.bind_user) ∙ h)),
      λ b h.
          free_v b (ap (λ (m : Text → Option UserWechatBind). m v) (sym both.same.bind_user) ∙ h),
    )

pub same_ne : (a b : Text) → ¬ (a ≡ b) → same a b ≡ false
same_ne a b n = elim (Bool-cases (same a b)) [ inl t ↦ absurd (n (same_sound a b t)) | inr f ↦ f ]

-- A block between two users says nothing of others.
unblocked_still :
    (u v a b : Text) (st : Store)
    → ¬ (u ≡ a)
    → ¬ (u ≡ b)
    → is_blocked_either_way a b st ≡ false
    → is_blocked_either_way a b (add_block u v st) ≡ false
unfolding is_blocked_either_way
unblocked_still u v a b st na nb h = rw (same_ne u a na, same_ne u b nb) h

module _ (u v : Text) (st : Store) (g : Good st) where
  abbrev after : Store
  after = end_relations_between_users u v (add_block u v st)

  added-Engaged : Engaged (add_block u v st)
  added-Engaged = record {
    sessions = g.engaged.sessions;
    outbound = g.engaged.outbound;
    inbound = g.engaged.inbound;
    out_in = g.engaged.out_in;
    out_talk = g.engaged.out_talk;
    in_talk = g.engaged.in_talk;
  }

  ending : Ending after (add_block u v st)
  ending = (end_relations-Ending added-Engaged u v).0

  after-Binds : Binds after
  after-Binds = record {
    forth = λ w x h.
        let (e, p) =
          g.binds.forth w x
            (ap (λ (m : Text → Option UserWechatBind). m w) (sym ending.same.bind_user) ∙ h) in
        (e, ap (λ (m : Endpoint → Option Text). m x.at) ending.same.bind_peer ∙ p);
    back = λ k w h.
        let (x, p, e) =
          g.binds.back k w
            (ap (λ (m : Endpoint → Option Text). m k) (sym ending.same.bind_peer) ∙ h) in
        (x, ap (λ (m : Text → Option UserWechatBind). m w) ending.same.bind_user ∙ p, e);
  }

  -- A party with something left is not the user that blocks.
  not_blocker :
      (x : PeerIdentity)
      → st.bind_peer x.at ≡ some x.user_id
      → ¬ Free x.at after
      → ¬ (u ≡ x.user_id)
  not_blocker x bound busy e =
      let (b, p, at) =
        after-Binds.back x.at x.user_id
          (ap (λ (m : Endpoint → Option Text). m x.at) ending.same.bind_peer ∙ bound) in
      busy (
        subst (λ (k : Endpoint). Free k after) at
          ((end_relations-Ending added-Engaged u v).1 b (ap after.bind_user e ∙ p)))

  fits_after :
      (x y : PeerIdentity)
      → ¬ Free x.at after
      → ¬ Free y.at after
      → Fitting st x y
      → Fitting after x y
  unfolding is_blocked_either_way
  fits_after x y busy_x busy_y f = record {
    bound_x = ap (λ (m : Endpoint → Option Text). m x.at) ending.same.bind_peer ∙ f.bound_x;
    bound_y = ap (λ (m : Endpoint → Option Text). m y.at) ending.same.bind_peer ∙ f.bound_y;
    unblocked =
        rw
          (
            ap (λ (m : Text → Text → Bool). m x.user_id y.user_id) ending.same.blocks,
            ap (λ (m : Text → Text → Bool). m y.user_id x.user_id) ending.same.blocks,
          )
          (unblocked_still u v x.user_id y.user_id st (not_blocker x f.bound_x busy_x)
            (not_blocker y f.bound_y busy_y) f.unblocked);
    distinct = f.distinct;
  }

  after-Good : Good after
  after-Good = record {
    engaged = ending.engaged;
    binds = after-Binds;
    fits = record {
      talkers = λ id s dl h.
          fits_after s.a s.b
            (λ free.
              none-some (sym free.2 ∙ ending.engaged.sessions.forth id s dl s.a.at h (inl refl)))
            (λ free.
              none-some (sym free.2 ∙ ending.engaged.sessions.forth id s dl s.b.at h (inr refl)))
            (g.fits.talkers id s dl (ending.below.session id (s, dl) h));
      askers = λ id r dl h.
          fits_after r.from_peer r.to_peer
            (λ free.
              none-some (sym free.0 ∙ ending.engaged.outbound.forth id r dl r.from_peer.at h refl))
            (λ free.
              none-some (sym free.1 ∙ ending.engaged.inbound.forth id r dl r.to_peer.at h refl))
            (g.fits.askers id r dl (ending.below.connect_req id (r, dl) h));
    };
  }

  pub block_user-Good : Good (block_user u v st).0
  unfolding block_user
  block_user-Good = elim (Bool-cases (is_empty_text u || is_empty_text v || same u v)) [
    | inl t ↦ rw t g
    | inr f ↦ rw f after-Good
  ]

  -- Under the invariant, a block that is not of oneself, be it a new one or one that stood already, ends
  -- every request and every session of both users, those with third users too; the block stands
  -- afterwards, and the binds of the users are as they were.
  pub block_user-Quiet :
      (block_user u v st).1 ≢ self_block
      → Quiet u (block_user u v st).0
        × Quiet v (block_user u v st).0
        × ((block_user u v st).0.blocks u v ≡ true)
        × ((block_user u v st).0.bind_user ≡ st.bind_user)
  unfolding block_user
  block_user-Quiet made = elim (Bool-cases (is_empty_text u || is_empty_text v || same u v)) [
    | inl t ↦ absurd (made (rw t refl))
    | inr f ↦
        let (e, quiet_u, quiet_v) = end_relations-Ending added-Engaged u v in
        rw f (
          quiet_u,
          quiet_v,
          ap (λ (m : Text → Text → Bool). m u v) e.same.blocks ∙ rw (same_refl u, same_refl v) refl,
          e.same.bind_user,
        )
  ]
