-- ===== src/P2p/Asking.antt =====
-- `createConnectRequest` and `acceptConnectRequest`.
use mathlib.Core.Path.{subst}
use we_chat_ai.Base.{
  ℕ, ◌≡◌, inl, inr, refl, sym, ◌∙◌, ap, Bool, true, false, ◌||◌, Option, none, some, Text,
  text_discrete, if◌then◌else◌,
}
use we_chat_ai.P2p.Store.{
  Endpoint, endpoint_discrete, PeerIdentity, ConnectRequest, Timed, Store, put, is_present,
  deadline,
}
use we_chat_ai.P2p.Repos.{Busy, from_busy, to_busy, is_busy, claim_request, create_connect_request}
use we_chat_ai.P2p.Linked.{put-Linked}
use we_chat_ai.P2p.Invariant.{
  request_id, OnFrom, OnTo, Good, Fitting, Fitting-SameUsers, SameUsers, Free, Binds-SameUsers,
}
use we_chat_ai.P2p.Endings.{none-some, OnFrom-dec, OnTo-dec}
use we_chat_ai.P2p.Starts.{put-here, put-there, put-old}

-- the store with a request in it
abbrev pub with_request : ℕ → ConnectRequest → Store → Store
with_request dl r st = record st {
  connect_from = put endpoint_discrete r.from_peer.at (r.id, dl) st.connect_from;
  connect_to = put endpoint_discrete r.to_peer.at (r.id, dl) st.connect_to;
  connect_req = put text_discrete r.id (r, dl) st.connect_req;
}

-- Two parties that fit have different endpoints.
pub Fitting-distinct : {st : Store} {x y : PeerIdentity} → Fitting st x y → ¬ (x.at ≡ y.at)
Fitting-distinct {st} {x} {y} f e =
    f.distinct (users (sym f.bound_x ∙ ap st.bind_peer e ∙ f.bound_y))
  where
    users : some x.user_id ≡ some y.user_id → x.user_id ≡ y.user_id
    users h = cc

module _ (dl : ℕ) (r : ConnectRequest) (st : Store) (g : Good st)
    (fit : Fitting st r.from_peer r.to_peer) where
  with_request-SameUsers : SameUsers (with_request dl r st) st
  with_request-SameUsers = record { bind_user = refl; bind_peer = refl; blocks = refl }

  pub with_request-Good :
      st.connect_req r.id ≡ none
      → Free r.from_peer.at st
      → Free r.to_peer.at st
      → Good (with_request dl r st)
  with_request-Good fresh free_from free_to = record {
    engaged = record {
      sessions = g.engaged.sessions;
      outbound =
          put-Linked request_id OnFrom g.engaged.outbound OnFrom-dec r _ _
            (put-there endpoint_discrete r.from_peer.at (r.id, dl) st.connect_from) dl fresh
            (λ k on. ap st.connect_from on ∙ free_from.0) (λ id. refl)
            (put-here endpoint_discrete r.from_peer.at (r.id, dl) st.connect_from);
      inbound =
          put-Linked request_id OnTo g.engaged.inbound OnTo-dec r _ _
            (put-there endpoint_discrete r.to_peer.at (r.id, dl) st.connect_to) dl fresh
            (λ k on. ap st.connect_to on ∙ free_to.1) (λ id. refl)
            (put-here endpoint_discrete r.to_peer.at (r.id, dl) st.connect_to);
      out_in = λ k a b p q.
          elim (put-old endpoint_discrete r.from_peer.at (r.id, dl) st.connect_from k a p) [
            | inl e ↦ elim (put-old endpoint_discrete r.to_peer.at (r.id, dl) st.connect_to k b q) [
              | inl f ↦ Fitting-distinct fit (sym e.0 ∙ f.0)
              | inr y ↦ none-some (sym (ap st.connect_to e.0 ∙ free_from.1) ∙ y)
            ]
            | inr x ↦ elim (put-old endpoint_discrete r.to_peer.at (r.id, dl) st.connect_to k b q) [
              | inl f ↦ none-some (sym (ap st.connect_from f.0 ∙ free_to.0) ∙ x)
              | inr y ↦ g.engaged.out_in k a b x y
            ]
          ];
      out_talk = λ k a b p q.
          elim (put-old endpoint_discrete r.from_peer.at (r.id, dl) st.connect_from k a p) [
            | inl e ↦ none-some (sym (ap st.p2p_peer e.0 ∙ free_from.2) ∙ q)
            | inr x ↦ g.engaged.out_talk k a b x q
          ];
      in_talk = λ k a b p q.
          elim (put-old endpoint_discrete r.to_peer.at (r.id, dl) st.connect_to k a p) [
            | inl e ↦ none-some (sym (ap st.p2p_peer e.0 ∙ free_to.2) ∙ q)
            | inr x ↦ g.engaged.in_talk k a b x q
          ];
    };
    binds = Binds-SameUsers with_request-SameUsers g.binds;
    fits = record {
      talkers = λ id s dx h. Fitting-SameUsers with_request-SameUsers (g.fits.talkers id s dx h);
      askers = λ id x dx h.
          Fitting-SameUsers with_request-SameUsers
            (elim (put-old text_discrete r.id (r, dl) st.connect_req id (x, dx) h) [
              | inl e ↦
                  subst (λ (y : ConnectRequest). Fitting st y.from_peer y.to_peer)
                    (sym (ap (λ (y : Timed ConnectRequest). y.0) e.1)) fit
              | inr old ↦ g.fits.askers id x dx old
            ]);
    };
  }

  -- The writes with NX succeed between free endpoints.
  claim_request_lem :
      Free r.from_peer.at st
      → Free r.to_peer.at st
      → claim_request dl r st ≡ (with_request dl r st, none)
  claim_request_lem free_from free_to = rw (ap is_present free_from.0, ap is_present free_to.1) refl

not_busy : (k : Endpoint) (st : Store) → is_busy k st ≡ false → Free k st
not_busy k st h = go (st.connect_from k) (st.connect_to k) (st.p2p_peer k) h
  where
    go :
        {A B C : Type 0} (x : Option A) (y : Option B) (z : Option C)
        → (is_present x || is_present y || is_present z) ≡ false
        → (x ≡ none) × (y ≡ none) × (z ≡ none)
    go none none none h = (refl, refl, refl)
    go none none (some c) h = absurd (cc)
    go none (some b) z h = absurd (cc)
    go (some a) y z h = absurd (cc)

-- What `createConnectRequest` gives: the store as it was and a reason, or the request between two endpoints
-- that were free.
pub data Creation (st : Store) (r : ConnectRequest) (got : Store × Option Busy) : Type 0 where
  refused : (why : Busy) → got ≡ (st, some why) → Creation st r got
  made :
      (dl : ℕ)
      → got ≡ (with_request dl r st, none)
      → Free r.from_peer.at st
      → Free r.to_peer.at st
      → Creation st r got

pub create_connect_request-Creation :
    (now : ℕ) (id : Text) (x y : PeerIdentity) (ttl_sec : ℕ) (st : Store)
    → Good st
    → Fitting st x y
    → Creation st
        (record { id = id; from_peer = x; to_peer = y })
        (create_connect_request now id x y ttl_sec st)
unfolding create_connect_request
create_connect_request-Creation now id x y ttl_sec st g fit =
    go (is_busy x.at st) (is_busy y.at st) refl refl
  where
    r : ConnectRequest
    r = record { id = id; from_peer = x; to_peer = y }

    go :
        (p q : Bool)
        → is_busy x.at st ≡ p
        → is_busy y.at st ≡ q
        → Creation st r (
            if is_busy x.at st
            then (st, some from_busy)
            else if is_busy y.at st
            then (st, some to_busy)
            else claim_request (deadline now 30 ttl_sec) r st)
    go true q e f = refused from_busy (rw e refl)
    go false true e f = refused to_busy (rw (e, f) refl)
    go false false e f =
        let free_x = not_busy x.at st e in
        let free_y = not_busy y.at st f in
        made (deadline now 30 ttl_sec)
          (rw (e, f) (claim_request_lem (deadline now 30 ttl_sec) r st g fit free_x free_y)) free_x
          free_y
