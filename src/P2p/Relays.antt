-- ===== src/P2p/Relays.antt =====
-- A message that is no command: the relay to the other party of the session.
use mathlib.Core.Path.{subst, ap₂}
use we_chat_ai.Base.{
  zero, suc, ◌∙◌, Bool-cases, ℕ, ◌≡◌, inl, inr, ◌⊎◌, refl, sym, ap, Bool, true, false, ◌&&◌, none,
  some, [], ◌∷◌, Text, same, same_sound, take, length, not, ◌||◌, ltb, if◌then◌else◌, arith,
}
use we_chat_ai.P2p.Store.{Endpoint, PeerIdentity, P2pSession, Store, same_endpoint}
use we_chat_ai.P2p.Repos.{
  get_p2p_session_for_peer, write_session, other_party, self_party, is_empty_text,
  is_blocked_either_way,
}
use we_chat_ai.P2p.Service.{
  Directory, P2pServiceOptions, Moment, no_media, empty_message, Handled, local_only, fall_through,
  relayed, relay_parties, handle_relay, no_command,
}
use we_chat_ai.P2p.Invariant.{OnSession, Fitting, Good}
use we_chat_ai.P2p.Peers.{Read, nothing, found, session-Read, Talks}
use we_chat_ai.P2p.Asking.{Fitting-distinct}
use we_chat_ai.P2p.Blocking.{same_ne}
use we_chat_ai.P2p.Accepting.{same_endpoint_refl}

both_true : (p q : Bool) → (p && q) ≡ true → (p ≡ true) × (q ≡ true)
both_true true q h = (refl, h)
both_true false q h = absurd (cc)

same_endpoint_sound : (j k : Endpoint) → same_endpoint j k ≡ true → j ≡ k
same_endpoint_sound j k h =
    let (p, q) = both_true (same j.bot_id k.bot_id) (same j.peer_id k.peer_id) h in
    let bot = same_sound j.bot_id k.bot_id p in
    let peer = same_sound j.peer_id k.peer_id q in λ i. record { bot_id = bot i; peer_id = peer i }

same_endpoint-false : (j k : Endpoint) → ¬ (j ≡ k) → same_endpoint j k ≡ false
same_endpoint-false j k n = elim (Bool-cases (same_endpoint j k)) [
  | inl t ↦ absurd (n (same_endpoint_sound j k t))
  | inr f ↦ f
]

-- the party at an endpoint and the other one
pub record Sides (s : P2pSession) (k : Endpoint) (me other : PeerIdentity) : Type 0 where
  pub self : self_party s k ≡ some me
  pub across : other_party s k ≡ some other
  pub at : me.at ≡ k
  pub split : ((me ≡ s.a) × (other ≡ s.b)) ⊎ ((me ≡ s.b) × (other ≡ s.a))

pub Sides-mine :
    {s : P2pSession} {k : Endpoint} {me other : PeerIdentity}
    → Sides s k me other
    → OnSession s me.at
Sides-mine sides = elim sides.split [
  | inl (p, q) ↦ inl (ap (λ (x : PeerIdentity). x.at) p)
  | inr (p, q) ↦ inr (ap (λ (x : PeerIdentity). x.at) p)
]

pub Sides-theirs :
    {s : P2pSession} {k : Endpoint} {me other : PeerIdentity}
    → Sides s k me other
    → OnSession s other.at
Sides-theirs sides = elim sides.split [
  | inl (p, q) ↦ inr (ap (λ (x : PeerIdentity). x.at) q)
  | inr (p, q) ↦ inl (ap (λ (x : PeerIdentity). x.at) q)
]

pub Sides-a : (s : P2pSession) → Sides s s.a.at s.a s.b
Sides-a s =
    let e = same_endpoint_refl s.a.at in
    record { self = rw e refl; across = rw e refl; at = refl; split = inl (refl, refl) }

pub Sides-b : (s : P2pSession) → ¬ (s.a.at ≡ s.b.at) → Sides s s.b.at s.b s.a
Sides-b s n =
    let e = same_endpoint-false s.a.at s.b.at n in
    let f = same_endpoint_refl s.b.at in
    record { self = rw (e, f) refl; across = rw (e, f) refl; at = refl; split = inr (refl, refl) }

pub OnSession-Sides :
    (s : P2pSession) (k : Endpoint)
    → ¬ (s.a.at ≡ s.b.at)
    → OnSession s k
    → (me : PeerIdentity) × (other : PeerIdentity) × Sides s k me other
OnSession-Sides s k n (inl p) =
    (s.a, s.b, subst (λ (j : Endpoint). Sides s j s.a s.b) (sym p) (Sides-a s))
OnSession-Sides s k n (inr q) =
    (s.b, s.a, subst (λ (j : Endpoint). Sides s j s.b s.a) (sym q) (Sides-b s n))

-- A block is read the same from both sides.
unblocked_sym :
    (u v : Text) (st : Store)
    → ¬ (u ≡ v)
    → is_blocked_either_way u v st ≡ false
    → is_blocked_either_way v u st ≡ false
unfolding is_blocked_either_way
unblocked_sym u v st n h = rw (same_ne v u (λ e. n (sym e))) (
    swap (not (is_empty_text u)) (not (is_empty_text v)) (same u v) (st.blocks u v) (st.blocks v u)
      (same_ne u v n) h)
  where
    swap :
        (x y c p q : Bool)
        → c ≡ false
        → (x && y && not c && (p || q)) ≡ false
        → (y && x && true && (q || p)) ≡ false
    swap x y c p q e h = ground arith

pub Fitting-sym : {st : Store} {x y : PeerIdentity} → Fitting st x y → Fitting st y x
Fitting-sym {st} {x} {y} f = record {
  bound_x = f.bound_y;
  bound_y = f.bound_x;
  unblocked = unblocked_sym x.user_id y.user_id st f.distinct f.unblocked;
  distinct = λ e. f.distinct (sym e);
}

-- The parties of a session fit, whichever of them writes.
pub fitting :
    {st : Store} (s : P2pSession) (k : Endpoint) {me other : PeerIdentity}
    → Fitting st s.a s.b
    → Sides s k me other
    → Fitting st me other
fitting {st} s k {me} {other} f sides = elim sides.split [
  | inl (p, q) ↦
      subst (λ (y : PeerIdentity). Fitting st me y) (sym q)
        (subst (λ (x : PeerIdentity). Fitting st x s.b) (sym p) f)
  | inr (p, q) ↦
      subst (λ (y : PeerIdentity). Fitting st me y) (sym q)
        (subst (λ (x : PeerIdentity). Fitting st x s.a) (sym p) (Fitting-sym f))
]

-- A text within the limit is taken whole.
take_all : (n : ℕ) (text : Text) → ltb n (length text) ≡ false → take n text ≡ text
take_all zero [] h = refl
take_all zero (c ∷ text) h = ground (arith, h)
take_all (suc n) [] h = refl
take_all (suc n) (c ∷ text) h = ap (◌∷◌ c) (take_all n text (ground (arith, h)))

module _ (d : Directory) (o : P2pServiceOptions) (m : Moment) (k : Endpoint) (text : Text)
    (st : Store) where
  -- what a message that is no command, of media alone or with a text, may give on a store between two calls
  pub data RelayResult (media_only : Bool) (got : Handled) : Type 0 where
    fell_through : got ≡ (st, fall_through) → st.p2p_peer k ≡ none → RelayResult media_only got
    no_text : media_only ≡ true → got ≡ (st, local_only no_media) → RelayResult media_only got
    nothing_left :
        is_empty_text (take o.relay_max_chars text) ≡ true
        → got ≡ (st, local_only empty_message)
        → RelayResult media_only got
    sent :
        (s : P2pSession) (me other : PeerIdentity) (dl : ℕ)
        → media_only ≡ false
        → st.session s.id ≡ some (s, dl)
        → Sides s k me other
        → Fitting st me other
        → got ≡ (
          write_session m.now o.session_idle_sec s st,
          record {
            handled = true;
            local_replies = [];
            remote_sends =
                record {
                  to = other.at;
                  message = relayed me.username (take o.relay_max_chars text);
                }
                ∷ [];
          },
        )
        → RelayResult media_only got

  abbrev pub cut : Text
  cut = if ltb o.relay_max_chars (length text) then take o.relay_max_chars text else text

  cut-take : cut ≡ take o.relay_max_chars text
  cut-take = elim (Bool-cases (ltb o.relay_max_chars (length text))) [
    | inl e ↦ rw e refl
    | inr e ↦ rw e (sym (take_all o.relay_max_chars text e))
  ]

  module _ (g : Good st) where
    relayed_to :
        (s : P2pSession) → Talks st k s → RelayResult false (handle_relay d o m k s text st)
    unfolding handle_relay
    relayed_to s (dl, here, on) =
        let (me, other, sides) =
          OnSession-Sides s k (Fitting-distinct (g.fits.talkers s.id s dl here)) on in
        subst (RelayResult false)
          (ap₂ (relay_parties d o m k s text st) (sym sides.self) (sym sides.across))
          (elim (Bool-cases (is_empty_text cut)) [
            | inl e ↦ rw e (nothing_left (ap is_empty_text (sym cut-take) ∙ e) refl)
            | inr f ↦ rw f (
                sent s me other dl refl here sides
                  (fitting s k (g.fits.talkers s.id s dl here) sides)
                  (ap (spoken s me other) cut-take))
          ])
      where
        spoken : P2pSession → PeerIdentity → PeerIdentity → Text → Handled
        spoken s me other body = (
          write_session m.now o.session_idle_sec s st,
          record {
            handled = true;
            local_replies = [];
            remote_sends = record { to = other.at; message = relayed me.username body } ∷ [];
          },
        )

    by_session :
        (media_only : Bool)
        → Read st (get_p2p_session_for_peer k st) (st.p2p_peer k ≡ none) (Talks st k)
        → RelayResult media_only
            (no_command d o m k text media_only (get_p2p_session_for_peer k st))
    by_session media_only (nothing q n) = fell_through (ap (no_command d o m k text media_only) q) n
    by_session true (found s q p) = no_text refl (ap (no_command d o m k text true) q)
    by_session false (found s q p) =
        subst (RelayResult false) (ap (no_command d o m k text false) (sym q)) (relayed_to s p)

    -- Under the invariant, a message that is no command falls through where the endpoint has no session.
    -- Where it has one, a message of media alone, or one of whose text nothing is left when it is cut to the
    -- limit, leaves the store as it was and only its sender is told so. Any other goes, as the very text cut
    -- to the limit, to the other party of the session and to nobody else; the session is written again, and
    -- the two parties are bound at their endpoints and neither has blocked the other.
    pub no_command-RelayResult :
        (media_only : Bool)
        → RelayResult media_only
            (no_command d o m k text media_only (get_p2p_session_for_peer k st))
    no_command-RelayResult media_only = by_session media_only (session-Read g.engaged k)
