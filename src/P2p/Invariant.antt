-- ===== src/P2p/Invariant.antt =====
-- What holds of the store of p2p-repos.ts between two calls: requests and sessions are linked with their
-- endpoints, an endpoint has one of them at most, binds go both ways, and the two sides of a request or of a
-- session are bound there and not blocked.
use we_chat_ai.Base.{◌≡◌, refl, sym, ◌∙◌, ap, ◌⊎◌, Bool, false, Option, none, some, Text, ℕ}
use we_chat_ai.P2p.Store.{
  Endpoint, PeerIdentity, UserWechatBind, ConnectRequest, P2pSession, Store, sweep,
}
use we_chat_ai.P2p.Repos.{is_blocked_either_way}
use we_chat_ai.P2p.Linked.{Linked, live-some, live-Linked}

abbrev pub session_id : P2pSession → Text
session_id s = s.id

abbrev pub request_id : ConnectRequest → Text
request_id r = r.id

abbrev pub OnSession : P2pSession → Endpoint → Type 0
OnSession s k = (k ≡ s.a.at) ⊎ (k ≡ s.b.at)

abbrev pub OnFrom : ConnectRequest → Endpoint → Type 0
OnFrom r k = k ≡ r.from_peer.at

abbrev pub OnTo : ConnectRequest → Endpoint → Type 0
OnTo r k = k ≡ r.to_peer.at

-- no endpoint has an entry in both
abbrev pub Apart : {A B : Type 0} → (Endpoint → Option A) → (Endpoint → Option B) → Type 0
Apart {A} {B} m n = (k : Endpoint) (a : A) (b : B) → m k ≡ some a → n k ≡ some b → ⊥

pub record Engaged (st : Store) : Type 0 where
  pub sessions : Linked session_id OnSession st.session st.p2p_peer
  pub outbound : Linked request_id OnFrom st.connect_req st.connect_from
  pub inbound : Linked request_id OnTo st.connect_req st.connect_to
  pub out_in : Apart st.connect_from st.connect_to
  pub out_talk : Apart st.connect_from st.p2p_peer
  pub in_talk : Apart st.connect_to st.p2p_peer

pub record Binds (st : Store) : Type 0 where
  pub forth :
      (u : Text) (b : UserWechatBind)
      → st.bind_user u ≡ some b
      → (b.user_id ≡ u) × (st.bind_peer b.at ≡ some u)
  pub back :
      (k : Endpoint) (u : Text)
      → st.bind_peer k ≡ some u
      → (b : UserWechatBind) × (st.bind_user u ≡ some b) × (b.at ≡ k)

-- two parties that may talk
pub record Fitting (st : Store) (x y : PeerIdentity) : Type 0 where
  pub bound_x : st.bind_peer x.at ≡ some x.user_id
  pub bound_y : st.bind_peer y.at ≡ some y.user_id
  pub unblocked : is_blocked_either_way x.user_id y.user_id st ≡ false
  pub distinct : ¬ (x.user_id ≡ y.user_id)

pub record Fits (st : Store) : Type 0 where
  pub talkers :
      (id : Text) (s : P2pSession) (dl : ℕ) → st.session id ≡ some (s, dl) → Fitting st s.a s.b
  pub askers :
      (id : Text) (r : ConnectRequest) (dl : ℕ)
      → st.connect_req id ≡ some (r, dl)
      → Fitting st r.from_peer r.to_peer

pub record Good (st : Store) : Type 0 where
  pub engaged : Engaged st
  pub binds : Binds st
  pub fits : Fits st

-- an endpoint that no request and no session has
abbrev pub Free : Endpoint → Store → Type 0
Free k st = (st.connect_from k ≡ none) × (st.connect_to k ≡ none) × (st.p2p_peer k ≡ none)

-- every entry of the one map is an entry of the other
abbrev pub Within : {K A : Type 0} → (K → Option A) → (K → Option A) → Type 0
Within {K} {A} m n = (k : K) (a : A) → m k ≡ some a → n k ≡ some a

-- the requests and sessions of a store are among those of another
pub record Below (st' st : Store) : Type 0 where
  pub session : Within st'.session st.session
  pub connect_req : Within st'.connect_req st.connect_req
  pub connect_from : Within st'.connect_from st.connect_from
  pub connect_to : Within st'.connect_to st.connect_to
  pub p2p_peer : Within st'.p2p_peer st.p2p_peer

-- the binds and the blocks are the same
pub record SameUsers (st' st : Store) : Type 0 where
  pub bind_user : st'.bind_user ≡ st.bind_user
  pub bind_peer : st'.bind_peer ≡ st.bind_peer
  pub blocks : st'.blocks ≡ st.blocks

pub Below-refl : (st : Store) → Below st st
Below-refl st = record {
  session = λ k a h. h;
  connect_req = λ k a h. h;
  connect_from = λ k a h. h;
  connect_to = λ k a h. h;
  p2p_peer = λ k a h. h;
}

pub Below-trans : {x y z : Store} → Below x y → Below y z → Below x z
Below-trans f g = record {
  session = λ k a h. g.session k a (f.session k a h);
  connect_req = λ k a h. g.connect_req k a (f.connect_req k a h);
  connect_from = λ k a h. g.connect_from k a (f.connect_from k a h);
  connect_to = λ k a h. g.connect_to k a (f.connect_to k a h);
  p2p_peer = λ k a h. g.p2p_peer k a (f.p2p_peer k a h);
}

pub SameUsers-refl : (st : Store) → SameUsers st st
SameUsers-refl st = record { bind_user = refl; bind_peer = refl; blocks = refl }

pub SameUsers-trans : {x y z : Store} → SameUsers x y → SameUsers y z → SameUsers x z
SameUsers-trans f g = record {
  bind_user = f.bind_user ∙ g.bind_user;
  bind_peer = f.bind_peer ∙ g.bind_peer;
  blocks = f.blocks ∙ g.blocks;
}

pub Within-none :
    {K A : Type 0} {m n : K → Option A} → Within m n → (k : K) → n k ≡ none → m k ≡ none
Within-none {K} {A} {m} {n} w k h = go (m k) refl
  where
    go : (x : Option A) → m k ≡ x → x ≡ none
    go none e = refl
    go (some a) e = absurd (none-some (sym h ∙ w k a e))
      where
        none-some : {A : Type 0} {a : A} → ¬ (none ≡ some a)
        none-some e = cc

pub Free-Below : {k : Endpoint} {st' st : Store} → Below st' st → Free k st → Free k st'
Free-Below {k} f (p, q, r) =
    (Within-none f.connect_from k p, Within-none f.connect_to k q, Within-none f.p2p_peer k r)

-- What joins two parties depends on their binds and on the blocks only.
pub Fitting-SameUsers :
    {x y : PeerIdentity} {st' st : Store} → SameUsers st' st → Fitting st x y → Fitting st' x y
unfolding is_blocked_either_way
Fitting-SameUsers {x} {y} {st'} {st} same f = record {
  bound_x = ap (λ (m : Endpoint → Option Text). m x.at) same.bind_peer ∙ f.bound_x;
  bound_y = ap (λ (m : Endpoint → Option Text). m y.at) same.bind_peer ∙ f.bound_y;
  unblocked =
      rw
        (
          ap (λ (m : Text → Text → Bool). m x.user_id y.user_id) same.blocks,
          ap (λ (m : Text → Text → Bool). m y.user_id x.user_id) same.blocks,
        )
        f.unblocked;
  distinct = f.distinct;
}

-- With fewer requests and sessions of the same users, those that are left still fit.
pub Fits-Below : {st' st : Store} → Below st' st → SameUsers st' st → Fits st → Fits st'
Fits-Below {st'} {st} f same fits = record {
  talkers = λ id s dl h. Fitting-SameUsers same (fits.talkers id s dl (f.session id (s, dl) h));
  askers = λ id r dl h. Fitting-SameUsers same (fits.askers id r dl (f.connect_req id (r, dl) h));
}

pub Binds-SameUsers : {st' st : Store} → SameUsers st' st → Binds st → Binds st'
Binds-SameUsers {st'} {st} same b = record {
  forth = λ u x h.
      let (e, p) =
        b.forth u x (ap (λ (m : Text → Option UserWechatBind). m u) (sym same.bind_user) ∙ h) in
      (e, ap (λ (m : Endpoint → Option Text). m x.at) same.bind_peer ∙ p);
  back = λ k u h.
      let (x, p, e) =
        b.back k u (ap (λ (m : Endpoint → Option Text). m k) (sym same.bind_peer) ∙ h) in
      (x, ap (λ (m : Text → Option UserWechatBind). m u) same.bind_user ∙ p, e);
}

Apart-Within :
    {A B : Type 0} {m m' : Endpoint → Option A} {n n' : Endpoint → Option B}
    → Within m' m
    → Within n' n
    → Apart m n
    → Apart m' n'
Apart-Within f g apart k a b p q = apart k a b (f k a p) (g k b q)

-- An endpoint still has one request or session at most when there are fewer.
pub Engaged-Below :
    {st' st : Store}
    → Below st' st
    → Engaged st
    → Linked session_id OnSession st'.session st'.p2p_peer
    → Linked request_id OnFrom st'.connect_req st'.connect_from
    → Linked request_id OnTo st'.connect_req st'.connect_to
    → Engaged st'
Engaged-Below f e s o i = record {
  sessions = s;
  outbound = o;
  inbound = i;
  out_in = Apart-Within f.connect_from f.connect_to e.out_in;
  out_talk = Apart-Within f.connect_from f.p2p_peer e.out_talk;
  in_talk = Apart-Within f.connect_to f.p2p_peer e.in_talk;
}

pub sweep-Below : (now : ℕ) (st : Store) → Below (sweep now st) st
unfolding sweep
sweep-Below now st = record {
  session = λ k a h. live-some now (st.session k) a h;
  connect_req = λ k a h. live-some now (st.connect_req k) a h;
  connect_from = λ k a h. live-some now (st.connect_from k) a h;
  connect_to = λ k a h. live-some now (st.connect_to k) a h;
  p2p_peer = λ k a h. live-some now (st.p2p_peer k) a h;
}

-- Time passes.
pub sweep-Good : (now : ℕ) (st : Store) → Good st → Good (sweep now st)
unfolding sweep
sweep-Good now st g = record {
  engaged =
      Engaged-Below (sweep-Below now st) g.engaged
        (live-Linked session_id OnSession g.engaged.sessions now)
        (live-Linked request_id OnFrom g.engaged.outbound now)
        (live-Linked request_id OnTo g.engaged.inbound now);
  binds = Binds-SameUsers (record { bind_user = refl; bind_peer = refl; blocks = refl }) g.binds;
  fits =
      Fits-Below (sweep-Below now st) (record { bind_user = refl; bind_peer = refl; blocks = refl })
        g.fits;
}
