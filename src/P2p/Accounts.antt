-- ===== src/P2p/Accounts.antt =====
-- The handlers of the bind, of the state and of the block list keep the invariant.
use mathlib.Core.Path.{subst}
use we_chat_ai.Base.{
  Bool-cases, ◌≡◌, inl, inr, sym, ap, Bool, true, false, Option, none, some, Text, ℕ, if◌then◌else◌,
  same, not, ◌&&◌, ◌||◌, arith, text_discrete,
}
use we_chat_ai.P2p.Store.{
  PeerIdentity, del, untimed, Endpoint, BindCodeRecord, Timed, UserWechatBind, Store,
}
use we_chat_ai.P2p.Repos.{
  consume_bind_code, consumed, is_empty_text, get_bind_by_peer, is_blocked_either_way, unblock_user,
  BlockResult, blocked, self_block, already,
}
use we_chat_ai.P2p.Service.{
  User, Directory, bind_user_found, bind_code_found, handle_bind, unbind_found, handle_unbind,
  whoami_found, handle_whoami, block_answer, block_target, block_found, handle_block,
  unblock_answer, unblock_target, unblock_found, handle_unblock, list_found, handle_block_list,
}
use we_chat_ai.P2p.Invariant.{Fitting, Good}
use we_chat_ai.P2p.Peers.{Read, nothing, found, session-Read, outbound-Read, inbound-Read}
use we_chat_ai.P2p.Binding.{clear_primary_bind-Good}
use we_chat_ai.P2p.Rebinding.{set_primary_bind-Good}
use we_chat_ai.P2p.Blocking.{block_user-Good}

-- The codes and the counters of a day are not what the invariant is about.
pub aside-Good :
    (codes : Text → Option (Timed BindCodeRecord)) (days : Endpoint → Text → ℕ) (st : Store)
    → Good st
    → Good (record st { bind_code = codes; request_day = days })
unfolding is_blocked_either_way
aside-Good codes days st g = record {
  engaged = record {
    sessions = g.engaged.sessions;
    outbound = g.engaged.outbound;
    inbound = g.engaged.inbound;
    out_in = g.engaged.out_in;
    out_talk = g.engaged.out_talk;
    in_talk = g.engaged.in_talk;
  };
  binds = record { forth = g.binds.forth; back = g.binds.back };
  fits = record {
    talkers = λ id s dl h.
        let f = g.fits.talkers id s dl h in
        record {
          bound_x = f.bound_x;
          bound_y = f.bound_y;
          unblocked = f.unblocked;
          distinct = f.distinct;
        };
    askers = λ id r dl h.
        let f = g.fits.askers id r dl h in
        record {
          bound_x = f.bound_x;
          bound_y = f.bound_y;
          unblocked = f.unblocked;
          distinct = f.distinct;
        };
  };
}

-- Fewer blocks part no two parties.
fewer :
    (x y z p q c e : Bool)
    → (x && y && z && (p || q)) ≡ false
    → (x && y && z && ((if c then false else p) || (if e then false else q))) ≡ false
fewer x y z p q c e h = ground arith

unblock_user-unblocked :
    (u v a b : Text) (st : Store)
    → is_blocked_either_way a b st ≡ false
    → is_blocked_either_way a b (unblock_user u v st).0 ≡ false
unfolding unblock_user is_blocked_either_way
unblock_user-unblocked u v a b st h =
    fewer (not (is_empty_text a)) (not (is_empty_text b)) (not (same a b)) (st.blocks a b)
      (st.blocks b a) (same u a && same v b) (same u b && same v a) h

unblock_user-Fitting :
    (u v : Text) (st : Store) (x y : PeerIdentity)
    → Fitting st x y
    → Fitting (unblock_user u v st).0 x y
unfolding unblock_user
unblock_user-Fitting u v st x y f = record {
  bound_x = f.bound_x;
  bound_y = f.bound_y;
  unblocked = unblock_user-unblocked u v x.user_id y.user_id st f.unblocked;
  distinct = f.distinct;
}

pub unblock_user-Good : (u v : Text) (st : Store) → Good st → Good (unblock_user u v st).0
unfolding unblock_user
unblock_user-Good u v st g = record {
  engaged = record {
    sessions = g.engaged.sessions;
    outbound = g.engaged.outbound;
    inbound = g.engaged.inbound;
    out_in = g.engaged.out_in;
    out_talk = g.engaged.out_talk;
    in_talk = g.engaged.in_talk;
  };
  binds = record { forth = g.binds.forth; back = g.binds.back };
  fits = record {
    talkers = λ id s dl h. unblock_user-Fitting u v st s.a s.b (g.fits.talkers id s dl h);
    askers =
        λ id r dl h. unblock_user-Fitting u v st r.from_peer r.to_peer (g.fits.askers id r dl h);
  };
}

consume_bind_code-Good : (code : Text) (st : Store) → Good st → Good (consume_bind_code code st).0
unfolding consume_bind_code
consume_bind_code-Good code st g = go (untimed (st.bind_code code))
  where
    go : (x : Option BindCodeRecord) → Good (consumed code st x).0
    go none = g
    go (some rec) = aside-Good (del text_discrete code st.bind_code) st.request_day st g

-- A read leaves the invariant.
Read-Good :
    {C : Type 0} {st : Store} {got : Store × Option C} {Absent : Type 0} {Present : C → Type 0}
    → Good st
    → Read st got Absent Present
    → Good got.0
Read-Good {C} g (nothing e p) = subst Good (sym (ap (λ (x : Store × Option C). x.0) e)) g
Read-Good {C} g (found c e p) = subst Good (sym (ap (λ (x : Store × Option C). x.0) e)) g

module _ (d : Directory) (k : Endpoint) where
  bind_code_found-Good :
      (st : Store) (rec : Option BindCodeRecord) → Good st → Good (bind_code_found d k st rec).0
  bind_code_found-Good st none g = g
  bind_code_found-Good st (some rec) g = go (d.get_user rec.user_id)
    where
      go : (x : Option User) → Good (bind_user_found d k st x).0
      go none = g
      go (some user) =
          set_primary_bind-Good (record { user_id = user.id; username = user.username; at = k }) st
            g

  pub handle_bind-Good : (code : Text) (st : Store) → Good st → Good (handle_bind d k code st).0
  unfolding handle_bind
  handle_bind-Good code st g =
      bind_code_found-Good (consume_bind_code _ st).0 (consume_bind_code _ st).1
        (consume_bind_code-Good _ st g)

  pub handle_unbind-Good : (st : Store) → Good st → Good (handle_unbind d k st).0
  unfolding handle_unbind
  handle_unbind-Good st g = go (get_bind_by_peer k st)
    where
      go : (x : Option UserWechatBind) → Good (unbind_found d k st x).0
      go none = g
      go (some own) = clear_primary_bind-Good own.user_id st g

  pub handle_whoami-Good : (st : Store) → Good st → Good (handle_whoami d k st).0
  unfolding handle_whoami
  handle_whoami-Good st g = go (get_bind_by_peer k st)
    where
      go : (x : Option UserWechatBind) → Good (whoami_found d k st x).0
      go none = g
      go (some own) =
          let g1 = Read-Good g (session-Read g.engaged k) in
          let g2 = Read-Good g1 (outbound-Read g1.engaged k) in
          Read-Good g2 (inbound-Read g2.engaged k)

  pub handle_block-Good : (name : Text) (st : Store) → Good st → Good (handle_block d k name st).0
  unfolding handle_block
  handle_block-Good name st g = go (get_bind_by_peer k st)
    where
      answered :
          (username : Text) (got : Store × BlockResult)
          → Good got.0
          → Good (block_answer d k username got).0
      answered username (after, already) h = h
      answered username (after, blocked) h = h
      answered username (after, self_block) h = h

      go_user : (own : UserWechatBind) (x : Option User) → Good (block_target d k name st own x).0
      go_user own none = g
      go_user own (some target) = elim (Bool-cases (same target.id own.user_id)) [
        | inl t ↦ rw t g
        | inr f ↦ rw f (answered target.username _ (block_user-Good own.user_id target.id st g))
      ]

      go : (x : Option UserWechatBind) → Good (block_found d k name st x).0
      go none = g
      go (some own) = go_user own (d.get_user_by_username name)

  pub handle_unblock-Good :
      (name : Text) (st : Store) → Good st → Good (handle_unblock d k name st).0
  unfolding handle_unblock
  handle_unblock-Good name st g = go (get_bind_by_peer k st)
    where
      answered :
          (username : Text) (got : Store × Bool)
          → Good got.0
          → Good (unblock_answer d k username got).0
      answered username (after, true) h = h
      answered username (after, false) h = h

      go_user : (own : UserWechatBind) (x : Option User) → Good (unblock_target d k name st own x).0
      go_user own none = g
      go_user own (some target) =
          answered target.username _ (unblock_user-Good own.user_id target.id st g)

      go : (x : Option UserWechatBind) → Good (unblock_found d k name st x).0
      go none = g
      go (some own) = go_user own (d.get_user_by_username name)

  pub handle_block_list-Good : (st : Store) → Good st → Good (handle_block_list d k st).0
  unfolding handle_block_list
  handle_block_list-Good st g = go (get_bind_by_peer k st)
    where
      go : (x : Option UserWechatBind) → Good (list_found d k st x).0
      go none = g
      go (some own) = g
