-- ===== src/P2p/Reach.antt =====
-- The stores that calls lead to from the empty one: messages, as `handleInbound` takes them, and the calls of
-- p2p-repos.ts that routes.ts makes. The users of the platform may be others at each call.
use mathlib.Core.Path.{subst}
use we_chat_ai.Base.{
  ℕ, ◌≡◌, sym, Bool, Option, none, some, List, [], ◌∷◌, Text, Bool-cases, inl, inr,
}
use we_chat_ai.P2p.Store.{Endpoint, Store, empty_store, sweep, is_present}
use we_chat_ai.P2p.Repos.{create_bind_code, clear_primary_bind, block_user, unblock_user}
use we_chat_ai.P2p.Command.{
  Command, bind, unbind, whoami, accept, reject, disconnect, cancel, block, unblock, block_list,
  mention,
}
use we_chat_ai.P2p.Service.{
  Directory, P2pServiceOptions, Moment, Inbound, dispatch, run_command, handle_inbound,
}
use we_chat_ai.P2p.Invariant.{Good, sweep-Good, sweep-Below, Within-none}
use we_chat_ai.P2p.Blocking.{block_user-Good}
use we_chat_ai.P2p.Binding.{clear_primary_bind-Good}
use we_chat_ai.P2p.Accounts.{
  aside-Good, unblock_user-Good, handle_bind-Good, handle_unbind-Good, handle_whoami-Good,
  handle_block-Good, handle_unblock-Good, handle_block_list-Good,
}
use we_chat_ai.P2p.Talks.{
  handle_reject-Good, handle_cancel-Good, handle_disconnect-Good, handle_accept-Good,
  handle_at-Good, no_command-Good,
}

-- no session and no request has the id
abbrev pub IsNew : Text → Store → Type 0
IsNew id st = (st.session id ≡ none) × (st.connect_req id ≡ none)

module _ (d : Directory) (o : P2pServiceOptions) (m : Moment) (k : Endpoint) (st : Store)
    (g : Good st) (fresh : IsNew m.new_id st) where
  dispatch-Good : (command : Command) → Good (dispatch d o m k command st).0
  dispatch-Good (bind code) = handle_bind-Good d k code st g
  dispatch-Good unbind = handle_unbind-Good d k st g
  dispatch-Good whoami = handle_whoami-Good d k st g
  dispatch-Good accept = handle_accept-Good d o m k st g fresh.0
  dispatch-Good reject = handle_reject-Good d o m k st g
  dispatch-Good disconnect = handle_disconnect-Good d o m k st g
  dispatch-Good cancel = handle_cancel-Good d o m k st g
  dispatch-Good (block name) = handle_block-Good d k name st g
  dispatch-Good (unblock name) = handle_unblock-Good d k name st g
  dispatch-Good block_list = handle_block_list-Good d k st g
  dispatch-Good (mention name) = handle_at-Good d o m k st g name fresh.1

  run_command-Good :
      (text : Text) (media_only : Bool) (x : Option Command)
      → Good (run_command d o m k text media_only st x).0
  run_command-Good text media_only none = no_command-Good d o m k st g text media_only
  run_command-Good text media_only (some command) = dispatch-Good command

handle_inbound-Good :
    (d : Directory) (o : P2pServiceOptions) (m : Moment) (req : Inbound) (st : Store)
    → Good st
    → IsNew m.new_id st
    → Good (handle_inbound d o m req st).0
unfolding handle_inbound
handle_inbound-Good d o m req st g (no_session, no_request) =
    run_command-Good d o m req.at (sweep m.now st) (sweep-Good m.now st g)
      (
        Within-none (sweep-Below m.now st).session m.new_id no_session,
        Within-none (sweep-Below m.now st).connect_req m.new_id no_request,
      )
      _ _ _

create_bind_code-Good :
    (now : ℕ) (user_id username : Text) (ttl_sec : ℕ) (codes : List Text) (st : Store)
    → Good st
    → Good (create_bind_code now user_id username ttl_sec codes st).0
unfolding create_bind_code
create_bind_code-Good now user_id username ttl_sec [] st g = g
create_bind_code-Good now user_id username ttl_sec (code ∷ codes) st g =
    elim (Bool-cases (is_present (st.bind_code code))) [
      | inl t ↦ rw t (create_bind_code-Good now user_id username ttl_sec codes st g)
      | inr f ↦ rw f (aside-Good _ st.request_day st g)
    ]

-- A call changes the store.
pub data Step (st st' : Store) : Type 0 where
  message :
      (d : Directory) (o : P2pServiceOptions) (m : Moment) (req : Inbound)
      → IsNew m.new_id st
      → st' ≡ (handle_inbound d o m req st).0
      → Step st st'
  code :
      (now : ℕ) (user_id username : Text) (ttl_sec : ℕ) (codes : List Text)
      → st' ≡ (create_bind_code now user_id username ttl_sec codes (sweep now st)).0
      → Step st st'
  clear : (now : ℕ) (user_id : Text) → st' ≡ clear_primary_bind user_id (sweep now st) → Step st st'
  block_by : (now : ℕ) (u v : Text) → st' ≡ (block_user u v (sweep now st)).0 → Step st st'
  unblock_by : (now : ℕ) (u v : Text) → st' ≡ (unblock_user u v (sweep now st)).0 → Step st st'

pub data Reach : Store → Type 0 where
  start : Reach empty_store
  later : {st st' : Store} → Reach st → Step st st' → Reach st'

empty_store-Good : Good empty_store
empty_store-Good = record {
  engaged = record {
    sessions = record {
      names = λ id c dl h. absurd (cc);
      forth = λ id c dl k h on. absurd (cc);
      back = λ k id dl h. absurd (cc);
    };
    outbound = record {
      names = λ id c dl h. absurd (cc);
      forth = λ id c dl k h on. absurd (cc);
      back = λ k id dl h. absurd (cc);
    };
    inbound = record {
      names = λ id c dl h. absurd (cc);
      forth = λ id c dl k h on. absurd (cc);
      back = λ k id dl h. absurd (cc);
    };
    out_in = λ k a b p q. cc;
    out_talk = λ k a b p q. cc;
    in_talk = λ k a b p q. cc;
  };
  binds = record { forth = λ u b h. absurd (cc); back = λ k u h. absurd (cc) };
  fits = record { talkers = λ id s dl h. absurd (cc); askers = λ id r dl h. absurd (cc) };
}

Step-Good : {st st' : Store} → Step st st' → Good st → Good st'
Step-Good {st} (message d o m req fresh e) g =
    subst Good (sym e) (handle_inbound-Good d o m req st g fresh)
Step-Good {st} (code now user_id username ttl_sec codes e) g =
    subst Good (sym e) (
      create_bind_code-Good now user_id username ttl_sec codes (sweep now st) (sweep-Good now st g))
Step-Good {st} (clear now user_id e) g =
    subst Good (sym e) (clear_primary_bind-Good user_id (sweep now st) (sweep-Good now st g))
Step-Good {st} (block_by now u v e) g =
    subst Good (sym e) (block_user-Good u v (sweep now st) (sweep-Good now st g))
Step-Good {st} (unblock_by now u v e) g =
    subst Good (sym e) (unblock_user-Good u v (sweep now st) (sweep-Good now st g))

-- In every store that messages, new codes, unbinding and changes of block lists lead to from the empty
-- one, each under new ids, a request or a session and the pointers of its two endpoints lead to each other
-- until the same deadline, an endpoint has one of them at most, the bind of a user and of its endpoint
-- lead to each other, and the two sides of a request or a session are two users that are bound there and
-- have not blocked each other.
pub Reach-Good : {st : Store} → Reach st → Good st
Reach-Good start = empty_store-Good
Reach-Good (later r s) = Step-Good s (Reach-Good r)
