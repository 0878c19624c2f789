-- ===== src/P2p/Repos/Binds.antt =====
-- p2p-repos.ts: the bind codes, and the bind of a user to its one endpoint.
use we_chat_ai.Base.{ℕ, Option, none, some, List, [], ◌∷◌, Text, text_discrete, same, if◌then◌else◌}
use we_chat_ai.P2p.Store.{
  Endpoint, endpoint_discrete, UserWechatBind, BindCodeRecord, Store, put, del, untimed, is_present,
  same_endpoint, deadline,
}
use we_chat_ai.P2p.Repos.Engagements.{end_for_peer}

-- the attempts of `createBindCode`: the codes that the random generator gives, eight at most
unfoldable pub create_bind_code :
    ℕ → Text → Text → ℕ → List Text → Store → Store × Option BindCodeRecord
create_bind_code now user_id username ttl_sec [] st = (st, none)
create_bind_code now user_id username ttl_sec (code ∷ codes) st =
    let rest = create_bind_code now user_id username ttl_sec codes st in
    let rec : BindCodeRecord = record { code = code; user_id = user_id; username = username } in
    if is_present (st.bind_code code) then rest else (
      record st { bind_code = put text_discrete code (rec, deadline now 30 ttl_sec) st.bind_code },
      some rec,
    )

abbrev pub consumed : Text → Store → Option BindCodeRecord → Store × Option BindCodeRecord
consumed code st none = (st, none)
consumed code st (some rec) =
    (record st { bind_code = del text_discrete code st.bind_code }, some rec)

-- `consumeBindCode` of a code in capitals
unfoldable pub consume_bind_code : Text → Store → Store × Option BindCodeRecord
consume_bind_code code st = consumed code st (untimed (st.bind_code code))

abbrev pub bind_of : Store → Option Text → Option UserWechatBind
bind_of st none = none
bind_of st (some user_id) = st.bind_user user_id

abbrev pub get_bind_by_peer : Endpoint → Store → Option UserWechatBind
get_bind_by_peer k st = bind_of st (st.bind_peer k)

abbrev pub forget_peer : UserWechatBind → Store → Option Text → Store
forget_peer bind st none = st
forget_peer bind st (some mapped) =
    if same mapped bind.user_id
    then record st { bind_peer = del endpoint_discrete bind.at st.bind_peer }
    else st

-- `clearBindPointers`
unfoldable pub clear_bind_pointers : UserWechatBind → Store → Store
clear_bind_pointers bind st =
    forget_peer bind (record st { bind_user = del text_discrete bind.user_id st.bind_user })
      (st.bind_peer bind.at)

-- the bind of another user at the endpoint
abbrev pub clear_other : UserWechatBind → Store → Option UserWechatBind → Store
clear_other bind st none = st
clear_other bind st (some other) =
    if same_endpoint other.at bind.at
    then end_for_peer other.at (clear_bind_pointers other st)
    else st

abbrev pub clear_owner : UserWechatBind → Store → Option Text → Store
clear_owner bind st none = st
clear_owner bind st (some owner) =
    if same owner bind.user_id then st else clear_other bind st (st.bind_user owner)

abbrev pub clear_previous : Store → Option UserWechatBind → Store
clear_previous st none = st
clear_previous st (some previous) = end_for_peer previous.at (clear_bind_pointers previous st)

unfoldable pub set_primary_bind : UserWechatBind → Store → Store
set_primary_bind bind st =
    let owned = clear_owner bind st (st.bind_peer bind.at) in
    let ended = end_for_peer bind.at (clear_previous owned (st.bind_user bind.user_id)) in
    record ended {
      bind_user = put text_discrete bind.user_id bind ended.bind_user;
      bind_peer = put endpoint_discrete bind.at bind.user_id ended.bind_peer;
    }

abbrev pub clear_found : Store → Option UserWechatBind → Store
clear_found st none = st
clear_found st (some bind) = clear_bind_pointers bind (end_for_peer bind.at st)

unfoldable pub clear_primary_bind : Text → Store → Store
clear_primary_bind user_id st = clear_found st (st.bind_user user_id)
