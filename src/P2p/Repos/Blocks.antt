-- ===== src/P2p/Repos/Blocks.antt =====
-- p2p-repos.ts: the block list of a user, and what a block ends.
use we_chat_ai.Base.{
  Bool, true, false, not, ◌&&◌, ◌||◌, Option, none, some, [], ◌∷◌, Text, same, if◌then◌else◌,
}
use we_chat_ai.P2p.Store.{UserWechatBind, Store}
use we_chat_ai.P2p.Repos.Engagements.{end_for_peer}

abbrev pub is_empty_text : Text → Bool
is_empty_text [] = true
is_empty_text (c ∷ text) = false

unfoldable pub is_blocked_either_way : Text → Text → Store → Bool
is_blocked_either_way u v st =
    not (is_empty_text u)
    && not (is_empty_text v)
    && not (same u v)
    && (st.blocks u v || st.blocks v u)

abbrev pub end_for_bind : Store → Option UserWechatBind → Store
end_for_bind st none = st
end_for_bind st (some bind) = end_for_peer bind.at st

-- the binds are read before anything is ended
unfoldable pub end_relations_between_users : Text → Text → Store → Store
end_relations_between_users u v st =
    end_for_bind (end_for_bind st (st.bind_user u)) (st.bind_user v)

pub data BlockResult : Type 0 where
  blocked : BlockResult
  self_block : BlockResult
  already : BlockResult

abbrev pub add_block : Text → Text → Store → Store
add_block u v st = record st {
  blocks = λ x y. if same u x && same v y then true else st.blocks x y;
}

unfoldable pub block_user : Text → Text → Store → Store × BlockResult
block_user u v st = if is_empty_text u || is_empty_text v || same u v then (st, self_block) else (
  end_relations_between_users u v (add_block u v st),
  if st.blocks u v then already else blocked,
)

unfoldable pub unblock_user : Text → Text → Store → Store × Bool
unblock_user u v st = (
  record st { blocks = λ x y. if same u x && same v y then false else st.blocks x y },
  st.blocks u v,
)
