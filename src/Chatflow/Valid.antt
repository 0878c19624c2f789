-- ===== src/Chatflow/Valid.antt =====
-- What a validated graph is, and what the checks of nodes and edges pass.
use we_chat_ai.Base.{
  ℕ, suc, ◌≤◌, ◌<◌, ◌≡◌, refl, ap, true, false, Option, none, some, List, [], ◌∷◌, map, arith, Text,
  length, trim, same_sound, same_refl, keep_if, All, if_cases, not, trim-trim, units,
}
use we_chat_ai.Chatflow.Value.{
  Value, Values, nil, cons, count, get_key, or_value, to_text, string, Printing, is_object,
}
use we_chat_ai.Chatflow.Graph.{
  NodeType, Node, Edge, RawNode, Validated, GraphError, Result, ok, err, and_then, is_start,
  is_answer, is_blank, has_id, text_in, check_node, check_nodes, typed_node, type_of, node_id,
  check_edge, check_edges, edge_between,
}

abbrev pub node_ids : List Node → List Text
node_ids nodes = map (λ (n : Node). n.id) nodes

-- No id stands twice.
abbrev pub IsDistinct : List Text → Type 0
IsDistinct [] = Unit
IsDistinct (id ∷ ids) = (has_id id ids ≡ false) × IsDistinct ids

abbrev pub FitsIds : List Text → Edge → Type 0
FitsIds ids e = (has_id e.source ids ≡ true) × (has_id e.target ids ≡ true)

pub record IsValid (limit : ℕ) (g : Validated) : Type 0 where
  pub few_nodes : length g.nodes ≤ limit
  pub distinct_ids : IsDistinct (node_ids g.nodes)
  pub trimmed_ids : All (λ id. trim id ≡ id) (node_ids g.nodes)
  pub edges_fit : All (FitsIds (node_ids g.nodes)) g.edges
  pub one_start : length (keep_if (λ (n : Node). is_start n.node_type) g.nodes) ≡ 1
  pub some_answer : 0 < length (keep_if (λ (n : Node). is_answer n.node_type) g.nodes)

abbrev pub nodes_of : List RawNode → List Node
nodes_of ns = map (λ (n : RawNode). n.node) ns

-- Each id is new when its node is checked.
abbrev pub Unseen : List Text → List Text → Type 0
Unseen seen [] = Unit
Unseen seen (id ∷ ids) = (has_id id seen ≡ false) × Unseen (id ∷ seen) ids

not_later :
    (x : Text) (seen ids : List Text)
    → has_id x seen ≡ true
    → Unseen seen ids
    → has_id x ids ≡ false
not_later x seen [] h u = refl
not_later x seen (id ∷ ids) h (new, u) =
    ground (arith, h, new, same_sound id x, not_later x (id ∷ seen) ids (ground (arith, h)) u)

pub IsDistinct-of_Unseen : (seen ids : List Text) → Unseen seen ids → IsDistinct ids
IsDistinct-of_Unseen seen [] u = tt
IsDistinct-of_Unseen seen (id ∷ ids) (new, u) = (
  not_later id (id ∷ seen) ids (ground (arith, same_refl id)) u,
  IsDistinct-of_Unseen (id ∷ seen) ids u,
)

abbrev NodeFits : List Text → Result GraphError RawNode → Type 0
NodeFits seen (err e) = Unit
NodeFits seen (ok n) = (has_id n.node.id seen ≡ false) × (trim n.node.id ≡ n.node.id)

abbrev pub NodesFit : List Text → ℕ → Result GraphError (List RawNode) → Type 0
NodesFit seen k (err e) = Unit
NodesFit seen k (ok ns) =
    (length ns ≡ k)
    × Unseen seen (node_ids (nodes_of ns))
    × All (λ id. trim id ≡ id) (node_ids (nodes_of ns))

abbrev pub EdgesFit : List Text → Result GraphError (List Edge) → Type 0
EdgesFit ids (err e) = Unit
EdgesFit ids (ok es) = All (FitsIds ids) es

abbrev EdgeFits : List Text → Result GraphError Edge → Type 0
EdgeFits ids (err e) = Unit
EdgeFits ids (ok e) = FitsIds ids e

module _ (io : Printing) where
  typed_node-fits :
      (seen : List Text) (v : Value) (t : Option NodeType)
      → has_id (node_id io v) seen ≡ false
      → NodeFits seen (typed_node io v (node_id io v) t)
  typed_node-fits seen v none h = tt
  typed_node-fits seen v (some t) h =
      (h, trim-trim (to_text io (or_value (get_key (units "id") v) (string []))))

  check_node-fits : (seen : List Text) (v : Value) → NodeFits seen (check_node io seen v)
  check_node-fits seen v =
      if_cases (NodeFits seen) (not (is_object v)) (λ e. tt)
        (λ e.
          if_cases (NodeFits seen) (is_blank (node_id io v)) (λ e. tt)
            (λ e.
              if_cases (NodeFits seen) (has_id (node_id io v) seen) (λ e. tt)
                (λ new. typed_node-fits seen v (type_of (get_key (units "type") v)) new)))

  pub check_nodes-fit :
      (seen : List Text) (values : Values)
      → NodesFit seen (count values) (check_nodes io seen values)
  unfolding check_nodes count
  check_nodes-fit seen nil = (refl, tt, tt)
  check_nodes-fit seen (cons v values) =
      more (check_node io seen v) (check_node-fits seen v)
        (λ n. check_nodes-fit (n.node.id ∷ seen) values)
    where
      with_rest :
          (n : RawNode) (rest : Result GraphError (List RawNode))
          → NodeFits seen (ok n)
          → NodesFit (n.node.id ∷ seen) (count values) rest
          → NodesFit seen (suc (count values)) (and_then rest (λ ns. ok (n ∷ ns)))
      with_rest n (err e) f r = tt
      with_rest n (ok ns) (new, trimmed) (counted, unseen, all_trimmed) =
          (ap suc counted, (new, unseen), (trimmed, all_trimmed))

      more :
          (first : Result GraphError RawNode)
          → NodeFits seen first
          → ((n : RawNode)
              → NodesFit
                  (n.node.id ∷ seen)
                  (count values)
                  (check_nodes io (n.node.id ∷ seen) values))
          → NodesFit seen (suc (count values)) (
              and_then first
                (λ n. and_then (check_nodes io (n.node.id ∷ seen) values) (λ ns. ok (n ∷ ns))))
      more (err e) f rest = tt
      more (ok n) f rest = with_rest n (check_nodes io (n.node.id ∷ seen) values) f (rest n)

  edge_between-fits :
      (ids : List Text) (i : ℕ) (v a b : Value)
      → EdgeFits ids (edge_between io i v (text_in ids a) (text_in ids b))
  edge_between-fits ids i v a b = both (text_in ids a) (text_in ids b) (found a) (found b)
    where
      IsFound : Option Text → Type 0
      IsFound none = Unit
      IsFound (some id) = has_id id ids ≡ true

      found : (a : Value) → IsFound (text_in ids a)
      found (string text) = if_cases IsFound (has_id text ids) (λ e. e) (λ e. tt)
      found _ = tt

      both : (s t : Option Text) → IsFound s → IsFound t → EdgeFits ids (edge_between io i v s t)
      both none t f g = tt
      both (some s) none f g = tt
      both (some s) (some t) f g = (f, g)

  check_edge-fits : (ids : List Text) (i : ℕ) (v : Value) → EdgeFits ids (check_edge io ids i v)
  check_edge-fits ids i v =
      if_cases (EdgeFits ids) (not (is_object v)) (λ e. tt)
        (λ e. edge_between-fits ids i v (get_key (units "source") v) (get_key (units "target") v))

  pub check_edges-fit :
      (ids : List Text) (i : ℕ) (values : Values) → EdgesFit ids (check_edges io ids i values)
  unfolding check_edges
  check_edges-fit ids i nil = tt
  check_edges-fit ids i (cons v values) =
      both (check_edge io ids i v) (check_edges io ids (suc i) values) (check_edge-fits ids i v)
        (check_edges-fit ids (suc i) values)
    where
      both :
          (first : Result GraphError Edge) (rest : Result GraphError (List Edge))
          → EdgeFits ids first
          → EdgesFit ids rest
          → EdgesFit ids (and_then first (λ e. and_then rest (λ es. ok (e ∷ es))))
      both (err e) rest f g = tt
      both (ok e) (err e') f g = tt
      both (ok e) (ok es) f g = (f, g)
