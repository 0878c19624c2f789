-- ===== src/Chatflow/Graph.antt =====
-- chatflow/validate.ts, `validateChatflowGraph`, and chatflow/default-graph.ts. A raw graph is any value;
-- a validated one has its parts by type.
use we_chat_ai.Base.{
  ℕ, suc, min, max, Bool, true, false, not, Option, none, some, List, [], ◌∷◌, map, Text, units,
  trim, same, any_of, keep_if, ltb, ◌==◌, if◌then◌else◌, natural,
}
use we_chat_ai.Chatflow.Value.{
  count, Value, undefined, null, number, string, array, object, Values, nil, cons, Fields, end,
  field, Printing, get_key, is_object, or_value, to_text,
}

pub data NodeType : Type 0 where
  start : NodeType
  llm : NodeType
  answer : NodeType
  if_else : NodeType
  http : NodeType
  memory : NodeType
  search : NodeType

pub record Node : Type 0 where
  pub id : Text
  pub node_type : NodeType
  pub label : Value
  pub fields : Value

pub record Edge : Type 0 where
  pub id : Text
  pub source : Text
  pub target : Text
  pub source_handle : Value

-- the messages of a ChatflowError "invalid_graph"
pub data GraphError : Type 0 where
  no_object : GraphError
  wrong_version : GraphError
  no_lists : GraphError
  too_many_nodes : ℕ → GraphError
  no_nodes : GraphError
  invalid_node : GraphError
  no_id : GraphError
  duplicate_id : Text → GraphError
  unknown_type : GraphError
  not_one_start : GraphError
  no_answer_node : GraphError
  invalid_edge : GraphError
  missing_end : GraphError

pub data Result (E A : Type 0) : Type 0 where
  ok : A → Result E A
  err : E → Result E A

abbrev pub and_then : {E A B : Type 0} → Result E A → (A → Result E B) → Result E B
and_then (ok a) f = f a
and_then (err e) f = err e

pub record Validated : Type 0 where
  pub nodes : List Node
  pub edges : List Edge
  pub start_id : Value
  pub answer_ids : List Value

abbrev pub type_named : List (Text × NodeType) → Text → Option NodeType
type_named [] text = none
type_named ((name, t) ∷ names) text =
    let rest = type_named names text in if same text name then some t else rest

abbrev pub node_types : List (Text × NodeType)
node_types =
    (units "start", start)
    ∷ (units "llm", llm)
    ∷ (units "answer", answer)
    ∷ (units "if-else", if_else)
    ∷ (units "http", http)
    ∷ (units "memory", memory)
    ∷ (units "search", search)
    ∷ []

abbrev pub type_of : Value → Option NodeType
type_of (string text) = type_named node_types text
type_of _ = none

abbrev pub is_start : NodeType → Bool
is_start start = true
is_start _ = false

abbrev pub is_answer : NodeType → Bool
is_answer answer = true
is_answer _ = false

abbrev pub is_blank : Text → Bool
is_blank [] = true
is_blank (c ∷ text) = false

abbrev pub has_id : Text → List Text → Bool
has_id id ids = any_of (λ i. same i id) ids

-- a value that is in a set of texts
abbrev pub text_in : List Text → Value → Option Text
text_in ids (string text) = if has_id text ids then some text else none
text_in ids _ = none

abbrev pub object_or_empty : Value → Value
object_or_empty v = if is_object v then v else object end

-- `Math.max(3, Math.min(200, opts.maxNodes ?? 40))`
abbrev pub node_limit : Option ℕ → ℕ
node_limit none = 40
node_limit (some n) = max 3 (min 200 n)

-- a node with the id as it is written, and the ids without what surrounds them
pub record RawNode : Type 0 where
  pub raw_id : Value
  pub node : Node

module _ (io : Printing) where
  abbrev pub typed_node : Value → Text → Option NodeType → Result GraphError RawNode
  typed_node v id none = err unknown_type
  typed_node v id (some t) = ok record {
    raw_id = get_key (units "id") v;
    node = record {
      id = id;
      node_type = t;
      label = get_key (units "label") v;
      fields = object_or_empty (get_key (units "data") v);
    };
  }

  -- `String(n.id || "").trim()`
  abbrev pub node_id : Value → Text
  node_id v = trim (to_text io (or_value (get_key (units "id") v) (string [])))

  abbrev pub check_node : List Text → Value → Result GraphError RawNode
  check_node ids v =
      if not (is_object v)
      then err invalid_node
      else if is_blank (node_id v)
      then err no_id
      else if has_id (node_id v) ids
      then err (duplicate_id (node_id v))
      else typed_node v (node_id v) (type_of (get_key (units "type") v))

  -- the loop over the nodes, with the ids seen so far
  unfoldable pub check_nodes : List Text → Values → Result GraphError (List RawNode)
  check_nodes ids nil = ok []
  check_nodes ids (cons v values) =
      and_then (check_node ids v)
        (λ n. and_then (check_nodes (n.node.id ∷ ids) values) (λ ns. ok (n ∷ ns)))

  -- `String(e.id || "e${i}")`
  abbrev pub edge_id : ℕ → Value → Text
  edge_id i v =
      to_text io (or_value (get_key (units "id") v) (string (b'e' ∷ io.print_number (natural i))))

  abbrev pub handle_of : Value → Value
  handle_of undefined = null
  handle_of v = v

  abbrev pub edge_between : ℕ → Value → Option Text → Option Text → Result GraphError Edge
  edge_between i v (some source) (some target) = ok record {
    id = edge_id i v;
    source = source;
    target = target;
    source_handle = handle_of (get_key (units "sourceHandle") v);
  }
  edge_between i v none target = err missing_end
  edge_between i v (some source) none = err missing_end

  abbrev pub check_edge : List Text → ℕ → Value → Result GraphError Edge
  check_edge ids i v =
      if not (is_object v)
      then err invalid_edge
      else edge_between i v (text_in ids (get_key (units "source") v))
          (text_in ids (get_key (units "target") v))

  unfoldable pub check_edges : List Text → ℕ → Values → Result GraphError (List Edge)
  check_edges ids i nil = ok []
  check_edges ids i (cons v values) =
      and_then (check_edge ids i v)
        (λ e. and_then (check_edges ids (suc i) values) (λ es. ok (e ∷ es)))

  abbrev pub ids_of : List RawNode → List Text
  ids_of ns = map (λ (n : RawNode). n.node.id) ns

  abbrev pub starts_of : List RawNode → List RawNode
  starts_of ns = keep_if (λ (n : RawNode). is_start n.node.node_type) ns

  abbrev pub answers_of : List RawNode → List RawNode
  answers_of ns = keep_if (λ (n : RawNode). is_answer n.node.node_type) ns

  abbrev pub with_edges :
      List RawNode
      → RawNode
      → List RawNode
      → Result GraphError (List Edge)
      → Result GraphError Validated
  with_edges ns first answers (err e) = err e
  with_edges ns first answers (ok es) = ok record {
    nodes = map (λ (n : RawNode). n.node) ns;
    edges = es;
    start_id = first.raw_id;
    answer_ids = map (λ (n : RawNode). n.raw_id) answers;
  }

  -- the counts of start and answer nodes, then the edges
  abbrev pub check_counts :
      List RawNode → Values → List RawNode → List RawNode → Result GraphError Validated
  check_counts ns edges (first ∷ []) (a ∷ answers) =
      with_edges ns first (a ∷ answers) (check_edges (ids_of ns) 0 edges)
  check_counts ns edges (first ∷ []) [] = err no_answer_node
  check_counts ns edges [] answers = err not_one_start
  check_counts ns edges (first ∷ second ∷ more) answers = err not_one_start

  abbrev pub check_checked : Values → Result GraphError (List RawNode) → Result GraphError Validated
  check_checked edges (err e) = err e
  check_checked edges (ok ns) = check_counts ns edges (starts_of ns) (answers_of ns)

  abbrev pub check_lists : ℕ → Value → Value → Result GraphError Validated
  check_lists limit (array nodes) (array edges) =
      if ltb limit (count nodes)
      then err (too_many_nodes limit)
      else if count nodes == 0
      then err no_nodes
      else check_checked edges (check_nodes [] nodes)
  check_lists limit _ _ = err no_lists

  abbrev pub is_one : Value → Bool
  is_one (number (natural n)) = n == 1
  is_one _ = false

  unfoldable pub validate_chatflow_graph : Option ℕ → Value → Result GraphError Validated
  validate_chatflow_graph max_nodes raw =
      if not (is_object raw)
      then err no_object
      else if not (is_one (get_key (units "version") raw))
      then err wrong_version
      else check_lists (node_limit max_nodes) (get_key (units "nodes") raw)
          (get_key (units "edges") raw)

abbrev pub fields_of : List (Text × Value) → Fields
fields_of [] = end
fields_of ((key, v) ∷ entries) = field key v (fields_of entries)

abbrev pub object_of : List (Text × Value) → Value
object_of entries = object (fields_of entries)
