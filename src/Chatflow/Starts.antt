-- ===== src/Chatflow/Starts.antt =====
-- Where a run begins: chatflow/validate.ts returns the id of the start node as it is written.
use we_chat_ai.Base.{
  ltb, ◌==◌, ℕ, ◌<◌, ◌≡◌, ◌≢◌, refl, sym, ap, ◌∙◌, Bool-cases, inl, inr, true, Option, none, some,
  List, [], ◌∷◌, map, Text, trim, if_cases, not, units, if◌then◌else◌,
}
use mathlib.Core.Path.{subst}
use we_chat_ai.Chatflow.Value.{
  Value, Values, nil, cons, array, string, count, get_key, Printing, is_object,
}
use we_chat_ai.Chatflow.Graph.{
  is_one, NodeType, Edge, RawNode, Validated, GraphError, Result, ok, err, and_then, is_start,
  is_blank, has_id, type_of, typed_node, node_id, check_node, check_nodes, check_edges,
  check_counts, check_checked, check_lists, with_edges, starts_of, node_limit,
  validate_chatflow_graph,
}
use we_chat_ai.Chatflow.Engine.{World, EngineOptions, RunInput, missing_node, start_state}
use we_chat_ai.Chatflow.Run.{run, run_checked, default_graph}
use we_chat_ai.Chatflow.Valid.{IsValid}
use we_chat_ai.Chatflow.Accepts.{validate_chatflow_graph-IsValid}
use we_chat_ai.Chatflow.Ends.{run_from-missing, not_found}

abbrev pub start_or_skip : Option NodeType → Value → List Value → List Value
start_or_skip none id ids = ids
start_or_skip (some t) id ids = if is_start t then id ∷ ids else ids

-- the ids of the start nodes of a list of nodes, as they are written
abbrev pub start_ids : Values → List Value
start_ids nil = []
start_ids (cons v values) =
    start_or_skip (type_of (get_key (units "type") v)) (get_key (units "id") v) (start_ids values)

abbrev raw_ids : List RawNode → List Value
raw_ids ns = map (λ (n : RawNode). n.raw_id) ns

-- A graph that is accepted begins at the start id of the list.
abbrev StartsAt : Values → Result GraphError Validated → Type 0
StartsAt nodes (err e) = Unit
StartsAt nodes (ok g) = g.start_id ∷ [] ≡ start_ids nodes

module _ (io : Printing) where
  abbrev NodesStart : Values → Result GraphError (List RawNode) → Type 0
  NodesStart values (err e) = Unit
  NodesStart values (ok ns) = raw_ids (starts_of io ns) ≡ start_ids values

  -- what the check of a node leaves of its type and its id
  abbrev NodeStarts : Value → Result GraphError RawNode → Type 0
  NodeStarts v (err e) = Unit
  NodeStarts v (ok n) =
      (type_of (get_key (units "type") v) ≡ some n.node.node_type)
      × (n.raw_id ≡ get_key (units "id") v)

  check_node-starts : (seen : List Text) (v : Value) → NodeStarts v (check_node io seen v)
  check_node-starts seen v =
      if_cases (NodeStarts v) (not (is_object v)) (λ e. tt)
        (λ e.
          if_cases (NodeStarts v) (is_blank (node_id io v)) (λ e. tt)
            (λ e.
              if_cases (NodeStarts v) (has_id (node_id io v) seen) (λ e. tt)
                (λ e. typed (type_of (get_key (units "type") v)) refl)))
    where
      typed :
          (t : Option NodeType)
          → type_of (get_key (units "type") v) ≡ t
          → NodeStarts v (typed_node io v (node_id io v) t)
      typed none e = tt
      typed (some t) e = (e, refl)

  check_nodes-starts :
      (seen : List Text) (values : Values) → NodesStart values (check_nodes io seen values)
  unfolding check_nodes
  check_nodes-starts seen nil = refl
  check_nodes-starts seen (cons v values) =
      more (check_node io seen v) (check_node-starts seen v)
        (λ n. check_nodes-starts (n.node.id ∷ seen) values)
    where
      with_rest :
          (n : RawNode) (rest : Result GraphError (List RawNode))
          → NodeStarts v (ok n)
          → NodesStart values rest
          → NodesStart (cons v values) (and_then rest (λ ns. ok (n ∷ ns)))
      with_rest n (err e) f r = tt
      with_rest n (ok ns) (typed, written) r =
          rw typed (elim (Bool-cases (is_start n.node.node_type)) [
            | inl e ↦ rw (e, written, r) refl
            | inr e ↦ rw (e, r) refl
          ])

      more :
          (first : Result GraphError RawNode)
          → NodeStarts v first
          → ((n : RawNode) → NodesStart values (check_nodes io (n.node.id ∷ seen) values))
          → NodesStart (cons v values) (
              and_then first
                (λ n. and_then (check_nodes io (n.node.id ∷ seen) values) (λ ns. ok (n ∷ ns))))
      more (err e) f rest = tt
      more (ok n) f rest = with_rest n (check_nodes io (n.node.id ∷ seen) values) f (rest n)

  with_edges-starts :
      (nodes : Values) (ns : List RawNode) (first : RawNode) (answers : List RawNode)
      (es : Result GraphError (List Edge))
      → first.raw_id ∷ [] ≡ start_ids nodes
      → StartsAt nodes (with_edges io ns first answers es)
  with_edges-starts nodes ns first answers (err e) h = tt
  with_edges-starts nodes ns first answers (ok es) h = h

  check_counts-starts :
      (nodes : Values) (ns : List RawNode) (edges : Values) (starts answers : List RawNode)
      → raw_ids starts ≡ start_ids nodes
      → StartsAt nodes (check_counts io ns edges starts answers)
  check_counts-starts nodes ns edges [] answers h = tt
  check_counts-starts nodes ns edges (first ∷ second ∷ more) answers h = tt
  check_counts-starts nodes ns edges (first ∷ []) [] h = tt
  check_counts-starts nodes ns edges (first ∷ []) (a ∷ answers) h =
      with_edges-starts nodes ns first (a ∷ answers) (check_edges io _ 0 edges) h

  check_checked-starts :
      (nodes edges : Values) (ns : Result GraphError (List RawNode))
      → NodesStart nodes ns
      → StartsAt nodes (check_checked io edges ns)
  check_checked-starts nodes edges (err e) h = tt
  check_checked-starts nodes edges (ok ns) h =
      check_counts-starts nodes ns edges (starts_of io ns) _ h

  check_lists-starts :
      (limit : ℕ) (nodes : Values) (edges : Value)
      → StartsAt nodes (check_lists io limit (array nodes) edges)
  check_lists-starts limit nodes (array edges) =
      if_cases (StartsAt nodes) (ltb limit (count nodes)) (λ e. tt)
        (λ few.
          if_cases (StartsAt nodes) (count nodes == 0) (λ e. tt)
            (λ e.
              check_checked-starts nodes edges (check_nodes io [] nodes)
                (check_nodes-starts [] nodes)))
  check_lists-starts limit nodes _ = tt

  validate_chatflow_graph-StartsAt :
      (max_nodes : Option ℕ) (raw : Value) (nodes : Values)
      → get_key (units "nodes") raw ≡ array nodes
      → StartsAt nodes (validate_chatflow_graph io max_nodes raw)
  unfolding validate_chatflow_graph
  validate_chatflow_graph-StartsAt max_nodes raw nodes listed =
      if_cases (StartsAt nodes) (not (is_object raw)) (λ e. tt)
        (λ e.
          if_cases (StartsAt nodes) (not (is_one io (get_key (units "version") raw))) (λ e. tt)
            (λ e.
              subst
                (λ v.
                  StartsAt nodes
                    (check_lists io (node_limit max_nodes) v (get_key (units "edges") raw)))
                (sym listed)
                (check_lists-starts (node_limit max_nodes) nodes (get_key (units "edges") raw))))

-- The id of the start node is returned as it is written, while the nodes are kept under their trimmed
-- ids: a graph that passes the validation and whose start node is written with white space around its id
-- fails in every run, with the error that this id, white space included, is of no node.
pub run-untrimmed_start :
    (w : World) (o : EngineOptions) (input : RunInput) (raw : Value) (nodes : Values) (id : Text)
    (g : Validated)
    → is_object raw ≡ true
    → get_key (units "nodes") raw ≡ array nodes
    → start_ids nodes ≡ string id ∷ []
    → trim id ≢ id
    → validate_chatflow_graph w.io (some o.max_nodes) raw ≡ ok g
    → 0 < o.max_steps
    → run w o input raw ≡ err (missing_node (string id))
unfolding run
run-untrimmed_start w o input raw nodes id g an_object listed written untrimmed valid pos =
    ap
      (λ b.
        run_checked w o input
          (validate_chatflow_graph w.io (some o.max_nodes) (if b then raw else default_graph)))
      an_object
    ∙ ap (run_checked w o input) valid
    ∙ run_from-missing w o input g.nodes g.edges o.max_steps (start_state input g.start_id) id pos
        (ap some starts) (not_found g.nodes id fits.trimmed_ids untrimmed)
  where
    fits : IsValid (node_limit (some o.max_nodes)) g
    fits = validate_chatflow_graph-IsValid w.io (some o.max_nodes) raw g valid

    first_of : List Value → Value
    first_of [] = string []
    first_of (v ∷ vs) = v

    starts : g.start_id ≡ string id
    starts = ap first_of (
        subst (StartsAt nodes) valid
          (validate_chatflow_graph-StartsAt w.io (some o.max_nodes) raw nodes listed)
        ∙ written)
