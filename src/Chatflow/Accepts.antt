-- ===== src/Chatflow/Accepts.antt =====
-- A graph that passes the validation is a valid one.
use we_chat_ai.Base.{
  ltb, ◌==◌, ℕ, suc, ◌≤◌, ◌<◌, ◌≡◌, refl, ap, Bool, Option, List, [], ◌∷◌, arith, length, trim,
  keep_if, All, if_cases, not, units,
}
use mathlib.Core.Path.{subst}
use we_chat_ai.Chatflow.Value.{Value, Values, array, count, get_key, Printing, is_object}
use we_chat_ai.Chatflow.Graph.{
  is_one, NodeType, Node, Edge, RawNode, Validated, GraphError, Result, ok, err, is_start,
  is_answer, node_limit, check_nodes, check_edges, check_counts, check_checked, check_lists,
  with_edges, ids_of, starts_of, answers_of, validate_chatflow_graph,
}
use we_chat_ai.Chatflow.Valid.{
  node_ids, IsValid, NodesFit, EdgesFit, Unseen, nodes_of, IsDistinct-of_Unseen, check_nodes-fit,
  check_edges-fit,
}

abbrev GraphFits : ℕ → Result GraphError Validated → Type 0
GraphFits limit (err e) = Unit
GraphFits limit (ok g) = IsValid limit g

module _ (io : Printing) where
  -- keeping nodes by type is the same before and after the raw ids are left out
  length-kept :
      (p : NodeType → Bool) (ns : List RawNode)
      → length (keep_if (λ (n : Node). p n.node_type) (nodes_of ns))
        ≡ length (keep_if (λ (n : RawNode). p n.node.node_type) ns)
  length-kept p [] = refl
  length-kept p (n ∷ ns) = ground (arith, length-kept p ns)

  ids_of-nodes_of : (ns : List RawNode) → node_ids (nodes_of ns) ≡ ids_of io ns
  ids_of-nodes_of [] = refl
  ids_of-nodes_of (n ∷ ns) = ap (◌∷◌ n.node.id) (ids_of-nodes_of ns)

  pub length-nodes_of : (ns : List RawNode) → length (nodes_of ns) ≡ length ns
  length-nodes_of [] = refl
  length-nodes_of (n ∷ ns) = ap suc (length-nodes_of ns)

  with_edges-fits :
      (limit : ℕ) (ns : List RawNode) (first : RawNode) (answers : List RawNode)
      (es : Result GraphError (List Edge))
      → length ns ≤ limit
      → Unseen [] (node_ids (nodes_of ns))
      → All (λ id. trim id ≡ id) (node_ids (nodes_of ns))
      → EdgesFit (ids_of io ns) es
      → length (starts_of io ns) ≡ 1
      → 0 < length (answers_of io ns)
      → GraphFits limit (with_edges io ns first answers es)
  with_edges-fits limit ns first answers (err e) few unseen trimmed fit one some_answers = tt
  with_edges-fits limit ns first answers (ok es) few unseen trimmed fit one some_answers = record {
    few_nodes = rw (length-nodes_of ns) few;
    distinct_ids = IsDistinct-of_Unseen [] (node_ids (nodes_of ns)) unseen;
    trimmed_ids = trimmed;
    edges_fit = rw (ids_of-nodes_of ns) fit;
    one_start = rw (length-kept is_start ns) one;
    some_answer = rw (length-kept is_answer ns) some_answers;
  }

  check_counts-fits :
      (limit : ℕ) (ns : List RawNode) (edges : Values) (starts answers : List RawNode)
      → starts_of io ns ≡ starts
      → answers_of io ns ≡ answers
      → length ns ≤ limit
      → Unseen [] (node_ids (nodes_of ns))
      → All (λ id. trim id ≡ id) (node_ids (nodes_of ns))
      → GraphFits limit (check_counts io ns edges starts answers)
  check_counts-fits limit ns edges [] answers es ea few unseen trimmed = tt
  check_counts-fits limit ns edges (first ∷ second ∷ more) answers es ea few unseen trimmed = tt
  check_counts-fits limit ns edges (first ∷ []) [] es ea few unseen trimmed = tt
  check_counts-fits limit ns edges (first ∷ []) (a ∷ answers) es ea few unseen trimmed =
      with_edges-fits limit ns first (a ∷ answers) (check_edges io (ids_of io ns) 0 edges) few
        unseen trimmed (check_edges-fit io (ids_of io ns) 0 edges) (ap length es)
        (rw ea (omega arith))

  check_checked-fits :
      (limit k : ℕ) (edges : Values) (ns : Result GraphError (List RawNode))
      → k ≤ limit
      → NodesFit [] k ns
      → GraphFits limit (check_checked io edges ns)
  check_checked-fits limit k edges (err e) le f = tt
  check_checked-fits limit k edges (ok ns) le (counted, unseen, trimmed) =
      check_counts-fits limit ns edges (starts_of io ns) (answers_of io ns) refl refl
        (omega (arith, counted, le)) unseen trimmed

  check_lists-fits :
      (limit : ℕ) (nodes edges : Value) → GraphFits limit (check_lists io limit nodes edges)
  check_lists-fits limit (array nodes) (array edges) =
      if_cases (GraphFits limit) (ltb limit (count nodes)) (λ e. tt)
        (λ few.
          if_cases (GraphFits limit) (count nodes == 0) (λ e. tt)
            (λ e.
              check_checked-fits limit (count nodes) edges (check_nodes io [] nodes)
                (ground (arith, few)) (check_nodes-fit io [] nodes)))
  check_lists-fits limit _ _ = tt

  -- A graph that passes the validation has at most so many nodes, whose ids are trimmed and all
  -- different; its edges lead from nodes to nodes; one node is a start node, and at least one an answer.
  pub validate_chatflow_graph-IsValid :
      (max_nodes : Option ℕ) (raw : Value) (g : Validated)
      → validate_chatflow_graph io max_nodes raw ≡ ok g
      → IsValid (node_limit max_nodes) g
  unfolding validate_chatflow_graph
  validate_chatflow_graph-IsValid max_nodes raw g e = subst (GraphFits (node_limit max_nodes)) e (
      if_cases (GraphFits (node_limit max_nodes)) (not (is_object raw)) (λ e. tt)
        (λ e.
          if_cases (GraphFits (node_limit max_nodes))
            (not (is_one io (get_key (units "version") raw))) (λ e. tt)
            (λ e.
              check_lists-fits (node_limit max_nodes) (get_key (units "nodes") raw)
                (get_key (units "edges") raw))))
