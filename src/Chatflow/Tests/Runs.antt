-- ===== src/Chatflow/Tests/Runs.antt =====
-- Concrete graphs and runs, templates and conditions.
use we_chat_ai.Base.{
  ◌≡◌, ◌≢◌, refl, ap, true, false, none, some, [], ◌∷◌, arith, Text, units, text_discrete, same,
  trim, trim_start, trim_end, is_space, lower_case, split, ends_with, length, natural,
}
use we_chat_ai.JsMap.{get, set}
use we_chat_ai.Batcher.Key.{decimal}
use we_chat_ai.Chatflow.Value.{
  Value, Values, get_key, null, number, string, array, nil, cons, get_field, count,
}
use we_chat_ai.Chatflow.Template.{
  Vars, render_template, render_from, lookup_var, walk, placeholder, eval_condition, after_word,
  scan, unquote, includes_text,
}
use we_chat_ai.Chatflow.Graph.{
  Validated, ok, err, has_id, node_limit, validate_chatflow_graph, check_nodes, check_edges,
  object_of,
}
use we_chat_ai.Chatflow.Valid.{IsValid, node_ids}
use we_chat_ai.Chatflow.Accepts.{validate_chatflow_graph-IsValid}
use we_chat_ai.Chatflow.Engine.{missing_node, join_with}
use we_chat_ai.Chatflow.Nodes.{llm_step, answer_step}
use we_chat_ai.Chatflow.Options.{new, apply_options}
use we_chat_ai.Chatflow.Run.{run_validated, run_from, run}
use we_chat_ai.Chatflow.Ends.{EndsWell, run_validated-EndsWell}
use we_chat_ai.Chatflow.Starts.{start_ids, run-untrimmed_start}
use we_chat_ai.Chatflow.Tests.Worlds.{
  printing, world, given, options, input, text_of, start_node, answer_node, edge,
}

abbrev vars : Vars
vars =
    (units "name", string (units "Ann"))
    ∷ (units "reply", object_of ((units "text", string (units "hi")) ∷ []))
    ∷ []

rendered :
    render_template printing vars (units "{{ name }}: {{reply.text}} {{none}}{}")
    ≡ units "Ann: hi {}"
unfolding render_from lookup_var walk placeholder trim_start trim_end is_space split get_field get
    text_discrete
rendered = refl

contains_holds : eval_condition printing vars (units "reply.text contains 'h'") ≡ true
unfolding eval_condition after_word scan unquote includes_text lookup_var walk same lower_case
    trim_start trim_end is_space split ends_with get_field get text_discrete
contains_holds = refl

equals_fails : eval_condition printing vars (units "name != \"Ann\"") ≡ false
unfolding eval_condition after_word scan unquote includes_text lookup_var walk same lower_case
    trim_start trim_end is_space split ends_with get_field get text_discrete
equals_fails = refl

abbrev echo_from : Text → Validated
echo_from id = record {
  nodes = start_node ∷ answer_node ∷ [];
  edges = edge ∷ [];
  start_id = string id;
  answer_ids = string (units "answer") ∷ [];
}

abbrev raw_nodes : Text → Values
raw_nodes id =
    cons (object_of ((units "id", string id) ∷ (units "type", string (units "start")) ∷ [])) (
      cons
        (object_of (
          (units "id", string (units "answer"))
          ∷ (units "type", string (units "answer"))
          ∷ (units "data", object_of ((units "answer", string (units "You said {{query}}.")) ∷ []))
          ∷ []))
        nil)

abbrev raw_echo : Text → Value
raw_echo id = object_of (
    (units "version", number (natural 1))
    ∷ (units "nodes", array (raw_nodes id))
    ∷ (
      units "edges",
      array (
          cons
            (object_of (
              (units "source", string (units "start"))
              ∷ (units "target", string (units "answer"))
              ∷ []))
            nil),
    )
    ∷ [])

validated_echo :
    validate_chatflow_graph printing none (raw_echo (units "start "))
    ≡ ok (echo_from (units "start "))
unfolding validate_chatflow_graph check_nodes check_edges count get_field same trim_start trim_end
    is_space decimal text_discrete
validated_echo = refl

constructed : new given ≡ options
unfolding new
constructed = refl

patched :
    (apply_options (record given { max_nodes = some 3; max_steps = some 7 }) options).max_steps ≡ 7
unfolding apply_options
patched = refl

echoed :
    text_of (run_validated world options input (echo_from (units "start"))).0
    ≡ some (units "You said hello.")
unfolding run_from answer_step render_from lookup_var walk placeholder trim_start trim_end is_space
    split get_field get set join_with same text_discrete
echoed = refl

default_answer : text_of (run world options input null) ≡ some (units "fine")
unfolding run validate_chatflow_graph check_nodes check_edges count get_field same trim_start
    trim_end is_space decimal text_discrete run_from answer_step llm_step render_from lookup_var
    walk placeholder split get set join_with
default_answer = refl

validate_chatflow_graph-IsValid_example : IsValid (node_limit none) (echo_from (units "start "))
validate_chatflow_graph-IsValid_example =
    validate_chatflow_graph-IsValid printing none (raw_echo (units "start "))
      (echo_from (units "start ")) validated_echo

trimmed_echo :
    validate_chatflow_graph printing none (raw_echo (units "start"))
    ≡ ok (echo_from (units "start"))
unfolding validate_chatflow_graph check_nodes check_edges count get_field same trim_start trim_end
    is_space decimal text_discrete
trimmed_echo = refl

start_known : has_id (units "start") (node_ids (echo_from (units "start")).nodes) ≡ true
unfolding same
start_known = refl

run_validated-EndsWell_example :
    EndsWell 24 (run_validated world options input (echo_from (units "start"))).0
run_validated-EndsWell_example =
    run_validated-EndsWell world options input 40 (echo_from (units "start")) (units "start")
      (validate_chatflow_graph-IsValid printing none (raw_echo (units "start"))
        (echo_from (units "start")) trimmed_echo)
      refl start_known

untrimmed : trim (units "start ") ≢ units "start "
unfolding trim_start trim_end is_space
untrimmed e = absurd (omega (arith, ap length e))

one_start : start_ids (raw_nodes (units "start ")) ≡ string (units "start ") ∷ []
unfolding same get_field text_discrete
one_start = refl

listed : get_key (units "nodes") (raw_echo (units "start ")) ≡ array (raw_nodes (units "start "))
unfolding get_field same text_discrete
listed = refl

validated_within :
    validate_chatflow_graph world.io (some options.max_nodes) (raw_echo (units "start "))
    ≡ ok (echo_from (units "start "))
unfolding validate_chatflow_graph check_nodes check_edges count get_field same trim_start trim_end
    is_space decimal text_discrete
validated_within = refl

run-untrimmed_start_example :
    run world options input (raw_echo (units "start "))
    ≡ err (missing_node (string (units "start ")))
run-untrimmed_start_example =
    run-untrimmed_start world options input (raw_echo (units "start ")) (raw_nodes (units "start "))
      (units "start ") (echo_from (units "start ")) refl listed one_start untrimmed validated_within
      (omega arith)
