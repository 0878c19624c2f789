-- ===== src/Chatflow/Run.antt =====
-- chatflow/engine.ts, `run`: the loop and its end, and chatflow/default-graph.ts. The loop counts its steps
-- itself and stops at `maxSteps`, so that the steps left are what the model recurs on.
use we_chat_ai.Base.{
  ℕ, zero, suc, ◌+◌, Option, none, some, List, [], ◌∷◌, Text, units, trim, if◌then◌else◌, natural,
}
use we_chat_ai.Chatflow.Value.{Value, number, string, array, nil, cons, is_object}
use we_chat_ai.Chatflow.Graph.{
  Node, Edge, Validated, Result, ok, err, is_blank, object_of, GraphError, validate_chatflow_graph,
}
use we_chat_ai.Chatflow.Engine.{
  World, EngineOptions, RunInput, TraceEntry, RunError, invalid_graph, max_steps, no_answer,
  RunState, Next, continue, break, throw, start_state, node_at,
}
use we_chat_ai.Chatflow.Nodes.{step_at}

pub record RunResult : Type 0 where
  pub text : Text
  pub trace : List TraceEntry
  pub steps : ℕ
  pub prompt_tokens : ℕ
  pub completion_tokens : ℕ

abbrev pub Ended : Type 0
Ended = Result RunError RunResult × RunState

abbrev pub counted : RunState → RunState
counted s = record s { steps = s.steps + 1 }

-- the end of `run`, after the loop
abbrev pub finish : RunState → Option Text → Ended
finish s none = (err no_answer, s)
finish s (some text) = if is_blank (trim text) then (err no_answer, s) else (
  ok record {
    text = trim text;
    trace = s.trace;
    steps = s.steps;
    prompt_tokens = s.prompt_tokens;
    completion_tokens = s.completion_tokens;
  },
  s,
)

abbrev pub after_step : (RunState → Ended) → Next → Ended
after_step rest (continue s) = rest s
after_step rest (break s text) = finish s (some text)
after_step rest (throw s e) = (err e, s)

module _ (w : World) (o : EngineOptions) (input : RunInput) (nodes : List Node)
    (edges : List Edge) where
  abbrev pub at_limit : RunState → Option Value → Ended
  at_limit s none = finish s none
  at_limit s (some id) = (err (max_steps o.max_steps), counted s)

  abbrev pub pass : (RunState → Ended) → RunState → Option Value → Ended
  pass rest s none = finish s none
  pass rest s (some id) =
      after_step rest (step_at w o input edges (counted s) id (node_at nodes id))

  -- `while (current)`, with the steps that are left
  unfoldable pub run_from : ℕ → RunState → Ended
  run_from zero s = at_limit s s.current
  run_from (suc left) s = pass (run_from left) s s.current

abbrev pub run_validated : World → EngineOptions → RunInput → Validated → Ended
run_validated w o input g =
    run_from w o input g.nodes g.edges o.max_steps (start_state input g.start_id)

abbrev pub node_of : Text → Text → Text → List (Text × Value) → Value
node_of id node_type label entries = object_of (
    (units "id", string id)
    ∷ (units "type", string node_type)
    ∷ (units "label", string label)
    ∷ (units "data", object_of entries)
    ∷ [])

abbrev pub edge_of : Text → Text → Text → Value
edge_of id source target = object_of (
    (units "id", string id)
    ∷ (units "source", string source)
    ∷ (units "target", string target)
    ∷ [])

-- `createDefaultChatflowGraph`, less the temperature, which `run` does not use
abbrev pub default_graph : Value
default_graph = object_of (
    (units "version", number (natural 1))
    ∷ (
      units "nodes",
      array (
          cons (node_of (units "start") (units "start") (units "开始") []) (
            cons
              (node_of (units "llm") (units "llm") (units "LLM") (
                (units "system", string (units "{{system_prompt}}"))
                ∷ (
                  units "prompt",
                  string (units "对话历史：\n{{history}}\n\n相关记忆：\n{{memories}}\n\n用户：{{query}}"),
                )
                ∷ []))
              (cons
                (node_of (units "answer") (units "answer") (units "回复")
                  ((units "answer", string (units "{{llm.text}}")) ∷ []))
                nil))),
    )
    ∷ (
      units "edges",
      array (
          cons (edge_of (units "e1") (units "start") (units "llm"))
            (cons (edge_of (units "e2") (units "llm") (units "answer")) nil)),
    )
    ∷ [])

abbrev pub run_checked :
    World → EngineOptions → RunInput → Result GraphError Validated → Result RunError RunResult
run_checked w o input (err e) = err (invalid_graph e)
run_checked w o input (ok g) = (run_validated w o input g).0

-- `run`: anything but an object stands for the default graph
unfoldable pub run : World → EngineOptions → RunInput → Value → Result RunError RunResult
run w o input raw =
    run_checked w o input (
      validate_chatflow_graph w.io (some o.max_nodes)
        (if is_object raw then raw else default_graph))
