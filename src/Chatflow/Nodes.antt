-- ===== src/Chatflow/Nodes.antt =====
-- chatflow/engine.ts, `run`: one pass of the loop for each type of node.
use we_chat_ai.Base.{
  ℕ, suc, ◌+◌, Bool, true, false, not, ◌&&◌, ◌||◌, Option, none, some, List, [], ◌∷◌, ◌++◌, Text,
  units, trim, if◌then◌else◌, natural,
}
use we_chat_ai.Chatflow.Value.{
  Value, undefined, null, boolean, number, string, array, Values, nil, cons,
}
use we_chat_ai.Chatflow.Template.{eval_condition}
use we_chat_ai.Chatflow.Graph.{
  NodeType, start, llm, answer, if_else, http, memory, search, Node, Edge, is_blank, object_of,
}
use we_chat_ai.Chatflow.Engine.{
  Usage, Hit, World, EngineOptions, RunInput, enter, missing_node, search_disabled, no_tools,
  no_upstream, model_failed, search_failed, RunState, Next, break, throw, join_with, newline,
  memories_text, outgoing, outgoing_by, or_target, go_on, put, data_of, setting,
}
use we_chat_ai.Chatflow.Http.{render, http_step}

abbrev pub strings : List Text → Values
strings [] = nil
strings (text ∷ texts) = cons (string text) (strings texts)

module _ (w : World) (o : EngineOptions) (input : RunInput) (edges : List Edge) where
  unfoldable pub memory_step : RunState → Node → Next
  memory_step s n =
      go_on s
        (put (units "memories") (string (memories_text input)) (
          put n.id
            (object_of (
              (units "text", string (memories_text input))
              ∷ (units "items", array (strings input.memories))
              ∷ []))
            s.vars))
        (outgoing edges n.id)

  abbrev pub handle_text : Bool → Text
  handle_text true = units "true"
  handle_text false = units "false"

  unfoldable pub if_else_step : RunState → Node → Next
  if_else_step s n =
      let condition = setting w.io (data_of n (units "condition")) (data_of n (units "expr")) [] in
      let result = eval_condition w.io s.vars (render w s condition) in
      go_on s (put n.id (object_of ((units "result", boolean result) ∷ [])) s.vars) (
        or_target (outgoing_by (handle_text result) edges n.id)
          (outgoing_by (handle_text (not result)) edges n.id))

  abbrev pub hit_lines : ℕ → List Hit → List Text
  hit_lines i [] = []
  hit_lines i (h ∷ hits) =
      (w.io.print_number (natural i)
        ++ (units ". " ++ (h.title ++ (newline ++ (h.url ++ (newline ++ h.snippet))))))
      ∷ hit_lines (suc i) hits

  abbrev pub hit_values : List Hit → Values
  hit_values [] = nil
  hit_values (h ∷ hits) =
      cons
        (object_of (
          (units "title", string h.title)
          ∷ (units "url", string h.url)
          ∷ (units "snippet", string h.snippet)
          ∷ []))
        (hit_values hits)

  abbrev pub searched : RunState → Node → Text → Option (List Hit) → Next
  searched s n query none = throw s search_failed
  searched s n query (some hits) =
      let text = join_with (10 ∷ 10 ∷ []) (hit_lines 1 hits) in
      go_on s
        (put (units "search") (string text) (
          put n.id
            (object_of (
              (units "text", string text)
              ∷ (units "hits", array (hit_values hits))
              ∷ (units "query", string query)
              ∷ []))
            s.vars))
        (outgoing edges n.id)

  abbrev pub or_default : Value → ℕ → Value
  or_default undefined n = number (natural n)
  or_default null n = number (natural n)
  or_default v n = v

  unfoldable pub search_step : RunState → Node → Next
  search_step s n =
      let query =
        render w s (setting w.io (data_of n (units "query")) undefined (units "{{query}}")) in
      if not o.web_search_enabled || not input.web_search_enabled
      then throw s search_disabled
      else if is_blank o.egress.tools_base_url
      then throw s no_tools
      else searched s n query (
          w.find_pages s.steps query
            (or_default (data_of n (units "max_results")) o.web_search_max_results))

  abbrev pub model_answered : RunState → Node → Option Usage → Next
  model_answered s n none = throw s model_failed
  model_answered s n (some usage) =
      go_on
        (record s {
          prompt_tokens = s.prompt_tokens + usage.prompt_tokens;
          completion_tokens = s.completion_tokens + usage.completion_tokens;
        })
        (put (units "llm_text") (string (trim usage.text)) (
          put n.id
            (object_of
              ((units "text", string (trim usage.text)) ∷ (units "model", string usage.model) ∷ []))
            s.vars))
        (outgoing edges n.id)

  -- `[nodeSystem, block].filter(Boolean).join("\n\n")`
  abbrev pub with_block : Text → Text → Text
  with_block [] block = block
  with_block (c ∷ system) [] = c ∷ system
  with_block (c ∷ system) (d ∷ block) = (c ∷ system) ++ (10 ∷ 10 ∷ d ∷ block)

  -- `resolveLlmClient` and the call of the model
  abbrev pub ask : RunState → Node → Text → Text → Next
  ask s n system prompt =
      if input.has_upstream && (is_blank o.egress.tools_base_url || is_blank o.egress.tools_api_key)
      then throw s no_upstream
      else model_answered s n (w.ask_model s.steps input.has_upstream system prompt)

  unfoldable pub llm_step : RunState → Node → Next
  llm_step s n =
      ask s n
        (with_block
          (render w s (
            setting w.io (data_of n (units "system")) (data_of n (units "system_prompt"))
              (units "{{system_prompt}}")))
          input.quality_block)
        (render w s (
          setting w.io (data_of n (units "prompt")) (data_of n (units "user")) (units "{{query}}")))

  abbrev pub with_answer : RunState → Node → Text → Next
  with_answer s n text =
      let vars = put n.id (object_of ((units "text", string text) ∷ [])) s.vars in
      if is_blank text
      then go_on s vars (outgoing edges n.id)
      else break (record s { vars = vars }) text

  unfoldable pub answer_step : RunState → Node → Next
  answer_step s n = with_answer s n (
      trim (
        render w s (
          setting w.io (data_of n (units "answer")) (data_of n (units "text"))
            (units "{{llm_text}}"))))

  abbrev pub node_step : RunState → Node → NodeType → Next
  node_step s n start = go_on s s.vars (outgoing edges n.id)
  node_step s n memory = memory_step s n
  node_step s n if_else = if_else_step s n
  node_step s n search = search_step s n
  node_step s n http = http_step w o input edges s n
  node_step s n llm = llm_step s n
  node_step s n answer = answer_step s n

  abbrev pub entered : RunState → Node → RunState
  entered s n = record s { trace = s.trace ++ enter n.node_type n.id ∷ [] }

  abbrev pub step_at : RunState → Value → Option Node → Next
  step_at s id none = throw s (missing_node id)
  step_at s id (some n) = node_step (entered s n) n n.node_type
