-- ===== src/Chatflow/Steps.antt =====
-- One pass of the loop on a graph whose edges lead to nodes.
use we_chat_ai.Base.{
  ℕ, ◌≡◌, refl, Bool, true, false, not, ◌&&◌, ◌||◌, Option, none, some, List, [], ◌∷◌, Text, trim,
  same, All, if_cases, trim-trim, units,
}
use we_chat_ai.JsMap.{Map}
use we_chat_ai.Chatflow.Value.{Value, string, truthy, or_value}
use we_chat_ai.Chatflow.Template.{Vars}
use we_chat_ai.Chatflow.Graph.{
  NodeType, start, llm, answer, if_else, http, memory, search, Node, Edge, has_id, is_blank,
}
use we_chat_ai.Chatflow.Egress.{Blocked, Outcome, answered, failed, blocked}
use we_chat_ai.Chatflow.Engine.{
  Usage, Hit, World, EngineOptions, RunInput, RunError, missing_node, no_upstream, RunState, Next,
  continue, break, throw, find_edge, or_target, edges_from, outgoing, outgoing_by, cursor, go_on,
  value_is, data_of,
}
use we_chat_ai.Chatflow.Http.{
  allowed_http, has_no_body, body_template, http_result, send, with_body, checked_http, http_step,
}
use we_chat_ai.Chatflow.Nodes.{
  ask, with_answer, memory_step, if_else_step, searched, search_step, model_answered, llm_step,
  answer_step, node_step,
}
use we_chat_ai.Chatflow.Valid.{FitsIds}

abbrev pub is_missing : RunError → Bool
is_missing (missing_node id) = true
is_missing _ = false

-- The target of an edge is the id of a node.
abbrev pub Leads : List Text → Option Text → Type 0
Leads ids none = Unit
Leads ids (some id) = has_id id ids ≡ true

abbrev pub AtNode : List Text → Option Value → Type 0
AtNode ids none = Unit
AtNode ids (some (string id)) = has_id id ids ≡ true
AtNode ids (some _) = ⊥

find_edge-Leads :
    (ids : List Text) (p : Edge → Bool) (edges : List Edge)
    → All (FitsIds ids) edges
    → Leads ids (find_edge p edges)
find_edge-Leads ids p [] h = tt
find_edge-Leads ids p (e ∷ edges) (f, h) =
    if_cases (Leads ids) (p e) (λ eq. f.1) (λ eq. find_edge-Leads ids p edges h)

edges_from-fit :
    (ids : List Text) (id : Text) (edges : List Edge)
    → All (FitsIds ids) edges
    → All (FitsIds ids) (edges_from id edges)
edges_from-fit ids id [] h = tt
edges_from-fit ids id (e ∷ edges) (f, h) =
    if_cases (All (FitsIds ids)) (same e.source id) (λ eq. (f, edges_from-fit ids id edges h))
      (λ eq. edges_from-fit ids id edges h)

or_target-Leads :
    (ids : List Text) (a b : Option Text) → Leads ids a → Leads ids b → Leads ids (or_target a b)
or_target-Leads ids none b f g = g
or_target-Leads ids (some a) b f g = f

cursor-AtNode :
    (ids : List Text) (target : Option Text) → Leads ids target → AtNode ids (cursor target)
cursor-AtNode ids none h = tt
cursor-AtNode ids (some id) h = h

-- A pass that goes on leaves the count of steps, and stands at a node or at the end; no pass throws
-- `missing node`.
abbrev pub Keeps : List Text → ℕ → Next → Type 0
Keeps ids n (continue s) = (s.steps ≡ n) × AtNode ids s.current
Keeps ids n (break s text) = (s.steps ≡ n) × (is_blank text ≡ false) × (trim text ≡ text)
Keeps ids n (throw s e) = is_missing e ≡ false

module _ (w : World) (o : EngineOptions) (input : RunInput) (ids : List Text) (edges : List Edge)
    (fit : All (FitsIds ids) edges) where
  outgoing-Leads : (id : Text) → Leads ids (outgoing edges id)
  outgoing-Leads id =
      let from = edges_from-fit ids id edges fit in
      or_target-Leads ids
        (find_edge (λ e. not (truthy e.source_handle) || value_is e.source_handle (units "default"))
          (edges_from id edges))
        (find_edge (λ e. true) (edges_from id edges))
        (find_edge-Leads ids _ (edges_from id edges) from)
        (find_edge-Leads ids (λ e. true) (edges_from id edges) from)

  outgoing_by-Leads : (handle id : Text) → Leads ids (outgoing_by handle edges id)
  outgoing_by-Leads handle id =
      or_target-Leads ids
        (find_edge (λ e. value_is (or_value e.source_handle (string (units "true"))) handle)
          (edges_from id edges))
        (outgoing edges id)
        (find_edge-Leads ids _ (edges_from id edges) (edges_from-fit ids id edges fit))
        (outgoing-Leads id)

  go_on-Keeps :
      (s : RunState) (vars : Vars) (target : Option Text)
      → Leads ids target
      → Keeps ids s.steps (go_on s vars target)
  go_on-Keeps s vars target h = (refl, cursor-AtNode ids target h)

  searched-Keeps :
      (s : RunState) (n : Node) (query : Text) (hits : Option (List Hit))
      → Keeps ids s.steps (searched w o input edges s n query hits)
  searched-Keeps s n query none = refl
  searched-Keeps s n query (some hits) = (refl, cursor-AtNode ids _ (outgoing-Leads n.id))

  http_result-Keeps :
      (s : RunState) (n : Node) (outcome : Outcome)
      → Keeps ids s.steps (http_result w o input edges s n outcome)
  http_result-Keeps s n (answered response) = (refl, cursor-AtNode ids _ (outgoing-Leads n.id))
  http_result-Keeps s n failed = (refl, cursor-AtNode ids _ (outgoing-Leads n.id))
  http_result-Keeps s n (blocked reason) = refl

  with_body-Keeps :
      (s : RunState) (n : Node) (url method : Text) (headers : Map Text Text)
      (template : Option Text)
      → Keeps ids s.steps (with_body w o input edges s n url method headers template)
  with_body-Keeps s n url method headers none = refl
  with_body-Keeps s n url method headers (some template) = http_result-Keeps _ n _

  allowed_http-Keeps :
      (s : RunState) (n : Node) (url method : Text) (headers : Map Text Text)
      → Keeps ids s.steps (allowed_http w o input edges s n url method headers)
  allowed_http-Keeps s n url method headers =
      if_cases (Keeps ids s.steps) (has_no_body w o input edges method)
        {x = send w o input edges s n
          (record { url = url; method = method; headers = headers; body = none })}
        (λ e. http_result-Keeps _ n _)
        (λ e.
          with_body-Keeps s n url method headers
            (body_template w o input edges (data_of n (units "body"))))

  checked_http-Keeps :
      (s : RunState) (n : Node) (url : Text) (verdict : Option Blocked)
      → Keeps ids s.steps (checked_http w o input edges s n url verdict)
  checked_http-Keeps s n url (some reason) = refl
  checked_http-Keeps s n url none = allowed_http-Keeps s n url _ _

  search_step-Keeps :
      (s : RunState) (n : Node) → Keeps ids s.steps (search_step w o input edges s n)
  unfolding search_step
  search_step-Keeps s n =
      if_cases (Keeps ids s.steps) (not o.web_search_enabled || not input.web_search_enabled)
        (λ e. refl)
        (λ e.
          if_cases (Keeps ids s.steps) (is_blank o.egress.tools_base_url) (λ e. refl)
            (λ e. searched-Keeps s n _ _))

  model_answered-Keeps :
      (s : RunState) (n : Node) (usage : Option Usage)
      → Keeps ids s.steps (model_answered w o input edges s n usage)
  model_answered-Keeps s n none = refl
  model_answered-Keeps s n (some usage) = (refl, cursor-AtNode ids _ (outgoing-Leads n.id))

  ask-Keeps :
      (s : RunState) (n : Node) (system prompt : Text)
      → Keeps ids s.steps (ask w o input edges s n system prompt)
  ask-Keeps s n system prompt =
      if_cases (Keeps ids s.steps)
        (input.has_upstream
          && (is_blank o.egress.tools_base_url || is_blank o.egress.tools_api_key))
        {x = throw s no_upstream} (λ e. refl)
        (λ e. model_answered-Keeps s n (w.ask_model s.steps input.has_upstream system prompt))

  with_answer-Keeps :
      (s : RunState) (n : Node) (text : Text)
      → trim text ≡ text
      → Keeps ids s.steps (with_answer w o input edges s n text)
  with_answer-Keeps s n [] h = (refl, cursor-AtNode ids _ (outgoing-Leads n.id))
  with_answer-Keeps s n (c ∷ text) h = (refl, refl, h)

  pub node_step-Keeps :
      (s : RunState) (n : Node) (t : NodeType) → Keeps ids s.steps (node_step w o input edges s n t)
  unfolding memory_step if_else_step http_step llm_step answer_step
  node_step-Keeps s n start = (refl, cursor-AtNode ids _ (outgoing-Leads n.id))
  node_step-Keeps s n memory = (refl, cursor-AtNode ids _ (outgoing-Leads n.id))
  node_step-Keeps s n if_else = (
    refl,
    cursor-AtNode ids _
        (or_target-Leads ids _ _ (outgoing_by-Leads _ n.id) (outgoing_by-Leads _ n.id)),
  )
  node_step-Keeps s n search = search_step-Keeps s n
  node_step-Keeps s n http = checked_http-Keeps s n _ _
  node_step-Keeps s n llm = ask-Keeps s n _ _
  node_step-Keeps s n answer = with_answer-Keeps s n _ (trim-trim _)
