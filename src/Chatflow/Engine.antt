-- ===== src/Chatflow/Engine.antt =====
-- chatflow/engine.ts: the options, the input and the state of a run, and where a run goes next. The world
-- is a record: the platform of the requests, the printing of values, the reader of JSON, and the answers
-- of the model and of the search, which may differ from step to step.
use we_chat_ai.Base.{
  ℕ, Bool, true, false, not, ◌||◌, Option, none, some, List, [], ◌∷◌, ◌++◌, map, Text, units,
  text_discrete, same, keep_if, take, if◌then◌else◌,
}
use we_chat_ai.JsMap.{set}
use we_chat_ai.Chatflow.Value.{Value, string, Printing, get_key, truthy, or_value, to_text}
use we_chat_ai.Chatflow.Template.{Vars}
use we_chat_ai.Chatflow.Graph.{NodeType, Node, Edge, GraphError}
use we_chat_ai.Chatflow.Egress.{Platform, EgressOptions, Blocked, Request}

pub record Usage : Type 0 where
  pub text : Text
  pub model : Text
  pub prompt_tokens : ℕ
  pub completion_tokens : ℕ

pub record Hit : Type 0 where
  pub title : Text
  pub url : Text
  pub snippet : Text

pub record World : Type 0 where
  pub platform : Platform
  pub io : Printing
  pub parse_json : Text → Option Value
  -- the message of an error of `fetch`, or of the timeout
  pub failure_text : Text
  -- at a step: whether the peer's own model is asked, the system text and the prompt
  pub ask_model : ℕ → Bool → Text → Text → Option Usage
  -- at a step: the query and the number of results
  pub find_pages : ℕ → Text → Value → Option (List Hit)

pub record EngineOptions : Type 0 where
  pub egress : EgressOptions
  pub web_search_enabled : Bool
  pub web_search_max_results : ℕ
  pub tools_timeout_ms : Option ℕ
  pub max_steps : ℕ
  pub max_nodes : ℕ
  pub time_zone : Text

pub record RunInput : Type 0 where
  pub user_text : Text
  pub bot_name : Text
  pub system_prompt : Text
  pub history : List (Text × Text)
  pub memories : List Text
  -- the block of the quality plan, empty without a plan
  pub quality_block : Text
  pub web_search_enabled : Bool
  pub has_upstream : Bool

pub data TraceEntry : Type 0 where
  enter : NodeType → Text → TraceEntry
  http_error : Text → TraceEntry
  http_status : ℕ → TraceEntry

pub data RunError : Type 0 where
  invalid_graph : GraphError → RunError
  max_steps : ℕ → RunError
  missing_node : Value → RunError
  search_disabled : RunError
  no_tools : RunError
  http_blocked : Blocked → RunError
  no_upstream : RunError
  model_failed : RunError
  search_failed : RunError
  no_answer : RunError
  body_is_no_text : RunError

pub record RunState : Type 0 where
  pub vars : Vars
  pub trace : List TraceEntry
  pub steps : ℕ
  pub current : Option Value
  pub prompt_tokens : ℕ
  pub completion_tokens : ℕ
  pub requests : List Request

-- How one pass of the loop ends.
pub data Next : Type 0 where
  continue : RunState → Next
  break : RunState → Text → Next
  throw : RunState → RunError → Next

unfoldable pub join_with : Text → List Text → Text
join_with separator [] = []
join_with separator (text ∷ []) = text
join_with separator (text ∷ next ∷ texts) =
    text ++ (separator ++ join_with separator (next ∷ texts))

abbrev pub or_text : Text → Text → Text
or_text [] default = default
or_text (c ∷ text) default = c ∷ text

abbrev pub newline : Text
newline = 10 ∷ []

-- `(input.memories || []).join("\n") || "(无)"`
abbrev pub memories_text : RunInput → Text
memories_text input = or_text (join_with newline input.memories) (units "(无)")

abbrev pub history_text : RunInput → Text
history_text input =
    take 12000
      (join_with newline (map (λ (m : Text × Text). m.0 ++ (units ": " ++ m.1)) input.history))

abbrev pub initial_vars : RunInput → Vars
initial_vars input =
    (units "query", string input.user_text)
    ∷ (units "user_input", string input.user_text)
    ∷ (units "bot_name", string input.bot_name)
    ∷ (units "system_prompt", string input.system_prompt)
    ∷ (units "history", string (history_text input))
    ∷ (units "memories", string (memories_text input))
    ∷ []

abbrev pub start_state : RunInput → Value → RunState
start_state input start_id = record {
  vars = initial_vars input;
  trace = [];
  steps = 0;
  current = some start_id;
  prompt_tokens = 0;
  completion_tokens = 0;
  requests = [];
}

abbrev pub value_is : Value → Text → Bool
value_is (string text) other = same text other
value_is _ other = false

abbrev pub find_edge : (Edge → Bool) → List Edge → Option Text
find_edge p [] = none
find_edge p (e ∷ edges) = let rest = find_edge p edges in if p e then some e.target else rest

abbrev pub or_target : Option Text → Option Text → Option Text
or_target none b = b
or_target (some a) b = some a

abbrev pub edges_from : Text → List Edge → List Edge
edges_from id edges = keep_if (λ (e : Edge). same e.source id) edges

abbrev pub default_target : List Edge → Option Text
default_target edges =
    or_target
      (find_edge (λ e. not (truthy e.source_handle) || value_is e.source_handle (units "default"))
        edges)
      (find_edge (λ e. true) edges)

-- `outgoing(nodeId)`, and `outgoing(nodeId, handle)`
abbrev pub outgoing : List Edge → Text → Option Text
outgoing edges id = default_target (edges_from id edges)

abbrev pub outgoing_by : Text → List Edge → Text → Option Text
outgoing_by handle edges id =
    or_target
      (find_edge (λ e. value_is (or_value e.source_handle (string (units "true"))) handle)
        (edges_from id edges))
      (outgoing edges id)

abbrev pub cursor : Option Text → Option Value
cursor none = none
cursor (some id) = some (string id)

-- `vars[key] = value; current = target; continue;`
abbrev pub go_on : RunState → Vars → Option Text → Next
go_on s vars target = continue (record s { vars = vars; current = cursor target })

abbrev pub put : Text → Value → Vars → Vars
put key v vars = set text_discrete key v vars

abbrev pub find_node : List Node → Text → Option Node
find_node [] id = none
find_node (n ∷ nodes) id = let rest = find_node nodes id in if same n.id id then some n else rest

-- `byId.get(current)`: the keys are texts
abbrev pub node_at : List Node → Value → Option Node
node_at nodes (string id) = find_node nodes id
node_at nodes _ = none

abbrev pub data_of : Node → Text → Value
data_of n key = get_key key n.fields

-- `String(a || b || default)`
abbrev pub setting : Printing → Value → Value → Text → Text
setting io a b default = to_text io (or_value a (or_value b (string default)))
