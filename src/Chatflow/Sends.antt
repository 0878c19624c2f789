-- ===== src/Chatflow/Sends.antt =====
-- What all requests of a run satisfy: what an http node adds keeps it, and no other node sends anything.
use mathlib.Core.Option.{some-injective}
use mathlib.Core.Path.{subst}
use we_chat_ai.Base.{
  ℕ, zero, suc, ◌≡◌, refl, sym, true, false, not, ◌&&◌, ◌||◌, Option, none, some, List, [], ◌∷◌,
  ◌++◌, Text, All, if_cases, same, trim, ◌∙◌, inl, inr, Bool-cases, none_ne_some, if◌then◌else◌,
}
use we_chat_ai.Chatflow.Value.{Value, undefined, string, null, boolean, number, array, object}
use we_chat_ai.Chatflow.Graph.{
  NodeType, start, llm, answer, if_else, http, memory, search, Node, Edge, is_blank, err,
}
use we_chat_ai.Chatflow.Egress.{
  Request, Blocked, Outcome, answered, failed, blocked, assert_http_allowed, fetch_http_node,
}
use we_chat_ai.Chatflow.Engine.{
  Usage, Hit, World, EngineOptions, RunInput, RunState, Next, continue, break, throw, find_node,
  node_at, no_upstream, no_answer,
}
use we_chat_ai.Chatflow.Http.{
  has_no_body, http_result, send, with_body, checked_http, http_step, with_key, own_headers,
}
use we_chat_ai.Chatflow.Nodes.{
  ask, with_answer, memory_step, if_else_step, searched, search_step, model_answered, llm_step,
  answer_step, node_step, entered, step_at,
}
use we_chat_ai.Chatflow.Run.{Ended, counted, finish, after_step, at_limit, pass, run_from}

abbrev pub requests_of : Next → List Request
requests_of (continue s) = s.requests
requests_of (break s text) = s.requests
requests_of (throw s e) = s.requests

pub All-append :
    {A : Type 0} (P : A → Type 0) (xs ys : List A) → All P xs → All P ys → All P (xs ++ ys)
All-append P [] ys h k = k
All-append P (x ∷ xs) ys (p, h) k = (p, All-append P xs ys h k)

find_node-All :
    (Good : Node → Type 0) (nodes : List Node) (id : Text)
    → All Good nodes
    → (n : Node) → find_node nodes id ≡ some n
    → Good n
find_node-All Good [] id h n e = absurd (none_ne_some e)
find_node-All Good (m ∷ nodes) id (g, h) n e = elim (Bool-cases (same m.id id)) [
  | inl eq ↦ subst Good (some-injective _ _ (sym (first m (find_node nodes id) eq) ∙ e)) g
  | inr eq ↦ find_node-All Good nodes id h n (sym (later m (find_node nodes id) eq) ∙ e)
]
  where
    first :
        (m : Node) (rest : Option Node)
        → same m.id id ≡ true
        → (if same m.id id then some m else rest) ≡ some m
    first m rest eq = rw eq refl

    later :
        (m : Node) (rest : Option Node)
        → same m.id id ≡ false
        → (if same m.id id then some m else rest) ≡ rest
    later m rest eq = rw eq refl

module _ (w : World) (o : EngineOptions) (input : RunInput) (edges : List Edge)
    (P : Request → Type 0) where
  abbrev Sends : Next → Type 0
  Sends next = All P (requests_of next)

  search_step-Sends :
      (s : RunState) (n : Node)
      → All P s.requests
      → All P (requests_of (search_step w o input edges s n))
  unfolding search_step
  search_step-Sends s n h =
      if_cases Sends (not o.web_search_enabled || not input.web_search_enabled) (λ e. h)
        (λ e. if_cases Sends (is_blank o.egress.tools_base_url) (λ e. h) (λ e. found _ _))
    where
      found :
          (query : Text) (hits : Option (List Hit))
          → Sends (searched w o input edges s n query hits)
      found query none = h
      found query (some hits) = h

  ask-Sends :
      (s : RunState) (n : Node) (system prompt : Text)
      → All P s.requests
      → Sends (ask w o input edges s n system prompt)
  ask-Sends s n system prompt h =
      if_cases Sends
        (input.has_upstream
          && (is_blank o.egress.tools_base_url || is_blank o.egress.tools_api_key))
        {x = throw s no_upstream} (λ e. h)
        (λ e. said (w.ask_model s.steps input.has_upstream system prompt))
    where
      said : (usage : Option Usage) → Sends (model_answered w o input edges s n usage)
      said none = h
      said (some usage) = h

  with_answer-Sends :
      (s : RunState) (n : Node) (text : Text)
      → All P s.requests
      → Sends (with_answer w o input edges s n text)
  with_answer-Sends s n [] h = h
  with_answer-Sends s n (c ∷ text) h = h

  -- what each request of an http node starts from
  abbrev pub sending : RunState → Node → Text → Text → Option Text → Request
  sending s n url method body = record {
    url = url;
    method = method;
    headers = with_key w o input edges url (own_headers w o input edges s n);
    body = body;
  }

  send-Sends :
      (s : RunState) (n : Node) (r : Request)
      → All P s.requests
      → All P (fetch_http_node w.platform o.egress r).1
      → Sends (send w o input edges s n r)
  send-Sends s n r h sent =
      result (fetch_http_node w.platform o.egress r) (All-append P s.requests _ h sent)
    where
      result :
          (outcome : Outcome × List Request)
          → All P (s.requests ++ outcome.1)
          → Sends (
              http_result w o input edges
                (record s { requests = s.requests ++ outcome.1 })
                n
                outcome.0)
      result (answered response, log) all = all
      result (failed, log) all = all
      result (blocked reason, log) all = all

  pub http_step-Sends :
      (s : RunState) (n : Node)
      → All P s.requests
      → ((url method : Text) (body : Option Text)
          → All P (fetch_http_node w.platform o.egress (sending s n url method body)).1)
      → All P (requests_of (http_step w o input edges s n))
  unfolding http_step
  http_step-Sends s n h sent = checked _ (assert_http_allowed w.platform o.egress _)
    where
      with_template :
          (url method : Text) (template : Option Text)
          → Sends (
              with_body w o input edges s n url method
                (sending s n url method none).headers
                template)
      with_template url method none = h
      with_template url method (some template) = send-Sends s n _ h (sent url method _)

      checked :
          (url : Text) (verdict : Option Blocked)
          → Sends (checked_http w o input edges s n url verdict)
      checked url (some reason) = h
      checked url none =
          if_cases Sends (has_no_body w o input edges _)
            {x = send w o input edges s n (sending s n url _ none)}
            (λ e. send-Sends s n _ h (sent url _ none)) (λ e. with_template url _ _)

module _ (w : World) (o : EngineOptions) (input : RunInput) (nodes : List Node) (edges : List Edge)
    (P : Request → Type 0) (Good : Node → Type 0) (good : All Good nodes)
    (sent : (s : RunState) (n : Node) (url method : Text) (body : Option Text)
      → Good n
      → All P
          (fetch_http_node w.platform o.egress
            (sending w o input edges P s n url method body)).1) where
  node_step-Sends :
      (s : RunState) (n : Node) (t : NodeType)
      → Good n
      → All P s.requests
      → All P (requests_of (node_step w o input edges s n t))
  unfolding memory_step if_else_step llm_step answer_step
  node_step-Sends s n start g h = h
  node_step-Sends s n memory g h = h
  node_step-Sends s n if_else g h = h
  node_step-Sends s n search g h = search_step-Sends w o input edges P s n h
  node_step-Sends s n http g h =
      http_step-Sends w o input edges P s n h (λ url method body. sent s n url method body g)
  node_step-Sends s n llm g h = ask-Sends w o input edges P s n _ _ h
  node_step-Sends s n answer g h = with_answer-Sends w o input edges P s n _ h

  abbrev Safe : Ended → Type 0
  Safe ended = All P ended.1.requests

  finish-Safe : (s : RunState) (text : Option Text) → All P s.requests → Safe (finish s text)
  finish-Safe s none h = h
  finish-Safe s (some text) h =
      if_cases Safe (is_blank (trim text)) {x = (err no_answer, s)} (λ e. h) (λ e. h)

  after_step-Safe :
      (rest : RunState → Ended) (next : Next)
      → All P (requests_of next)
      → ((s : RunState) → All P s.requests → Safe (rest s))
      → Safe (after_step rest next)
  after_step-Safe rest (continue s) h k = k s h
  after_step-Safe rest (break s text) h k = finish-Safe s (some text) h
  after_step-Safe rest (throw s e) h k = h

  step_at-Safe :
      (rest : RunState → Ended) (s : RunState) (id : Value) (node : Option Node)
      → ((n : Node) → node ≡ some n → Good n)
      → All P s.requests
      → ((t : RunState) → All P t.requests → Safe (rest t))
      → Safe (after_step rest (step_at w o input edges s id node))
  step_at-Safe rest s id none g h k = h
  step_at-Safe rest s id (some n) g h k =
      after_step-Safe rest (node_step w o input edges (entered w o input edges s n) n n.node_type)
        (node_step-Sends (entered w o input edges s n) n n.node_type (g n refl) h) k

  node_at-Good : (id : Value) (n : Node) → node_at nodes id ≡ some n → Good n
  node_at-Good (string id) n e = find_node-All Good nodes id good n e
  node_at-Good undefined n e = absurd (none_ne_some e)
  node_at-Good null n e = absurd (none_ne_some e)
  node_at-Good (boolean b) n e = absurd (none_ne_some e)
  node_at-Good (number k) n e = absurd (none_ne_some e)
  node_at-Good (array values) n e = absurd (none_ne_some e)
  node_at-Good (object fields) n e = absurd (none_ne_some e)

  pass-Safe :
      (rest : RunState → Ended) (s : RunState) (at : Option Value)
      → All P s.requests
      → ((t : RunState) → All P t.requests → Safe (rest t))
      → Safe (pass w o input nodes edges rest s at)
  pass-Safe rest s none h k = h
  pass-Safe rest s (some id) h k =
      step_at-Safe rest (counted s) id (node_at nodes id) (node_at-Good id) h k

  at_limit-Safe :
      (s : RunState) (at : Option Value)
      → All P s.requests
      → Safe (at_limit w o input nodes edges s at)
  at_limit-Safe s none h = h
  at_limit-Safe s (some id) h = h

  pub run_from-Safe :
      (left : ℕ) (s : RunState)
      → All P s.requests
      → All P (run_from w o input nodes edges left s).1.requests
  unfolding run_from
  run_from-Safe zero s h = at_limit-Safe s s.current h
  run_from-Safe (suc left) s h =
      pass-Safe (run_from w o input nodes edges left) s s.current h (run_from-Safe left)
