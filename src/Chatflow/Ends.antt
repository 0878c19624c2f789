-- ===== src/Chatflow/Ends.antt =====
-- How a run on a validated graph ends.
use we_chat_ai.Base.{
  ℕ, zero, suc, ◌+◌, ◌≤◌, ◌<◌, ◌≡◌, ◌≢◌, refl, sym, ap, ◌∙◌, inl, inr, true, false, Option, none,
  some, List, [], ◌∷◌, arith, Text, trim, same, All, if_cases, none_ne_some, trim-trim, same_sound,
  true_ne_false, Bool-cases,
}
use mathlib.Core.Path.{subst}
use we_chat_ai.Chatflow.Value.{Value, string}
use we_chat_ai.Chatflow.Graph.{Node, Edge, Validated, Result, ok, err, has_id, is_blank}
use we_chat_ai.Chatflow.Engine.{
  World, EngineOptions, RunInput, RunError, missing_node, no_answer, RunState, Next, continue,
  break, throw, find_node, start_state,
}
use we_chat_ai.Chatflow.Nodes.{node_step, entered, step_at}
use we_chat_ai.Chatflow.Run.{
  RunResult, Ended, counted, finish, after_step, at_limit, pass, run_from, run_validated,
}
use we_chat_ai.Chatflow.Valid.{IsValid, FitsIds, node_ids}
use we_chat_ai.Chatflow.Steps.{AtNode, Keeps, node_step-Keeps, is_missing}

find_node-found :
    (nodes : List Node) (id : Text)
    → has_id id (node_ids nodes) ≡ true
    → (n : Node) × (find_node nodes id ≡ some n)
find_node-found [] id h = absurd (true_ne_false (sym h))
find_node-found (n ∷ nodes) id h = elim (Bool-cases (same n.id id)) [
  | inl e ↦ (n, rw e refl)
  | inr e ↦ let (m, found) = find_node-found nodes id (ground (arith, h, e)) in (m, rw e found)
]

-- How a run ends: with a text that is not blank and is trimmed, after at most so many steps; or with an
-- error, of which none says that a node is missing.
abbrev pub EndsWell : ℕ → Result RunError RunResult → Type 0
EndsWell limit (ok r) = (is_blank r.text ≡ false) × (trim r.text ≡ r.text) × (r.steps ≤ limit)
EndsWell limit (err e) = is_missing e ≡ false

finish-EndsWell :
    (limit : ℕ) (s : RunState) (answered_text : Option Text)
    → s.steps ≤ limit
    → EndsWell limit (finish s answered_text).0
finish-EndsWell limit s none le = refl
finish-EndsWell limit s (some text) le =
    if_cases (λ (r : Ended). EndsWell limit r.0) (is_blank (trim text)) {x = (err no_answer, s)}
      (λ e. refl) (λ e. (e, trim-trim text, le))

module _ (w : World) (o : EngineOptions) (input : RunInput) (nodes : List Node) (edges : List Edge)
    (fit : All (FitsIds (node_ids nodes)) edges) where
  after_step-EndsWell :
      (limit n : ℕ) (rest : RunState → Ended) (next : Next)
      → n ≤ limit
      → Keeps (node_ids nodes) n next
      → ((s : RunState)
          → s.steps ≡ n
          → AtNode (node_ids nodes) s.current
          → EndsWell limit (rest s).0)
      → EndsWell limit (after_step rest next).0
  after_step-EndsWell limit n rest (continue s) le (counted_steps, at_node) h =
      h s counted_steps at_node
  after_step-EndsWell limit n rest (break s text) le (counted_steps, filled, trimmed) h =
      finish-EndsWell limit s (some text) (omega (arith, counted_steps, le))
  after_step-EndsWell limit n rest (throw s e) le k h = k

  at_limit-EndsWell :
      (limit : ℕ) (s : RunState) (at : Option Value)
      → EndsWell limit (at_limit w o input nodes edges s at).0
  at_limit-EndsWell limit s none = refl
  at_limit-EndsWell limit s (some id) = refl

  pass-EndsWell :
      (limit left : ℕ) (rest : RunState → Ended) (s : RunState) (at : Option Value)
      → s.steps + suc left ≡ limit
      → AtNode (node_ids nodes) at
      → ((t : RunState)
          → t.steps + left ≡ limit
          → AtNode (node_ids nodes) t.current
          → EndsWell limit (rest t).0)
      → EndsWell limit (pass w o input nodes edges rest s at).0
  pass-EndsWell limit left rest s none e at_node h = refl
  pass-EndsWell limit left rest s (some (string id)) e at_node h =
      let (n, found) = find_node-found nodes id at_node in
      subst
        (λ node.
          EndsWell limit (after_step rest (step_at w o input edges (counted s) (string id) node)).0)
        (sym found)
        (after_step-EndsWell limit (s.steps + 1) rest
          (node_step w o input edges (entered w o input edges (counted s) n) n n.node_type)
          (omega arith)
          (node_step-Keeps w o input (node_ids nodes) edges fit
            (entered w o input edges (counted s) n) n n.node_type)
          (λ t same_steps at. h t (omega (arith, same_steps, e)) at))
  pass-EndsWell limit left rest s (some _) e at_node h = absurd at_node

  run_from-EndsWell :
      (limit left : ℕ) (s : RunState)
      → s.steps + left ≡ limit
      → AtNode (node_ids nodes) s.current
      → EndsWell limit (run_from w o input nodes edges left s).0
  unfolding run_from
  run_from-EndsWell limit zero s e at_node = at_limit-EndsWell limit s s.current
  run_from-EndsWell limit (suc left) s e at_node =
      pass-EndsWell limit left (run_from w o input nodes edges left) s s.current e at_node
        (run_from-EndsWell limit left)

-- On a validated graph whose start id is one of its trimmed ids, whatever the model, the search and the
-- servers answer, a run ends: with a text that is not blank, trimmed, after at most `maxSteps` steps;
-- or with an error, never that of a node that is missing.
pub run_validated-EndsWell :
    (w : World) (o : EngineOptions) (input : RunInput) (limit : ℕ) (g : Validated) (id : Text)
    → IsValid limit g
    → g.start_id ≡ string id
    → has_id id (node_ids g.nodes) ≡ true
    → EndsWell o.max_steps (run_validated w o input g).0
run_validated-EndsWell w o input limit g id v e known =
    run_from-EndsWell w o input g.nodes g.edges v.edges_fit o.max_steps o.max_steps
      (start_state input g.start_id) (omega arith)
      (subst (λ start_id. AtNode (node_ids g.nodes) (some start_id)) (sym e) known)

pub not_found :
    (nodes : List Node) (id : Text)
    → All (λ i. trim i ≡ i) (node_ids nodes)
    → trim id ≢ id
    → find_node nodes id ≡ none
not_found [] id h ne = refl
not_found (n ∷ nodes) id (trimmed, h) ne =
    ground
      (arith, not_found nodes id h ne, same_sound n.id id, λ (e : n.id ≡ id). ne (rw⁻¹ e trimmed))

module _ (w : World) (o : EngineOptions) (input : RunInput) (nodes : List Node)
    (edges : List Edge) where
  step_at-none :
      (rest : RunState → Ended) (s : RunState) (id : Text) (node : Option Node)
      → node ≡ none
      → (after_step rest (step_at w o input edges s (string id) node)).0
        ≡ err (missing_node (string id))
  step_at-none rest s id none e = refl
  step_at-none rest s id (some n) e = absurd (none_ne_some (sym e))

  pass-missing :
      (rest : RunState → Ended) (s : RunState) (id : Text)
      → find_node nodes id ≡ none
      → (pass w o input nodes edges rest s (some (string id))).0 ≡ err (missing_node (string id))
  pass-missing rest s id e = step_at-none rest (counted s) id (find_node nodes id) e

  pub run_from-missing :
      (left : ℕ) (s : RunState) (id : Text)
      → 0 < left
      → s.current ≡ some (string id)
      → find_node nodes id ≡ none
      → (run_from w o input nodes edges left s).0 ≡ err (missing_node (string id))
  unfolding run_from
  run_from-missing zero s id pos at e = absurd (omega (arith, pos))
  run_from-missing (suc left) s id pos at e =
      ap (λ cur. (pass w o input nodes edges (run_from w o input nodes edges left) s cur).0) at
      ∙ pass-missing (run_from w o input nodes edges left) s id e
