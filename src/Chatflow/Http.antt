-- ===== src/Chatflow/Http.antt =====
-- chatflow/engine.ts, `run`: the pass of an http node. A state keeps what was sent; an error comes with the
-- state in which it was thrown.
use we_chat_ai.Base.{
  ℕ, suc, ◌-◌, Bool, true, false, not, ◌&&◌, ◌||◌, Option, none, some, List, [], ◌∷◌, ◌++◌, map,
  Text, units, text_discrete, trim, same, take, leb, if◌then◌else◌, natural,
}
use we_chat_ai.JsMap.{Map, get, set}
use we_chat_ai.Chatflow.Value.{
  Value, undefined, null, number, string, array, object, Values, nil, cons, Fields, end, field,
  Printing, truthy, to_text,
}
use we_chat_ai.Chatflow.Template.{render_template}
use we_chat_ai.Chatflow.Graph.{Node, Edge, is_blank, object_of}
use we_chat_ai.Chatflow.Egress.{
  Blocked, Request, Outcome, answered, failed, blocked, tools_host_port, is_same_host,
  assert_http_allowed, fetch_http_node, lowered,
}
use we_chat_ai.Chatflow.Engine.{
  World, EngineOptions, RunInput, http_error, http_status, http_blocked, body_is_no_text, RunState,
  Next, throw, outgoing, go_on, put, data_of, setting,
}

abbrev pub upper_unit : ℕ → ℕ
upper_unit c = if leb b'a' c && leb c b'z' then c - 32 else c

-- `Object.entries(value || {})`: an array and a string have their indices for keys
abbrev pub entries_of : Printing → Value → List (Text × Value)
entries_of io (object fields) = of_fields fields
  where
    of_fields : Fields → List (Text × Value)
    of_fields end = []
    of_fields (field key v fields) = (key, v) ∷ of_fields fields
entries_of io (array values) = of_values 0 values
  where
    of_values : ℕ → Values → List (Text × Value)
    of_values i nil = []
    of_values i (cons v values) = (io.print_number (natural i), v) ∷ of_values (suc i) values
entries_of io (string text) = of_units 0 text
  where
    of_units : ℕ → Text → List (Text × Value)
    of_units i [] = []
    of_units i (c ∷ text) = (io.print_number (natural i), string (c ∷ [])) ∷ of_units (suc i) text
entries_of io _ = []

abbrev pub render : World → RunState → Text → Text
render w s template = render_template w.io s.vars template

module _ (w : World) (o : EngineOptions) (input : RunInput) (edges : List Edge) where
  abbrev pub rendered_headers : RunState → List (Text × Value) → Map Text Text → Map Text Text
  rendered_headers s [] headers = headers
  rendered_headers s ((key, v) ∷ entries) headers =
      rendered_headers s entries (set text_discrete key (render w s (to_text w.io v)) headers)

  abbrev pub own_headers : RunState → Node → Map Text Text
  own_headers s n = rendered_headers s (entries_of w.io (data_of n (units "headers"))) (
      (units "Content-Type", units "application/json")
      ∷ (units "User-Agent", units "WeChat-AI-Chatflow/1.0")
      ∷ [])

  abbrev pub is_unset : Option Text → Bool
  is_unset none = true
  is_unset (some text) = is_blank text

  abbrev pub is_tools_url : Option Text → Bool
  is_tools_url none = false
  is_tools_url (some host) = is_same_host (tools_host_port w.platform o.egress) host

  -- the key of the tools gateway, for its host and port alone and where no header is set
  unfoldable pub with_key : Text → Map Text Text → Map Text Text
  with_key url headers =
      if not (is_blank o.egress.tools_api_key)
        && is_unset (get text_discrete (units "Authorization") headers)
        && is_tools_url (lowered (λ u. u.host) (w.platform.parse_url url))
      then set text_discrete (units "Authorization") (units "Bearer " ++ o.egress.tools_api_key)
          headers
      else headers

  abbrev pub has_no_body : Text → Bool
  has_no_body method = same method (units "GET") || same method (units "HEAD")

  -- the body's template; a body that is set and no text has no `replace`
  abbrev pub body_template : Value → Option Text
  body_template (string text) =
      some (if is_blank text then units "{\"query\":\"{{query}}\"}" else text)
  body_template v = if truthy v then none else some (units "{\"query\":\"{{query}}\"}")

  abbrev pub or_null : Option Value → Value
  or_null none = null
  or_null (some v) = v

  abbrev pub is_ok : ℕ → Bool
  is_ok status = leb 200 status && leb status 299

  abbrev pub http_result : RunState → Node → Outcome → Next
  http_result s n (blocked reason) = throw s (http_blocked reason)
  http_result s n failed =
      go_on (record s { trace = s.trace ++ http_error w.failure_text ∷ [] })
        (put n.id
          (object_of (
            (units "status", number (natural 0))
            ∷ (units "text", string (units "http_error: " ++ w.failure_text))
            ∷ (units "json", null)
            ∷ []))
          s.vars)
        (outgoing edges n.id)
  http_result s n (answered response) =
      go_on
        (record s {
          trace =
              if is_ok response.status
              then s.trace
              else s.trace ++ http_status response.status ∷ [];
        })
        (put n.id
          (object_of (
            (units "status", number (natural response.status))
            ∷ (units "text", string (take 50000 response.body))
            ∷ (units "json", or_null (w.parse_json response.body))
            ∷ []))
          s.vars)
        (outgoing edges n.id)

  abbrev pub send : RunState → Node → Request → Next
  send s n r =
      let (outcome, log) = fetch_http_node w.platform o.egress r in
      http_result (record s { requests = s.requests ++ log }) n outcome

  abbrev pub with_body : RunState → Node → Text → Text → Map Text Text → Option Text → Next
  with_body s n url method headers none = throw s body_is_no_text
  with_body s n url method headers (some template) =
      send s n
        record { url = url; method = method; headers = headers; body = some (render w s template) }

  abbrev pub allowed_http : RunState → Node → Text → Text → Map Text Text → Next
  allowed_http s n url method headers =
      if has_no_body method
      then send s n record { url = url; method = method; headers = headers; body = none }
      else with_body s n url method headers (body_template (data_of n (units "body")))

  abbrev pub checked_http : RunState → Node → Text → Option Blocked → Next
  checked_http s n url (some reason) = throw s (http_blocked reason)
  checked_http s n url none =
      allowed_http s n url
        (map upper_unit (setting w.io (data_of n (units "method")) undefined (units "POST")))
        (with_key url (own_headers s n))

  unfoldable pub http_step : RunState → Node → Next
  http_step s n =
      let url = trim (render w s (setting w.io (data_of n (units "url")) undefined [])) in
      checked_http s n url (assert_http_allowed w.platform o.egress url)
