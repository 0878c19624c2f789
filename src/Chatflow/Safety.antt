-- ===== src/Chatflow/Safety.antt =====
-- What holds of all requests of a run, whichever way it ends.
use mathlib.Core.Path.{subst}
use we_chat_ai.Base.{
  ◌≡◌, ◌≢◌, refl, sym, ◌∙◌, ◌⊎◌, inl, inr, true, not, ◌&&◌, Option, none, some, List, [], ◌∷◌, Text,
  units, text_discrete, arith, All, if_cases, lower_case, true_ne_false,
}
use we_chat_ai.JsMap.{Map, get, get-set_ne}
use we_chat_ai.Chatflow.Value.{Value}
use we_chat_ai.Chatflow.Graph.{Node, Edge, Validated, is_blank}
use we_chat_ai.Chatflow.Requests.{IsPermitted, fetch_http_node-IsPermitted}
use we_chat_ai.Chatflow.Credentials.{next_request-absent, next-IsDiscreet}
use we_chat_ai.Chatflow.Hops.{fetch_hops-AllSent}
use we_chat_ai.Chatflow.Sends.{sending, run_from-Safe}
use we_chat_ai.Chatflow.Http.{entries_of, rendered_headers, is_tools_url, is_unset}
use we_chat_ai.Chatflow.Egress.{
  Url, lowered, Request, Response, tools_host_port, is_same_host, next_request, location_of,
}
use we_chat_ai.Chatflow.Engine.{World, EngineOptions, RunInput, RunState, data_of, start_state}
use we_chat_ai.Chatflow.Http.{with_key, own_headers}
use we_chat_ai.Chatflow.Run.{run_validated}

abbrev AnyNode : Node → Type 0
AnyNode n = Unit

everywhere : (nodes : List Node) → All AnyNode nodes
everywhere [] = tt
everywhere (n ∷ nodes) = (tt, everywhere nodes)

-- Each request of a run, whatever the graph is and whatever the model, the search and the servers answer,
-- goes by http or https to a host that the allowlist names or opens, and either to the exact host and port
-- of the tools gateway or to a host of which neither the name nor an address that it resolves to is internal.
pub run_validated-IsPermitted :
    (w : World) (o : EngineOptions) (input : RunInput) (g : Validated)
    → All (IsPermitted w.platform o.egress) (run_validated w o input g).1.requests
run_validated-IsPermitted w o input g =
    run_from-Safe w o input g.nodes g.edges (IsPermitted w.platform o.egress) AnyNode
      (everywhere g.nodes)
      (λ s n url method body u.
        (fetch_http_node-IsPermitted w.platform o.egress
          (sending w o input g.edges (IsPermitted w.platform o.egress) s n url method body)).0)
      o.max_steps (start_state input g.start_id) tt

-- The node sets no header with the key `Authorization`.
abbrev pub HasNoKey : World → Node → Type 0
HasNoKey w n =
    All (λ (entry : Text × Value). entry.0 ≢ units "Authorization")
      (entries_of w.io (data_of n (units "headers")))

-- A request carries no Authorization header, or goes to the host and port of the tools gateway.
abbrev pub IsKeptHome : World → EngineOptions → Request → Type 0
IsKeptHome w o r =
    (get text_discrete (units "Authorization") r.headers ≡ none)
    ⊎ ((url : Url) × (w.platform.parse_url r.url ≡ some url)
        × (is_same_host (tools_host_port w.platform o.egress) (lower_case url.host) ≡ true))

module _ (w : World) (o : EngineOptions) (input : RunInput) (edges : List Edge) where
  rendered_headers-absent :
      (s : RunState) (entries : List (Text × Value)) (headers : Map Text Text)
      → All (λ (entry : Text × Value). entry.0 ≢ units "Authorization") entries
      → get text_discrete (units "Authorization") headers ≡ none
      → get text_discrete
          (units "Authorization")
          (rendered_headers w o input edges s entries headers)
        ≡ none
  rendered_headers-absent s [] headers h absent = absent
  rendered_headers-absent s ((key, v) ∷ entries) headers (ne, h) absent =
      rendered_headers-absent s entries _ h
        (get-set_ne text_discrete key (units "Authorization") _ headers ne ∙ absent)

  own_headers-absent :
      (s : RunState) (n : Node)
      → HasNoKey w n
      → get text_discrete (units "Authorization") (own_headers w o input edges s n) ≡ none
  unfolding get text_discrete
  own_headers-absent s n h =
      rendered_headers-absent s (entries_of w.io (data_of n (units "headers"))) _ h refl

  is_tools_url-found :
      (url : Option Url)
      → is_tools_url w o input edges (lowered (λ u. u.host) url) ≡ true
      → (u : Url) × (url ≡ some u)
        × (is_same_host (tools_host_port w.platform o.egress) (lower_case u.host) ≡ true)
  is_tools_url-found none e = absurd (true_ne_false (sym e))
  is_tools_url-found (some u) e = (u, refl, e)

  with_key-IsKeptHome :
      (url method : Text) (body : Option Text) (headers : Map Text Text)
      → get text_discrete (units "Authorization") headers ≡ none
      → IsKeptHome w o record {
        url = url;
        method = method;
        headers = with_key w o input edges url headers;
        body = body;
      }
  unfolding with_key
  with_key-IsKeptHome url method body headers absent =
      if_cases
        (λ (hs : Map Text Text).
          IsKeptHome w o record { url = url; method = method; headers = hs; body = body })
        (not (is_blank o.egress.tools_api_key)
          && is_unset w o input edges (get text_discrete (units "Authorization") headers)
          && is_tools_url w o input edges (lowered (λ u. u.host) (w.platform.parse_url url)))
        (λ e. inr (is_tools_url-found (w.platform.parse_url url) (ground (arith, e))))
        (λ e. inl absent)

module _ (w : World) (o : EngineOptions)
    (prints : (location base : Text) (url : Url)
      → w.platform.resolve_url location base ≡ some url
      → w.platform.parse_url url.href ≡ some url) where
  next-IsKeptHome :
      (r : Request) (response : Response) (next : Url)
      → w.platform.resolve_url (location_of response) r.url ≡ some next
      → IsKeptHome w o r
      → IsKeptHome w o (next_request w.platform r response.status next)
  next-IsKeptHome r response next e (inl absent) =
      inl (next_request-absent w.platform r response.status next absent)
  next-IsKeptHome r response next e (inr (url, found, home)) =
      elim (next-IsDiscreet w.platform o.egress prints url.host r response.status next
        (prints (location_of response) r.url next e) (inr (url, found, refl))) [
          | inl absent ↦ inl absent
          | inr (u, u_found, same_host) ↦ inr (
            u,
            u_found,
            subst
                (λ host.
                  is_same_host (tools_host_port w.platform o.egress) (lower_case host) ≡ true)
                (sym same_host) home,
          )
        ]

-- Where printed URLs are read back and no node sets a header with the key `Authorization`, every request
-- of a run that carries one, as those with the key of the tools gateway do, goes to the host and port of
-- that gateway.
pub run_validated-IsKeptHome :
    (w : World) (o : EngineOptions)
    (prints : (location base : Text) (url : Url)
      → w.platform.resolve_url location base ≡ some url
      → w.platform.parse_url url.href ≡ some url)
    (input : RunInput) (g : Validated)
    → All (HasNoKey w) g.nodes
    → All (IsKeptHome w o) (run_validated w o input g).1.requests
run_validated-IsKeptHome w o prints input g no_keys =
    run_from-Safe w o input g.nodes g.edges (IsKeptHome w o) (HasNoKey w) no_keys
      (λ s n url method body no_key.
        fetch_hops-AllSent w.platform o.egress (IsKeptHome w o) (next-IsKeptHome w o prints) 3
          (sending w o input g.edges (IsKeptHome w o) s n url method body)
          (with_key-IsKeptHome w o input g.edges url method body (own_headers w o input g.edges s n)
            (own_headers-absent w o input g.edges s n no_key)))
      o.max_steps (start_state input g.start_id) tt
