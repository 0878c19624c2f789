-- ===== src/Chatflow/Tests.antt =====
-- Concrete platforms, graphs and runs. The URLs are those of a table, the resolver knows one host.
mod Worlds
mod Runs
mod Fetches
use we_chat_ai.Base.{
  ℕ, ◌+◌, ◌≤◌, ◌<◌, ◌≡◌, ◌≢◌, refl, sym, ap, ◌∙◌, ◌⊎◌, inl, any_of, Bool, true, false, Option, none,
  some, List, [], ◌∷◌, ◌++◌, map, arith, Text, units, text_discrete, same, same_sound, same_refl,
  trim, trim_start, trim_end, is_space, lower_case, length, All, if_cases, if◌then◌else◌, Number,
  natural, unequal_heads, split, ends_with,
}
use we_chat_ai.JsMap.{get, set, delete}
use we_chat_ai.HttpGuard.Address.{
  normalize_host, drop_dots, before_bracket, octet, parse_ipv4, parse_ipv6,
}
use we_chat_ai.Chatflow.Value.{
  Value, undefined, null, boolean, number, string, array, object, nil, cons, Printing, get_field,
  count,
}
use we_chat_ai.Chatflow.Template.{render_from, lookup_var, walk, placeholder}
use we_chat_ai.Chatflow.Graph.{
  Validated, Result, ok, err, has_id, node_limit, validate_chatflow_graph, check_nodes, check_edges,
  is_blank,
}
use we_chat_ai.Chatflow.Accepts.{validate_chatflow_graph-IsValid}
use we_chat_ai.Chatflow.Valid.{IsValid, node_ids}
use we_chat_ai.HttpGuard.Guard.{allows_any_host}
use we_chat_ai.Chatflow.Egress.{
  allow_entries, named_hosts, Url, Request, Response, Platform, EgressOptions, not_allowlisted,
  answered, assert_http_allowed, fetch_http_node, tools_host, is_empty,
}
use we_chat_ai.Chatflow.Requests.{
  IsPermitted, fetch_http_node-IsPermitted, assert_http_allowed-tools_refused,
}
use we_chat_ai.Chatflow.Credentials.{
  IsDiscreet, fetch_http_node-IsDiscreet, fetch_http_node-carries_headers,
}
use we_chat_ai.Chatflow.Engine.{World, Usage, EngineOptions, RunInput, missing_node, join_with}
use we_chat_ai.Chatflow.Run.{run_validated, run_from, run, default_graph, edge_of, node_of}
use we_chat_ai.Chatflow.Ends.{EndsWell, run_validated-EndsWell}
use we_chat_ai.Chatflow.Graph.{object_of}

abbrev pub find_url : List Url → Text → Option Url
find_url [] text = none
find_url (url ∷ urls) text =
    let rest = find_url urls text in if same url.href text then some url else rest

href_of_found :
    (urls : List Url) (text : Text) (url : Url) → find_url urls text ≡ some url → url.href ≡ text
href_of_found [] text url e = ground (arith, e)
href_of_found (u ∷ urls) text url e =
    ground (arith, e, same_sound u.href text, href_of_found urls text url)

-- A URL of the table is found again by its printed form.
pub found_by_href :
    (urls : List Url) (text : Text) (url : Url)
    → find_url urls text ≡ some url
    → find_url urls url.href ≡ some url
found_by_href urls text url e = ap (λ t. find_url urls t) (href_of_found urls text url e) ∙ e

abbrev url_at : Text → Text → Url
url_at hostname path = record {
  protocol = units "http:";
  hostname = hostname;
  host = hostname ++ units ":80";
  href = units "http://" ++ (hostname ++ path);
}

abbrev tools_url : Url
tools_url = record {
  protocol = units "http:";
  hostname = units "[::1]";
  host = units "[::1]:7860";
  href = units "http://[::1]:7860";
}

abbrev pub table : List Url
table =
    url_at (units "good.example") (units "/a")
    ∷ url_at (units "other.example") (units "/b")
    ∷ url_at (units "good.example") (units "/")
    ∷ url_at (units "other.example") (units "/")
    ∷ tools_url
    ∷ []

abbrev moved : Response
moved = record { status = 302; location = some (units "http://other.example/b"); body = [] }

abbrev fine : Response
fine = record { status = 200; location = none; body = units "ok" }

-- The first page redirects to the other host, which answers.
abbrev pub platform : Platform
platform = record {
  parse_url = λ text. find_url table text;
  resolve_url = λ location base. find_url table location;
  resolve = λ host. some (units "93.184.216.34" ∷ []);
  fetch =
      λ (r : Request). some (if same r.url (units "http://good.example/a") then moved else fine);
}

abbrev pub open_options : EgressOptions
open_options = record {
  tools_base_url = units "http://[::1]:7860";
  tools_api_key = units "secret";
  http_allow_hosts = units "*" ∷ [];
}

abbrev request : Request
request = record {
  url = units "http://good.example/a";
  method = units "GET";
  headers = (units "Authorization", units "mine") ∷ [];
  body = none;
}

fetch_http_node-IsPermitted_example :
    All (IsPermitted platform open_options) (fetch_http_node platform open_options request).1
    × (length (fetch_http_node platform open_options request).1 ≤ 4)
fetch_http_node-IsPermitted_example = fetch_http_node-IsPermitted platform open_options request

abbrev closed_options : EgressOptions
closed_options = record open_options { http_allow_hosts = units "good.example" ∷ [] }

is_http : same (units "http:") (units "http:") ≡ true
unfolding same
is_http = refl

tools_base : platform.parse_url (trim closed_options.tools_base_url) ≡ some tools_url
unfolding same trim_start trim_end is_space
tools_base = refl

not_blank : is_empty (trim closed_options.tools_base_url) ≡ false
unfolding trim_start trim_end is_space
not_blank = refl

unbracketed : normalize_host (units "[::1]") ≡ units "::1"
unfolding normalize_host drop_dots before_bracket trim_start trim_end is_space lower_case
unbracketed = refl

changed : normalize_host (units "[::1]") ≢ lower_case (units "[::1]")
unfolding normalize_host drop_dots before_bracket trim_start trim_end is_space lower_case
changed = unequal_heads (λ e. omega (arith, e))

closed : allows_any_host (allow_entries closed_options) ≡ false
unfolding same trim_start trim_end is_space lower_case
closed = refl

unnamed :
    any_of (λ host. same host (normalize_host tools_url.hostname)) (named_hosts closed_options)
    ≡ false
unfolding same normalize_host drop_dots before_bracket trim_start trim_end is_space lower_case
unnamed = refl

assert_http_allowed-tools_refused_example :
    assert_http_allowed platform closed_options (trim (units "http://[::1]:7860"))
    ≡ some (not_allowlisted (normalize_host (units "[::1]")))
assert_http_allowed-tools_refused_example =
    assert_http_allowed-tools_refused platform closed_options tools_url closed unnamed not_blank
      tools_base (inl is_http) changed

abbrev spelled_small : Request
spelled_small = record request { headers = (units "authorization", units "mine") ∷ [] }

-- The header with the small letter reaches other.example.
fetch_http_node-carries_headers_example :
    All
      (λ (hop : Request).
        get text_discrete (units "authorization") hop.headers
        ≡ get text_discrete (units "authorization") spelled_small.headers)
      (fetch_http_node platform open_options spelled_small).1
fetch_http_node-carries_headers_example =
    fetch_http_node-carries_headers platform open_options spelled_small (units "authorization")
      (unequal_heads (λ e. omega (arith, e))) (unequal_heads (λ e. omega (arith, e)))
