-- ===== src/Chatflow/Tests/Fetches.antt =====
-- A run with a request, and a run after a change of the options.
use we_chat_ai.Base.{
  ◌≡◌, refl, some, [], ◌∷◌, units, text_discrete, same, trim_start, trim_end, is_space, lower_case,
  split, ends_with, All,
}
use we_chat_ai.JsMap.{get, set, delete}
use we_chat_ai.HttpGuard.Address.{
  normalize_host, drop_dots, before_bracket, octet, parse_ipv4, parse_ipv6,
}
use we_chat_ai.HttpGuard.Ranges.{ip_reason, ipv4_verdict}
use we_chat_ai.HttpGuard.Guard.{
  blocked_host_reason, blocked_resolved_reason, canonicalize_host, first_blocked, name_reason,
  suffix_reason,
}
use we_chat_ai.Chatflow.Egress.{
  fetch_hops, next_request, next_headers, assert_http_allowed, tools_host, tools_host_port,
}
use we_chat_ai.Chatflow.Value.{undefined, string, get_field}
use we_chat_ai.Chatflow.Template.{render_from, lookup_var, walk, placeholder}
use we_chat_ai.Chatflow.Graph.{http, Validated, object_of}
use we_chat_ai.Chatflow.Engine.{join_with}
use we_chat_ai.Chatflow.Http.{http_step, with_key}
use we_chat_ai.Chatflow.Nodes.{answer_step}
use we_chat_ai.Chatflow.Options.{ChatflowEngineOptions, apply_options, new}
use we_chat_ai.Chatflow.Run.{run_validated, run_from}
use we_chat_ai.Chatflow.Requests.{IsPermitted}
use we_chat_ai.Chatflow.Safety.{
  HasNoKey, IsKeptHome, run_validated-IsPermitted, run_validated-IsKeptHome,
}
use we_chat_ai.Chatflow.Reload.{merged, apply_options-new}
use we_chat_ai.Chatflow.Tests.{platform, open_options, table, found_by_href}
use we_chat_ai.Chatflow.Tests.Worlds.{
  world, given, options, input, text_of, start_node, answer_node, edge,
}

-- A page is fetched, by a redirect to another host, and answered.
abbrev fetch_graph : Validated
fetch_graph = record {
  nodes =
      start_node
      ∷ record {
        id = units "page";
        node_type = http;
        label = undefined;
        fields = object_of (
            (units "url", string (units "http://good.example/a"))
            ∷ (units "method", string (units "get"))
            ∷ []);
      }
      ∷ record answer_node {
        fields = object_of ((units "answer", string (units "{{page.text}}")) ∷ []);
      }
      ∷ [];
  edges = record edge { target = units "page" } ∷ record edge { source = units "page" } ∷ [];
  start_id = string (units "start");
  answer_ids = string (units "answer") ∷ [];
}

run_validated-IsPermitted_example :
    All
      (IsPermitted platform open_options)
      (run_validated world options input fetch_graph).1.requests
run_validated-IsPermitted_example = run_validated-IsPermitted world options input fetch_graph

no_keys : All (HasNoKey world) fetch_graph.nodes
unfolding get_field text_discrete
no_keys = (tt, (tt, (tt, tt)))

run_validated-IsKeptHome_example :
    All (IsKeptHome world options) (run_validated world options input fetch_graph).1.requests
run_validated-IsKeptHome_example =
    run_validated-IsKeptHome world options
      (λ location base url e. found_by_href table location url e) input fetch_graph no_keys

page_answer : text_of (run_validated world options input fetch_graph).0 ≡ some (units "ok")
unfolding run_from http_step answer_step render_from lookup_var walk placeholder trim_start trim_end
    is_space split get_field get set join_with same text_discrete fetch_hops with_key next_request
    next_headers assert_http_allowed delete tools_host tools_host_port lower_case normalize_host
    drop_dots before_bracket canonicalize_host blocked_host_reason blocked_resolved_reason octet
    parse_ipv4 parse_ipv6 ipv4_verdict ip_reason name_reason suffix_reason first_blocked ends_with
page_answer = refl

abbrev patch : ChatflowEngineOptions
patch = record given { max_nodes = some 4 }

apply_options-new_example : apply_options patch (new given) ≡ new (merged patch given)
apply_options-new_example = apply_options-new patch given
