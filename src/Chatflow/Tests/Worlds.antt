-- ===== src/Chatflow/Tests/Worlds.antt =====
-- A printing of values, a world with a model, options, an input and nodes.
use we_chat_ai.Base.{
  false, Option, none, some, [], ◌∷◌, ◌++◌, Text, units, Number, not_finite, negative, natural,
}
use we_chat_ai.Batcher.Key.{decimal}
use we_chat_ai.Chatflow.Value.{undefined, null, string, Printing}
use we_chat_ai.Chatflow.Graph.{start, answer, Node, Edge, Result, ok, err, object_of}
use we_chat_ai.Chatflow.Engine.{World, EngineOptions, RunInput}
use we_chat_ai.Chatflow.Options.{ChatflowEngineOptions}
use we_chat_ai.Chatflow.Run.{RunResult}
use we_chat_ai.Chatflow.Tests.{platform, open_options}

abbrev pub print : Number → Text
print (natural n) = decimal n
print (negative n) = units "-" ++ decimal n
print not_finite = units "NaN"

abbrev pub printing : Printing
printing = record {
  print_number = print;
  print_composite = λ v. units "[object Object]";
  stringify = λ v. units "{}";
}

abbrev pub world : World
world = record {
  platform = platform;
  io = printing;
  parse_json = λ text. none;
  failure_text = units "timeout";
  ask_model = λ step own system prompt.
      some record {
        text = units " fine ";
        model = units "m";
        prompt_tokens = 3;
        completion_tokens = 1;
      };
  find_pages = λ step query wanted. none;
}

abbrev pub given : ChatflowEngineOptions
given = record {
  tools_base_url = some open_options.tools_base_url;
  tools_api_key = some open_options.tools_api_key;
  web_search_enabled = none;
  web_search_max_results = none;
  tools_timeout_ms = none;
  max_steps = some 24;
  max_nodes = none;
  http_allow_hosts = some open_options.http_allow_hosts;
  time_zone = none;
}

abbrev pub options : EngineOptions
options = record {
  egress = open_options;
  web_search_enabled = false;
  web_search_max_results = 5;
  tools_timeout_ms = none;
  max_steps = 24;
  max_nodes = 40;
  time_zone = units "Asia/Shanghai";
}

abbrev pub input : RunInput
input = record {
  user_text = units "hello";
  bot_name = units "Bot";
  system_prompt = units "Be kind.";
  history = [];
  memories = [];
  quality_block = [];
  web_search_enabled = false;
  has_upstream = false;
}

abbrev pub text_of : {E : Type 0} → Result E RunResult → Option Text
text_of (ok r) = some r.text
text_of (err e) = none

abbrev pub start_node : Node
start_node = record {
  id = units "start";
  node_type = start;
  label = undefined;
  fields = object_of [];
}

abbrev pub answer_node : Node
answer_node = record {
  id = units "answer";
  node_type = answer;
  label = undefined;
  fields = object_of ((units "answer", string (units "You said {{query}}.")) ∷ []);
}

abbrev pub edge : Edge
edge = record {
  id = units "e0";
  source = units "start";
  target = units "answer";
  source_handle = null;
}
