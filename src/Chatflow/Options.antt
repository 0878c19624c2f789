-- ===== src/Chatflow/Options.antt =====
-- chatflow/engine.ts: the options as they are given, the constructor and `applyOptions`. An option that is
-- not set is `none`; the engine keeps an unset gateway or allowlist as an empty one, which its tests treat
-- alike.
use we_chat_ai.Base.{ℕ, Bool, false, Option, none, some, List, [], ◌∷◌, Text, units}
use we_chat_ai.Chatflow.Engine.{EngineOptions}

pub record ChatflowEngineOptions : Type 0 where
  pub tools_base_url : Option Text
  pub tools_api_key : Option Text
  pub web_search_enabled : Option Bool
  pub web_search_max_results : Option ℕ
  pub tools_timeout_ms : Option ℕ
  pub max_steps : Option ℕ
  pub max_nodes : Option ℕ
  pub http_allow_hosts : Option (List Text)
  pub time_zone : Option Text

-- `patch.x !== undefined`, and the value that stays otherwise
abbrev pub or_kept : {A : Type 0} → Option A → A → A
or_kept none kept = kept
or_kept (some a) kept = a

abbrev pub or_kept_option : {A : Type 0} → Option A → Option A → Option A
or_kept_option none kept = kept
or_kept_option (some a) kept = some a

-- `zone || "Asia/Shanghai"`
abbrev pub zone_or_default : Text → Text
zone_or_default [] = units "Asia/Shanghai"
zone_or_default (c ∷ zone) = c ∷ zone

unfoldable pub new : ChatflowEngineOptions → EngineOptions
new opts = record {
  egress = record {
    tools_base_url = or_kept opts.tools_base_url [];
    tools_api_key = or_kept opts.tools_api_key [];
    http_allow_hosts = or_kept opts.http_allow_hosts [];
  };
  web_search_enabled = or_kept opts.web_search_enabled false;
  web_search_max_results = or_kept opts.web_search_max_results 5;
  tools_timeout_ms = opts.tools_timeout_ms;
  max_steps = or_kept opts.max_steps 32;
  max_nodes = or_kept opts.max_nodes 40;
  time_zone = zone_or_default (or_kept opts.time_zone []);
}

abbrev pub patched_zone : Option Text → Text → Text
patched_zone none kept = kept
patched_zone (some zone) kept = zone_or_default zone

unfoldable pub apply_options : ChatflowEngineOptions → EngineOptions → EngineOptions
apply_options patch o = record {
  egress = record {
    tools_base_url = or_kept patch.tools_base_url o.egress.tools_base_url;
    tools_api_key = or_kept patch.tools_api_key o.egress.tools_api_key;
    http_allow_hosts = or_kept patch.http_allow_hosts o.egress.http_allow_hosts;
  };
  web_search_enabled = or_kept patch.web_search_enabled o.web_search_enabled;
  web_search_max_results = or_kept patch.web_search_max_results o.web_search_max_results;
  tools_timeout_ms = or_kept_option patch.tools_timeout_ms o.tools_timeout_ms;
  max_steps = or_kept patch.max_steps o.max_steps;
  max_nodes = or_kept patch.max_nodes o.max_nodes;
  time_zone = patched_zone patch.time_zone o.time_zone;
}
