-- ===== src/Chatflow/Reload.antt =====
-- `applyOptions` against the constructor: a change of the settings while the engine runs.
use we_chat_ai.Base.{◌≡◌, refl, Option, none, some, [], Text, false}
use we_chat_ai.Chatflow.Options.{
  ChatflowEngineOptions, or_kept, or_kept_option, zone_or_default, patched_zone, new, apply_options,
}

-- what is given, with what the patch sets in its place: `{ ...opts, ...patch }`
abbrev pub merged : ChatflowEngineOptions → ChatflowEngineOptions → ChatflowEngineOptions
merged patch opts = record {
  tools_base_url = or_kept_option patch.tools_base_url opts.tools_base_url;
  tools_api_key = or_kept_option patch.tools_api_key opts.tools_api_key;
  web_search_enabled = or_kept_option patch.web_search_enabled opts.web_search_enabled;
  web_search_max_results = or_kept_option patch.web_search_max_results opts.web_search_max_results;
  tools_timeout_ms = or_kept_option patch.tools_timeout_ms opts.tools_timeout_ms;
  max_steps = or_kept_option patch.max_steps opts.max_steps;
  max_nodes = or_kept_option patch.max_nodes opts.max_nodes;
  http_allow_hosts = or_kept_option patch.http_allow_hosts opts.http_allow_hosts;
  time_zone = or_kept_option patch.time_zone opts.time_zone;
}

or_kept-or_kept :
    {A : Type 0} (p q : Option A) (a : A) → or_kept p (or_kept q a) ≡ or_kept (or_kept_option p q) a
or_kept-or_kept none q a = refl
or_kept-or_kept (some b) q a = refl

patched_zone-zone :
    (p q : Option Text)
    → patched_zone p (zone_or_default (or_kept q []))
      ≡ zone_or_default (or_kept (or_kept_option p q) [])
patched_zone-zone none q = refl
patched_zone-zone (some zone) q = refl

-- An engine whose options are patched while it runs has the options of one that is made anew from the given
-- options with those of the patch in their place: no option is left out, and the defaults are the same.
pub apply_options-new :
    (patch opts : ChatflowEngineOptions) → apply_options patch (new opts) ≡ new (merged patch opts)
unfolding apply_options new
apply_options-new patch opts = λ i. record {
  egress = record {
    tools_base_url = or_kept-or_kept patch.tools_base_url opts.tools_base_url [] i;
    tools_api_key = or_kept-or_kept patch.tools_api_key opts.tools_api_key [] i;
    http_allow_hosts = or_kept-or_kept patch.http_allow_hosts opts.http_allow_hosts [] i;
  };
  web_search_enabled = or_kept-or_kept patch.web_search_enabled opts.web_search_enabled false i;
  web_search_max_results =
      or_kept-or_kept patch.web_search_max_results opts.web_search_max_results 5 i;
  tools_timeout_ms = or_kept_option patch.tools_timeout_ms opts.tools_timeout_ms;
  max_steps = or_kept-or_kept patch.max_steps opts.max_steps 32 i;
  max_nodes = or_kept-or_kept patch.max_nodes opts.max_nodes 40 i;
  time_zone = patched_zone-zone patch.time_zone opts.time_zone i;
}
