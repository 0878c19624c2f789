-- ===== src/HttpGuard/Guard.antt =====
-- http-guard.ts: `blockedHostReason`, `blockedResolvedReason` and `allowsAnyHost`. `url_hostname` stands
-- for the host name that the platform's URL parser reads from a URL, `none` where it throws, and
-- `resolve` for the resolver's answer, `none` where it fails.
use we_chat_ai.Base.{
  Bool, false, not, ◌&&◌, Option, none, some, List, [], ◌∷◌, ◌++◌, Text, units, trim, same, any_of,
  includes, ends_with, ◌==◌, if◌then◌else◌,
}
use we_chat_ai.HttpGuard.Address.{normalize_host}
use we_chat_ai.HttpGuard.Ranges.{
  Reason, unparseable, loopback, metadata_host, single_label, internal_suffix, resolves_to,
  literal_reason, ip_reason,
}

abbrev pub internal_suffixes : List Text
internal_suffixes =
    units ".local"
    ∷ units ".localhost"
    ∷ units ".internal"
    ∷ units ".home.arpa"
    ∷ units ".lan"
    ∷ units ".intranet"
    ∷ units ".corp"
    ∷ units ".private"
    ∷ units ".svc"
    ∷ []

abbrev pub metadata_hosts : List Text
metadata_hosts =
    units "metadata.tencentyun.com"
    ∷ units "metadata.google.internal"
    ∷ units "metadata.goog"
    ∷ units "instance-data"
    ∷ []

abbrev pub starts_with_bracket : Text → Bool
starts_with_bracket [] = false
starts_with_bracket (c ∷ text) = c == b'['

-- `http://${host}/`, an address with colons in brackets
abbrev pub probe_url : Text → Text
probe_url host =
    units "http://"
    ++ ((if includes b':' host && not (starts_with_bracket host)
          then b'[' ∷ (host ++ (b']' ∷ []))
          else host)
        ++ (b'/' ∷ []))

unfoldable pub suffix_reason : List Text → Text → Option Reason
suffix_reason [] host = none
suffix_reason (suffix ∷ suffixes) host =
    let rest = suffix_reason suffixes host in
    if ends_with suffix host then some (internal_suffix suffix) else rest

-- the tests on a host that is no address
unfoldable pub name_reason : Text → Option Reason
name_reason host =
    if same host (units "localhost")
    then some loopback
    else if any_of (λ name. same host name) metadata_hosts
    then some metadata_host
    else if not (includes b'.' host)
    then some single_label
    else suffix_reason internal_suffixes host

abbrev pub name_unless_literal : Text → Option (Option Reason) → Option Reason
name_unless_literal host (some verdict) = verdict
name_unless_literal host none = name_reason host

-- `if (!host) return "unparseable host"`, and the verdict on any other host
abbrev pub host_reason : Option Text → Option Reason
host_reason none = some unparseable
host_reason (some []) = some unparseable
host_reason (some (c ∷ host)) = name_unless_literal (c ∷ host) (literal_reason (c ∷ host))

unfoldable pub first_blocked : List Text → Option Reason
first_blocked [] = none
first_blocked (address ∷ addresses) = or_next address (ip_reason address) (first_blocked addresses)
  where
    or_next : Text → Option Reason → Option Reason → Option Reason
    or_next address (some reason) rest = some (resolves_to address reason)
    or_next address none rest = rest

abbrev pub answer_reason : Option (List Text) → Option Reason
answer_reason none = none
answer_reason (some addresses) = first_blocked addresses

module _ (url_hostname : Text → Option Text) where
  abbrev pub normalized : Option Text → Option Text
  normalized none = none
  normalized (some host) = some (normalize_host host)

  unfoldable pub canonicalize_host : Text → Option Text
  canonicalize_host [] = none
  canonicalize_host (c ∷ host) = normalized (url_hostname (probe_url (c ∷ host)))

  unfoldable pub blocked_host_reason : Text → Option Reason
  blocked_host_reason raw = host_reason (canonicalize_host (normalize_host raw))

  module _ (resolve : Text → Option (List Text)) where
    abbrev pub resolved_reason : Option Text → Option Reason
    resolved_reason none = some unparseable
    resolved_reason (some []) = some unparseable
    resolved_reason (some (c ∷ host)) = unless_literal (c ∷ host) (literal_reason (c ∷ host))
      where
        unless_literal : Text → Option (Option Reason) → Option Reason
        unless_literal host (some verdict) = none
        unless_literal host none = answer_reason (resolve host)

    unfoldable pub blocked_resolved_reason : Text → Option Reason
    blocked_resolved_reason raw = resolved_reason (canonicalize_host (normalize_host raw))

abbrev pub allows_any_host : List Text → Bool
allows_any_host entries = any_of (λ entry. same (trim entry) (units "*")) entries
