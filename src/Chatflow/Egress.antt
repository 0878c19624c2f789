-- ===== src/Chatflow/Egress.antt =====
-- chatflow/engine.ts, the requests of an http node: `toolsHost`, `toolsHostPort`, `assertHttpAllowed` and
-- `fetchHttpNode`. The platform is a record: the URL parser (`none` where it throws), the resolver
-- (`none` where it fails) and `fetch` (`none` where it rejects). A call returns its outcome with the
-- requests that were sent, oldest first.
use we_chat_ai.Base.{
  ℕ, zero, suc, Bool, true, false, not, ◌&&◌, ◌||◌, Option, none, some, List, [], ◌∷◌, map, Text,
  units, text_discrete, trim, same, any_of, keep_if, lower_case, ◌==◌, if◌then◌else◌,
}
use we_chat_ai.JsMap.{Map, delete}
use we_chat_ai.HttpGuard.Address.{normalize_host}
use we_chat_ai.HttpGuard.Ranges.{Reason}
use we_chat_ai.HttpGuard.Guard.{blocked_host_reason, blocked_resolved_reason, allows_any_host}

-- what the code reads of a URL: `host` is the host name with its port, `href` the printed URL
pub record Url : Type 0 where
  pub protocol : Text
  pub hostname : Text
  pub host : Text
  pub href : Text

pub record Request : Type 0 where
  pub url : Text
  pub method : Text
  pub headers : Map Text Text
  pub body : Option Text

pub record Response : Type 0 where
  pub status : ℕ
  pub location : Option Text
  pub body : Text

pub record Platform : Type 0 where
  pub parse_url : Text → Option Url
  pub resolve_url : Text → Text → Option Url
  pub resolve : Text → Option (List Text)
  pub fetch : Request → Option Response

-- the options of the engine that the requests use; an option that is not set is the empty text
pub record EgressOptions : Type 0 where
  pub tools_base_url : Text
  pub tools_api_key : Text
  pub http_allow_hosts : List Text

-- the messages of a ChatflowError "http_blocked"
pub data Blocked : Type 0 where
  invalid_url : Blocked
  not_http : Blocked
  no_allowlist : Blocked
  not_allowlisted : Text → Blocked
  private_host : Text → Reason → Blocked
  too_many_redirects : Blocked
  invalid_redirect : Text → Blocked

abbrev pub is_empty : Text → Bool
is_empty [] = true
is_empty (c ∷ text) = false

abbrev pub lowered : (Url → Text) → Option Url → Option Text
lowered part none = none
lowered part (some url) = some (lower_case (part url))

abbrev pub with_tools : Option Text → List Text → List Text
with_tools none hosts = hosts
with_tools (some []) hosts = hosts
with_tools (some (c ∷ host)) hosts = (c ∷ host) ∷ hosts

abbrev pub is_same_host : Option Text → Text → Bool
is_same_host none host = false
is_same_host (some []) host = false
is_same_host (some (c ∷ tools)) host = same host (c ∷ tools)

abbrev pub or_reason : Option Reason → Option Reason → Option Reason
or_reason none b = b
or_reason (some a) b = some a

abbrev pub private_or_pass : Text → Option Reason → Option Blocked
private_or_pass host none = none
private_or_pass host (some reason) = some (private_host host reason)

-- the entries of CHATFLOW_HTTP_ALLOWLIST, trimmed, in lower case, without empty ones
abbrev pub allow_entries : EgressOptions → List Text
allow_entries o =
    keep_if (λ entry. not (is_empty entry))
      (map (λ entry. lower_case (trim entry)) o.http_allow_hosts)

-- the hosts that the entries name
abbrev pub named_hosts : EgressOptions → List Text
named_hosts o =
    map (λ entry. normalize_host entry)
      (keep_if (λ entry. not (same entry (units "*"))) (allow_entries o))

module _ (p : Platform) (o : EgressOptions) where
  abbrev pub tools_url : Option Url
  tools_url = if is_empty (trim o.tools_base_url) then none else p.parse_url (trim o.tools_base_url)

  unfoldable pub tools_host : Option Text
  tools_host = lowered (λ url. url.hostname) tools_url

  unfoldable pub tools_host_port : Option Text
  tools_host_port = lowered (λ url. url.host) tools_url

  abbrev pub allowed_hosts : List Text
  allowed_hosts = with_tools tools_host (named_hosts o)

  -- what the URL parser gives the guard for a host name
  abbrev pub url_hostname : Text → Option Text
  url_hostname text = hostname_of (p.parse_url text)
    where
      hostname_of : Option Url → Option Text
      hostname_of none = none
      hostname_of (some url) = some url.hostname

  -- the last barrier: the exact host and port of the tools gateway pass, other internal space does not
  abbrev pub check_private : Url → Text → Option Blocked
  check_private url host =
      if is_same_host tools_host_port (lower_case url.host)
      then none
      else private_or_pass host (
          or_reason (blocked_host_reason url_hostname host)
            (blocked_resolved_reason url_hostname p.resolve host))

  abbrev pub no_hosts : List Text → Bool
  no_hosts [] = true
  no_hosts (host ∷ hosts) = false

  abbrev pub check_url : Option Url → Option Blocked
  check_url none = some invalid_url
  check_url (some url) =
      if not (same url.protocol (units "http:")) && not (same url.protocol (units "https:"))
      then some not_http
      else if allows_any_host (allow_entries o)
      then check_private url (normalize_host url.hostname)
      else if no_hosts allowed_hosts
      then some no_allowlist
      else if any_of (λ host. same host (normalize_host url.hostname)) allowed_hosts
      then check_private url (normalize_host url.hostname)
      else some (not_allowlisted (normalize_host url.hostname))

  unfoldable pub assert_http_allowed : Text → Option Blocked
  assert_http_allowed url = check_url (p.parse_url url)

-- How the request of an http node ends: a response, a failure of `fetch`, or a rejection.
pub data Outcome : Type 0 where
  answered : Response → Outcome
  failed : Outcome
  blocked : Blocked → Outcome

abbrev pub is_redirect : ℕ → Bool
is_redirect status =
    status == 301 || status == 302 || status == 303 || status == 307 || status == 308

abbrev pub has_body : Option Text → Bool
has_body none = false
has_body (some body) = true

abbrev pub drops_body : ℕ → Option Text → Bool
drops_body status body =
    status == 303 || (has_body body && not (status == 307) && not (status == 308))

abbrev pub location_of : Response → Text
location_of response = or_empty response.location
  where
    or_empty : Option Text → Text
    or_empty none = []
    or_empty (some location) = location

abbrev pub host_differs : Url → Option Url → Bool
host_differs next none = true
host_differs next (some current) = not (same next.host current.host)

-- the headers of the next hop: no credentials to another host, no content type without a body
unfoldable pub next_headers : Bool → Bool → Map Text Text → Map Text Text
next_headers differs drops headers =
    let kept = if differs then delete text_discrete (units "Authorization") headers else headers in
    if drops then delete text_discrete (units "Content-Type") kept else kept

module _ (p : Platform) where
  -- The request that follows a redirect. `new URL(url)` does not throw on a URL that was let through.
  unfoldable pub next_request : Request → ℕ → Url → Request
  next_request r status next =
      let drops = drops_body status r.body in
      record {
        url = next.href;
        method = if drops then units "GET" else r.method;
        headers = next_headers (host_differs next (p.parse_url r.url)) drops r.headers;
        body = if drops then none else r.body;
      }

abbrev pub Sending : Type 0
Sending = Request → Outcome × List Request

abbrev pub sent : Request → Outcome × List Request → Outcome × List Request
sent r (outcome, log) = (outcome, r ∷ log)

module _ (p : Platform) where
  -- the next hop, where the redirect leads to a URL
  abbrev pub follow : Sending → Request → Response → Option Url → Outcome × List Request
  follow rest r response none = (blocked (invalid_redirect (location_of response)), [])
  follow rest r response (some next) = rest (next_request p r response.status next)

  -- `none` where no redirect may be taken any more
  abbrev pub redirected : Option Sending → Request → Response → Outcome × List Request
  redirected none r response = (blocked too_many_redirects, [])
  redirected (some rest) r response =
      follow rest r response (p.resolve_url (location_of response) r.url)

  abbrev pub after_response : Option Sending → Request → Option Response → Outcome × List Request
  after_response rest r none = (failed, [])
  after_response rest r (some response) =
      if not (is_redirect response.status) || is_empty (location_of response)
      then (answered response, [])
      else redirected rest r response

  abbrev pub unless_blocked : Option Sending → Request → Option Blocked → Outcome × List Request
  unless_blocked rest r (some reason) = (blocked reason, [])
  unless_blocked rest r none = sent r (after_response rest r (p.fetch r))

module _ (p : Platform) (o : EgressOptions) where
  -- The loop over the hops: the number of redirects that may still be taken goes down.
  unfoldable pub fetch_hops : ℕ → Sending
  fetch_hops zero r = unless_blocked p none r (assert_http_allowed p o r.url)
  fetch_hops (suc hops) r =
      unless_blocked p (some (fetch_hops hops)) r (assert_http_allowed p o r.url)

  -- HTTP_NODE_MAX_REDIRECTS is 3
  abbrev pub fetch_http_node : Sending
  fetch_http_node r = fetch_hops 3 r
