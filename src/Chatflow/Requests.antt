-- ===== src/Chatflow/Requests.antt =====
-- What an http node sends, whatever the servers answer: each request of the chain of redirects goes to a
-- URL that is permitted, there are four at most, and no credentials reach another host.
use we_chat_ai.Base.{
  ℕ, zero, suc, ◌≤◌, ◌≡◌, ◌≢◌, refl, sym, ap, ◌∙◌, ◌⊎◌, inl, inr, true, false, not, ◌||◌, Option,
  none, some, List, [], ◌∷◌, arith, Text, units, trim, trim_start, trim_end, same_sound, same,
  any_of, length, All, lower_case, same_sound, Bool-cases, Option-cases,
}
use we_chat_ai.HttpGuard.Address.{normalize_host, drop_dots, before_bracket}
use we_chat_ai.HttpGuard.Guard.{blocked_host_reason, blocked_resolved_reason, allows_any_host}
use we_chat_ai.Chatflow.Egress.{
  not_allowlisted, tools_host, Url, Request, Response, Platform, EgressOptions, Blocked, Outcome,
  Sending, tools_host_port, allowed_hosts, url_hostname, allow_entries, named_hosts, is_same_host,
  check_url, check_private, assert_http_allowed, fetch_hops, fetch_http_node, next_request,
  unless_blocked, after_response, follow, location_of, is_redirect, is_empty,
}

module _ (p : Platform) (o : EgressOptions) where
  -- The host is one that the allowlist names, or the allowlist opens all public hosts.
  abbrev pub IsListed : Url → Type 0
  IsListed url =
      (allows_any_host (allow_entries o) ≡ true)
      ⊎ (any_of (λ host. same host (normalize_host url.hostname)) (allowed_hosts p o) ≡ true)

  -- Neither its name nor an address that it resolves to is internal.
  abbrev pub IsPublic : Url → Type 0
  IsPublic url =
      (blocked_host_reason (url_hostname p o) (normalize_host url.hostname) ≡ none)
      × (blocked_resolved_reason (url_hostname p o) p.resolve (normalize_host url.hostname) ≡ none)

  abbrev pub IsPermitted : Request → Type 0
  IsPermitted r =
      (url : Url) × (p.parse_url r.url ≡ some url)
      × ((same url.protocol (units "http:") ≡ true) ⊎ (same url.protocol (units "https:") ≡ true))
      × IsListed url
      × ((is_same_host (tools_host_port p o) (lower_case url.host) ≡ true) ⊎ IsPublic url)

  check_url-none :
      (url : Url)
      → check_url p o (some url) ≡ none
      → ((same url.protocol (units "http:") ≡ true) ⊎ (same url.protocol (units "https:") ≡ true))
        × IsListed url
        × (check_private p o url (normalize_host url.hostname) ≡ none)
  check_url-none url e = ground arith

  check_private-none :
      (url : Url)
      → check_private p o url (normalize_host url.hostname) ≡ none
      → (is_same_host (tools_host_port p o) (lower_case url.host) ≡ true) ⊎ IsPublic url
  check_private-none url e = ground arith

  IsPermitted-of_assert : (r : Request) → assert_http_allowed p o r.url ≡ none → IsPermitted r
  unfolding assert_http_allowed
  IsPermitted-of_assert r e = elim (Option-cases (p.parse_url r.url)) [
    | inl nothing ↦ absurd (no_url (ap (check_url p o) (sym nothing) ∙ e))
    | inr (url, found) ↦
        let (protocol, listed, private_check) =
          check_url-none url (ap (check_url p o) (sym found) ∙ e) in
        (url, found, protocol, listed, check_private-none url private_check)
  ]
    where
      no_url : ¬ (check_url p o none ≡ none)
      no_url h = ground (arith, h)

  -- All the requests of a log are permitted, and there are at most so many.
  abbrev IsBounded : ℕ → Outcome × List Request → Type 0
  IsBounded n result = All IsPermitted result.1 × (length result.1 ≤ n)

  follow-IsBounded :
      (n : ℕ) (rest : Sending) (r : Request) (response : Response) (next : Option Url)
      → ((r' : Request) → IsBounded n (rest r'))
      → IsBounded n (follow p rest r response next)
  follow-IsBounded n rest r response none h = (tt, omega arith)
  follow-IsBounded n rest r response (some next) h = h (next_request p r response.status next)

  after_response-IsBounded :
      (n : ℕ) (rest : Sending) (r : Request) (response : Option Response)
      → ((r' : Request) → IsBounded n (rest r'))
      → IsBounded n (after_response p (some rest) r response)
  after_response-IsBounded n rest r none h = (tt, omega arith)
  after_response-IsBounded n rest r (some response) h =
      elim (Bool-cases (not (is_redirect response.status) || is_empty (location_of response))) [
        | inl e ↦ rw e (tt, omega arith)
        | inr e ↦
            rw e (follow-IsBounded n rest r response (p.resolve_url (location_of response) r.url) h)
      ]

  last_response-IsBounded :
      (r : Request) (response : Option Response) → IsBounded 0 (after_response p none r response)
  last_response-IsBounded r none = (tt, omega arith)
  last_response-IsBounded r (some response) =
      elim (Bool-cases (not (is_redirect response.status) || is_empty (location_of response))) [
        | inl e ↦ rw e (tt, omega arith)
        | inr e ↦ rw e (tt, omega arith)
      ]

  unless_blocked-IsBounded :
      (n : ℕ) (rest : Option Sending) (r : Request) (verdict : Option Blocked)
      → assert_http_allowed p o r.url ≡ verdict
      → IsBounded n (after_response p rest r (p.fetch r))
      → IsBounded (suc n) (unless_blocked p rest r verdict)
  unless_blocked-IsBounded n rest r (some reason) e h = (tt, omega arith)
  unless_blocked-IsBounded n rest r none e (permitted, few) =
      ((IsPermitted-of_assert r e, permitted), omega (arith, few))

  fetch_hops-IsBounded : (hops : ℕ) (r : Request) → IsBounded (suc hops) (fetch_hops p o hops r)
  unfolding fetch_hops
  fetch_hops-IsBounded zero r =
      unless_blocked-IsBounded 0 none r (assert_http_allowed p o r.url) refl
        (last_response-IsBounded r (p.fetch r))
  fetch_hops-IsBounded (suc hops) r =
      unless_blocked-IsBounded (suc hops) (some (fetch_hops p o hops)) r
        (assert_http_allowed p o r.url) refl
        (after_response-IsBounded (suc hops) (fetch_hops p o hops) r (p.fetch r)
          (λ r'. fetch_hops-IsBounded hops r'))

  -- Whatever the servers answer, an http node sends at most four requests. Each goes by http or https
  -- to a host that the allowlist names or opens, and either to the exact host and port of the tools
  -- gateway or to a host of which neither the name nor an address that it resolves to is internal.
  pub fetch_http_node-IsPermitted :
      (r : Request)
      → All IsPermitted (fetch_http_node p o r).1 × (length (fetch_http_node p o r).1 ≤ 4)
  fetch_http_node-IsPermitted r = fetch_hops-IsBounded 3 r

empty-normalize_host : (h : Text) → lower_case h ≡ [] → normalize_host h ≡ []
unfolding lower_case normalize_host drop_dots before_bracket trim_start trim_end
empty-normalize_host [] e = refl
empty-normalize_host (c ∷ h) e = ground (arith, e)

-- The tools gateway itself, by http or https, is refused where its host name is one that `normalizeHost`
-- changes, an IPv6 address or a name with a dot at its end, whatever the allowlist holds, unless it opens all
-- public hosts or names that host: the allowed hosts hold the name of the gateway as it is written.
pub assert_http_allowed-tools_refused :
    (p : Platform) (o : EgressOptions) (url : Url)
    → allows_any_host (allow_entries o) ≡ false
    → any_of (λ host. same host (normalize_host url.hostname)) (named_hosts o) ≡ false
    → is_empty (trim o.tools_base_url) ≡ false
    → p.parse_url (trim o.tools_base_url) ≡ some url
    → (same url.protocol (units "http:") ≡ true) ⊎ (same url.protocol (units "https:") ≡ true)
    → normalize_host url.hostname ≢ lower_case url.hostname
    → assert_http_allowed p o (trim o.tools_base_url)
      ≡ some (not_allowlisted (normalize_host url.hostname))
unfolding assert_http_allowed tools_host
assert_http_allowed-tools_refused p o url closed unnamed base found protocol changed = ground (
  arith,
  same_sound (lower_case url.hostname) (normalize_host url.hostname),
  empty-normalize_host url.hostname,
)
