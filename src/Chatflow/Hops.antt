-- ===== src/Chatflow/Hops.antt =====
-- What every request of a chain of redirects satisfies: what the first one satisfies and each redirect
-- keeps.
use we_chat_ai.Base.{
  ℕ, zero, suc, ◌≡◌, refl, inl, inr, not, ◌||◌, Option, none, some, List, All, Bool-cases,
}
use we_chat_ai.Chatflow.Egress.{
  Url, Request, Response, Platform, EgressOptions, Blocked, Outcome, Sending, assert_http_allowed,
  fetch_hops, next_request, unless_blocked, after_response, follow, location_of, is_redirect,
  is_empty,
}

module _ (p : Platform) (o : EgressOptions) (P : Request → Type 0)
    (keeps : (r : Request) (response : Response) (next : Url)
      → p.resolve_url (location_of response) r.url ≡ some next
      → P r
      → P (next_request p r response.status next)) where
  abbrev AllSent : Outcome × List Request → Type 0
  AllSent result = All P result.1

  follow-AllSent :
      (rest : Sending) (r : Request) (response : Response) (next : Option Url)
      → p.resolve_url (location_of response) r.url ≡ next
      → P r
      → ((r' : Request) → P r' → AllSent (rest r'))
      → AllSent (follow p rest r response next)
  follow-AllSent rest r response none e d h = tt
  follow-AllSent rest r response (some next) e d h =
      h (next_request p r response.status next) (keeps r response next e d)

  last_response-AllSent :
      (r : Request) (response : Option Response) → AllSent (after_response p none r response)
  last_response-AllSent r none = tt
  last_response-AllSent r (some response) =
      elim (Bool-cases (not (is_redirect response.status) || is_empty (location_of response))) [
        | inl e ↦ rw e tt
        | inr e ↦ rw e tt
      ]

  after_response-AllSent :
      (rest : Sending) (r : Request) (response : Option Response)
      → P r
      → ((r' : Request) → P r' → AllSent (rest r'))
      → AllSent (after_response p (some rest) r response)
  after_response-AllSent rest r none d h = tt
  after_response-AllSent rest r (some response) d h =
      elim (Bool-cases (not (is_redirect response.status) || is_empty (location_of response))) [
        | inl e ↦ rw e tt
        | inr e ↦
            rw e
              (follow-AllSent rest r response (p.resolve_url (location_of response) r.url) refl d h)
      ]

  unless_blocked-AllSent :
      (rest : Option Sending) (r : Request) (verdict : Option Blocked)
      → P r
      → AllSent (after_response p rest r (p.fetch r))
      → AllSent (unless_blocked p rest r verdict)
  unless_blocked-AllSent rest r (some reason) d h = tt
  unless_blocked-AllSent rest r none d h = (d, h)

  pub fetch_hops-AllSent : (hops : ℕ) (r : Request) → P r → AllSent (fetch_hops p o hops r)
  unfolding fetch_hops
  fetch_hops-AllSent zero r d =
      unless_blocked-AllSent none r (assert_http_allowed p o r.url) d
        (last_response-AllSent r (p.fetch r))
  fetch_hops-AllSent (suc hops) r d =
      unless_blocked-AllSent (some (fetch_hops p o hops)) r (assert_http_allowed p o r.url) d
        (after_response-AllSent (fetch_hops p o hops) r (p.fetch r) d (fetch_hops-AllSent hops))
