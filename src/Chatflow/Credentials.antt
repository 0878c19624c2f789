-- ===== src/Chatflow/Credentials.antt =====
-- No credentials of an http node reach another host by a redirect.
use we_chat_ai.Base.{
  ℕ, ◌≡◌, ◌≢◌, refl, sym, ◌∙◌, ◌⊎◌, inl, inr, Bool, true, false, none, some, arith, Text, units,
  text_discrete, All, true_ne_false, same_sound, Bool-cases,
}
use we_chat_ai.JsMap.{Map, get, delete, get-delete}
use we_chat_ai.Chatflow.Hops.{fetch_hops-AllSent}
use we_chat_ai.Chatflow.Egress.{
  Url, Request, Platform, EgressOptions, fetch_http_node, next_request, next_headers, location_of,
  host_differs, drops_body,
}

still_absent :
    (key other : Text) (headers : Map Text Text)
    → get text_discrete key headers ≡ none
    → get text_discrete key (delete text_discrete other headers) ≡ none
still_absent key other headers h = ground (arith, h, get-delete text_discrete other key headers)

now_absent :
    (key : Text) (headers : Map Text Text)
    → get text_discrete key (delete text_discrete key headers) ≡ none
now_absent key headers = ground (arith, get-delete text_discrete key key headers)

next_headers-absent :
    (differs drops : Bool) (headers : Map Text Text)
    → (get text_discrete (units "Authorization") headers ≡ none) ⊎ (differs ≡ true)
    → get text_discrete (units "Authorization") (next_headers differs drops headers) ≡ none
unfolding next_headers
next_headers-absent true true headers h =
    still_absent (units "Authorization") (units "Content-Type")
      (delete text_discrete (units "Authorization") headers)
      (now_absent (units "Authorization") headers)
next_headers-absent true false headers h = now_absent (units "Authorization") headers
next_headers-absent false drops headers (inr e) = absurd (true_ne_false (sym e))
next_headers-absent false true headers (inl h) =
    still_absent (units "Authorization") (units "Content-Type") headers h
next_headers-absent false false headers (inl h) = h

module _ (p : Platform) (home : Text) where
  -- A request carries no credentials, or goes to the host `home`.
  abbrev pub IsDiscreet : Request → Type 0
  IsDiscreet r =
      (get text_discrete (units "Authorization") r.headers ≡ none)
      ⊎ ((url : Url) × (p.parse_url r.url ≡ some url) × (url.host ≡ home))

pub next_request-absent :
    (p : Platform) (r : Request) (status : ℕ) (next : Url)
    → get text_discrete (units "Authorization") r.headers ≡ none
    → get text_discrete (units "Authorization") (next_request p r status next).headers ≡ none
unfolding next_request
next_request-absent p r status next absent =
    next_headers-absent (host_differs next (p.parse_url r.url)) (drops_body status r.body) r.headers
      (inl absent)

module _ (p : Platform) (o : EgressOptions)
    (prints : (location base : Text) (url : Url)
      → p.resolve_url location base ≡ some url
      → p.parse_url url.href ≡ some url)
    (home : Text) where
  pub next-IsDiscreet :
      (r : Request) (status : ℕ) (next : Url)
      → p.parse_url next.href ≡ some next
      → IsDiscreet p home r
      → IsDiscreet p home (next_request p r status next)
  unfolding next_request
  next-IsDiscreet r status next printed (inl absent) =
      inl (next_request-absent p r status next absent)
  next-IsDiscreet r status next printed (inr (url, found, at_home)) =
      elim (Bool-cases (host_differs next (p.parse_url r.url))) [
        | inl differs ↦ inl (
            next_headers-absent (host_differs next (p.parse_url r.url)) (drops_body status r.body)
              r.headers (inr differs))
        | inr stays ↦ inr (next, printed, same_host found stays ∙ at_home)
      ]
    where
      same_host :
          p.parse_url r.url ≡ some url
          → host_differs next (p.parse_url r.url) ≡ false
          → next.host ≡ url.host
      same_host found stays = same_sound next.host url.host (ground (arith, found, stays))

-- Where printed URLs are read back, every request of the chain of redirects that carries an
-- Authorization header goes to the host and port of the first one.
pub fetch_http_node-IsDiscreet :
    (p : Platform) (o : EgressOptions)
    (prints : (location base : Text) (url : Url)
      → p.resolve_url location base ≡ some url
      → p.parse_url url.href ≡ some url)
    (r : Request) (url : Url)
    → p.parse_url r.url ≡ some url
    → All (IsDiscreet p url.host) (fetch_http_node p o r).1
fetch_http_node-IsDiscreet p o prints r url found =
    fetch_hops-AllSent p o (IsDiscreet p url.host)
      (λ r response next e d.
        next-IsDiscreet p o prints url.host r response.status next
          (prints (location_of response) r.url next e) d)
      3 r (inr (url, found, refl))

still_there :
    (key other : Text) (headers : Map Text Text)
    → other ≢ key
    → get text_discrete key (delete text_discrete other headers) ≡ get text_discrete key headers
still_there key other headers ne = ground (arith, ne, get-delete text_discrete other key headers)

next_headers-get :
    (key : Text) (differs drops : Bool) (headers : Map Text Text)
    → units "Authorization" ≢ key
    → units "Content-Type" ≢ key
    → get text_discrete key (next_headers differs drops headers) ≡ get text_discrete key headers
unfolding next_headers
next_headers-get key true true headers no_auth no_type =
    still_there key (units "Content-Type") (delete text_discrete (units "Authorization") headers)
      no_type
    ∙ still_there key (units "Authorization") headers no_auth
next_headers-get key true false headers no_auth no_type =
    still_there key (units "Authorization") headers no_auth
next_headers-get key false true headers no_auth no_type =
    still_there key (units "Content-Type") headers no_type
next_headers-get key false false headers no_auth no_type = refl

next_request-get :
    (p : Platform) (key : Text) (hop : Request) (status : ℕ) (next : Url)
    → units "Authorization" ≢ key
    → units "Content-Type" ≢ key
    → get text_discrete key (next_request p hop status next).headers
      ≡ get text_discrete key hop.headers
unfolding next_request
next_request-get p key hop status next no_auth no_type =
    next_headers-get key (host_differs next (p.parse_url hop.url)) (drops_body status hop.body)
      hop.headers no_auth no_type

-- A header with any key but `Authorization` and `Content-Type`, in exactly that spelling, goes to every
-- hop as it was set, whichever host it is: also one with the key `authorization`.
pub fetch_http_node-carries_headers :
    (p : Platform) (o : EgressOptions) (r : Request) (key : Text)
    → units "Authorization" ≢ key
    → units "Content-Type" ≢ key
    → All
        (λ (hop : Request). get text_discrete key hop.headers ≡ get text_discrete key r.headers)
        (fetch_http_node p o r).1
fetch_http_node-carries_headers p o r key no_auth no_type =
    fetch_hops-AllSent p o
      (λ (hop : Request). get text_discrete key hop.headers ≡ get text_discrete key r.headers)
      (λ hop response next e kept.
        next_request-get p key hop response.status next no_auth no_type ∙ kept)
      3 r refl
