-- ===== src/Cors.antt =====
-- crates/apimock-server/src/response_handler.rs: the default response headers, with the rule on
-- cross-origin requests that carry credentials; crates/apimock-server/src/constant.rs.
mod Tests
pub mod Loopback
pub mod Credentials
use apimock_rs.Prelude.{
  Bool, true, false, ◌&&◌, ◌||◌, Option, none, some, List, [], ◌∷◌, ◌++◌, if◌then◌else◌, any, all,
}
use apimock_rs.Prelude.Dict.{put}
use apimock_rs.Prelude.Text.{Text, codes, text_eq, strip_prefix, is_ascii_digit}
use apimock_rs.Routing.Headers.{HeaderMap, HeaderValue, readable, unreadable}

-- `DEFAULT_RESPONSE_HEADERS`.
abbrev pub default_rows : List (Text × Text)
default_rows =
    (codes "access-control-allow-headers", codes "*")
    ∷ (codes "access-control-allow-methods", codes "GET, POST, PUT, DELETE, PATCH, OPTIONS")
    ∷ (codes "access-control-max-age", codes "86400")
    ∷ (codes "cache-control", codes "no-store")
    ∷ (codes "connection", codes "keep-alive")
    ∷ (codes "x-content-type-options", codes "nosniff")
    ∷ []

abbrev pub allow_credentials : Text
allow_credentials = codes "access-control-allow-credentials"

abbrev pub allow_origin : Text
allow_origin = codes "access-control-allow-origin"

abbrev pub loopback_hosts : List Text
loopback_hosts = codes "http://localhost" ∷ codes "http://127.0.0.1" ∷ []

-- `port` of `:port`.
abbrev pub is_port : Option Text → Bool
is_port none = false
is_port (some []) = false
is_port (some (c ∷ port)) = all is_ascii_digit (c ∷ port)

-- What the loop returns on the rest behind a prefix.
abbrev pub is_rest : Text → Bool
is_rest [] = true
is_rest (c ∷ rest) = is_port (strip_prefix (codes ":") (c ∷ rest))

unfoldable pub has_loopback_host : List Text → Text → Bool
has_loopback_host [] origin = false
has_loopback_host (prefix ∷ prefixes) origin =
    let next = has_loopback_host prefixes origin in
    elim (strip_prefix prefix origin) [ none ↦ next | some rest ↦ is_rest rest ]

unfoldable pub is_implicit_loopback_origin : Text → Bool
is_implicit_loopback_origin origin = has_loopback_host loopback_hosts origin

unfoldable pub is_credentialed_reflection_allowed : Text → List Text → Bool
is_credentialed_reflection_allowed origin allowed =
    is_implicit_loopback_origin origin || any (λ a. text_eq a origin) allowed

unfoldable pub is_likely_authenticated_request : HeaderMap → Bool
is_likely_authenticated_request headers =
    headers.contains_key (codes "cookie") || headers.contains_key (codes "authorization")

-- The rows that follow the default ones.
abbrev pub cors_rows : Option Text → List (Text × Text)
cors_rows none = (allow_origin, codes "*") ∷ (codes "vary", codes "*") ∷ []
cors_rows (some origin) =
    (allow_credentials, codes "true") ∷ (allow_origin, origin) ∷ (codes "vary", codes "Origin") ∷ []

-- `valid_name` and `valid_value` are `HeaderName::from_str` and `HeaderValue::from_str` of `hyper`, by
-- whether they accept a text.
module _ (valid_name valid_value : Text → Bool) where
  -- The filters on the `Origin` header.
  abbrev pub accept : List Text → Option HeaderValue → Option Text
  accept allowed none = none
  accept allowed (some unreadable) = none
  accept allowed (some (readable origin)) =
      if is_credentialed_reflection_allowed origin allowed && valid_value origin
      then some origin
      else none

  -- The origin that is reflected.
  unfoldable pub reflected : HeaderMap → List Text → Option Text
  reflected headers allowed =
      if is_likely_authenticated_request headers
      then accept allowed (headers.get (codes "origin"))
      else none

  -- One step of the fold: an unusable name is left out, an unusable value is empty.
  abbrev pub insert_header : List (Text × Text) → Text × Text → List (Text × Text)
  insert_header ret (name, value) =
      if valid_name name
      then (if valid_value value then put text_eq name value ret else put text_eq name [] ret)
      else ret

  unfoldable pub header_map : List (Text × Text) → List (Text × Text) → List (Text × Text)
  header_map ret [] = ret
  header_map ret (row ∷ rows) = header_map (insert_header ret row) rows

  unfoldable pub default_response_headers : HeaderMap → List Text → List (Text × Text)
  default_response_headers request_headers allowed =
      header_map [] (default_rows ++ cors_rows (reflected request_headers allowed))
