-- ===== src/Cors/Tests.antt =====
-- Runs of the rule on credentials.
use apimock_rs.Prelude.{if◌then◌else◌, ◌≡◌, refl, ◌↔◌, Bool, true, false, ◌||◌, none, some, [], ◌∷◌}
use apimock_rs.Prelude.Dict.{lookup_in}
use apimock_rs.Prelude.Text.{Text, codes, text_eq, strip_prefix, is_ascii_digit}
use apimock_rs.Routing.Headers.{HeaderMap, readable}
use apimock_rs.Cors.{
  allow_credentials, allow_origin, has_loopback_host, is_implicit_loopback_origin,
  is_credentialed_reflection_allowed, is_likely_authenticated_request, reflected, header_map,
  default_response_headers,
}
use apimock_rs.Cors.Loopback.{IsLoopback, is_implicit_loopback_origin_iff}
use apimock_rs.Cors.Credentials.{IsTrusted, value_of, default_response_headers_lem}

runs : Unit {0}
unfolding has_loopback_host is_implicit_loopback_origin is_credentialed_reflection_allowed
    is_likely_authenticated_request reflected header_map default_response_headers text_eq
    strip_prefix is_ascii_digit lookup_in
runs = tt

abbrev is_filled : Text → Bool
is_filled [] = false
is_filled _ = true

abbrev from : Text → HeaderMap
from origin = record {
  contains_key = λ name. text_eq name (codes "cookie") || text_eq name (codes "origin");
  get = λ name. if text_eq name (codes "origin") then some (readable origin) else none;
}

loopback_tests :
    (is_implicit_loopback_origin (codes "http://localhost:5173") ≡ true)
    × (is_implicit_loopback_origin (codes "http://localhost.evil.example") ≡ false)
    × (is_implicit_loopback_origin (codes "http://127.0.0.1:") ≡ false)
unfolding runs
loopback_tests = (refl, refl, refl)

abbrev evil : Text
evil = codes "http://evil.example"

header_tests :
    (value_of allow_origin (default_response_headers is_filled is_filled (from evil) [])
      ≡ some (codes "*"))
    × (value_of allow_origin (default_response_headers is_filled is_filled (from evil) (evil ∷ []))
        ≡ some evil)
unfolding runs
header_tests = (refl, refl)

is_implicit_loopback_origin_iff_example :
    (is_implicit_loopback_origin (codes "http://localhost:5173") ≡ true)
    ↔ IsLoopback (codes "http://localhost:5173")
is_implicit_loopback_origin_iff_example =
    is_implicit_loopback_origin_iff (codes "http://localhost:5173")

default_response_headers_lem_example :
    ((value_of allow_credentials
          (default_response_headers is_filled is_filled (from evil) (evil ∷ []))
        ≡ some (codes "true"))
      ↔ ((origin : Text) × IsTrusted is_filled is_filled (from evil) (evil ∷ []) origin))
    × ((origin : Text)
        → IsTrusted is_filled is_filled (from evil) (evil ∷ []) origin
        → value_of allow_origin
            (default_response_headers is_filled is_filled (from evil) (evil ∷ []))
          ≡ some origin)
default_response_headers_lem_example =
    default_response_headers_lem is_filled is_filled (from evil) (evil ∷ []) refl refl refl
