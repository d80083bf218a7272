-- ===== src/Routing/HttpMethod.antt =====
-- crates/apimock-routing/src/rule_set/rule/when/request/http_method.rs.
pub mod Tokens
use apimock_rs.Prelude.{Option, none, some, List, [], ◌∷◌, if◌then◌else◌, map}
use apimock_rs.Prelude.{Bool, ◌++◌}
use apimock_rs.Prelude.Text.{Text, codes, text_eq, eq_ignore_ascii_case, upper_char}

pub data HttpMethod : Type 0 where
  get post put delete patch : HttpMethod

-- `MATCHABLE`.
abbrev pub matchable : List (Text × HttpMethod)
matchable =
    (codes "GET", get)
    ∷ (codes "POST", post)
    ∷ (codes "PUT", put)
    ∷ (codes "DELETE", delete)
    ∷ (codes "PATCH", patch)
    ∷ []

-- `NOT_MATCHABLE`, with the reasons.
abbrev pub not_matchable : List (Text × Text)
not_matchable =
    (
      codes "OPTIONS",
      codes
          "is answered by the built-in CORS preflight handler before rule sets are consulted, so it cannot be matched by a rule",
    )
    ∷ (
      codes "HEAD",
      codes
          "is not matchable yet: a rule could answer it with a response body, which HTTP forbids for HEAD",
    )
    ∷ (
      codes "TRACE",
      codes
          "is not supported: TRACE is commonly disabled as a security measure and has no meaning for a mock server",
    )
    ∷ (
      codes "CONNECT",
      codes "is not supported: CONNECT is a proxy mechanism with no meaning for a mock server",
    )
    ∷ []

unfoldable pub as_str : HttpMethod → Text
as_str get = codes "GET"
as_str post = codes "POST"
as_str put = codes "PUT"
as_str delete = codes "DELETE"
as_str patch = codes "PATCH"

-- `HttpMethod::is_match`: the method on the wire in any case.
unfoldable pub method_is_match : HttpMethod → Text → Bool
method_is_match m http_method = eq_ignore_ascii_case (as_str m) http_method

-- `.iter().find(|(name, _)| *name == token).map(|(_, v)| v)`.
unfoldable pub find_name {ℓ} : {A : Type ℓ} → Text → List (Text × A) → Option A
find_name token [] = none
find_name token ((name, v) ∷ rows) = if text_eq name token then some v else find_name token rows

unfoldable pub parse_config_token : Text → Option HttpMethod
unfolding find_name
parse_config_token token = find_name token matchable

unfoldable pub matchable_names : List Text
matchable_names = map (λ row. row.0) matchable

unfoldable pub unmatchable_reason : Text → Option Text
unfolding find_name
unmatchable_reason token = find_name token not_matchable

-- `matchable_names().find(|name| name.eq_ignore_ascii_case(&token))`.
unfoldable pub find_ignoring_case : Text → List Text → Option Text
find_ignoring_case token [] = none
find_ignoring_case token (name ∷ names) =
    if eq_ignore_ascii_case name token then some name else find_ignoring_case token names

-- `.map(|name| format!("`{name}`")).join(", ")`.
unfoldable pub quoted_names : List Text → Text
quoted_names [] = []
quoted_names (name ∷ []) = codes "`" ++ (name ++ codes "`")
quoted_names (name ∷ next ∷ names) =
    codes "`" ++ (name ++ (codes "`, " ++ quoted_names (next ∷ names)))

-- What follows the list of names in a refusal: the reason of an excluded method, or the spelling
-- that a token in the wrong case may mean. The source's em dash is the code point 8212.
unfoldable pub hint : Text → Option Text → Option Text → Text
hint upper (some reason) canonical = codes "\n  — " ++ (upper ++ (codes " " ++ reason))
hint upper none (some canonical) =
    codes "\n  — did you mean `" ++ (canonical ++ codes "`? method values are upper-case")
hint upper none none = []

pub data Parsed : Type 0 where
  parsed : HttpMethod → Parsed
  refused : Text → Parsed

-- `HttpMethod::try_from`.
unfoldable pub try_from : Text → Parsed
try_from token = elim (parse_config_token token) [
  | some method ↦ parsed method
  | none ↦
      let upper = map upper_char token in
      refused (
        codes "unknown variant `"
        ++ (token
            ++ (codes "`, expected one of "
                ++ (quoted_names matchable_names
                    ++ hint upper (unmatchable_reason upper)
                        (find_ignoring_case token matchable_names)))))
]
