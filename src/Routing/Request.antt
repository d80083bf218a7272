-- ===== src/Routing/Request.antt =====
-- crates/apimock-routing/src/rule_set/rule/when/request.rs and when.rs, which passes both calls on,
-- and crates/apimock-routing/src/parsed_request.rs.
use apimock_rs.Prelude.{ℕ, Bool, true, ◌&&◌, ◌||◌, Option, is_none_or, is_some}
use apimock_rs.Prelude.Text.{Text}
use apimock_rs.Routing.Json.{Json}
use apimock_rs.Routing.Libraries.{Libraries}
use apimock_rs.Routing.RuleOp.{UrlPath, UrlPathConfig, url_path_is_match}
use apimock_rs.Routing.HttpMethod.{HttpMethod, method_is_match}
use apimock_rs.Routing.Headers.{Headers, HeaderMap, headers_is_match, headers_validate}
use apimock_rs.Routing.Body.{Body, body_is_match, body_validate}

pub record Request : Type 0 where
  pub url_path_config : Option UrlPathConfig
  pub url_path : Option UrlPath
  pub http_method : Option HttpMethod
  pub headers : Option Headers
  pub body : Option Body

-- `ParsedRequest`, with the parts of `component_parts` that the matcher reads.
pub record ParsedRequest (N : Type 0) : Type 0 where
  pub url_path : Text
  pub method : Text
  pub headers : HeaderMap
  pub body_json : Option (Json N)
  pub body_len : Option ℕ

module _ (lib : Libraries) where
  open lib use {Number}

  -- `Request::is_match`: the conditions that are given hold.
  unfoldable pub is_match : Request → ParsedRequest Number → Bool
  is_match req parsed =
      is_none_or (λ u. url_path_is_match lib u parsed.url_path) req.url_path
      && is_none_or (λ m. method_is_match m parsed.method) req.http_method
      && is_none_or (λ h. headers_is_match lib h parsed.headers) req.headers
      && is_none_or (λ b. body_is_match lib b parsed.body_json) req.body

-- `UrlPath::validate`.
abbrev pub url_path_validate : UrlPath → Bool
url_path_validate u = true

-- `Request::validate`: at least one condition, and each is well formed.
unfoldable pub validate : Request → Bool
unfolding headers_validate body_validate
validate req =
    (is_some req.url_path || is_some req.http_method || is_some req.headers || is_some req.body)
    && is_none_or url_path_validate req.url_path
    && is_none_or headers_validate req.headers
    && is_none_or body_validate req.body
