-- ===== src/RuleCheck/Agreement.antt =====
-- The verdicts of `evaluate_rule` and the server's `Request::is_match`.
use mathlib.Core.Option
use apimock_rs.Prelude.{
  ◌≡◌, refl, Bool, true, ◌&&◌, Option, none, some, List, [], ◌∷◌, ◌++◌, map, arith, Option-cases,
  inl, inr, unwrap_or, is_none_or, all,
}
use apimock_rs.Prelude.Text.{Text, text_eq, eq_ignore_ascii_case}
use apimock_rs.Routing.Json.{Json, json_value_by_jsonpath}
use apimock_rs.Routing.Libraries.{Libraries}
use apimock_rs.Routing.RuleOp.{
  RuleOp, UrlPath, UrlPathConfig, simple, detailed, op_is_match, operand, url_path_is_match,
}
use apimock_rs.Routing.HttpMethod.{as_str, method_is_match}
use apimock_rs.Routing.Headers.{HeaderOperator, HeaderMap, header_is_match, headers_is_match}
use apimock_rs.Routing.BodyOperator.{BodyOperator, body_op_is_match}
use apimock_rs.Routing.Body.{
  Body, BodyKind, json_conditions, condition_is_match, statement_is_match, conditions_match,
  body_is_match, body_validate,
}
use apimock_rs.Routing.Request.{Request, ParsedRequest, is_match, validate}
use apimock_rs.Routing.Rule.{
  Prefix, Rule, url_path_with_prefix, derived_url_path, compute_derived_fields,
}
use apimock_rs.RuleCheck.{
  ConditionCheck, check_url_path, check_method, header_matched, check_header, check_headers,
  body_matched, check_condition, check_json, check_body, evaluate_rule,
}

-- Every condition of the list holds.
abbrev pub all_matched : List ConditionCheck → Bool
all_matched = all (λ c. c.matched)

all-append {ℓ} :
    {A : Type ℓ} (p : A → Bool) (xs ys : List A) → all p (xs ++ ys) ≡ (all p xs && all p ys)
all-append p [] ys = refl
all-append p (x ∷ xs) ys = ground (arith, all-append p xs ys)

all-map {ℓ κ} :
    {A : Type ℓ} {B : Type κ} (p : B → Bool) (f : A → B) (q : A → Bool) (xs : List A)
    → ((x : A) → p (f x) ≡ q x)
    → all p (map f xs) ≡ all q xs
all-map p f q [] h = refl
all-map p f q (x ∷ xs) h = ground (arith, h x, all-map p f q xs h)

eq_ignore_ascii_case-sym : (s t : Text) → eq_ignore_ascii_case s t ≡ eq_ignore_ascii_case t s
unfolding eq_ignore_ascii_case text_eq
eq_ignore_ascii_case-sym [] [] = refl
eq_ignore_ascii_case-sym [] (d ∷ t) = refl
eq_ignore_ascii_case-sym (c ∷ s) [] = refl
eq_ignore_ascii_case-sym (c ∷ s) (d ∷ t) = ground (arith, eq_ignore_ascii_case-sym s t)

-- The value that the server compares a path with is the one that the file spells.
abbrev pub IsSpelledOut : Option Prefix → Option UrlPathConfig → Type 0
IsSpelledOut prefix none = Unit
IsSpelledOut prefix (some (simple p)) = url_path_with_prefix p prefix ≡ p
IsSpelledOut prefix (some (detailed u)) = url_path_with_prefix u.value prefix ≡ u.value

module _ (lib : Libraries) (debug : Text → Text) where
  open lib use {Number}

  header-agrees :
      (headers : HeaderMap) (op : HeaderOperator) (name value : Text)
      → header_matched lib debug headers op name value ≡ header_is_match lib headers op name value
  unfolding header_matched header_is_match
  header-agrees headers op name value = ground arith

  body-agrees :
      (op : BodyOperator) (resolved : Option (Json Number)) (value : Text)
      → body_matched lib debug op resolved value ≡ condition_is_match lib op resolved value
  unfolding body_matched condition_is_match body_op_is_match
  body-agrees op none value = ground arith
  body-agrees op (some v) value = ground arith

  -- `Body::validate` rules out a body without conditions.
  body-json-agrees :
      (b : Body) (body : Option (Json Number))
      → body_validate b ≡ true
      → all_matched (check_json lib debug b body) ≡ body_is_match lib b body
  unfolding body_validate json_conditions body_is_match conditions_match check_condition
      statement_is_match
  body-json-agrees b none h = refl
  body-json-agrees [] (some v) h = cc
  body-json-agrees ((BodyKind.json, []) ∷ rest) (some v) h = cc
  body-json-agrees ((BodyKind.json, c ∷ cs) ∷ rest) (some v) h =
      all-map (λ c. c.matched) (check_condition lib debug v) _ (c ∷ cs)
        (λ (path, stmt).
          body-agrees (unwrap_or stmt.op BodyOperator.equal) (json_value_by_jsonpath v path)
            stmt.value)

  headers-agree :
      (req : Request) (parsed : ParsedRequest Number)
      → all_matched (check_headers lib debug req parsed)
        ≡ is_none_or (λ h. headers_is_match lib h parsed.headers) req.headers
  unfolding check_headers check_header headers_is_match
  headers-agree req parsed = elim (Option-cases req.headers) [
    | inl e ↦ rw e refl
    | inr (headers, e) ↦ rw e (
        all-map (λ c. c.matched) (check_header lib debug parsed.headers) _ headers
          (λ (name, stmt).
            header-agrees parsed.headers (unwrap_or stmt.op HeaderOperator.equal) name stmt.value))
  ]

  method-agrees :
      (req : Request) (parsed : ParsedRequest Number)
      → all_matched (check_method lib debug req parsed)
        ≡ is_none_or (λ m. method_is_match m parsed.method) req.http_method
  unfolding check_method method_is_match
  method-agrees req parsed = elim (Option-cases req.http_method) [
    | inl e ↦ rw e refl
    | inr (m, e) ↦ rw e (ground (arith, eq_ignore_ascii_case-sym parsed.method (as_str m)))
  ]

  body-agrees-all :
      (req : Request) (parsed : ParsedRequest Number)
      → is_none_or body_validate req.body ≡ true
      → all_matched (check_body lib debug req parsed)
        ≡ is_none_or (λ b. body_is_match lib b parsed.body_json) req.body
  unfolding check_body
  body-agrees-all req parsed h = elim (Option-cases req.body) [
    | inl e ↦ rw e refl
    | inr (b, e) ↦ rw e (body-json-agrees b parsed.body_json (rw e at h))
  ]

  value-agrees :
      (prefix : Option Prefix) (u : UrlPath) (path : Text) (op : RuleOp)
      → url_path_with_prefix u.value prefix ≡ u.value
      → (op_is_match lib op path u.value && true)
        ≡ op_is_match lib op path (operand lib op (derived_url_path prefix (detailed u)))
  unfolding operand derived_url_path
  value-agrees prefix u path op h = rw h (ground arith)

  url_path-agrees :
      (prefix : Option Prefix) (req : Request) (parsed : ParsedRequest Number)
      → IsSpelledOut prefix req.url_path_config
      → all_matched (check_url_path lib debug req parsed)
        ≡ is_none_or
            (λ u. url_path_is_match lib u parsed.url_path)
            (Option.map (derived_url_path prefix) req.url_path_config)
  unfolding check_url_path url_path_is_match derived_url_path operand op_is_match
  url_path-agrees prefix req parsed h = elim (Option-cases req.url_path_config) [
    | inl e ↦ rw e refl
    | inr (simple p, e) ↦
        rw e (let same : url_path_with_prefix p prefix ≡ p = rw e at h in rw same (ground arith))
    | inr (detailed u, e) ↦
        rw e (value-agrees prefix u parsed.url_path (unwrap_or u.op RuleOp.equal) (rw e at h))
  ]

  -- `match-test` and the server agree: when the rule has been derived and validated and the derived
  -- path is spelled as the configured one, every condition that `evaluate_rule` lists holds exactly
  -- when the server's `Request::is_match` accepts the request.
  pub evaluate_rule-is_match :
      (prefix : Option Prefix) (rule : Rule) (parsed : ParsedRequest Number)
      → IsSpelledOut prefix rule.when.request.url_path_config
      → validate (compute_derived_fields lib prefix rule).when.request ≡ true
      → all_matched (evaluate_rule lib debug (compute_derived_fields lib prefix rule) parsed)
        ≡ is_match lib (compute_derived_fields lib prefix rule).when.request parsed
  unfolding evaluate_rule is_match compute_derived_fields validate
  evaluate_rule-is_match prefix rule parsed spelled valid =
      let req = (compute_derived_fields lib prefix rule).when.request in
      rw
        (
          all-append (λ c. c.matched) (check_url_path lib debug req parsed)
              (check_method lib debug req parsed
                ++ (check_headers lib debug req parsed ++ check_body lib debug req parsed)),
          all-append (λ c. c.matched) (check_method lib debug req parsed)
              (check_headers lib debug req parsed ++ check_body lib debug req parsed),
          all-append (λ c. c.matched) (check_headers lib debug req parsed)
              (check_body lib debug req parsed),
          url_path-agrees prefix req parsed spelled,
          method-agrees req parsed,
          headers-agree req parsed,
          body-agrees-all req parsed (ground (arith, valid)),
        )
        (ground arith)
