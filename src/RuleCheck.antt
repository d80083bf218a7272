-- ===== src/RuleCheck.antt =====
-- crates/apimock/src/cmd/rule_check.rs: the verdicts on single conditions that `match-test` and
-- `get --why` print, with the texts that they are printed with.
mod Tests
pub mod Agreement
pub mod Display
use apimock_rs.Prelude.{
  Bool, true, false, not, Option, none, some, List, [], ◌∷◌, ◌++◌, map, unwrap_or,
}
use apimock_rs.Prelude.Text.{Text, codes, text_eq, eq_ignore_ascii_case}
use apimock_rs.Routing.Json.{Json, json_value_by_jsonpath}
use apimock_rs.Routing.Libraries.{Libraries}
use apimock_rs.Routing.RuleOp.{RuleOp, UrlPathConfig, simple, detailed, op_is_match}
use apimock_rs.Routing.HttpMethod.{as_str}
use apimock_rs.Routing.Headers.{
  HeaderOperator, HeaderConditionStatement, HeaderMap, HeaderValue, readable, unreadable,
  to_rule_op, compare_value,
}
use apimock_rs.Routing.BodyOperator.{BodyOperator, body_op_is_match}
use apimock_rs.Routing.Body.{Body, Conditions, BodyConditionStatement, json_conditions}
use apimock_rs.Routing.Request.{Request, ParsedRequest}
use apimock_rs.Routing.Rule.{Rule}
use apimock_rs.RuleCheck.Display.{rule_op_text, header_operator_text, body_operator_text}

pub record ConditionCheck : Type 0 where
  pub name : Text
  pub expectation : Text
  pub actual : Text
  pub matched : Bool
  pub legacy_text : Text

-- The pieces of a `format!` in order.
unfoldable pub format : List Text → Text
format [] = []
format (piece ∷ pieces) = piece ++ format pieces

-- `debug` is `{:?}` of a string: its quotes and escapes stand on Unicode's tables.
module _ (lib : Libraries) (debug : Text → Text) where
  open lib use {Number, to_text}

  unfoldable pub check_url_path : Request → ParsedRequest Number → List ConditionCheck
  check_url_path req parsed = elim (req.url_path_config) [
    | none ↦ []
    | some (simple p) ↦
        record {
          name = codes "url_path";
          expectation = format (codes "equal " ∷ debug p ∷ []);
          actual = parsed.url_path;
          matched = text_eq parsed.url_path p;
          legacy_text = format (codes "url_path equal " ∷ debug p ∷ []);
        }
        ∷ []
    | some (detailed u) ↦
        let op = unwrap_or u.op RuleOp.equal in
        record {
          name = codes "url_path";
          expectation = format (rule_op_text op ∷ codes " " ∷ debug u.value ∷ []);
          actual = parsed.url_path;
          matched = op_is_match lib op parsed.url_path u.value;
          legacy_text =
              format (codes "url_path " ∷ rule_op_text op ∷ codes " " ∷ debug u.value ∷ []);
        }
        ∷ []
  ]

  unfoldable pub check_method : Request → ParsedRequest Number → List ConditionCheck
  check_method req parsed = elim (req.http_method) [
    | none ↦ []
    | some m ↦
        let expected = as_str m in
        let actual = parsed.method in
        record {
          name = codes "method";
          expectation = expected;
          actual = actual;
          matched = eq_ignore_ascii_case actual expected;
          legacy_text =
              format (codes "method " ∷ expected ∷ codes " (actual: " ∷ actual ∷ codes ")" ∷ []);
        }
        ∷ []
  ]

  -- The verdict on a value operator.
  abbrev pub value_matched : HeaderOperator → Option HeaderValue → Text → Bool
  value_matched op none value = false
  value_matched op (some (readable v)) value = compare_value lib (to_rule_op op) v value
  value_matched op (some unreadable) value = false

  unfoldable pub header_matched : HeaderMap → HeaderOperator → Text → Text → Bool
  header_matched headers HeaderOperator.exists name value = headers.contains_key name
  header_matched headers HeaderOperator.absent name value = not (headers.contains_key name)
  header_matched headers op name value = value_matched op (headers.get name) value

  unfoldable pub header_actual : Option HeaderValue → Text
  header_actual none = codes "(absent)"
  header_actual (some (readable v)) = v
  header_actual (some unreadable) = codes "(not valid UTF-8)"

  -- The body of the loop of `check_headers`.
  unfoldable pub check_header : HeaderMap → Text × HeaderConditionStatement → ConditionCheck
  check_header headers (name, stmt) =
      let op = unwrap_or stmt.op HeaderOperator.equal in
      record {
        name = format (codes "header:" ∷ name ∷ []);
        expectation = format (header_operator_text op ∷ codes " " ∷ debug stmt.value ∷ []);
        actual = header_actual (headers.get name);
        matched = header_matched headers op name stmt.value;
        legacy_text = format (
            codes "header "
            ∷ debug name
            ∷ codes " "
            ∷ header_operator_text op
            ∷ codes " "
            ∷ debug stmt.value
            ∷ []);
      }

  unfoldable pub check_headers : Request → ParsedRequest Number → List ConditionCheck
  check_headers req parsed = elim (req.headers) [
    | none ↦ []
    | some headers ↦ map (check_header parsed.headers) headers
  ]

  -- A path that does not resolve satisfies `absent` alone.
  unfoldable pub body_matched : BodyOperator → Option (Json Number) → Text → Bool
  body_matched BodyOperator.absent none value = true
  body_matched _ none value = false
  body_matched op (some v) value = body_op_is_match lib op v value

  abbrev pub resolved_text : Option (Json Number) → Text
  resolved_text none = codes "(absent)"
  resolved_text (some v) = to_text v

  -- The body of the loop of `check_body`.
  unfoldable pub check_condition : Json Number → Text × BodyConditionStatement → ConditionCheck
  check_condition body_json (path, stmt) =
      let op = unwrap_or stmt.op BodyOperator.equal in
      let resolved = json_value_by_jsonpath body_json path in
      let actual = resolved_text resolved in
      record {
        name = format (codes "body.json:" ∷ path ∷ []);
        expectation = format (body_operator_text op ∷ codes " " ∷ debug stmt.value ∷ []);
        actual = actual;
        matched = body_matched op resolved stmt.value;
        legacy_text = format (
            codes "body.json "
            ∷ debug path
            ∷ codes " "
            ∷ body_operator_text op
            ∷ codes " "
            ∷ debug stmt.value
            ∷ codes "  (actual: "
            ∷ actual
            ∷ codes ")"
            ∷ []);
      }

  abbrev no_json_body : ConditionCheck
  no_json_body = record {
    name = codes "body";
    expectation = codes "a JSON body";
    actual = codes "(no JSON body)";
    matched = false;
    legacy_text = codes "body (request has no JSON body)";
  }

  abbrev pub check_conditions : Json Number → Option Conditions → List ConditionCheck
  check_conditions body_json none = []
  check_conditions body_json (some conditions) = map (check_condition body_json) conditions

  abbrev pub check_json : Body → Option (Json Number) → List ConditionCheck
  check_json body none = no_json_body ∷ []
  check_json body (some body_json) = check_conditions body_json (json_conditions body)

  unfoldable pub check_body : Request → ParsedRequest Number → List ConditionCheck
  check_body req parsed = elim (req.body) [
    | none ↦ []
    | some body ↦ check_json body parsed.body_json
  ]

  -- The four kinds of conditions in order, pushed on one vector.
  unfoldable pub evaluate_rule : Rule → ParsedRequest Number → List ConditionCheck
  evaluate_rule rule parsed =
      let req = rule.when.request in
      check_url_path req parsed
      ++ (check_method req parsed ++ (check_headers req parsed ++ check_body req parsed))
