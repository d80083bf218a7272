-- ===== src/Workspace/Payload.antt =====
-- crates/apimock-config/src/workspace/edit/payload.rs, on the payloads of crates/apimock-config/src/view.rs.
pub mod Choices
pub mod Listed
use mathlib.Core.Option
use apimock_rs.Prelude.{
  ℕ, Bool, not, ◌&&◌, Option, none, some, List, [], ◌∷◌, if◌then◌else◌, is_some, unwrap_or, filter,
  map,
}
use apimock_rs.Prelude.Int.{ℤ}
use apimock_rs.Prelude.Text.{Text, text_eq, lower_char, upper_char}
use apimock_rs.Routing.Json.{Json}
use apimock_rs.Routing.Libraries.{Libraries}
use apimock_rs.Routing.RuleOp.{RuleOp, UrlPathConfig, simple, detailed}
use apimock_rs.Routing.HttpMethod.{HttpMethod, parse_config_token, unmatchable_reason}
use apimock_rs.Routing.Headers.{HeaderOperator, Headers}
use apimock_rs.Routing.Body.{BodyKind, Conditions, Body}
use apimock_rs.Routing.BodyOperator.{BodyOperator, value_as_string}
use apimock_rs.Routing.Rule.{Rule, Respond, Prefix, new_rule, compute_derived_fields}
use apimock_rs.Routing.Strategy.{Strategy, to_string}
use apimock_rs.Workspace.View.{
  UrlPathOp, equal, starts_with, not_starts_with, ends_with, not_ends_with, contains, not_contains,
  wild_card, not_equal, regex, not_regex, HeaderOp, exists, absent, BodyOp, equal_string,
  equal_typed, equal_number, greater_than, less_than, greater_or_equal, less_or_equal,
  array_length_equal, array_length_at_least, array_contains, equal_integer, map_has_key,
  map_does_not_have_key, structural_contains, HeaderConditionPayload, BodyConditionPayload,
  RespondPayload, RulePayload, EditValue, string, integer, boolean, string_list, enum,
}
use apimock_rs.Workspace.State.{
  invalid_payload, op_without_url_path, unsupported_method, Result, ok, err, expected_string,
  expected_integer, expected_boolean, expected_string_list,
}

unfoldable pub url_path_op_to_routing : UrlPathOp → RuleOp
url_path_op_to_routing equal = RuleOp.equal
url_path_op_to_routing starts_with = RuleOp.starts_with
url_path_op_to_routing not_starts_with = RuleOp.not_starts_with
url_path_op_to_routing contains = RuleOp.contains
url_path_op_to_routing not_contains = RuleOp.not_contains
url_path_op_to_routing ends_with = RuleOp.ends_with
url_path_op_to_routing not_ends_with = RuleOp.not_ends_with
url_path_op_to_routing wild_card = RuleOp.wild_card
url_path_op_to_routing not_equal = RuleOp.not_equal
url_path_op_to_routing regex = RuleOp.regex
url_path_op_to_routing not_regex = RuleOp.not_regex

unfoldable pub header_op_to_routing : HeaderOp → HeaderOperator
header_op_to_routing equal = HeaderOperator.equal
header_op_to_routing not_equal = HeaderOperator.not_equal
header_op_to_routing starts_with = HeaderOperator.starts_with
header_op_to_routing not_starts_with = HeaderOperator.not_starts_with
header_op_to_routing ends_with = HeaderOperator.ends_with
header_op_to_routing not_ends_with = HeaderOperator.not_ends_with
header_op_to_routing contains = HeaderOperator.contains
header_op_to_routing not_contains = HeaderOperator.not_contains
header_op_to_routing wild_card = HeaderOperator.wild_card
header_op_to_routing regex = HeaderOperator.regex
header_op_to_routing not_regex = HeaderOperator.not_regex
header_op_to_routing exists = HeaderOperator.exists
header_op_to_routing absent = HeaderOperator.absent

unfoldable pub body_op_to_routing : BodyOp → BodyOperator
body_op_to_routing equal = BodyOperator.equal
body_op_to_routing equal_string = BodyOperator.equal_string
body_op_to_routing contains = BodyOperator.contains
body_op_to_routing not_contains = BodyOperator.not_contains
body_op_to_routing starts_with = BodyOperator.starts_with
body_op_to_routing not_starts_with = BodyOperator.not_starts_with
body_op_to_routing ends_with = BodyOperator.ends_with
body_op_to_routing not_ends_with = BodyOperator.not_ends_with
body_op_to_routing regex = BodyOperator.regex
body_op_to_routing not_regex = BodyOperator.not_regex
body_op_to_routing equal_typed = BodyOperator.equal_typed
body_op_to_routing equal_number = BodyOperator.equal_number
body_op_to_routing greater_than = BodyOperator.greater_than
body_op_to_routing less_than = BodyOperator.less_than
body_op_to_routing greater_or_equal = BodyOperator.greater_or_equal
body_op_to_routing less_or_equal = BodyOperator.less_or_equal
body_op_to_routing exists = BodyOperator.exists
body_op_to_routing absent = BodyOperator.absent
body_op_to_routing array_length_equal = BodyOperator.array_length_equal
body_op_to_routing array_length_at_least = BodyOperator.array_length_at_least
body_op_to_routing array_contains = BodyOperator.array_contains
body_op_to_routing equal_integer = BodyOperator.equal_integer
body_op_to_routing map_has_key = BodyOperator.map_has_key
body_op_to_routing map_does_not_have_key = BodyOperator.map_does_not_have_key
body_op_to_routing structural_contains = BodyOperator.structural_contains

-- `IndexMap::insert`: a key that is there keeps its place, a new one goes to the end.
unfoldable pub insert_entry {ℓ} : {V : Type ℓ} → Text → V → List (Text × V) → List (Text × V)
insert_entry k v [] = (k, v) ∷ []
insert_entry k v ((j, w) ∷ m) =
    let rest = insert_entry k v m in if text_eq j k then (j, v) ∷ m else (j, w) ∷ rest

-- `IndexMap::shift_remove`; no key stands twice.
unfoldable pub shift_remove {ℓ} : {V : Type ℓ} → Text → List (Text × V) → List (Text × V)
shift_remove k m = filter (λ row. not (text_eq row.0 k)) m

-- `parse_set_method`.
unfoldable pub parse_set_method : Text → Option HttpMethod
parse_set_method token = elim (parse_config_token token) [
  | some method ↦ some method
  | none ↦
      if text_eq token (map lower_char token)
      then parse_config_token (map upper_char token)
      else none
]

-- `strategy_after_choosing`.
unfoldable pub strategy_after_choosing : Option Strategy → Strategy → Strategy
strategy_after_choosing none chosen = chosen
strategy_after_choosing (some current) chosen =
    if text_eq (to_string current) (to_string chosen) then current else chosen

unfoldable pub build_respond_from_payload : RespondPayload → Respond
build_respond_from_payload payload = record {
  file_path = payload.file_path;
  csv_records_key = none;
  text = payload.text;
  json = payload.json;
  status = payload.status;
  status_code = none;
  headers = none;
  delay_response_milliseconds = payload.delay_milliseconds;
}

-- The four conversions of a value.
unfoldable pub value_as_text : {N : Type 0} → EditValue N → Result Text
value_as_text (string s) = ok s
value_as_text (enum s) = ok s
value_as_text _ = err (invalid_payload expected_string)

unfoldable pub value_as_integer : {N : Type 0} → EditValue N → Result ℤ
value_as_integer (integer n) = ok n
value_as_integer _ = err (invalid_payload expected_integer)

unfoldable pub value_as_bool : {N : Type 0} → EditValue N → Result Bool
value_as_bool (boolean b) = ok b
value_as_bool _ = err (invalid_payload expected_boolean)

unfoldable pub value_as_string_list : {N : Type 0} → EditValue N → Result (List Text)
value_as_string_list (string_list v) = ok v
value_as_string_list (string s) = ok (s ∷ [])
value_as_string_list _ = err (invalid_payload expected_string_list)

-- The path condition of a payload: a plain path for `equal`, which is also the default.
unfoldable pub build_url_path : Text → Option UrlPathOp → UrlPathConfig
build_url_path s none = simple s
build_url_path s (some equal) = simple s
build_url_path s (some op) =
    detailed record { value = s; value_with_prefix = []; op = some (url_path_op_to_routing op) }

unfoldable pub build_method : Option Text → Result (Option HttpMethod)
build_method none = ok none
build_method (some token) = elim (parse_set_method token) [
  | some method ↦ ok (some method)
  | none ↦ err (invalid_payload (unsupported_method token (unmatchable_reason token)))
]

-- Headers and body of the rule that is rebuilt: `none` keeps them, an empty list clears them.
abbrev pub kept_or_built {ℓ κ} :
    {A : Type ℓ} {B : Type κ} → Option (List A) → Option B → (List A → B) → Option B
kept_or_built none old build = old
kept_or_built (some []) old build = none
kept_or_built (some (c ∷ cs)) old build = some (build (c ∷ cs))

-- `existing.and_then(|prev| …)`.
abbrev pub existing_and {ℓ} : {A : Type ℓ} → Option Rule → (Rule → Option A) → Option A
existing_and none f = none
existing_and (some prev) f = f prev

-- `to_lowercase` lowers letters beyond ASCII too, by the tables of the standard library.
module _ (lib : Libraries) (to_lowercase : Text → Text) where
  open lib use {Number}

  unfoldable pub add_headers : List HeaderConditionPayload → Headers → Headers
  add_headers [] headers = headers
  add_headers (cond ∷ conds) headers = add_headers conds (
      insert_entry (to_lowercase cond.name)
        record { op = some (header_op_to_routing cond.op); value = unwrap_or cond.value [] }
        headers)

  -- `build_headers`.
  unfoldable pub build_headers : List HeaderConditionPayload → Headers
  build_headers conds = add_headers conds []

  unfoldable pub add_conditions : List (BodyConditionPayload Number) → Conditions → Conditions
  add_conditions [] conditions = conditions
  add_conditions (cond ∷ conds) conditions = add_conditions conds (
      insert_entry cond.path
        record { op = some (body_op_to_routing cond.op); value = value_as_string lib cond.value }
        conditions)

  -- `build_body`.
  unfoldable pub build_body : List (BodyConditionPayload Number) → Body
  build_body conds = (BodyKind.json, add_conditions conds []) ∷ []

  unfoldable pub build_rule :
      RulePayload Number → Option Prefix → Option Rule → Option HttpMethod → Rule
  build_rule payload prefix existing http_method =
      compute_derived_fields lib prefix
        record (new_rule
          record {
            request = record {
              url_path_config =
                  Option.map (λ s. build_url_path s payload.url_path_op) payload.url_path;
              url_path = none;
              http_method = http_method;
              headers =
                  kept_or_built payload.headers
                    (existing_and existing (λ prev. prev.when.request.headers)) build_headers;
              body =
                  kept_or_built payload.body
                    (existing_and existing (λ prev. prev.when.request.body)) build_body;
            };
          }
          (build_respond_from_payload payload.respond)) {
            priority = payload.priority;
            weight = existing_and existing (λ prev. prev.weight);
          }

  -- `build_rule_from_payload`; of the rule set it reads the prefix.
  unfoldable pub build_rule_from_payload :
      RulePayload Number → Option Prefix → Option Rule → Result Rule
  build_rule_from_payload payload prefix existing =
      if not (is_some payload.url_path) && is_some payload.url_path_op
      then err (invalid_payload op_without_url_path)
      else elim (build_method payload.method) [
        | ok http_method ↦ ok (build_rule payload prefix existing http_method)
        | err e ↦ err e
      ]
