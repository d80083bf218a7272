-- ===== src/RuleCheck/Tests.antt =====
-- A run of `evaluate_rule` beside the server's verdict.
use apimock_rs.Prelude.{ℕ, ◌≡◌, refl, ◌++◌, Option, none, some, [], ◌∷◌, true, false}
use apimock_rs.Prelude.Text.{Text, codes, text_eq, strip_prefix, strip_suffix, split, join}
use apimock_rs.Routing.Libraries.Sample.{sample}
use apimock_rs.Routing.Headers.{HeaderOperator, headers_validate}
use apimock_rs.Routing.HttpMethod.{HttpMethod}
use apimock_rs.Routing.Body.{BodyKind, body_validate}
use apimock_rs.Routing.RuleOp.{simple, url_path_is_match, operand, op_is_match}
use apimock_rs.Routing.Request.{ParsedRequest, is_match, validate}
use apimock_rs.Routing.Rule.{
  Rule, Prefix, url_path_with_prefix, derived_url_path, compute_derived_fields,
}
use apimock_rs.Routing.UrlPath.{trimmed_prefix, trim_slashes, rebuild, normalize_url_path}
use apimock_rs.RuleCheck.{check_url_path, evaluate_rule}
use apimock_rs.RuleCheck.Agreement.{all_matched, evaluate_rule-is_match}

abbrev quoted : Text → Text
quoted s = codes "'" ++ (s ++ codes "'")

abbrev rule : Rule
rule = record {
  when = record {
    request = record {
      url_path_config = some (simple (codes "/orders"));
      url_path = none;
      http_method = some HttpMethod.post;
      headers = some ((codes "x-key", record { op = some HeaderOperator.exists; value = [] }) ∷ []);
      body =
          some ((BodyKind.json, (codes "a.b", record { op = none; value = codes "1" }) ∷ []) ∷ []);
    };
  };
  respond = record {
    file_path = none;
    csv_records_key = none;
    text = some (codes "ok");
    json = none;
    status = none;
    status_code = none;
    headers = none;
    delay_response_milliseconds = none;
  };
  weight = none;
  priority = none;
}

abbrev parsed : ParsedRequest ℕ
parsed = record {
  url_path = codes "/orders";
  method = codes "POST";
  headers = record { contains_key = λ name. false; get = λ name. none };
  body_json = none;
  body_len = none;
}

runs : Unit {0}
unfolding compute_derived_fields derived_url_path url_path_with_prefix normalize_url_path
    trimmed_prefix trim_slashes rebuild split join strip_prefix strip_suffix text_eq validate
    headers_validate body_validate url_path_is_match operand op_is_match check_url_path
runs = tt

evaluate_rule-is_match_example :
    all_matched (evaluate_rule sample quoted (compute_derived_fields sample none rule) parsed)
    ≡ is_match sample (compute_derived_fields sample none rule).when.request parsed
unfolding runs
evaluate_rule-is_match_example = evaluate_rule-is_match sample quoted none rule parsed refl refl

-- Under a `[prefix]` the path that the server compares is not the one that is printed.
abbrev under_api : Option Prefix
under_api = some (record { url_path_prefix = some (codes "/api"); respond_dir_prefix = none })

prefix_test :
    (all_matched (
        check_url_path sample quoted
          (compute_derived_fields sample under_api rule).when.request
          parsed)
      ≡ true)
    × (url_path_is_match sample
          (derived_url_path under_api (simple (codes "/orders")))
          (codes "/orders")
        ≡ false)
unfolding runs
prefix_test = (refl, refl)
