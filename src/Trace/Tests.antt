-- ===== src/Trace/Tests.antt =====
-- Examples for crates/apimock-server/src/trace.rs, among them cases of its own tests.
use apimock_rs.Prelude.{
  ℕ, Bool, true, false, ◌≡◌, refl, ◌↔◌, Option, none, some, List, [], ◌∷◌, ◌++◌, arith, get_elem?,
  if◌then◌else◌, is_some_and, leb, ◌%◌, ◌^◌,
}
use apimock_rs.Prelude.Text.{Text, codes, split, lower_char, eq_ignore_ascii_case}
use apimock_rs.Routing.Json.{Json, number, string, object, end, field}
use apimock_rs.Trace.{
  TraceConfig, default_trace_config, redacted_header_value, is_redacted_key, split_once,
  redact_parameter, redact_pair, redact_query_string, redact_json_value, redact_items,
  redact_fields, RequestSummary, new_summary, enrich_with_body, EventCounts, emit, emit_all,
  redact_header, redact_headers,
}
use apimock_rs.Trace.Redaction.{Agree, redact_json_value_iff}
use apimock_rs.Trace.Query.{redact_query_string_lem}
use apimock_rs.Trace.Body.{hidden_value, no_headers, enrich_with_body-Agree}
use apimock_rs.Trace.Counters.{emit_all_lem, reported}

abbrev login : Text → Json ℕ
login secret = object (
    field (codes "user") (object (field (codes "Password") (string secret) end))
      (field (codes "page") (number 2) end))

-- A nested body secret is redacted too.
nested_secret :
    redact_json_value default_trace_config (login (codes "hunter2")) ≡ login redacted_header_value
unfolding redact_json_value redact_items redact_fields is_redacted_key eq_ignore_ascii_case
    lower_char
nested_secret = refl

-- A query string's token is redacted, the other parameters and a bare flag are not.
query_token :
    redact_query_string (λ s. s) default_trace_config (codes "token=abc&page=2&flag")
    ≡ codes "token=[redacted]&page=2&flag"
unfolding redact_query_string redact_pair redact_parameter split_once is_redacted_key
    eq_ignore_ascii_case lower_char split
query_token = unfold apimock_rs.Prelude.Text.join in refl

-- Header names stay, the values of credentials do not.
credential_header :
    redact_headers default_trace_config
      ((codes "Cookie", codes "id=1") ∷ (codes "Accept", codes "text/html") ∷ [])
    ≡ (codes "Cookie", redacted_header_value) ∷ (codes "Accept", codes "text/html") ∷ []
unfolding redact_headers redact_header is_redacted_key eq_ignore_ascii_case lower_char
credential_header = refl

redact_json_value_iff_example :
    (redact_json_value default_trace_config (login (codes "a"))
      ≡ redact_json_value default_trace_config (login (codes "b")))
    ↔ Agree default_trace_config (login (codes "a")) (login (codes "b"))
redact_json_value_iff_example =
    redact_json_value_iff default_trace_config (login (codes "a")) (login (codes "b"))

redact_query_string_lem_example :
    get_elem?
      (split b'&' (redact_query_string (λ s. s) default_trace_config (codes "page=2&token=abc")))
      1
    ≡ some (
        codes "token"
        ++ (b'='
            ∷ (if is_redacted_key default_trace_config (codes "token")
                then redacted_header_value
                else codes "abc")))
unfolding split
redact_query_string_lem_example =
    redact_query_string_lem (λ s. s) default_trace_config (codes "page=2&token=abc") (codes "token")
      (codes "abc") 1 (ground arith) refl

abbrev capturing : TraceConfig
capturing = record default_trace_config { capture_body = true; max_body_bytes = 64 }

abbrev size_40 : Json ℕ → Option ℕ
size_40 v = some 40

abbrev summary_of : Text → Text → RequestSummary ℕ
summary_of cookie secret =
    enrich_with_body size_40 capturing
      (new_summary (codes "POST") (codes "/login") ((codes "Cookie", cookie) ∷ []) (some 40)
        capturing)
      (some (login secret))

enrich_with_body-Agree_example :
    summary_of (codes "id=1") (codes "a") ≡ summary_of (codes "id=2") (codes "b")
unfolding redact_json_value redact_items redact_fields is_redacted_key eq_ignore_ascii_case
    lower_char
enrich_with_body-Agree_example =
    enrich_with_body-Agree capturing size_40 (codes "POST") (codes "/login")
      ((codes "Cookie", codes "id=1") ∷ []) ((codes "Cookie", codes "id=2") ∷ []) (some 40)
      (some (login (codes "a"))) (some (login (codes "b")))
      (hidden_value (codes "Cookie") (codes "id=1") (codes "id=2") [] [] refl no_headers)
      ((redact_json_value_iff capturing (login (codes "a")) (login (codes "b"))).0 refl)

abbrev third : EventCounts
third = record { event_id = 2; dropped_count = 1 }

-- After two failures in a row the next event reports one.
emit_all_lem_example :
    (third.event_id ≡ 2 % 2 ^ 32) × (third.dropped_count ≡ reported 0 (true ∷ true ∷ false ∷ []) 2)
unfolding emit_all emit
emit_all_lem_example = emit_all_lem (true ∷ true ∷ false ∷ []) 2 third refl
