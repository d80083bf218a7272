-- ===== src/Trace.antt =====
-- crates/apimock-server/src/trace.rs: the redaction of what a trace event carries, and the counters of
-- the emitter. The channel and the transports to subscribers are not modelled; whether `send` fails is
-- an argument, and so are `serde_json::to_string` (by the length of its text) and the decoder behind
-- `percent_decode_url_path`.
pub mod Redaction
pub mod Query
pub mod Body
pub mod Counters
mod Tests
use apimock_rs.Prelude.{
  ℕ, zero, suc, ◌+◌, ◌%◌, ◌^◌, Bool, true, false, not, Option, none, some, List, [], ◌∷◌, ◌++◌, map,
  any, if◌then◌else◌, leb, ◌==◌,
}
use apimock_rs.Prelude.Text.{Text, codes, eq_ignore_ascii_case, split, join}
use apimock_rs.Routing.Json.{
  Json, null, boolean, number, string, array, object, Items, nil, cons, Fields, end, field,
}

-- `REDACTED_HEADER_VALUE`.
abbrev pub redacted_header_value : Text
redacted_header_value = codes "[redacted]"

-- `DEFAULT_HEADER_DENYLIST`.
abbrev pub default_header_denylist : List Text
default_header_denylist =
    codes "authorization"
    ∷ codes "cookie"
    ∷ codes "set-cookie"
    ∷ codes "proxy-authorization"
    ∷ codes "x-api-key"
    ∷ codes "token"
    ∷ codes "access_token"
    ∷ codes "refresh_token"
    ∷ codes "password"
    ∷ codes "secret"
    ∷ codes "client_secret"
    ∷ codes "api_key"
    ∷ []

pub data HeaderRedactionMode : Type 0 where
  denylist allowlist : HeaderRedactionMode

pub record TraceConfig : Type 0 where
  pub capture_body : Bool
  pub max_body_bytes : ℕ
  pub header_redaction : HeaderRedactionMode
  pub header_denylist : List Text
  pub header_allowlist : List Text

-- `TraceConfig::default`.
abbrev pub default_trace_config : TraceConfig
default_trace_config = record {
  capture_body = false;
  max_body_bytes = 8192;
  header_redaction = denylist;
  header_denylist = default_header_denylist;
  header_allowlist = [];
}

abbrev pub listed : Text → List Text → Bool
unfolding eq_ignore_ascii_case
listed name names = any (λ listed_name. eq_ignore_ascii_case listed_name name) names

abbrev pub redacted_under : HeaderRedactionMode → TraceConfig → Text → Bool
redacted_under denylist config name = listed name config.header_denylist
redacted_under allowlist config name = not (listed name config.header_allowlist)

unfoldable pub is_redacted_key : TraceConfig → Text → Bool
is_redacted_key config name = redacted_under config.header_redaction config name

unfoldable pub redact_header : TraceConfig → Text × Text → Text × Text
redact_header config (name, value) =
    if is_redacted_key config name then (name, redacted_header_value) else (name, value)

unfoldable pub redact_headers : TraceConfig → List (Text × Text) → List (Text × Text)
redact_headers config headers = map (redact_header config) headers

-- `pair.split_once('=')`.
unfoldable pub split_once : ℕ → Text → Option (Text × Text)
split_once sep [] = none
split_once sep (c ∷ s) =
    let rest = split_once sep s in
    if c == sep
    then some ([], s)
    else elim rest [ none ↦ none | some (key, value) ↦ some (c ∷ key, value) ]

module _ (percent_decode_url_path : Text → Text) where
  -- The closure of `redact_query_string`, on what `split_once` gives.
  unfoldable pub redact_parameter : TraceConfig → Text → Option (Text × Text) → Text
  redact_parameter config pair none = pair
  redact_parameter config pair (some (key, value)) =
      if is_redacted_key config (percent_decode_url_path key)
      then key ++ (b'=' ∷ redacted_header_value)
      else pair

  unfoldable pub redact_pair : TraceConfig → Text → Text
  redact_pair config pair = redact_parameter config pair (split_once b'=' pair)

  unfoldable pub redact_query_string : TraceConfig → Text → Text
  redact_query_string config query = join b'&' (map (redact_pair config) (split b'&' query))

module _ {N : Type 0} where
  unfoldable mutual
    pub redact_json_value : TraceConfig → Json N → Json N
    redact_json_value config (object fs) = object (redact_fields config fs)
    redact_json_value config (array vs) = array (redact_items config vs)
    redact_json_value config null = null
    redact_json_value config (boolean b) = boolean b
    redact_json_value config (number n) = number n
    redact_json_value config (string s) = string s

    pub redact_items : TraceConfig → Items N → Items N
    redact_items config nil = nil
    redact_items config (cons v vs) = cons (redact_json_value config v) (redact_items config vs)

    pub redact_fields : TraceConfig → Fields N → Fields N
    redact_fields config end = end
    redact_fields config (field key val fs) =
        let redacted = redact_json_value config val in
        field key (if is_redacted_key config key then string redacted_header_value else redacted)
          (redact_fields config fs)

pub record RequestSummary (N : Type 0) : Type 0 where
  pub method : Text
  pub url_path : Text
  pub headers : List (Text × Text)
  pub body_json : Option (Json N)
  pub body_truncated : Bool
  pub body_len : Option ℕ

-- `RequestSummary::new`.
abbrev pub new_summary :
    {N : Type 0} → Text → Text → List (Text × Text) → Option ℕ → TraceConfig → RequestSummary N
new_summary method url_path headers body_len config = record {
  method = method;
  url_path = url_path;
  headers = redact_headers config headers;
  body_json = none;
  body_truncated = false;
  body_len = body_len;
}

module _ {N : Type 0} (serialized_len : Json N → Option ℕ) (config : TraceConfig) where
  -- The inner `match`, on the length that `to_string` gives; `none` is its error.
  unfoldable pub keep_body : RequestSummary N → Json N → Option ℕ → RequestSummary N
  keep_body summary redacted none = summary
  keep_body summary redacted (some len) =
      if leb len config.max_body_bytes
      then record summary { body_json = some redacted }
      else record summary { body_truncated = true }

  abbrev pub attach_body : RequestSummary N → Option (Json N) → RequestSummary N
  attach_body summary none = summary
  attach_body summary (some v) =
      let redacted = redact_json_value config v in
      keep_body summary redacted (serialized_len redacted)

  unfoldable pub enrich_with_body : RequestSummary N → Option (Json N) → RequestSummary N
  enrich_with_body summary body_json =
      if not config.capture_body then summary else attach_body summary body_json

-- The two counters of a `TraceEmitter`, both `AtomicU32`.
pub record Emitter : Type 0 where
  pub event_counter : ℕ
  pub dropped_counter : ℕ

-- The two fields of a `MatchTraceEvent` that the emitter fills; the others are handed through.
pub record EventCounts : Type 0 where
  pub event_id : ℕ
  pub dropped_count : ℕ

abbrev pub new_emitter : Emitter
new_emitter = record { event_counter = 0; dropped_counter = 0 }

-- `TraceEmitter::emit` without another call in between, on whether `send` fails: `fetch_add`,
-- `swap(0)` and, after a failure, `fetch_add`.
unfoldable pub emit : Emitter → Bool → EventCounts × Emitter
emit e is_err =
    let event : EventCounts = record {
      event_id = e.event_counter;
      dropped_count = e.dropped_counter;
    } in
    (
      event,
      record {
        event_counter = (e.event_counter + 1) % 2 ^ 32;
        dropped_counter = if is_err then (0 + 1) % 2 ^ 32 else 0;
      },
    )

-- A run of calls: the events that were built, in order.
unfoldable pub emit_all : Emitter → List Bool → List EventCounts
emit_all e [] = []
emit_all e (is_err ∷ errs) = let (event, next) = emit e is_err in event ∷ emit_all next errs
