-- ===== src/Trace/Body.antt =====
-- crates/apimock-server/src/trace.rs: what a trace event shows of the headers and the body of a
-- request.
use apimock_rs.Prelude.{
  ℕ, true, false, ◌≡◌, refl, ap, ◌∙◌, not, if◌then◌else◌, Option, none, some, List, [], ◌∷◌,
}
use apimock_rs.Prelude.Text.{Text}
use apimock_rs.Routing.Json.{Json}
use apimock_rs.Trace.{
  TraceConfig, RequestSummary, is_redacted_key, redact_header, redact_headers, new_summary,
  keep_body, attach_body, enrich_with_body,
}
use apimock_rs.Trace.Redaction.{Agree, redact_json_value_iff}

-- Two lists of headers with the same names in the same order, which differ only in the values under
-- redacted names.
pub data AgreeHeaders (config : TraceConfig)
    : List (Text × Text) → List (Text × Text) → Type 0 where
  no_headers : AgreeHeaders config [] []
  hidden_value :
      (name a b : Text) (xs ys : List (Text × Text))
      → is_redacted_key config name ≡ true
      → AgreeHeaders config xs ys
      → AgreeHeaders config ((name, a) ∷ xs) ((name, b) ∷ ys)
  shown_value :
      (name a : Text) (xs ys : List (Text × Text))
      → AgreeHeaders config xs ys
      → AgreeHeaders config ((name, a) ∷ xs) ((name, a) ∷ ys)

-- Two bodies, both JSON or both not, which differ only under redacted keys.
abbrev pub AgreeBodies : {N : Type 0} → TraceConfig → Option (Json N) → Option (Json N) → Type 0
AgreeBodies config none none = Unit
AgreeBodies config (some v) (some w) = Agree config v w
AgreeBodies config _ _ = ⊥

module _ (config : TraceConfig) where
  redact_headers-AgreeHeaders :
      (xs ys : List (Text × Text))
      → AgreeHeaders config xs ys
      → redact_headers config xs ≡ redact_headers config ys
  unfolding redact_headers redact_header
  redact_headers-AgreeHeaders _ _ no_headers = refl
  redact_headers-AgreeHeaders _ _ (hidden_value name a b xs ys e h) =
      rw e (cc (redact_headers-AgreeHeaders xs ys h))
  redact_headers-AgreeHeaders _ _ (shown_value name a xs ys h) =
      cc (redact_headers-AgreeHeaders xs ys h)

  module _ {N : Type 0} (serialized_len : Json N → Option ℕ) where
    attach_body-AgreeBodies :
        (summary : RequestSummary N) (v w : Option (Json N))
        → AgreeBodies config v w
        → attach_body serialized_len config summary v ≡ attach_body serialized_len config summary w
    attach_body-AgreeBodies summary none none h = refl
    attach_body-AgreeBodies summary none (some w) h = elim h [ ]
    attach_body-AgreeBodies summary (some v) none h = elim h [ ]
    attach_body-AgreeBodies summary (some v) (some w) h =
        ap (λ r. keep_body serialized_len config summary r (serialized_len r))
          ((redact_json_value_iff config v w).1 h)

    enrich-AgreeBodies :
        (summary : RequestSummary N) (v w : Option (Json N))
        → AgreeBodies config v w
        → enrich_with_body serialized_len config summary v
          ≡ enrich_with_body serialized_len config summary w
    unfolding enrich_with_body
    enrich-AgreeBodies summary v w h =
        ap (λ s. if not config.capture_body then summary else s)
          (attach_body-AgreeBodies summary v w h)

    -- Two requests with the same method, path and length of the body have the same summary, body
    -- included, when their headers have the same names in the same order and differ only in the values
    -- under redacted names, and either both have a JSON body and the two differ only under redacted
    -- keys, or neither has one. So no hidden value decides whether a body is captured or marked as too
    -- long.
    pub enrich_with_body-Agree :
        (method url_path : Text) (xs ys : List (Text × Text)) (body_len : Option ℕ)
        (v w : Option (Json N))
        → AgreeHeaders config xs ys
        → AgreeBodies config v w
        → enrich_with_body serialized_len config (new_summary method url_path xs body_len config) v
          ≡ enrich_with_body serialized_len config
              (new_summary method url_path ys body_len config)
              w
    enrich_with_body-Agree method url_path xs ys body_len v w h k =
        ap
          (λ headers.
            enrich_with_body serialized_len config
              (record {
                method = method;
                url_path = url_path;
                headers = headers;
                body_json = none;
                body_truncated = false;
                body_len = body_len;
              })
              v)
          (redact_headers-AgreeHeaders xs ys h)
        ∙ enrich-AgreeBodies (new_summary method url_path ys body_len config) v w k
