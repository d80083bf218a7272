-- ===== src/Trace/Query.antt =====
-- crates/apimock-server/src/trace.rs: what the redaction of a query string shows of it.
use apimock_rs.Prelude.{
  ◌≢◌, ℕ, ◌≡◌, refl, some, List, [], ◌∷◌, ◌++◌, map, arith, inl, inr, Bool-cases, Option-cases, All,
  get_elem?, zero, suc, if◌then◌else◌,
}
use apimock_rs.Prelude.Text.{Text, split}
use apimock_rs.Prelude.Text.Split.{Lacks, split-Lacks, split-ne-nil, split-join}
use apimock_rs.Trace.{
  TraceConfig, is_redacted_key, redacted_header_value, split_once, redact_parameter, redact_pair,
  redact_query_string,
}

Lacks-append : (c : ℕ) (s t : Text) → Lacks c s → Lacks c t → Lacks c (s ++ t)
Lacks-append c [] t h k = k
Lacks-append c (d ∷ s) t h k = (h.0, Lacks-append c s t h.1 k)

-- The key of a pair holds no character that the pair does not hold.
split_once-Lacks :
    (sep c : ℕ) (s key value : Text)
    → Lacks c s
    → split_once sep s ≡ some (key, value)
    → Lacks c key
unfolding split_once
split_once-Lacks sep c [] key value h e = ground arith
split_once-Lacks sep c (d ∷ s) [] value h e = tt
split_once-Lacks sep c (d ∷ s) (k ∷ key) value h e =
    ground (arith, split_once-Lacks sep c s key value h.1)

split_once-append :
    (sep : ℕ) (key value : Text)
    → Lacks sep key
    → split_once sep (key ++ (sep ∷ value)) ≡ some (key, value)
unfolding split_once
split_once-append sep [] value h = ground arith
split_once-append sep (c ∷ key) value h = ground (arith, split_once-append sep key value h.1)

marker-Lacks : Lacks b'&' (b'=' ∷ redacted_header_value)
marker-Lacks = ground arith

map-ne-nil : {A B : Type 0} (f : A → B) (xs : List A) → xs ≢ [] → map f xs ≢ []
map-ne-nil f [] h = absurd (h refl)
map-ne-nil f (x ∷ xs) h = cc

get_elem?-map :
    {A B : Type 0} (f : A → B) (xs : List A) (i : ℕ) (x : A)
    → get_elem? xs i ≡ some x
    → get_elem? (map f xs) i ≡ some (f x)
get_elem?-map f [] i x h = ground arith
get_elem?-map f (y ∷ ys) zero x h = ground arith
get_elem?-map f (y ∷ ys) (suc i) x h = get_elem?-map f ys i x h

module _ (percent_decode_url_path : Text → Text) (config : TraceConfig) where
  redact_pair-Lacks :
      (pair : Text) → Lacks b'&' pair → Lacks b'&' (redact_pair percent_decode_url_path config pair)
  unfolding redact_pair redact_parameter
  redact_pair-Lacks pair h = elim (Option-cases (split_once b'=' pair)) [
    | inl e ↦ rw e h
    | inr ((key, value), e) ↦
        rw e (elim (Bool-cases (is_redacted_key config (percent_decode_url_path key))) [
          | inl r ↦ rw r (
              Lacks-append b'&' key (b'=' ∷ redacted_header_value)
                (split_once-Lacks b'=' b'&' pair key value h e) marker-Lacks)
          | inr r ↦ rw r h
        ])
  ]

  map-Lacks :
      (pairs : List Text)
      → All (Lacks b'&') pairs
      → All (Lacks b'&') (map (redact_pair percent_decode_url_path config) pairs)
  map-Lacks [] h = tt
  map-Lacks (p ∷ ps) h = (redact_pair-Lacks p h.0, map-Lacks ps h.1)

  split-redact_query_string :
      (query : Text)
      → split b'&' (redact_query_string percent_decode_url_path config query)
        ≡ map (redact_pair percent_decode_url_path config) (split b'&' query)
  unfolding redact_query_string
  split-redact_query_string query =
      split-join b'&' (map (redact_pair percent_decode_url_path config) (split b'&' query))
        (map-ne-nil (redact_pair percent_decode_url_path config) (split b'&' query)
          (split-ne-nil b'&' query))
        (map-Lacks (split b'&' query) (split-Lacks b'&' query))

  -- Every pair of a key and a value keeps its place and its key, as written; its value is the marker
  -- when the decoded key is redacted, and as it was otherwise.
  pub redact_query_string_lem :
      (query key value : Text) (i : ℕ)
      → Lacks b'=' key
      → get_elem? (split b'&' query) i ≡ some (key ++ (b'=' ∷ value))
      → get_elem? (split b'&' (redact_query_string percent_decode_url_path config query)) i
        ≡ some (
            key
            ++ (b'='
                ∷ (if is_redacted_key config (percent_decode_url_path key)
                    then redacted_header_value
                    else value)))
  unfolding redact_pair redact_parameter
  redact_query_string_lem query key value i h e =
      rw
        (
          split-redact_query_string query,
          get_elem?-map (redact_pair percent_decode_url_path config) (split b'&' query) i
              (key ++ (b'=' ∷ value)) e,
          split_once-append b'=' key value h,
        )
        ground arith
