-- ===== src/Cors/Credentials.antt =====
-- When a response lets another origin read it with credentials.
use mathlib.Core.Path.{subst}
use apimock_rs.Prelude.{
  ◌≡◌, refl, sym, ap, ◌∙◌, ◌↔◌, ◌⊎◌, inl, inr, Bool, true, false, ◌&&◌, ◌||◌, Option, none, some,
  List, [], ◌∷◌, ◌++◌, arith, Bool-cases, none-ne-some, some-inj, if◌then◌else◌, all, any,
}
use apimock_rs.Prelude.Dict.{In, any-In, any_sound, lookup_in, lookup_in-put}
use apimock_rs.Prelude.Text.{Text, codes, text_eq, text_eq_iff}
use apimock_rs.Routing.Headers.{HeaderMap, HeaderValue, readable, unreadable}
use apimock_rs.Cors.{
  default_rows, allow_credentials, allow_origin, is_implicit_loopback_origin,
  is_credentialed_reflection_allowed, is_likely_authenticated_request, accept, reflected, cors_rows,
  insert_header, header_map, default_response_headers,
}

-- The value of a header in the map.
abbrev pub value_of : Text → List (Text × Text) → Option Text
value_of name headers = lookup_in text_eq name headers

-- No row has the name.
abbrev lacks : Text → List (Text × Text) → Bool
lacks name = all (λ row. if text_eq row.0 name then false else true)

plain_rows_lack : lacks allow_credentials (default_rows ++ cors_rows none) ≡ true
unfolding text_eq
plain_rows_lack = refl

later_rows_lack :
    (origin : Text)
    → (lacks allow_credentials ((allow_origin, origin) ∷ (codes "vary", codes "Origin") ∷ [])
        ≡ true)
      × (lacks allow_origin ((codes "vary", codes "Origin") ∷ []) ≡ true)
unfolding text_eq
later_rows_lack origin = (refl, refl)

module _ (valid_name valid_value : Text → Bool) where
  -- The request carries credentials and comes from an origin that is loopback or configured.
  abbrev pub IsTrusted : HeaderMap → List Text → Text → Type 0
  IsTrusted headers allowed origin =
      (is_likely_authenticated_request headers ≡ true)
      × (headers.get (codes "origin") ≡ some (readable origin))
      × ((is_implicit_loopback_origin origin ≡ true) ⊎ In origin allowed)
      × (valid_value origin ≡ true)

  value_of-insert_header :
      (name : Text) (ret : List (Text × Text)) (row : Text × Text)
      → text_eq row.0 name ≡ false
      → value_of name (insert_header valid_name valid_value ret row) ≡ value_of name ret
  value_of-insert_header name ret (n, v) h = ground (
    arith,
    h,
    lookup_in-put text_eq text_eq_iff name n v ret,
    lookup_in-put text_eq text_eq_iff name n [] ret,
  )

  value_of-header_map :
      (name : Text) (rows ret : List (Text × Text))
      → lacks name rows ≡ true
      → value_of name (header_map valid_name valid_value ret rows) ≡ value_of name ret
  unfolding header_map
  value_of-header_map name [] ret h = refl
  value_of-header_map name ((n, v) ∷ rows) ret h = elim (Bool-cases (text_eq n name)) [
    | inl e ↦ cc (rw e at h)
    | inr e ↦ value_of-header_map name rows _ (rw e at h) ∙ value_of-insert_header name ret (n, v) e
  ]

  header_map-append :
      (xs ys ret : List (Text × Text))
      → header_map valid_name valid_value ret (xs ++ ys)
        ≡ header_map valid_name valid_value (header_map valid_name valid_value ret xs) ys
  unfolding header_map
  header_map-append [] ys ret = refl
  header_map-append (x ∷ xs) ys ret = header_map-append xs ys _

  value_of-row :
      (name value : Text) (before after ret : List (Text × Text))
      → valid_name name ≡ true
      → valid_value value ≡ true
      → lacks name after ≡ true
      → value_of name (header_map valid_name valid_value ret (before ++ ((name, value) ∷ after)))
        ≡ some value
  unfolding header_map
  value_of-row name value before after ret n v l =
      ap (value_of name) (header_map-append before ((name, value) ∷ after) ret)
      ∙ value_of-header_map name after _ l
      ∙ inserted (header_map valid_name valid_value ret before)
    where
      inserted :
          (rows : List (Text × Text))
          → value_of name (insert_header valid_name valid_value rows (name, value)) ≡ some value
      inserted rows =
          rw (n, v)
            (lookup_in-put text_eq text_eq_iff name name value rows
              ∙ rw ((text_eq_iff name name).1 refl) refl)

  allowed_iff :
      (origin : Text) (allowed : List Text)
      → (is_credentialed_reflection_allowed origin allowed ≡ true)
        ↔ ((is_implicit_loopback_origin origin ≡ true) ⊎ In origin allowed)
  unfolding is_credentialed_reflection_allowed
  allowed_iff origin allowed = (to, from)
    where
      listed : any (λ a. text_eq a origin) allowed ≡ true → In origin allowed
      listed h =
          let (a, m, t) = any_sound (λ a. text_eq a origin) allowed h in
          subst (λ b. In b allowed) ((text_eq_iff a origin).0 t) m

      to :
          (is_implicit_loopback_origin origin || any (λ a. text_eq a origin) allowed) ≡ true
          → (is_implicit_loopback_origin origin ≡ true) ⊎ In origin allowed
      to h = elim (Bool-cases (is_implicit_loopback_origin origin)) [
        | inl e ↦ inl e
        | inr e ↦ inr (listed (rw e at h))
      ]

      from :
          (is_implicit_loopback_origin origin ≡ true) ⊎ In origin allowed
          → (is_implicit_loopback_origin origin || any (λ a. text_eq a origin) allowed) ≡ true
      from (inl e) = rw e refl
      from (inr m) =
          rw (any-In (λ a. text_eq a origin) origin allowed m ((text_eq_iff origin origin).1 refl))
            (ground arith)

  accept_sound :
      (allowed : List Text) (o : Option HeaderValue) (origin : Text)
      → accept valid_name valid_value allowed o ≡ some origin
      → (o ≡ some (readable origin))
        × (is_credentialed_reflection_allowed origin allowed ≡ true)
        × (valid_value origin ≡ true)
  accept_sound allowed none origin h = cc
  accept_sound allowed (some unreadable) origin h = cc
  accept_sound allowed (some (readable text)) origin h =
      elim (Bool-cases (is_credentialed_reflection_allowed text allowed && valid_value text)) [
        | inl e ↦
            let same : text ≡ origin = some-inj text origin (rw e at h) in
            subst
              (λ t.
                ◌≡◌ {A = Option HeaderValue} (some (readable text)) (some (readable t))
                × (is_credentialed_reflection_allowed t allowed ≡ true)
                × (valid_value t ≡ true))
              same (refl, ground (arith, e), ground (arith, e))
        | inr e ↦ cc (rw e at h)
      ]

  reflected-IsTrusted :
      (headers : HeaderMap) (allowed : List Text) (origin : Text)
      → (reflected valid_name valid_value headers allowed ≡ some origin)
        ↔ IsTrusted headers allowed origin
  unfolding reflected
  reflected-IsTrusted headers allowed origin = (to, from)
    where
      to :
          reflected valid_name valid_value headers allowed ≡ some origin
          → IsTrusted headers allowed origin
      to h = elim (Bool-cases (is_likely_authenticated_request headers)) [
        | inl e ↦
            let (got, trust, valid) =
              accept_sound allowed (headers.get (codes "origin")) origin (rw (reflected, e) at h) in
            (e, got, (allowed_iff origin allowed).0 trust, valid)
        | inr e ↦ absurd (none-ne-some origin (rw (reflected, e) at h))
      ]

      from :
          IsTrusted headers allowed origin
          → reflected valid_name valid_value headers allowed ≡ some origin
      from (auth, got, trust, valid) =
          rw (reflected, auth, got, (allowed_iff origin allowed).1 trust, valid) refl

  -- The default headers allow credentials exactly when the request has a cookie or an authorization
  -- header and its `Origin` header can be read, is a loopback origin or one of the configured ones,
  -- and can be written as a header value; the origin that they then allow is the text of that header.
  -- The names of both headers and the value `true` are taken to be writable as headers.
  pub default_response_headers_lem :
      (headers : HeaderMap) (allowed : List Text)
      → valid_name allow_credentials ≡ true
      → valid_name allow_origin ≡ true
      → valid_value (codes "true") ≡ true
      → ((value_of allow_credentials
              (default_response_headers valid_name valid_value headers allowed)
            ≡ some (codes "true"))
          ↔ ((origin : Text) × IsTrusted headers allowed origin))
        × ((origin : Text)
            → IsTrusted headers allowed origin
            → value_of allow_origin
                (default_response_headers valid_name valid_value headers allowed)
              ≡ some origin)
  unfolding default_response_headers lookup_in
  default_response_headers_lem headers allowed named named_origin written = (
    (
      credentials_from (reflected valid_name valid_value headers allowed) refl,
      λ (origin, t).
          ap (λ o. value_of allow_credentials (output o))
            ((reflected-IsTrusted headers allowed origin).1 t)
          ∙ value_of-row allow_credentials (codes "true") default_rows
              ((allow_origin, origin) ∷ (codes "vary", codes "Origin") ∷ []) [] named written
              (later_rows_lack origin).0,
    ),
    λ origin t.
        let (auth, got, trust, valid) = t in
        ap (λ o. value_of allow_origin (output o))
          ((reflected-IsTrusted headers allowed origin).1 t)
        ∙ value_of-row allow_origin origin
            (default_rows ++ ((allow_credentials, codes "true") ∷ []))
            ((codes "vary", codes "Origin") ∷ []) [] named_origin valid (later_rows_lack origin).1,
  )
    where
      output : Option Text → List (Text × Text)
      output o = header_map valid_name valid_value [] (default_rows ++ cors_rows o)

      credentials_from :
          (o : Option Text)
          → reflected valid_name valid_value headers allowed ≡ o
          → value_of allow_credentials (output (reflected valid_name valid_value headers allowed))
            ≡ some (codes "true")
          → (origin : Text) × IsTrusted headers allowed origin
      credentials_from none e h = absurd (
          none-ne-some (codes "true") (
            sym (
              value_of-header_map allow_credentials (default_rows ++ cors_rows none) []
                plain_rows_lack)
            ∙ ap (λ o. value_of allow_credentials (output o)) (sym e)
            ∙ h))
      credentials_from (some origin) e h =
          (origin, (reflected-IsTrusted headers allowed origin).0 e)
