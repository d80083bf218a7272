-- ===== src/Cors/Loopback.antt =====
-- The origins that get credentials without configuration.
use mathlib.Core.List.{append-nil}
use apimock_rs.Prelude.{
  ◌≡◌, refl, sym, ap, ◌∙◌, ◌↔◌, ◌⊎◌, inl, inr, true, some, List, [], ◌∷◌, ◌++◌, ◌==◌, ==_iff, ◌≢◌,
  Bool-cases, Option-cases, all,
}
use apimock_rs.Prelude.Text.{Text, codes, strip_prefix, is_ascii_digit}
use apimock_rs.Prelude.Text.Affix.{strip_prefix_sound, strip_prefix-append}
use apimock_rs.Cors.{
  loopback_hosts, is_port, is_rest, has_loopback_host, is_implicit_loopback_origin,
}

-- A port in decimal digits.
abbrev pub IsPort : Text → Type 0
IsPort port = (port ≢ []) × (all is_ascii_digit port ≡ true)

-- `http://localhost` or `http://127.0.0.1`, alone or with a port.
abbrev pub IsLoopback : Text → Type 0
IsLoopback origin =
    (host : Text) × ((host ≡ codes "http://localhost") ⊎ (host ≡ codes "http://127.0.0.1"))
    × ((origin ≡ host) ⊎ ((port : Text) × IsPort port × (origin ≡ host ++ (b':' ∷ port))))

rest_iff :
    (rest : Text)
    → (is_rest rest ≡ true) ↔ ((rest ≡ []) ⊎ ((port : Text) × IsPort port × (rest ≡ b':' ∷ port)))
unfolding strip_prefix
rest_iff [] = ((λ h. inl refl), (λ h. refl))
rest_iff (c ∷ rest) = (to, from)
  where
    to :
        is_rest (c ∷ rest) ≡ true
        → (c ∷ rest ≡ []) ⊎ ((port : Text) × IsPort port × (c ∷ rest ≡ b':' ∷ port))
    to h = elim (Bool-cases (b':' == c)) [
      | inl e ↦ inr (rest, a_port rest (rw e at h), ap (λ d. d ∷ rest) (sym ((==_iff b':' c).0 e)))
      | inr e ↦ cc (rw e at h)
    ]
      where
        a_port : (port : Text) → is_port (some port) ≡ true → IsPort port
        a_port [] h = cc
        a_port (d ∷ port) h = ((λ e. cc e), h)

    from :
        (c ∷ rest ≡ []) ⊎ ((port : Text) × IsPort port × (c ∷ rest ≡ b':' ∷ port))
        → is_rest (c ∷ rest) ≡ true
    from (inl e) = cc e
    from (inr (port, p, e)) = ap is_rest e ∙ with_port port p
      where
        with_port : (port : Text) → IsPort port → is_port (some port) ≡ true
        with_port [] (n, d) = absurd (n refl)
        with_port (d ∷ port) (n, digits) = digits

-- The text is the host, then a rest that the loop takes.
abbrev StartsWith : Text → Text → Type 0
StartsWith host origin = (rest : Text) × (is_rest rest ≡ true) × (origin ≡ host ++ rest)

step_sound :
    (host origin : Text) (hosts : List Text)
    → has_loopback_host (host ∷ hosts) origin ≡ true
    → StartsWith host origin ⊎ (has_loopback_host hosts origin ≡ true)
unfolding has_loopback_host
step_sound host origin hosts h = elim (Option-cases (strip_prefix host origin)) [
  | inl e ↦ inr (rw (has_loopback_host, e) at h)
  | inr (rest, e) ↦
      inl (rest, rw (has_loopback_host, e) at h, strip_prefix_sound host origin rest e)
]

step_complete :
    (host rest : Text) (hosts : List Text)
    → is_rest rest ≡ true
    → has_loopback_host (host ∷ hosts) (host ++ rest) ≡ true
unfolding has_loopback_host
step_complete host rest hosts h = rw (has_loopback_host, strip_prefix-append host rest) h

second_complete :
    (rest : Text)
    → is_rest rest ≡ true
    → has_loopback_host loopback_hosts (codes "http://127.0.0.1" ++ rest) ≡ true
unfolding has_loopback_host strip_prefix
second_complete rest h = h

no_host : (origin : Text) → has_loopback_host [] origin ≡ true → ⊥
unfolding has_loopback_host
no_host origin k = cc

parts :
    (host origin : Text)
    → ((origin ≡ host) ⊎ ((port : Text) × IsPort port × (origin ≡ host ++ (b':' ∷ port))))
      ↔ StartsWith host origin
parts host origin = (to, from)
  where
    to :
        (origin ≡ host) ⊎ ((port : Text) × IsPort port × (origin ≡ host ++ (b':' ∷ port)))
        → StartsWith host origin
    to (inl e) = ([], refl, e ∙ sym (append-nil host))
    to (inr (port, p, e)) = (b':' ∷ port, (rest_iff (b':' ∷ port)).1 (inr (port, p, refl)), e)

    from :
        StartsWith host origin
        → (origin ≡ host) ⊎ ((port : Text) × IsPort port × (origin ≡ host ++ (b':' ∷ port)))
    from (rest, h, e) = elim ((rest_iff rest).0 h) [
      | inl f ↦ inl (e ∙ ap (λ r. host ++ r) f ∙ append-nil host)
      | inr (port, p, f) ↦ inr (port, p, e ∙ ap (λ r. host ++ r) f)
    ]

-- The origins that are allowed without configuration are exactly `http://localhost` and
-- `http://127.0.0.1`, alone or followed by a colon and a port of one or more decimal digits.
pub is_implicit_loopback_origin_iff :
    (origin : Text) → (is_implicit_loopback_origin origin ≡ true) ↔ IsLoopback origin
unfolding is_implicit_loopback_origin
is_implicit_loopback_origin_iff origin = (to, from)
  where
    to : has_loopback_host loopback_hosts origin ≡ true → IsLoopback origin
    to h = elim (step_sound (codes "http://localhost") origin (codes "http://127.0.0.1" ∷ []) h) [
      | inl f ↦ (codes "http://localhost", inl refl, (parts (codes "http://localhost") origin).1 f)
      | inr g ↦ elim (step_sound (codes "http://127.0.0.1") origin [] g) [
        | inl f ↦
            (codes "http://127.0.0.1", inr refl, (parts (codes "http://127.0.0.1") origin).1 f)
        | inr k ↦ absurd (no_host origin k)
      ]
    ]

    from : IsLoopback origin → has_loopback_host loopback_hosts origin ≡ true
    from (host, inl e, f) =
        let (rest, h, g) = (parts host origin).0 f in
        ap (has_loopback_host loopback_hosts) (g ∙ ap (λ t. t ++ rest) e)
        ∙ step_complete (codes "http://localhost") rest (codes "http://127.0.0.1" ∷ []) h
    from (host, inr e, f) =
        let (rest, h, g) = (parts host origin).0 f in
        ap (has_loopback_host loopback_hosts) (g ∙ ap (λ t. t ++ rest) e) ∙ second_complete rest h
