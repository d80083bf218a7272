-- ===== src/Routing/UrlPath/Segments.antt =====
-- The segments of a path and of the prefix of a rule set (rule_set.rs, `url_path_matches_prefix`).
use mathlib.Core.List.{append-nil}
use apimock_rs.Prelude.{
  ◌≡◌, ap, ◌∙◌, sym, ◌≢◌, ◌↔◌, ◌⊎◌, inl, inr, true, List, [], ◌∷◌, ◌++◌, arith, Bool-cases,
}
use apimock_rs.Prelude.Text.{Text, codes, text_eq, text_eq_iff, starts_with, split, join}
use apimock_rs.Prelude.Text.Affix.{starts_with_iff}
use apimock_rs.Prelude.Text.Split.{join-split, split-append, split-ne-nil, join-append}
use apimock_rs.Routing.UrlPath.{url_path_matches_prefix}

-- The segments of the path begin with those of the prefix.
abbrev pub Extends : Text → Text → Type 0
Extends path prefix = (rest : List Text) × (split b'/' path ≡ split b'/' prefix ++ rest)

longer : (path prefix : Text) → starts_with path (prefix ++ codes "/") ≡ true → Extends path prefix
longer path prefix h =
    let (r, e) = (starts_with_iff path (prefix ++ codes "/")).0 h in
    (split b'/' r, ap (split b'/') (e ∙ regroup r) ∙ split-append b'/' prefix r)
  where
    regroup : (r : Text) → (prefix ++ codes "/") ++ r ≡ prefix ++ (b'/' ∷ r)
    regroup r = simp mathlib.Core.List.append_assoc

matches-Extends :
    (path prefix : Text)
    → prefix ≢ codes "/"
    → url_path_matches_prefix path prefix ≡ true
    → Extends path prefix
unfolding url_path_matches_prefix
matches-Extends path prefix n h = elim (Bool-cases (text_eq path prefix)) [
  | inl e ↦ ([], ap (split b'/') ((text_eq_iff path prefix).0 e) ∙ sym (append-nil _))
  | inr e ↦ longer path prefix (ground (arith, text_eq_iff prefix (codes "/")))
]

rest-matches :
    (path prefix : Text) (rest : List Text)
    → split b'/' path ≡ split b'/' prefix ++ rest
    → (path ≡ prefix) ⊎ (starts_with path (prefix ++ codes "/") ≡ true)
rest-matches path prefix [] e =
    inl (sym (join-split b'/' path) ∙ ap (join b'/') (e ∙ append-nil _) ∙ join-split b'/' prefix)
rest-matches path prefix (w ∷ ws) e = inr (
    (starts_with_iff path (prefix ++ codes "/")).1 (
      join b'/' (w ∷ ws),
      sym (join-split b'/' path)
          ∙ ap (join b'/') e
          ∙ join-append b'/' (split b'/' prefix) w ws (split-ne-nil b'/' prefix)
          ∙ ap (λ p. p ++ (b'/' ∷ join b'/' (w ∷ ws))) (join-split b'/' prefix)
          ∙ simp mathlib.Core.List.append_assoc,
    ))

-- Apart from the catch-all prefix `/`, a rule set takes a path exactly when the segments of its
-- prefix are the first segments of the path: never a path that only shares leading characters.
pub matches_prefix_iff :
    (path prefix : Text)
    → prefix ≢ codes "/"
    → (url_path_matches_prefix path prefix ≡ true) ↔ Extends path prefix
unfolding url_path_matches_prefix
matches_prefix_iff path prefix n = (
  matches-Extends path prefix n,
  λ (rest, e). ground (arith, rest-matches path prefix rest e, text_eq_iff path prefix),
)
