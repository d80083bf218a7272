-- ===== src/Prelude/Text/Affix.antt =====
-- What the prefix and suffix tests decide.
use mathlib.Core.Path.{◌≡◌, refl}
use mathlib.Core.Logic.{◌↔◌}
use mathlib.Core.Bool.{true}
use mathlib.Core.Option.{some, none}
use mathlib.Core.List.{[], ◌∷◌, ◌++◌}
use native.Mathlib.Omega.{arith}
use apimock_rs.Prelude.Tests.{is_some}
use apimock_rs.Prelude.Text.{Text, strip_prefix, starts_with}

-- What is left after a prefix is the rest of the text.
pub strip_prefix_sound : (p s r : Text) → strip_prefix p s ≡ some r → s ≡ p ++ r
unfolding strip_prefix
strip_prefix_sound [] s r h = cc
strip_prefix_sound (c ∷ p) [] r h = cc
strip_prefix_sound (c ∷ p) (d ∷ s) r h = ground (arith, strip_prefix_sound p s r)

pub strip_prefix-append : (p r : Text) → strip_prefix p (p ++ r) ≡ some r
unfolding strip_prefix
strip_prefix-append [] r = refl
strip_prefix-append (c ∷ p) r = ground (arith, strip_prefix-append p r)

starts_of : (p s : Text) → is_some (strip_prefix p s) ≡ true → (r : Text) × (s ≡ p ++ r)
starts_of p s h = go (strip_prefix p s) refl h
  where
    go :
        (o : mathlib.Core.Option.Option Text)
        → strip_prefix p s ≡ o
        → is_some o ≡ true
        → (r : Text) × (s ≡ p ++ r)
    go none e k = cc
    go (some r) e k = (r, strip_prefix_sound p s r e)

-- `starts_with` holds exactly when the text continues the prefix.
pub starts_with_iff : (s p : Text) → (starts_with s p ≡ true) ↔ ((r : Text) × (s ≡ p ++ r))
unfolding starts_with
starts_with_iff s p = (starts_of p s, λ (r, e). cc (e, strip_prefix-append p r))
