-- ===== src/Prelude/Text/Split.antt =====
-- Splitting a text at a character and joining it again.
use Prim.Native.Nat.{ℕ}
use mathlib.Core.Path.{◌≡◌, refl, ap, ◌∙◌}
use mathlib.Core.Logic.{◌≢◌, inl, inr}
use mathlib.Core.List.{List, [], ◌∷◌, ◌++◌, append_assoc}
use native.Mathlib.Omega.{arith}
use apimock_rs.Prelude.Tests.{◌==◌, Bool-cases, ==_iff, ==_refl}
use apimock_rs.Prelude.Lists.{All}
use apimock_rs.Prelude.Text.{Text, split, join, extend}

-- No character of the text is `c`.
abbrev pub Lacks : ℕ → Text → Type 0
Lacks c [] = Unit
Lacks c (d ∷ s) = (d ≢ c) × Lacks c s

pub split-ne-nil : (sep : ℕ) (s : Text) → split sep s ≢ []
unfolding split
split-ne-nil sep [] = cc
split-ne-nil sep (c ∷ s) = ground (arith, split-ne-nil sep s)

join-extend : (sep c : ℕ) (ws : List Text) → join sep (extend c ws) ≡ c ∷ join sep ws
unfolding join
join-extend sep c [] = refl
join-extend sep c (w ∷ []) = refl
join-extend sep c (w ∷ v ∷ ws) = refl

join-nil_cons : (sep : ℕ) (ws : List Text) → ws ≢ [] → join sep ([] ∷ ws) ≡ sep ∷ join sep ws
unfolding join
join-nil_cons sep [] h = absurd (h refl)
join-nil_cons sep (w ∷ ws) h = refl

-- Joining the parts of a split gives the text back.
pub join-split : (sep : ℕ) (s : Text) → join sep (split sep s) ≡ s
unfolding split
join-split sep [] = unfold join in refl
join-split sep (c ∷ s) = elim (Bool-cases (c == sep)) [
  | inl e ↦ rw e (
      join-nil_cons sep (split sep s) (split-ne-nil sep s)
      ∙ cc (join-split sep s, (==_iff c sep).0 e))
  | inr e ↦ rw e (join-extend sep c (split sep s) ∙ ap (λ t. c ∷ t) (join-split sep s))
]

extend-append : (c : ℕ) (ws vs : List Text) → ws ≢ [] → extend c (ws ++ vs) ≡ extend c ws ++ vs
extend-append c [] vs h = absurd (h refl)
extend-append c (w ∷ ws) vs h = refl

-- A separator between two texts separates their parts.
pub split-append : (sep : ℕ) (s t : Text) → split sep (s ++ (sep ∷ t)) ≡ split sep s ++ split sep t
unfolding split
split-append sep [] t = rw (==_refl sep)
split-append sep (c ∷ s) t = elim (Bool-cases (c == sep)) [
  | inl e ↦ rw e (ap (λ ws. [] ∷ ws) (split-append sep s t))
  | inr e ↦ rw e (
      ap (extend c) (split-append sep s t)
      ∙ extend-append c (split sep s) (split sep t) (split-ne-nil sep s))
]

-- A text without the separator is its own only part.
pub split_of_Lacks : (sep : ℕ) (s : Text) → Lacks sep s → split sep s ≡ s ∷ []
unfolding split
split_of_Lacks sep [] h = refl
split_of_Lacks sep (c ∷ s) h = ground (arith, split_of_Lacks sep s h.1)

extend-Lacks :
    (sep c : ℕ) (ws : List Text) → c ≢ sep → All (Lacks sep) ws → All (Lacks sep) (extend c ws)
extend-Lacks sep c [] h k = ((h, tt), tt)
extend-Lacks sep c (w ∷ ws) h k = ((h, k.0), k.1)

-- No part of a split holds the separator.
pub split-Lacks : (sep : ℕ) (s : Text) → All (Lacks sep) (split sep s)
unfolding split
split-Lacks sep [] = (tt, tt)
split-Lacks sep (c ∷ s) = elim (Bool-cases (c == sep)) [
  | inl e ↦ rw e (tt, split-Lacks sep s)
  | inr e ↦ rw e (extend-Lacks sep c (split sep s) (ground arith) (split-Lacks sep s))
]

-- Splitting what was joined from such parts gives the parts back.
pub split-join :
    (sep : ℕ) (ws : List Text) → ws ≢ [] → All (Lacks sep) ws → split sep (join sep ws) ≡ ws
unfolding join
split-join sep [] h k = absurd (h refl)
split-join sep (w ∷ []) h k = split_of_Lacks sep w k.0
split-join sep (w ∷ v ∷ ws) h k =
    split-append sep w (join sep (v ∷ ws))
    ∙ ap₂' (split_of_Lacks sep w k.0) (split-join sep (v ∷ ws) (λ e. cc e) k.1)
  where
    ap₂' : {xs xs' ys ys' : List Text} → xs ≡ xs' → ys ≡ ys' → xs ++ ys ≡ xs' ++ ys'
    ap₂' p q = cc

-- Joining two non-empty runs of parts puts a separator between their texts.
pub join-append :
    (sep : ℕ) (ws : List Text) (v : Text) (vs : List Text)
    → ws ≢ []
    → join sep (ws ++ (v ∷ vs)) ≡ join sep ws ++ (sep ∷ join sep (v ∷ vs))
unfolding join
join-append sep [] v vs h = absurd (h refl)
join-append sep (w ∷ []) v vs h = refl
join-append sep (w ∷ u ∷ ws) v vs h = simp (join-append sep (u ∷ ws) v vs (λ e. cc e), append_assoc)
