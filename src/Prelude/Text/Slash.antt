-- ===== src/Prelude/Text/Slash.antt =====
-- Taking one slash off either end of a text, and texts made of path segments.
use apimock_rs.Prelude.Lists.{All}
use apimock_rs.Prelude.Text.{Text, codes, text_eq, strip_suffix, strip_prefix, join}
use apimock_rs.Prelude.Text.Split.{Lacks}
use Prim.Native.Nat.{ℕ}
use mathlib.Core.Path.{◌≡◌, refl}
use mathlib.Core.Logic.{◌≢◌}
use mathlib.Core.Bool.{false}
use mathlib.Core.Option.{none, some}
use mathlib.Core.List.{List, [], ◌∷◌, ◌++◌}
use native.Mathlib.Omega.{arith}

-- The text does not end in a slash.
abbrev pub NoTrail : Text → Type 0
NoTrail [] = Unit
NoTrail (c ∷ []) = c ≢ b'/'
NoTrail (_ ∷ d ∷ s) = NoTrail (d ∷ s)

-- The text does not begin with a slash.
abbrev pub NoLead : Text → Type 0
NoLead [] = Unit
NoLead (c ∷ _) = c ≢ b'/'

-- A path segment: some text with no slash in it.
abbrev pub IsSegment : Text → Type 0
IsSegment w = Lacks b'/' w × (w ≢ [])

snoc-ne-nil : (s : Text) (c : ℕ) → text_eq (s ++ (c ∷ [])) [] ≡ false
unfolding text_eq
snoc-ne-nil [] c = refl
snoc-ne-nil (d ∷ s) c = refl

pub strip_suffix-snoc : (s : Text) → strip_suffix (codes "/") (s ++ codes "/") ≡ some s
unfolding strip_suffix text_eq
strip_suffix-snoc [] = refl
strip_suffix-snoc (c ∷ s) = ground (arith, strip_suffix-snoc s, snoc-ne-nil s b'/')

pub strip_suffix_of_NoTrail : (s : Text) → NoTrail s → strip_suffix (codes "/") s ≡ none
unfolding strip_suffix text_eq
strip_suffix_of_NoTrail [] h = refl
strip_suffix_of_NoTrail (c ∷ []) h = ground arith
strip_suffix_of_NoTrail (c ∷ d ∷ s) h = ground (arith, strip_suffix_of_NoTrail (d ∷ s) h)

pub strip_prefix_slash : (s : Text) → strip_prefix (codes "/") (b'/' ∷ s) ≡ some s
unfolding strip_prefix
strip_prefix_slash s = refl

pub strip_prefix_of_NoLead : (s : Text) → NoLead s → strip_prefix (codes "/") s ≡ none
unfolding strip_prefix
strip_prefix_of_NoLead [] h = refl
strip_prefix_of_NoLead (c ∷ s) h = ground arith

pub NoTrail-append : (s t : Text) → t ≢ [] → NoTrail t → NoTrail (s ++ t)
NoTrail-append [] t n h = h
NoTrail-append (c ∷ []) [] n h = absurd (n refl)
NoTrail-append (c ∷ []) (d ∷ t) n h = h
NoTrail-append (c ∷ d ∷ s) t n h = NoTrail-append (d ∷ s) t n h

NoTrail-of_Lacks : (s : Text) → Lacks b'/' s → NoTrail s
NoTrail-of_Lacks [] h = tt
NoTrail-of_Lacks (c ∷ []) h = h.0
NoTrail-of_Lacks (c ∷ d ∷ s) h = NoTrail-of_Lacks (d ∷ s) h.1

pub join-ne-nil : (w : Text) (ws : List Text) → IsSegment w → join b'/' (w ∷ ws) ≢ []
unfolding join
join-ne-nil [] [] h e = h.1 refl
join-ne-nil [] (v ∷ ws) h e = cc e
join-ne-nil (c ∷ w) [] h e = cc e
join-ne-nil (c ∷ w) (v ∷ ws) h e = cc e

cons-append_NoTrail : (w t : Text) → t ≢ [] → NoTrail t → NoTrail (w ++ (b'/' ∷ t))
cons-append_NoTrail w t n h =
    NoTrail-append w (b'/' ∷ t) (λ e. cc e) (NoTrail-append (b'/' ∷ []) t n h)

pub NoTrail-join : (ws : List Text) → All IsSegment ws → NoTrail (join b'/' ws)
unfolding join
NoTrail-join [] h = tt
NoTrail-join (w ∷ []) h = NoTrail-of_Lacks w h.0.0
NoTrail-join (w ∷ v ∷ ws) h =
    cons-append_NoTrail w (join b'/' (v ∷ ws)) (join-ne-nil v ws h.1.0) (NoTrail-join (v ∷ ws) h.1)

pub NoLead-join : (ws : List Text) → All IsSegment ws → NoLead (join b'/' ws)
unfolding join
NoLead-join [] h = tt
NoLead-join ([] ∷ ws) h = absurd (h.0.1 refl)
NoLead-join ((c ∷ w) ∷ []) h = h.0.0.0
NoLead-join ((c ∷ w) ∷ v ∷ ws) h = h.0.0.0
