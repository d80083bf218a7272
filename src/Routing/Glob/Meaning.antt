-- ===== src/Routing/Glob/Meaning.antt =====
-- What a glob pattern means, as a relation (crates/apimock-routing/src/util/glob.rs).
use apimock_rs.Prelude.{
  ℕ, ◌≡◌, refl, sym, ◌≢◌, ◌↔◌, inl, inr, true, [], ◌∷◌, ◌++◌, arith, ◌==◌, ==_iff, Bool-cases,
}
use mathlib.Core.Path.{subst}
use apimock_rs.Prelude.Text.{Text}
use apimock_rs.Routing.Glob.{glob_match}

-- `*` stands for any text, `?` for any one character, and every other character for itself.
pub data Matches : Text → Text → Type 0 where
  done : Matches [] []
  star :
      {c : ℕ} {pat text : Text} (u v : Text)
      → c ≡ b'*'
      → text ≡ u ++ v
      → Matches pat v
      → Matches (c ∷ pat) text
  one : {c d : ℕ} {pat text : Text} → c ≡ b'?' → Matches pat text → Matches (c ∷ pat) (d ∷ text)
  same :
      {c d : ℕ} {pat text : Text}
      → c ≢ b'*'
      → c ≢ b'?'
      → c ≡ d
      → Matches pat text
      → Matches (c ∷ pat) (d ∷ text)

-- A star takes one more character in front.
widen :
    {c d : ℕ} {pat text : Text} → c ≡ b'*' → Matches (c ∷ pat) text → Matches (c ∷ pat) (d ∷ text)
widen {d} s (star u v e f m) = star (d ∷ u) v e (cc f) m
widen {d} s (one e m) = absurd (omega arith)
widen {d} s (same n q e m) = absurd (n s)

glob_sound : (pat text : Text) → glob_match pat text ≡ true → Matches pat text
unfolding glob_match
glob_sound [] [] h = done
glob_sound [] (t ∷ text) h = cc
glob_sound (p ∷ pat) [] h = elim (Bool-cases (p == b'*')) [
  | inl e ↦ star [] [] ((==_iff p b'*').0 e) refl (glob_sound pat [] (rw e at h))
  | inr e ↦ cc (h, e)
]
glob_sound (p ∷ pat) (t ∷ text) h = elim (Bool-cases (p == b'*')) [
  | inl e ↦ elim (Bool-cases (glob_match pat (t ∷ text))) [
    | inl skip ↦ star [] (t ∷ text) ((==_iff p b'*').0 e) refl (glob_sound pat (t ∷ text) skip)
    | inr stay ↦ widen ((==_iff p b'*').0 e) (glob_sound (p ∷ pat) text (ground arith))
  ]
  | inr e ↦ elim (Bool-cases (p == b'?')) [
    | inl q ↦ one ((==_iff p b'?').0 q) (glob_sound pat text (ground arith))
    | inr q ↦ same (ground arith) (ground arith) (ground arith) (glob_sound pat text (ground arith))
  ]
]

glob_star :
    (c : ℕ) (pat u v : Text)
    → c ≡ b'*'
    → glob_match pat v ≡ true
    → glob_match (c ∷ pat) (u ++ v) ≡ true
unfolding glob_match
glob_star c pat [] [] e h = ground arith
glob_star c pat [] (d ∷ v) e h = ground arith
glob_star c pat (d ∷ u) v e h = ground (arith, glob_star c pat u v e h)

glob_complete : {pat text : Text} → Matches pat text → glob_match pat text ≡ true
unfolding glob_match
glob_complete done = refl
glob_complete (star {c} {pat} u v e f m) =
    subst (λ t. glob_match (c ∷ pat) t ≡ true) (sym f) (glob_star c pat u v e (glob_complete m))
glob_complete (one e m) = ground (arith, glob_complete m)
glob_complete (same n q e m) = ground (arith, glob_complete m)

-- `glob_match` accepts exactly the texts that its pattern stands for, whatever the stars.
pub glob_match_iff : (pat text : Text) → (glob_match pat text ≡ true) ↔ Matches pat text
glob_match_iff pat text = (glob_sound pat text, glob_complete)
