-- ===== src/Routing/RuleSet/Priority.antt =====
-- The choice by priority: the group that is kept, and the rule that the default tiebreaker takes.
use mathlib.Core.Path.{subst}
use apimock_rs.Prelude.{
  ℕ, ◌≡◌, refl, sym, ap, Option, inl, inr, ◌⊎◌, Bool, true, false, List, [], ◌∷◌, ◌++◌, arith,
  if◌then◌else◌, Bool-cases, All, filter,
}
use apimock_rs.Prelude.Int.{ℤ, pos, negsuc, int_eq, int_eq_iff, int_le}
use apimock_rs.Routing.Rule.{Rule}
use apimock_rs.Routing.Strategy.{PriorityTiebreaker}
use apimock_rs.Routing.RuleSet.{
  answer, priority_of, max_priority, top_group, break_tie, choose_priority, first,
}

int_le_refl : (a : ℤ) → int_le a a ≡ true
unfolding int_le
int_le_refl (pos a) = ground arith
int_le_refl (negsuc a) = ground arith

int_le_trans : (a b c : ℤ) → int_le a b ≡ true → int_le b c ≡ true → int_le a c ≡ true
unfolding int_le
int_le_trans (pos a) (pos b) (pos c) h k = ground arith
int_le_trans (negsuc a) (negsuc b) (negsuc c) h k = ground arith
int_le_trans (negsuc a) (negsuc b) (pos c) h k = refl
int_le_trans (negsuc a) (pos b) (pos c) h k = refl
int_le_trans (negsuc a) (pos b) (negsuc c) h k = cc
int_le_trans (pos a) (negsuc b) c h k = cc
int_le_trans (pos a) (pos b) (negsuc c) h k = cc

int_le-total : (a b : ℤ) → int_le a b ≡ false → int_le b a ≡ true
unfolding int_le
int_le-total (pos a) (pos b) h = ground arith
int_le-total (negsuc a) (negsuc b) h = ground arith
int_le-total (negsuc a) (pos b) h = cc
int_le-total (pos a) (negsuc b) h = refl

abbrev step : ℤ → ℕ × Rule → ℤ
step p m = if int_le p (priority_of m.1) then priority_of m.1 else p

step_bounds :
    (p : ℤ) (m : ℕ × Rule)
    → (int_le p (step p m) ≡ true) × (int_le (priority_of m.1) (step p m) ≡ true)
step_bounds p m = elim (Bool-cases (int_le p (priority_of m.1))) [
  | inl e ↦ rw e (e, int_le_refl (priority_of m.1))
  | inr e ↦ rw e (int_le_refl p, int_le-total p (priority_of m.1) e)
]

-- No priority in the list is above the maximum.
abbrev pub Below : ℤ → ℕ × Rule → Type 0
Below p m = int_le (priority_of m.1) p ≡ true

max_priority-bounds :
    (p : ℤ) (ms : List (ℕ × Rule))
    → (int_le p (max_priority p ms) ≡ true) × All (Below (max_priority p ms)) ms
unfolding max_priority
max_priority-bounds p [] = (int_le_refl p, tt)
max_priority-bounds p (m ∷ ms) =
    let (above, rest) = max_priority-bounds (step p m) ms in
    let (old, new) = step_bounds p m in
    (
      int_le_trans p (step p m) _ old above,
      (int_le_trans (priority_of m.1) (step p m) _ new above, rest),
    )

abbrev has_priority : ℤ → ℕ × Rule → Bool
has_priority best c = int_eq (priority_of c.1) best

-- The list up to a first element with a property, and that element.
abbrev pub IsFirst : (ℕ × Rule → Bool) → List (ℕ × Rule) → ℕ × Rule → Type 0
IsFirst p ms c =
    (before after : List (ℕ × Rule)) × (ms ≡ before ++ (c ∷ after))
    × (p c ≡ true)
    × All (λ d. p d ≡ false) before

int_le-antisym : (a b : ℤ) → int_le a b ≡ true → int_eq a b ≡ false → int_le b a ≡ false
unfolding int_le int_eq
int_le-antisym (pos a) (pos b) h n = ground arith
int_le-antisym (negsuc a) (negsuc b) h n = ground arith
int_le-antisym (negsuc a) (pos b) h n = refl
int_le-antisym (pos a) (negsuc b) h n = cc

-- Some element passes the test.
abbrev Passes {ℓ} : {A : Type ℓ} → (A → Bool) → List A → Type 0
Passes p [] = ⊥
Passes p (x ∷ xs) = (p x ≡ true) ⊎ Passes p xs

has_priority_self : (m : ℕ × Rule) (p : ℤ) → p ≡ priority_of m.1 → has_priority p m ≡ true
has_priority_self m p e = (int_eq_iff (priority_of m.1) p).1 (cc e)

step-cases : (p : ℤ) (m : ℕ × Rule) → (step p m ≡ p) ⊎ (step p m ≡ priority_of m.1)
step-cases p m = elim (Bool-cases (int_le p (priority_of m.1))) [
  | inl e ↦ inr (rw e)
  | inr e ↦ inl (rw e)
]

max_priority-attained :
    (p : ℤ) (ms : List (ℕ × Rule))
    → (max_priority p ms ≡ p) ⊎ Passes (has_priority (max_priority p ms)) ms
unfolding max_priority
max_priority-attained p [] = inl refl
max_priority-attained p (m ∷ ms) = elim (max_priority-attained (step p m) ms) [
  | inr later ↦ inr (inr later)
  | inl same ↦ elim (step-cases p m) [
    | inl old ↦ inl (cc (same, old))
    | inr new ↦ inr (inl (has_priority_self m _ (cc (same, new))))
  ]
]

first-filter :
    (p : ℕ × Rule → Bool) (ms : List (ℕ × Rule))
    → Passes p ms
    → (c : ℕ × Rule) × (first (filter p ms) ≡ answer c) × IsFirst p ms c
first-filter p [] h = absurd h
first-filter p (m ∷ ms) h = elim (Bool-cases (p m)) [
  | inl e ↦ (m, rw e refl, ([], ms, refl, e, tt))
  | inr e ↦
      let later : Passes p ms = elim h [ inl t ↦ cc (e, t) | inr l ↦ l ] in
      let (c, f, (before, after, s, t, n)) = first-filter p ms later in
      (c, rw e f, (m ∷ before, after, ap (λ xs. m ∷ xs) s, t, (e, n)))
]

top_group-Passes :
    (m : ℕ × Rule) (ms : List (ℕ × Rule))
    → Passes (has_priority (max_priority (priority_of m.1) ms)) (m ∷ ms)
top_group-Passes m ms = elim (max_priority-attained (priority_of m.1) ms) [
  | inl same ↦ inl (has_priority_self m _ same)
  | inr later ↦ inr later
]

-- The rule is of no lower priority than any of the list, and every rule before it is of a lower one.
pub record IsTop (ms : List (ℕ × Rule)) (c : ℕ × Rule) : Type 0 where
  pub before : List (ℕ × Rule)
  pub after : List (ℕ × Rule)
  pub stands : ms ≡ before ++ (c ∷ after)
  pub highest : All (Below (priority_of c.1)) ms
  pub earliest : All (λ d. int_le (priority_of c.1) (priority_of d.1) ≡ false) before

Below-before :
    (best : ℤ) (before after : List (ℕ × Rule))
    → All (Below best) (before ++ after)
    → All (λ d. has_priority best d ≡ false) before
    → All (λ d. int_le best (priority_of d.1) ≡ false) before
Below-before best [] after h n = tt
Below-before best (d ∷ before) after h n =
    (int_le-antisym (priority_of d.1) best h.0 n.0, Below-before best before after h.1 n.1)

-- With the default tiebreaker, the choice among matching rules is the first of those with the
-- highest priority; a rule without a priority counts as 0.
pub choose_priority-IsTop :
    (now : Option ℕ) (m : ℕ × Rule) (ms : List (ℕ × Rule))
    → (c : ℕ × Rule) × (choose_priority PriorityTiebreaker.first_match now (m ∷ ms) ≡ answer c)
      × IsTop (m ∷ ms) c
unfolding choose_priority break_tie top_group
choose_priority-IsTop now m ms =
    let best = max_priority (priority_of m.1) ms in
    let (above, bounds) = max_priority-bounds (priority_of m.1) ms in
    let (c, f, (before, after, s, t, n)) =
      first-filter (has_priority best) (m ∷ ms) (top_group-Passes m ms) in
    let same : priority_of c.1 ≡ best = (int_eq_iff (priority_of c.1) best).0 t in
    (
      c,
      f,
      record {
        before = before;
        after = after;
        stands = s;
        highest = subst (λ p. All (Below p) (m ∷ ms)) (sym same) (above, bounds);
        earliest =
            subst (λ p. All (λ d. int_le p (priority_of d.1) ≡ false) before) (sym same)
              (Below-before best before (c ∷ after) (subst (All (Below best)) s (above, bounds)) n);
      },
    )
