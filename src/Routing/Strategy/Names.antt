-- ===== src/Routing/Strategy/Names.antt =====
-- The names of the strategies, printed and read.
use apimock_rs.Prelude.{
  ◌≡◌, refl, sym, ap, ◌∙◌, Option, none, some, inl, inr, Bool-cases, none-ne-some, some-inj,
  if◌then◌else◌,
}
use apimock_rs.Prelude.Text.{Text, text_eq, text_eq_iff}
use apimock_rs.Routing.Strategy.{
  PriorityTiebreaker, Strategy, weighted_random, priority, round_robin, from_bare_name, to_string,
}

-- The strategy with its options at their defaults.
abbrev pub with_defaults : Strategy → Strategy
with_defaults Strategy.first_match = Strategy.first_match
with_defaults (Strategy.uniform_random seed) = Strategy.uniform_random none
with_defaults (weighted_random seed) = weighted_random none
with_defaults (priority tiebreaker) = priority PriorityTiebreaker.first_match
with_defaults round_robin = round_robin

read_back : (s : Strategy) → from_bare_name (to_string s) ≡ some (with_defaults s)
unfolding from_bare_name to_string text_eq
read_back Strategy.first_match = refl
read_back (Strategy.uniform_random seed) = refl
read_back (weighted_random seed) = refl
read_back (priority tiebreaker) = refl
read_back round_robin = refl

-- A test of a name, and what is read if it fails.
by_name :
    (name literal : Text) (t s : Strategy) (rest : Option Strategy)
    → to_string t ≡ literal
    → (rest ≡ some s → to_string s ≡ name)
    → (if text_eq name literal then some t else rest) ≡ some s
    → to_string s ≡ name
by_name name literal t s rest p later h = elim (Bool-cases (text_eq name literal)) [
  | inl e ↦ ap to_string (sym (some-inj t s (rw e at h))) ∙ p ∙ sym ((text_eq_iff name literal).0 e)
  | inr e ↦ later (rw e at h)
]

name_of : (name : Text) (s : Strategy) → from_bare_name name ≡ some s → to_string s ≡ name
unfolding from_bare_name to_string
name_of name s = by_name name _ Strategy.first_match s _ refl (
    by_name name _ round_robin s _ refl (
      by_name name _ (Strategy.uniform_random none) s _ refl (
        by_name name _ (weighted_random none) s _ refl (
          by_name name _ (priority PriorityTiebreaker.first_match) s none refl
            (λ h. absurd (none-ne-some s h))))))

-- The name that a strategy is printed with is read as the strategy with its options at their
-- defaults, and a text that is read as a strategy is the name that this strategy is printed with.
pub from_bare_name_lem :
    ((s : Strategy) → from_bare_name (to_string s) ≡ some (with_defaults s))
    × ((name : Text) (s : Strategy) → from_bare_name name ≡ some s → to_string s ≡ name)
from_bare_name_lem = (read_back, name_of)
