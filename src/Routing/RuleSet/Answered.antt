-- ===== src/Routing/RuleSet/Answered.antt =====
-- The strategies of rule_set.rs on a list of candidates that is not empty.
use native.Mathlib.Nat.{mod-lt}
use apimock_rs.Prelude.{
  ℕ, suc, ◌+◌, ◌%◌, ◌<◌, ◌≡◌, refl, ◌⊎◌, inl, inr, Option, none, List, [], ◌∷◌, arith, ltb, ◌==◌,
  Bool-cases, length, get_elem?_of_lt, filter,
}
use apimock_rs.Routing.Libraries.{Libraries}
use apimock_rs.Routing.Request.{ParsedRequest}
use apimock_rs.Routing.Rule.{Rule, Respond}
use apimock_rs.Routing.Strategy.{PriorityTiebreaker, next, next_index, make_rng}
use apimock_rs.Routing.RuleSet.{
  Counters, Found, matched, unmatched, panicked, enumerate, answer, at, first, last, weight_of,
  u32_mod, sum_weights, pick_weighted, choose_weighted, top_group, break_tie, choose_priority,
  choose_uniform, choose_round_robin, counter, group_key, rule_matches, first_match,
}
use apimock_rs.Routing.RuleSet.Priority.{choose_priority-IsTop}

-- A rule was returned.
abbrev pub IsAnswered : Found → Type 0
IsAnswered f = (i : ℕ) × (resp : Respond) × (f ≡ matched i resp)

pub at-IsAnswered : (ms : List (ℕ × Rule)) (i : ℕ) → i < length ms → IsAnswered (at ms i)
at-IsAnswered ms i h = let (m, e) = get_elem?_of_lt ms i h in (m.0, m.1.respond, rw (e, at) refl)

pub choose_uniform-IsAnswered :
    (rng : ℕ) (m : ℕ × Rule) (ms : List (ℕ × Rule)) → IsAnswered (choose_uniform rng (m ∷ ms))
unfolding choose_uniform next_index
choose_uniform-IsAnswered rng m ms = at-IsAnswered (m ∷ ms) _ (mod-lt (next rng) (omega arith))

pub choose_round_robin-IsAnswered :
    (cs : Counters) (m : ℕ × Rule) (ms : List (ℕ × Rule))
    → IsAnswered (choose_round_robin cs (m ∷ ms)).0
unfolding choose_round_robin
choose_round_robin-IsAnswered cs m ms =
    at-IsAnswered (m ∷ ms) _ (mod-lt (counter (group_key (m ∷ ms)) cs) (omega arith))

length_of_first : (ms : List (ℕ × Rule)) (c : ℕ × Rule) → first ms ≡ answer c → 0 < length ms
length_of_first [] c e = absurd (unmatched-ne e)
  where
    unmatched-ne : unmatched ≡ answer c → ⊥
    unmatched-ne p = cc
length_of_first (m ∷ ms) c e = omega arith

pub choose_priority-IsAnswered :
    (t : PriorityTiebreaker) (now : Option ℕ) (m : ℕ × Rule) (ms : List (ℕ × Rule))
    → IsAnswered (choose_priority t now (m ∷ ms))
choose_priority-IsAnswered PriorityTiebreaker.first_match now m ms =
    let (c, e, top) = choose_priority-IsTop now m ms in (c.0, c.1.respond, e)
choose_priority-IsAnswered PriorityTiebreaker.uniform_random now m ms =
    let (c, e, top) = choose_priority-IsTop now m ms in
    unfold choose_priority break_tie next_index in
    at-IsAnswered (top_group m ms) _ (
      mod-lt (next (make_rng none now))
        (length_of_first (top_group m ms) c (unfold choose_priority break_tie in e)))

last-IsAnswered : (m : ℕ × Rule) (ms : List (ℕ × Rule)) → IsAnswered (last (m ∷ ms))
last-IsAnswered m [] = (m.0, m.1.respond, refl)
last-IsAnswered m (n ∷ ms) = last-IsAnswered n ms

pick_weighted-IsAnswered :
    (pick acc : ℕ) (m : ℕ × Rule) (whole ms : List (ℕ × Rule))
    → IsAnswered (pick_weighted pick acc (m ∷ whole) ms)
unfolding pick_weighted
pick_weighted-IsAnswered pick acc m whole [] = last-IsAnswered m whole
pick_weighted-IsAnswered pick acc m whole (c ∷ ms) =
    elim (Bool-cases (ltb pick ((acc + weight_of c.1) % u32_mod))) [
      | inl e ↦ rw e (c.0, c.1.respond, refl)
      | inr e ↦ rw e (pick_weighted-IsAnswered pick ((acc + weight_of c.1) % u32_mod) m whole ms)
    ]

pub choose_weighted-cases :
    (rng : ℕ) (m : ℕ × Rule) (ms : List (ℕ × Rule))
    → IsAnswered (choose_weighted rng (m ∷ ms)) ⊎ (choose_weighted rng (m ∷ ms) ≡ panicked)
unfolding choose_weighted
choose_weighted-cases rng m ms = elim (Bool-cases (sum_weights 0 (m ∷ ms) == 0)) [
  | inl e ↦ rw e (inr refl)
  | inr e ↦
      rw e (
        inl
          (pick_weighted-IsAnswered (next rng % sum_weights 0 (m ∷ ms) % u32_mod) 0 m ms (m ∷ ms)))
]

pub first_match-first :
    (lib : Libraries) (parsed : ParsedRequest lib.Number) (k : ℕ) (rules : List Rule)
    → first_match lib parsed k rules
      ≡ first (filter (λ m. rule_matches lib parsed m.1) (enumerate k rules))
unfolding first_match enumerate
first_match-first lib parsed k [] = refl
first_match-first lib parsed k (r ∷ rs) = elim (Bool-cases (rule_matches lib parsed r)) [
  | inl e ↦ rw e refl
  | inr e ↦ rw e (first_match-first lib parsed (suc k) rs)
]
