-- ===== src/Routing/RuleSet/Sound.antt =====
-- The rule that `find_matched` of rule_set.rs returns, under every strategy.
use apimock_rs.Prelude.{
  ℕ, suc, ◌+◌, ◌%◌, ◌≡◌, refl, inl, inr, Bool, true, false, Option, some, List, [], ◌∷◌, arith, ltb,
  if◌then◌else◌, Bool-cases, Option-cases, get_elem?, filter, All, All-get_elem?, All-filter,
  All-both, All-map, filter-All,
}
use mathlib.Core.Path.{subst}
use apimock_rs.Prelude.Int.{int_eq}
use apimock_rs.Routing.Libraries.{Libraries}
use apimock_rs.Routing.Request.{ParsedRequest}
use apimock_rs.Routing.Rule.{Respond, Rule}
use apimock_rs.Routing.Strategy.{
  PriorityTiebreaker, Strategy, weighted_random, priority, round_robin,
}
use apimock_rs.Routing.RuleSet.{
  Counters, RuleSet, Found, matched, unmatched, panicked, enumerate, answer, at, first, last,
  pick_weighted, choose_weighted, top_group, break_tie, choose_priority, choose_uniform,
  choose_round_robin, prefix_refuses, rule_matches, first_match, all_matches, weighty, choose,
  effective_strategy, find_matched, max_priority, priority_of, weight_of, u32_mod,
}

-- The answer, if there is one, is that of a rule of which `P` holds.
abbrev pub IsAnswer : (ℕ × Rule → Type 0) → Found → Type 0
IsAnswer P (matched i resp) = (r : Rule) × P (i, r) × (r.respond ≡ resp)
IsAnswer P _ = Unit

-- The rule stands at its index, counted from `k`.
abbrev At : ℕ → List Rule → ℕ × Rule → Type 0
At k rules m = (j : ℕ) × (m.0 ≡ k + j) × (get_elem? rules j ≡ some m.1)

enumerate-At : (k : ℕ) (rules : List Rule) → All (At k rules) (enumerate k rules)
unfolding enumerate
enumerate-At k [] = tt
enumerate-At k (r ∷ rs) = (
  (0, omega arith, refl),
  All-map (At (suc k) rs) (At k (r ∷ rs)) (enumerate (suc k) rs)
      (λ m (j, e, g). (suc j, omega arith, g)) (enumerate-At (suc k) rs),
)

module _ (lib : Libraries) where
  open lib use {Number}

  -- The rule stands at its index in the list, and its conditions hold of the request.
  abbrev pub IsMatch : ParsedRequest Number → List Rule → ℕ × Rule → Type 0
  IsMatch parsed rules m = (get_elem? rules m.0 ≡ some m.1) × (rule_matches lib parsed m.1 ≡ true)

  module _ (parsed : ParsedRequest Number) (rules : List Rule) where
    pub all_matches-IsMatch : All (IsMatch parsed rules) (all_matches lib parsed rules)
    unfolding all_matches
    all_matches-IsMatch =
        All-map (λ m. At 0 rules m × (rule_matches lib parsed m.1 ≡ true)) (IsMatch parsed rules)
          (filter (λ m. rule_matches lib parsed m.1) (enumerate 0 rules))
          (λ m ((j, e, g), t). (let same : m.0 ≡ j = omega arith in rw same g, t))
          (All-both (At 0 rules) (λ m. rule_matches lib parsed m.1 ≡ true) _
            (All-filter (At 0 rules) _ (enumerate 0 rules) (enumerate-At 0 rules))
            (filter-All (λ m. rule_matches lib parsed m.1) (enumerate 0 rules)))

    weighty-IsMatch : All (IsMatch parsed rules) (weighty lib (all_matches lib parsed rules))
    weighty-IsMatch = All-filter (IsMatch parsed rules) _ _ all_matches-IsMatch

module _ (P : ℕ × Rule → Type 0) where
  at-IsAnswer : (ms : List (ℕ × Rule)) (idx : ℕ) → All P ms → IsAnswer P (at ms idx)
  at-IsAnswer ms idx h = elim (Option-cases (get_elem? ms idx)) [
    | inl e ↦ rw (e, IsAnswer) tt
    | inr (m, e) ↦ rw (e, IsAnswer) (m.1, All-get_elem? P ms idx m h e, refl)
  ]

  IsAnswer-if :
      (b : Bool) (x y : Found) → IsAnswer P x → IsAnswer P y → IsAnswer P (if b then x else y)
  IsAnswer-if true x y h k = h
  IsAnswer-if false x y h k = k

  first-IsAnswer : (ms : List (ℕ × Rule)) → All P ms → IsAnswer P (first ms)
  first-IsAnswer [] h = tt
  first-IsAnswer (m ∷ ms) h = (m.1, h.0, refl)

  last-IsAnswer : (ms : List (ℕ × Rule)) → All P ms → IsAnswer P (last ms)
  last-IsAnswer [] h = tt
  last-IsAnswer (m ∷ []) h = (m.1, h.0, refl)
  last-IsAnswer (_ ∷ m ∷ ms) h = last-IsAnswer (m ∷ ms) h.1

  pub choose_uniform-IsAnswer :
      (rng : ℕ) (ms : List (ℕ × Rule)) → All P ms → IsAnswer P (choose_uniform rng ms)
  unfolding choose_uniform
  choose_uniform-IsAnswer rng [] h = tt
  choose_uniform-IsAnswer rng (m ∷ ms) h = at-IsAnswer (m ∷ ms) _ h

  pick_weighted-IsAnswer :
      (pick acc : ℕ) (whole ms : List (ℕ × Rule))
      → All P whole
      → All P ms
      → IsAnswer P (pick_weighted pick acc whole ms)
  unfolding pick_weighted
  pick_weighted-IsAnswer pick acc whole [] h k = last-IsAnswer whole h
  pick_weighted-IsAnswer pick acc whole (m ∷ ms) h k =
      IsAnswer-if (ltb pick ((acc + weight_of m.1) % u32_mod)) (answer m) _ (m.1, k.0, refl)
        (pick_weighted-IsAnswer pick ((acc + weight_of m.1) % u32_mod) whole ms h k.1)

  pub choose_weighted-IsAnswer :
      (rng : ℕ) (ms : List (ℕ × Rule)) → All P ms → IsAnswer P (choose_weighted rng ms)
  unfolding choose_weighted
  choose_weighted-IsAnswer rng [] h = tt
  choose_weighted-IsAnswer rng (m ∷ ms) h =
      IsAnswer-if _ panicked _ tt (pick_weighted-IsAnswer _ 0 (m ∷ ms) (m ∷ ms) h h)

  top_group-All : (m : ℕ × Rule) (ms : List (ℕ × Rule)) → All P (m ∷ ms) → All P (top_group m ms)
  unfolding top_group
  top_group-All m ms h =
      All-filter P (λ c. int_eq (priority_of c.1) (max_priority (priority_of m.1) ms)) (m ∷ ms) h

  pub choose_priority-IsAnswer :
      (t : PriorityTiebreaker) (now : Option ℕ) (ms : List (ℕ × Rule))
      → All P ms
      → IsAnswer P (choose_priority t now ms)
  unfolding choose_priority break_tie
  choose_priority-IsAnswer t now [] h = tt
  choose_priority-IsAnswer PriorityTiebreaker.first_match now (m ∷ ms) h =
      first-IsAnswer (top_group m ms) (top_group-All m ms h)
  choose_priority-IsAnswer PriorityTiebreaker.uniform_random now (m ∷ ms) h =
      at-IsAnswer (top_group m ms) _ (top_group-All m ms h)

  pub choose_round_robin-IsAnswer :
      (counters : Counters) (ms : List (ℕ × Rule))
      → All P ms
      → IsAnswer P (choose_round_robin counters ms).0
  unfolding choose_round_robin
  choose_round_robin-IsAnswer counters [] h = tt
  choose_round_robin-IsAnswer counters (m ∷ ms) h = at-IsAnswer (m ∷ ms) _ h

module _ (lib : Libraries) where
  open lib use {Number}

  first_match-IsAnswer :
      (parsed : ParsedRequest Number) (k : ℕ) (rules : List Rule)
      → IsAnswer
          (λ m. At k rules m × (rule_matches lib parsed m.1 ≡ true))
          (first_match lib parsed k rules)
  unfolding first_match
  first_match-IsAnswer parsed k [] = tt
  first_match-IsAnswer parsed k (r ∷ rs) = elim (Bool-cases (rule_matches lib parsed r)) [
    | inl e ↦ rw (e, IsAnswer) (r, ((0, omega arith, refl), e), refl)
    | inr e ↦
        rw (e, IsAnswer)
          (shift (first_match lib parsed (suc k) rs) (first_match-IsAnswer parsed (suc k) rs))
  ]
    where
      shift :
          (f : Found)
          → IsAnswer (λ m. At (suc k) rs m × (rule_matches lib parsed m.1 ≡ true)) f
          → IsAnswer (λ m. At k (r ∷ rs) m × (rule_matches lib parsed m.1 ≡ true)) f
      shift (matched i resp) (q, ((j, e, g), t), s) = (q, ((suc j, omega arith, g), t), s)
      shift unmatched h = tt
      shift panicked h = tt

  from_zero :
      (parsed : ParsedRequest Number) (rules : List Rule) (f : Found)
      → IsAnswer (λ m. At 0 rules m × (rule_matches lib parsed m.1 ≡ true)) f
      → IsAnswer (IsMatch lib parsed rules) f
  from_zero parsed rules (matched i resp) (q, ((j, e, g), t), s) =
      (q, (let same : i ≡ j = omega arith in rw same g, t), s)
  from_zero parsed rules unmatched h = tt
  from_zero parsed rules panicked h = tt

  choose-IsAnswer :
      (s : Strategy) (now : Option ℕ) (parsed : ParsedRequest Number) (rules : List Rule)
      (counters : Counters)
      → IsAnswer (IsMatch lib parsed rules) (choose lib s now parsed rules counters).0
  unfolding choose
  choose-IsAnswer Strategy.first_match now parsed rules counters =
      from_zero parsed rules _ (first_match-IsAnswer parsed 0 rules)
  choose-IsAnswer (Strategy.uniform_random seed) now parsed rules counters =
      choose_uniform-IsAnswer _ _ _ (all_matches-IsMatch lib parsed rules)
  choose-IsAnswer (weighted_random seed) now parsed rules counters =
      choose_weighted-IsAnswer _ _ _ (weighty-IsMatch lib parsed rules)
  choose-IsAnswer (priority t) now parsed rules counters =
      choose_priority-IsAnswer _ t now _ (all_matches-IsMatch lib parsed rules)
  choose-IsAnswer round_robin now parsed rules counters =
      choose_round_robin-IsAnswer _ counters _ (all_matches-IsMatch lib parsed rules)

  -- Under every strategy, the index and the response that `find_matched` returns are those of a
  -- rule of the set whose conditions hold of the request, and the prefix of the set takes the path.
  pub find_matched_sound :
      (rs : RuleSet) (parsed : ParsedRequest Number) (strategy : Option Strategy) (now : Option ℕ)
      (counters : Counters) (i : ℕ) (resp : Respond)
      → (find_matched lib rs parsed strategy now counters).0 ≡ matched i resp
      → ((r : Rule) × (get_elem? rs.rules i ≡ some r)
          × (rule_matches lib parsed r ≡ true)
          × (r.respond ≡ resp)
          × (prefix_refuses rs.prefix parsed.url_path ≡ false))
  unfolding find_matched
  find_matched_sound rs parsed strategy now counters i resp h =
      elim (Bool-cases (prefix_refuses rs.prefix parsed.url_path)) [
        | inl e ↦ cc (rw e at h)
        | inr e ↦
            let answer =
              choose-IsAnswer (effective_strategy lib rs strategy) now parsed rs.rules counters in
            taken e (subst (IsAnswer (IsMatch lib parsed rs.rules)) (rw e at h) answer)
      ]
    where
      taken :
          prefix_refuses rs.prefix parsed.url_path ≡ false
          → IsAnswer (IsMatch lib parsed rs.rules) (matched i resp)
          → (r : Rule) × (get_elem? rs.rules i ≡ some r)
            × (rule_matches lib parsed r ≡ true)
            × (r.respond ≡ resp)
            × (prefix_refuses rs.prefix parsed.url_path ≡ false)
      taken e (r, (g, t), s) = (r, g, t, s, e)
