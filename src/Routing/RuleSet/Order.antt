-- ===== src/Routing/RuleSet/Order.antt =====
-- The strategies of rule_set.rs that go by order: `first_match` and `priority`.
use apimock_rs.Prelude.{
  ℕ, zero, suc, ◌+◌, ◌<◌, ◌≡◌, sym, ap, ◌∙◌, inl, inr, false, Option, some, List, [], ◌∷◌, arith,
  Bool-cases, some-inj, get_elem?,
}
use apimock_rs.Routing.Libraries.{Libraries}
use apimock_rs.Routing.Request.{ParsedRequest}
use apimock_rs.Routing.Rule.{Rule, Respond}
use apimock_rs.Routing.Strategy.{PriorityTiebreaker, Strategy, priority}
use apimock_rs.Routing.RuleSet.{
  Counters, RuleSet, matched, unmatched, prefix_refuses, rule_matches, first_match, choose,
  effective_strategy, all_matches, answer, choose_priority, find_matched,
}
use apimock_rs.Routing.RuleSet.Priority.{IsTop, choose_priority-IsTop}

module _ (lib : Libraries) where
  open lib use {Number}

  matched-index : (i j : ℕ) (r s : Respond) → matched i r ≡ matched j s → i ≡ j
  matched-index i j r s p = cc

  unmatched-ne : (i : ℕ) (r : Respond) → unmatched ≡ matched i r → ⊥
  unmatched-ne i r p = cc

  -- The loop from the index `k` has refused every rule before the one it returns.
  earlier_refused :
      (parsed : ParsedRequest Number) (k : ℕ) (rules : List Rule) (i : ℕ) (resp : Respond)
      → first_match lib parsed k rules ≡ matched i resp
      → (j : ℕ) (r : Rule) → k + j < i
      → get_elem? rules j ≡ some r
      → rule_matches lib parsed r ≡ false
  unfolding first_match
  earlier_refused parsed k [] i resp h j r l g = absurd (unmatched-ne i resp h)
  earlier_refused parsed k (s ∷ rules) i resp h zero r l g =
      elim (Bool-cases (rule_matches lib parsed s)) [
        | inl e ↦
            let same = matched-index k i s.respond resp (rw e at h) in
            absurd (omega (arith, same, l))
        | inr e ↦ ap (rule_matches lib parsed) (sym (some-inj s r g)) ∙ e
      ]
  earlier_refused parsed k (s ∷ rules) i resp h (suc j) r l g =
      elim (Bool-cases (rule_matches lib parsed s)) [
        | inl e ↦
            let same = matched-index k i s.respond resp (rw e at h) in
            absurd (omega (arith, same, l))
        | inr e ↦ earlier_refused parsed (suc k) rules i resp (rw e at h) j r (omega (arith, l)) g
      ]

  -- Under the strategy `first_match`, no rule before the one that `find_matched` returns has conditions
  -- that hold of the request.
  pub find_matched-first :
      (rs : RuleSet) (parsed : ParsedRequest Number) (strategy : Option Strategy) (now : Option ℕ)
      (counters : Counters)
      → effective_strategy lib rs strategy ≡ Strategy.first_match
      → (i : ℕ) (resp : Respond)
      → (find_matched lib rs parsed strategy now counters).0 ≡ matched i resp
      → (j : ℕ) (r : Rule) → j < i
      → get_elem? rs.rules j ≡ some r
      → rule_matches lib parsed r ≡ false
  unfolding find_matched choose
  find_matched-first rs parsed strategy now counters s i resp h j r l g =
      elim (Bool-cases (prefix_refuses rs.prefix parsed.url_path)) [
        | inl e ↦ absurd (unmatched-ne i resp (rw e at h))
        | inr e ↦
            earlier_refused parsed 0 rs.rules i resp
              (ap (λ t. (choose lib t now parsed rs.rules counters).0) (sym s) ∙ rw e at h) j r
              (omega (arith, l)) g
      ]

  -- Under the strategy `priority` with its default tiebreaker, a request that passes the prefix and
  -- matches some rule is answered by the first of the matching rules with the highest priority; a rule
  -- without a priority counts as 0.
  pub find_matched-IsTop :
      (rs : RuleSet) (parsed : ParsedRequest Number) (strategy : Option Strategy) (now : Option ℕ)
      (counters : Counters)
      → effective_strategy lib rs strategy ≡ priority PriorityTiebreaker.first_match
      → prefix_refuses rs.prefix parsed.url_path ≡ false
      → (m : ℕ × Rule) (ms : List (ℕ × Rule)) → all_matches lib parsed rs.rules ≡ m ∷ ms
      → (c : ℕ × Rule) × ((find_matched lib rs parsed strategy now counters).0 ≡ answer c)
        × IsTop (m ∷ ms) c
  unfolding find_matched choose
  find_matched-IsTop rs parsed strategy now counters s e m ms found =
      let (c, chosen, top) = choose_priority-IsTop now m ms in
      (
        c,
        rw e (
            ap (λ t. (choose lib t now parsed rs.rules counters).0) s
            ∙ ap (choose_priority PriorityTiebreaker.first_match now) found
            ∙ chosen),
        top,
      )
