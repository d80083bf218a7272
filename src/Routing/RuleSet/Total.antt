-- ===== src/Routing/RuleSet/Total.antt =====
-- When `find_matched` returns a rule, when it returns none, and when it panics.
use apimock_rs.Prelude.{
  ℕ, ◌%◌, ◌≡◌, refl, sym, ap, ◌∙◌, ◌≢◌, ◌↔◌, ◌⊎◌, inl, inr, true, false, Option, List, [], ◌∷◌,
  Bool-cases,
}
use apimock_rs.Routing.Libraries.{Libraries}
use apimock_rs.Routing.Request.{ParsedRequest}
use apimock_rs.Routing.Rule.{Rule, Respond}
use apimock_rs.Routing.Strategy.{Strategy, weighted_random, priority, round_robin, make_rng}
use apimock_rs.Routing.RuleSet.{
  Counters, RuleSet, Found, matched, unmatched, panicked, first, u32_mod, choose_weighted,
  choose_priority, choose_uniform, choose_round_robin, prefix_refuses, all_matches, weighty, choose,
  effective_strategy, find_matched,
}
use apimock_rs.Routing.RuleSet.Weighted.{total_weight, choose_weighted-panics_iff}
use apimock_rs.Routing.RuleSet.Answered.{
  IsAnswered, choose_uniform-IsAnswered, choose_round_robin-IsAnswered, choose_priority-IsAnswered,
  choose_weighted-cases, first_match-first,
}

-- The strategy is `weighted_random`.
abbrev pub IsWeighted : Strategy → Type 0
IsWeighted (weighted_random seed) = Unit
IsWeighted _ = ⊥

module _ (lib : Libraries) where
  open lib use {Number}

  -- The rules that the strategy chooses from: the matching ones, and of those, for
  -- `weighted_random`, the ones with a positive weight.
  abbrev pub candidates : Strategy → ParsedRequest Number → List Rule → List (ℕ × Rule)
  candidates (weighted_random seed) parsed rules = weighty lib (all_matches lib parsed rules)
  candidates _ parsed rules = all_matches lib parsed rules

  -- The weighted choice divides by zero: it has a candidate, and the weights sum to a multiple
  -- of 2 ^ 32.
  abbrev pub Overflows : Strategy → ParsedRequest Number → List Rule → Type 0
  Overflows s parsed rules =
      IsWeighted s
      × (candidates s parsed rules ≢ [])
      × (total_weight (candidates s parsed rules) % u32_mod ≡ 0)

  module _ (now : Option ℕ) (parsed : ParsedRequest Number) (rules : List Rule)
      (cs : Counters) where
    abbrev chosen : Strategy → Found
    chosen s = (choose lib s now parsed rules cs).0

    first-eq : chosen Strategy.first_match ≡ first (all_matches lib parsed rules)
    unfolding choose all_matches
    first-eq = first_match-first lib parsed 0 rules

    choose-nil : (s : Strategy) → candidates s parsed rules ≡ [] → chosen s ≡ unmatched
    unfolding choose choose_uniform choose_weighted choose_priority choose_round_robin
    choose-nil Strategy.first_match e = first-eq ∙ ap first e
    choose-nil (Strategy.uniform_random seed) e = ap (choose_uniform (make_rng seed now)) e
    choose-nil (weighted_random seed) e = ap (choose_weighted (make_rng seed now)) e
    choose-nil (priority t) e = ap (choose_priority t now) e
    choose-nil round_robin e = ap (λ ms. (choose_round_robin cs ms).0) e

    choose-cons :
        (s : Strategy) (m : ℕ × Rule) (ms : List (ℕ × Rule))
        → candidates s parsed rules ≡ m ∷ ms
        → IsAnswered (chosen s) ⊎ (IsWeighted s × (chosen s ≡ panicked))
    unfolding choose
    choose-cons Strategy.first_match m ms e = inl (m.0, m.1.respond, first-eq ∙ ap first e)
    choose-cons (Strategy.uniform_random seed) m ms e =
        rw e (inl (choose_uniform-IsAnswered (make_rng seed now) m ms))
    choose-cons (weighted_random seed) m ms e =
        rw e (elim (choose_weighted-cases (make_rng seed now) m ms) [
          | inl found ↦ inl found
          | inr panic ↦ inr (tt, panic)
        ])
    choose-cons (priority t) m ms e = rw e (inl (choose_priority-IsAnswered t now m ms))
    choose-cons round_robin m ms e =
        let (i, resp, found) = choose_round_robin-IsAnswered cs m ms in
        inl (i, resp, ap (λ xs. (choose_round_robin cs xs).0) e ∙ found)

    weighted-panics :
        (s : Strategy) (m : ℕ × Rule) (ms : List (ℕ × Rule))
        → IsWeighted s
        → candidates s parsed rules ≡ m ∷ ms
        → (chosen s ≡ panicked) ↔ (total_weight (m ∷ ms) % u32_mod ≡ 0)
    unfolding choose
    weighted-panics Strategy.first_match m ms w e = absurd w
    weighted-panics (Strategy.uniform_random seed) m ms w e = absurd w
    weighted-panics (weighted_random seed) m ms w e =
        rw e (choose_weighted-panics_iff (make_rng seed now) m ms)
    weighted-panics (priority t) m ms w e = absurd w
    weighted-panics round_robin m ms w e = absurd w

    choose-unmatched_iff :
        (s : Strategy) → (chosen s ≡ unmatched) ↔ (candidates s parsed rules ≡ [])
    choose-unmatched_iff s = (to (candidates s parsed rules) refl, choose-nil s)
      where
        to :
            (ms : List (ℕ × Rule))
            → candidates s parsed rules ≡ ms
            → chosen s ≡ unmatched
            → candidates s parsed rules ≡ []
        to [] e h = e
        to (m ∷ ms) e h = elim (choose-cons s m ms e) [
          | inl (i, resp, f) ↦ absurd (ne₁ i resp (sym f ∙ h))
          | inr (w, f) ↦ absurd (ne₂ (sym f ∙ h))
        ]
          where
            ne₁ : (i : ℕ) (resp : Respond) → matched i resp ≡ unmatched → ⊥
            ne₁ i resp p = cc

            ne₂ : panicked ≡ unmatched → ⊥
            ne₂ p = cc

    choose-panicked_iff : (s : Strategy) → (chosen s ≡ panicked) ↔ Overflows s parsed rules
    choose-panicked_iff s =
        (to (candidates s parsed rules) refl, from (candidates s parsed rules) refl)
      where
        ne₁ : (i : ℕ) (resp : Respond) → matched i resp ≡ panicked → ⊥
        ne₁ i resp p = cc

        ne₂ : unmatched ≡ panicked → ⊥
        ne₂ p = cc

        cons-ne-nil : (m : ℕ × Rule) (ms : List (ℕ × Rule)) → m ∷ ms ≡ [] → ⊥
        cons-ne-nil m ms p = cc

        to :
            (ms : List (ℕ × Rule))
            → candidates s parsed rules ≡ ms
            → chosen s ≡ panicked
            → Overflows s parsed rules
        to [] e h = absurd (ne₂ (sym (choose-nil s e) ∙ h))
        to (m ∷ ms) e h = elim (choose-cons s m ms e) [
          | inl (i, resp, f) ↦ absurd (ne₁ i resp (sym f ∙ h))
          | inr (w, f) ↦ (
            w,
            (λ z. cons-ne-nil m ms (sym e ∙ z)),
            ap (λ xs. total_weight xs % u32_mod) e ∙ (weighted-panics s m ms w e).0 h,
          )
        ]

        from :
            (ms : List (ℕ × Rule))
            → candidates s parsed rules ≡ ms
            → Overflows s parsed rules
            → chosen s ≡ panicked
        from [] e (w, n, z) = absurd (n e)
        from (m ∷ ms) e (w, n, z) =
            (weighted-panics s m ms w e).1 (ap (λ xs. total_weight xs % u32_mod) (sym e) ∙ z)

module _ (lib : Libraries) (rs : RuleSet) (parsed : ParsedRequest lib.Number)
    (strategy : Option Strategy) (now : Option ℕ) (cs : Counters) where
  -- `find_matched` returns no rule exactly when the `[prefix]` of the rule set refuses
  -- the path or when the strategy has no candidate.
  pub find_matched-unmatched_iff : ((find_matched lib rs parsed strategy now cs).0 ≡ unmatched) ↔ (
      (prefix_refuses rs.prefix parsed.url_path ≡ true)
      ⊎ (candidates lib (effective_strategy lib rs strategy) parsed rs.rules ≡ []))
  unfolding find_matched
  find_matched-unmatched_iff = elim (Bool-cases (prefix_refuses rs.prefix parsed.url_path)) [
    | inl e ↦ rw e ((λ h. inl refl), (λ h. refl))
    | inr e ↦
        let (to, from) =
          choose-unmatched_iff lib now parsed rs.rules cs (effective_strategy lib rs strategy) in
        rw e ((λ h. inr (to h)), (λ h. elim h [ inl z ↦ absurd (false≢true z) | inr z ↦ from z ]))
  ]
    where
      false≢true : false ≡ true → ⊥
      false≢true p = cc

  -- `find_matched` panics exactly when the prefix lets the path through, the strategy is
  -- `weighted_random`, some matching rule has a positive weight, and the sum of the
  -- matching rules' weights is a multiple of 2 ^ 32.
  pub find_matched-panicked_iff : ((find_matched lib rs parsed strategy now cs).0 ≡ panicked) ↔ (
      (prefix_refuses rs.prefix parsed.url_path ≡ false)
      × Overflows lib (effective_strategy lib rs strategy) parsed rs.rules)
  unfolding find_matched
  find_matched-panicked_iff = elim (Bool-cases (prefix_refuses rs.prefix parsed.url_path)) [
    | inl e ↦ rw e ((λ h. absurd (ne h)), (λ h. absurd (true≢false h.0)))
    | inr e ↦
        let (to, from) =
          choose-panicked_iff lib now parsed rs.rules cs (effective_strategy lib rs strategy) in
        rw e ((λ h. (refl, to h)), (λ h. from h.1))
  ]
    where
      ne : unmatched ≡ panicked → ⊥
      ne p = cc

      true≢false : true ≡ false → ⊥
      true≢false p = cc
