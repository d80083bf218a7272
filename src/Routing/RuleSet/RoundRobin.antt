-- ===== src/Routing/RuleSet/RoundRobin.antt =====
-- The counters of the round-robin strategy over a series of requests.
use apimock_rs.Prelude.{
  ℕ, suc, ◌+◌, ◌%◌, ◌<◌, ◌≡◌, refl, ap, ◌∙◌, inl, inr, Bool, false, not, ◌&&◌, Option, List, [],
  ◌∷◌, arith, if◌then◌else◌, Bool-cases, length,
}
use apimock_rs.Prelude.Text.{text_eq, text_eq_iff}
use apimock_rs.Routing.Libraries.{Libraries}
use apimock_rs.Routing.Request.{ParsedRequest}
use apimock_rs.Routing.Rule.{Rule}
use apimock_rs.Routing.Strategy.{Strategy, round_robin, u64_mod}
use apimock_rs.Routing.RuleSet.{
  Counters, RuleSet, unmatched, at, counter, advance, group_key, choose_round_robin, prefix_refuses,
  all_matches, effective_strategy, choose, find_matched,
}

-- A request for one group counts that group up, and no other.
pub counter-advance :
    (key other : List ℕ) (cs : Counters)
    → counter other (advance key cs)
      ≡ (if text_eq key other then (counter other cs + 1) % u64_mod else counter other cs)
unfolding counter advance
counter-advance key other [] = ground arith
counter-advance key other ((k, n) ∷ cs) = ground (
  arith,
  counter-advance key other cs,
  text_eq_iff k key,
  text_eq_iff k other,
  text_eq_iff key other,
)

counted_up :
    (c n c' s : ℕ)
    → c' ≡ (c + 1) % u64_mod
    → (c' < u64_mod → s ≡ (c' + n) % u64_mod)
    → s ≡ (c + suc n) % u64_mod
counted_up c n c' s e f = f (omega (arith, e)) ∙ omega (arith, e)

counted_same :
    (c n c' s : ℕ)
    → c < u64_mod
    → c' ≡ c
    → (c' < u64_mod → s ≡ (c' + n) % u64_mod)
    → s ≡ (c + n) % u64_mod
counted_same c n c' s h e f = f (omega (arith, e, h)) ∙ omega (arith, e)

-- A request and the reading of the clock when it is served.
abbrev pub Arrival : Libraries → Type 0
Arrival lib = ParsedRequest lib.Number × Option ℕ

module _ (lib : Libraries) (rs : RuleSet) (strategy : Option Strategy) where
  open lib use {Number}

  -- The counters after a series of requests.
  unfoldable pub serve : List (Arrival lib) → Counters → Counters
  serve [] cs = cs
  serve ((parsed, now) ∷ rest) cs = serve rest (find_matched lib rs parsed strategy now cs).1

  -- The request passes the prefix and matches exactly the rules of the group.
  abbrev pub is_in_group : List ℕ → ParsedRequest Number → Bool
  is_in_group key parsed =
      not (prefix_refuses rs.prefix parsed.url_path)
      && text_eq (group_key (all_matches lib parsed rs.rules)) key

  unfoldable pub count_group : List ℕ → List (Arrival lib) → ℕ
  count_group key [] = 0
  count_group key ((parsed, now) ∷ rest) =
      if is_in_group key parsed then suc (count_group key rest) else count_group key rest

  abbrev pub IsRoundRobin : Type 0
  IsRoundRobin = effective_strategy lib rs strategy ≡ round_robin

  group_counts :
      (k : ℕ) (ks : List ℕ) (cs : Counters) (ms : List (ℕ × Rule))
      → counter (k ∷ ks) (choose_round_robin cs ms).1 ≡ (
          if text_eq (group_key ms) (k ∷ ks)
          then (counter (k ∷ ks) cs + 1) % u64_mod
          else counter (k ∷ ks) cs)
  unfolding choose_round_robin text_eq
  group_counts k ks cs [] = refl
  group_counts k ks cs (m ∷ ms) = counter-advance (group_key (m ∷ ms)) (k ∷ ks) cs

  find_matched_of_round_robin :
      (rr : IsRoundRobin) (parsed : ParsedRequest Number) (now : Option ℕ) (cs : Counters)
      → find_matched lib rs parsed strategy now cs ≡ (
          if prefix_refuses rs.prefix parsed.url_path
          then (unmatched, cs)
          else choose_round_robin cs (all_matches lib parsed rs.rules))
  unfolding find_matched choose
  find_matched_of_round_robin rr parsed now cs =
      ap
        (λ s.
          if prefix_refuses rs.prefix parsed.url_path
          then (unmatched, cs)
          else choose lib s now parsed rs.rules cs)
        rr

  step :
      (rr : IsRoundRobin) (k : ℕ) (ks : List ℕ) (parsed : ParsedRequest Number) (now : Option ℕ)
      (cs : Counters)
      → counter (k ∷ ks) (find_matched lib rs parsed strategy now cs).1 ≡ (
          if is_in_group (k ∷ ks) parsed
          then (counter (k ∷ ks) cs + 1) % u64_mod
          else counter (k ∷ ks) cs)
  step rr k ks parsed now cs =
      rw (find_matched_of_round_robin rr parsed now cs)
        (elim (Bool-cases (prefix_refuses rs.prefix parsed.url_path)) [
          | inl e ↦ rw e refl
          | inr e ↦ rw e (group_counts k ks cs (all_matches lib parsed rs.rules))
        ])

  -- A series of requests counts every group up by the requests that match exactly
  -- its rules, modulo 2 ^ 64.
  serve-counter :
      (rr : IsRoundRobin) (k : ℕ) (ks : List ℕ) (reqs : List (Arrival lib)) (cs : Counters)
      → counter (k ∷ ks) cs < u64_mod
      → counter (k ∷ ks) (serve reqs cs)
        ≡ (counter (k ∷ ks) cs + count_group (k ∷ ks) reqs) % u64_mod
  unfolding serve count_group
  serve-counter rr k ks [] cs h = omega (arith, h)
  serve-counter rr k ks ((parsed, now) ∷ rest) cs h =
      let next_cs = (find_matched lib rs parsed strategy now cs).1 in
      let counted = step rr k ks parsed now cs in
      elim (Bool-cases (is_in_group (k ∷ ks) parsed)) [
        | inl e ↦ rw e (counted_up _ _ _ _ (rw e at counted) (serve-counter rr k ks rest next_cs))
        | inr e ↦
            rw e (counted_same _ _ _ _ h (rw e at counted) (serve-counter rr k ks rest next_cs))
      ]

  none_served : (key : List ℕ) → counter key [] ≡ 0
  unfolding counter
  none_served key = refl

  in_turn :
      (m : ℕ × Rule) (ms : List (ℕ × Rule)) (cs : Counters) (n : ℕ)
      → counter (group_key (m ∷ ms)) cs ≡ n
      → (choose_round_robin cs (m ∷ ms)).0 ≡ at (m ∷ ms) (n % length (m ∷ ms))
  unfolding choose_round_robin
  in_turn m ms cs n h = ap (λ k. at (m ∷ ms) (k % length (m ∷ ms))) h

  -- Under `round_robin` the requests that match the same rules go through these in turn. From empty
  -- counters, after any series of requests, a request that passes the prefix and matches some rule is
  -- answered by the matching rule whose position is a number modulo the count of matching rules: the
  -- number of earlier requests that passed the prefix and matched the same rules, as a 64-bit word.
  pub round_robin-in_turn :
      (rr : IsRoundRobin) (reqs : List (Arrival lib)) (parsed : ParsedRequest Number)
      (now : Option ℕ)
      → prefix_refuses rs.prefix parsed.url_path ≡ false
      → (m : ℕ × Rule) (ms : List (ℕ × Rule)) → all_matches lib parsed rs.rules ≡ m ∷ ms
      → (find_matched lib rs parsed strategy now (serve reqs [])).0
        ≡ at (m ∷ ms) (count_group (group_key (m ∷ ms)) reqs % u64_mod % length (m ∷ ms))
  round_robin-in_turn rr reqs parsed now e m ms found =
      let key = group_key (m ∷ ms) in
      let none = none_served key in
      let served = serve-counter rr m.0 (group_key ms) reqs [] (omega (arith, none)) in
      rw (find_matched_of_round_robin rr parsed now (serve reqs []), e, found)
        (in_turn m ms (serve reqs []) (count_group key reqs % u64_mod)
          (served ∙ omega (arith, none)))
