-- ===== src/Routing/RuleSet.antt =====
-- crates/apimock-routing/src/rule_set.rs: a rule set and the choice of the rule that answers.
mod Tests
pub mod Sound
pub mod Order
pub mod Answered
pub mod Total
pub mod Weighted
pub mod Priority
pub mod RoundRobin
use apimock_rs.Prelude.{
  ℕ, suc, ◌+◌, ◌%◌, ◌^◌, Bool, false, not, Option, none, some, List, [], ◌∷◌, map, ltb, ◌==◌,
  if◌then◌else◌, unwrap_or, or_else, is_some_and, length, get_elem?, get_last?, filter,
}
use apimock_rs.Prelude.Int.{ℤ, pos, int_eq, int_le}
use apimock_rs.Prelude.Text.{Text, text_eq}
use apimock_rs.Routing.Libraries.{Libraries}
use apimock_rs.Routing.Request.{ParsedRequest, is_match}
use apimock_rs.Routing.Rule.{Respond, Rule, Prefix}
use apimock_rs.Routing.Strategy.{
  PriorityTiebreaker, Strategy, weighted_random, priority, round_robin, u64_mod, next, next_index,
  make_rng,
}
use apimock_rs.Routing.UrlPath.{url_path_matches_prefix}

-- `RoundRobinCounters`: a counter for each list of matched rule indices.
abbrev pub Counters : Type 0
Counters = List (List ℕ × ℕ)

-- The counters are the state that a request changes; they are passed beside the rule set.
pub record RuleSet : Type 0 where
  pub prefix : Option Prefix
  pub default_delay : Option ℕ
  pub rules : List Rule
  pub strategy : Option Strategy
  pub file_path : Text
  pub resolved_respond_dir : Text

-- What `find_matched` returns, and its panics: an index out of range, a remainder by zero.
pub data Found : Type 0 where
  matched : ℕ → Respond → Found
  unmatched : Found
  panicked : Found

-- `iter().enumerate()`, from an index.
unfoldable pub enumerate {ℓ} : {A : Type ℓ} → ℕ → List A → List (ℕ × A)
enumerate i [] = []
enumerate i (x ∷ xs) = (i, x) ∷ enumerate (suc i) xs

abbrev pub answer : ℕ × Rule → Found
answer (rule_idx, rule) = matched rule_idx rule.respond

-- `matches[idx]`.
abbrev pub at : List (ℕ × Rule) → ℕ → Found
at ms idx = elim (get_elem? ms idx) [ none ↦ panicked | some m ↦ answer m ]

-- The first of an iterator.
abbrev pub first : List (ℕ × Rule) → Found
first [] = unmatched
first (m ∷ ms) = answer m

abbrev pub last : List (ℕ × Rule) → Found
last ms = elim (get_last? ms) [ none ↦ unmatched | some m ↦ answer m ]

abbrev pub weight_of : Rule → ℕ
weight_of r = unwrap_or r.weight 1

abbrev pub priority_of : Rule → ℤ
priority_of r = unwrap_or r.priority (pos 0)

abbrev pub u32_mod : ℕ
u32_mod = 2 ^ 32

-- `iter().sum::<u32>()` from an accumulator; it wraps in the release profile.
unfoldable pub sum_weights : ℕ → List (ℕ × Rule) → ℕ
sum_weights acc [] = acc
sum_weights acc ((_, r) ∷ ms) = sum_weights ((acc + weight_of r) % u32_mod) ms

-- The loop over the candidates; after it, the last one of the whole list.
unfoldable pub pick_weighted : ℕ → ℕ → List (ℕ × Rule) → List (ℕ × Rule) → Found
pick_weighted pick acc all [] = last all
pick_weighted pick acc all ((i, r) ∷ ms) =
    let acc' = (acc + weight_of r) % u32_mod in
    let rest = pick_weighted pick acc' all ms in if ltb pick acc' then answer (i, r) else rest

-- The branch of `Strategy::WeightedRandom` on its candidates.
unfoldable pub choose_weighted : ℕ → List (ℕ × Rule) → Found
choose_weighted rng [] = unmatched
choose_weighted rng (m ∷ ms) =
    let total = sum_weights 0 (m ∷ ms) in
    if total == 0 then panicked else pick_weighted (next rng % total % u32_mod) 0 (m ∷ ms) (m ∷ ms)

-- `iter().max()` from a first element.
unfoldable pub max_priority : ℤ → List (ℕ × Rule) → ℤ
max_priority p [] = p
max_priority p ((_, r) ∷ ms) =
    max_priority (if int_le p (priority_of r) then priority_of r else p) ms

unfoldable pub top_group : (ℕ × Rule) → List (ℕ × Rule) → List (ℕ × Rule)
top_group m ms =
    let best = max_priority (priority_of m.1) ms in
    filter (λ c. int_eq (priority_of c.1) best) (m ∷ ms)

unfoldable pub break_tie : PriorityTiebreaker → Option ℕ → List (ℕ × Rule) → Found
break_tie PriorityTiebreaker.first_match now top = first top
break_tie PriorityTiebreaker.uniform_random now top =
    at top (next_index (make_rng none now) (length top))

-- The branch of `Strategy::Priority` on the matching rules.
unfoldable pub choose_priority : PriorityTiebreaker → Option ℕ → List (ℕ × Rule) → Found
choose_priority tiebreaker now [] = unmatched
choose_priority tiebreaker now (m ∷ ms) = break_tie tiebreaker now (top_group m ms)

-- The branch of `Strategy::UniformRandom`.
unfoldable pub choose_uniform : ℕ → List (ℕ × Rule) → Found
choose_uniform rng [] = unmatched
choose_uniform rng (m ∷ ms) = at (m ∷ ms) (next_index rng (length (m ∷ ms)))

-- `counters.entry(group_key).or_insert(0)`, read and written back plus one.
unfoldable pub counter : List ℕ → Counters → ℕ
counter key [] = 0
counter key ((k, n) ∷ cs) = if text_eq k key then n else counter key cs

unfoldable pub advance : List ℕ → Counters → Counters
advance key [] = (key, 1) ∷ []
advance key ((k, n) ∷ cs) =
    let rest = advance key cs in
    if text_eq k key then (k, (n + 1) % u64_mod) ∷ cs else (k, n) ∷ rest

abbrev pub group_key : List (ℕ × Rule) → List ℕ
group_key ms = map (λ m. m.0) ms

-- The branch of `Strategy::RoundRobin`.
unfoldable pub choose_round_robin : Counters → List (ℕ × Rule) → Found × Counters
choose_round_robin counters [] = (unmatched, counters)
choose_round_robin counters (m ∷ ms) =
    let key = group_key (m ∷ ms) in
    (at (m ∷ ms) (counter key counters % length (m ∷ ms)), advance key counters)

-- `[prefix] url_path` of the rule set refuses the path.
unfoldable pub prefix_refuses : Option Prefix → Text → Bool
prefix_refuses none path = false
prefix_refuses (some p) path =
    is_some_and (λ u. not (url_path_matches_prefix path u)) p.url_path_prefix

module _ (lib : Libraries) where
  open lib use {Number}

  abbrev pub rule_matches : ParsedRequest Number → Rule → Bool
  rule_matches parsed r = is_match lib r.when.request parsed

  -- The loop of `Strategy::FirstMatch`.
  unfoldable pub first_match : ParsedRequest Number → ℕ → List Rule → Found
  first_match parsed i [] = unmatched
  first_match parsed i (r ∷ rs) =
      if rule_matches parsed r then matched i r.respond else first_match parsed (suc i) rs

  -- `.enumerate().filter(…is_match…)`.
  unfoldable pub all_matches : ParsedRequest Number → List Rule → List (ℕ × Rule)
  all_matches parsed rules = filter (λ m. rule_matches parsed m.1) (enumerate 0 rules)

  -- The candidates of `Strategy::WeightedRandom`.
  abbrev pub weighty : List (ℕ × Rule) → List (ℕ × Rule)
  weighty ms = filter (λ m. ltb 0 (weight_of m.1)) ms

  -- The `match strategy`, on the clock's reading and the counters.
  unfoldable pub choose :
      Strategy → Option ℕ → ParsedRequest Number → List Rule → Counters → Found × Counters
  choose Strategy.first_match now parsed rules counters = (first_match parsed 0 rules, counters)
  choose (Strategy.uniform_random seed) now parsed rules counters =
      (choose_uniform (make_rng seed now) (all_matches parsed rules), counters)
  choose (weighted_random seed) now parsed rules counters =
      (choose_weighted (make_rng seed now) (weighty (all_matches parsed rules)), counters)
  choose (priority tiebreaker) now parsed rules counters =
      (choose_priority tiebreaker now (all_matches parsed rules), counters)
  choose round_robin now parsed rules counters =
      choose_round_robin counters (all_matches parsed rules)

  -- The rule set's strategy, then the service's, then the default.
  abbrev pub effective_strategy : RuleSet → Option Strategy → Strategy
  effective_strategy rs strategy = unwrap_or (or_else rs.strategy strategy) Strategy.first_match

  -- `RuleSet::find_matched`.
  unfoldable pub find_matched :
      RuleSet → ParsedRequest Number → Option Strategy → Option ℕ → Counters → Found × Counters
  find_matched rs parsed strategy now counters =
      if prefix_refuses rs.prefix parsed.url_path
      then (unmatched, counters)
      else choose (effective_strategy rs strategy) now parsed rs.rules counters
