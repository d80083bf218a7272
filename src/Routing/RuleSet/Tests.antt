-- ===== src/Routing/RuleSet/Tests.antt =====
-- Runs of `find_matched` and its branches on small rule sets.
use Prim.Native.String.{String}
use apimock_rs.Prelude.{
  ℕ, ◌≡◌, refl, ◌↔◌, ◌⊎◌, Option, none, some, List, [], ◌∷◌, ◌^◌, get_elem?, length, true, false,
  ◌<◌, arith,
}
use apimock_rs.Prelude.Int.{pos, int_le, int_eq}
use apimock_rs.Prelude.Text.{
  codes, text_eq, starts_with, strip_prefix, lower_char, eq_ignore_ascii_case,
}
use apimock_rs.Routing.Libraries.Sample.{sample}
use apimock_rs.Routing.HttpMethod.{HttpMethod, get, post, as_str, method_is_match}
use apimock_rs.Routing.Request.{ParsedRequest, is_match}
use apimock_rs.Routing.Rule.{Respond, Rule, Prefix}
use apimock_rs.Routing.Strategy.{
  PriorityTiebreaker, Strategy, weighted_random, round_robin, priority, next_index, next, new_rng,
  make_rng,
}
use apimock_rs.Routing.UrlPath.{url_path_matches_prefix}
use apimock_rs.Routing.RuleSet.{
  RuleSet, matched, unmatched, panicked, answer, at, enumerate, find_matched, choose, first_match,
  all_matches, prefix_refuses, choose_weighted, choose_priority, rule_matches, sum_weights,
  pick_weighted, break_tie, top_group, max_priority, choose_round_robin, counter, advance,
}
use apimock_rs.Routing.RuleSet.Sound.{find_matched_sound}
use apimock_rs.Routing.RuleSet.Order.{find_matched-first, find_matched-IsTop}
use apimock_rs.Routing.RuleSet.Total.{
  candidates, Overflows, find_matched-unmatched_iff, find_matched-panicked_iff,
}
use apimock_rs.Routing.RuleSet.Weighted.{total_weight, unroll, choose_weighted-uniform}
use apimock_rs.Routing.RuleSet.Priority.{IsTop}
use apimock_rs.Routing.RuleSet.RoundRobin.{Arrival, count_group, serve, round_robin-in_turn}

abbrev says : ℕ → Respond
says n = record {
  file_path = none;
  csv_records_key = none;
  text = some (n ∷ []);
  json = none;
  status = none;
  status_code = none;
  headers = none;
  delay_response_milliseconds = none;
}

abbrev on : HttpMethod → ℕ → ℕ → Rule
on m n w = record {
  when = record {
    request = record {
      url_path_config = none;
      url_path = none;
      http_method = some m;
      headers = none;
      body = none;
    };
  };
  respond = says n;
  weight = some w;
  priority = some (pos n);
}

abbrev three : List Rule
three = on get 1 2 ∷ on post 2 5 ∷ on get 3 1 ∷ []

abbrev under_api : Option Prefix
under_api = some (record { url_path_prefix = some (codes "/api"); respond_dir_prefix = none })

abbrev rule_set : Option Strategy → List Rule → RuleSet
rule_set strategy rules = record {
  prefix = under_api;
  default_delay = none;
  rules = rules;
  strategy = strategy;
  file_path = codes "rules.toml";
  resolved_respond_dir = codes ".";
}

abbrev ask : String → ParsedRequest ℕ
ask path = record {
  url_path = codes path;
  method = codes "get";
  headers = record { contains_key = λ name. false; get = λ name. none };
  body_json = none;
  body_len = none;
}

-- The definitions that a run of `find_matched` on these rules opens.
runs : Unit {0}
unfolding find_matched choose first_match all_matches enumerate prefix_refuses is_match
    method_is_match as_str eq_ignore_ascii_case lower_char url_path_matches_prefix text_eq
    starts_with strip_prefix choose_weighted sum_weights pick_weighted choose_priority break_tie
    top_group max_priority int_le int_eq choose_round_robin counter advance make_rng new_rng next
    next_index count_group serve total_weight
runs = tt

first_tests :
    ((find_matched sample (rule_set none three) (ask "/api/x") none none []).0 ≡ matched 0 (says 1))
    × ((find_matched sample (rule_set none three) (ask "/apis") none none []).0 ≡ unmatched)
    × ((find_matched sample
          (rule_set none three)
          (ask "/api")
          (some (priority PriorityTiebreaker.first_match))
          none
          []).0
        ≡ matched 2 (says 3))
unfolding runs
first_tests = (refl, refl, refl)

abbrev overflowing : List Rule
overflowing = on get 1 (2 ^ 31) ∷ on get 2 (2 ^ 31) ∷ []

overflow_test :
    (find_matched sample
      (rule_set (some (weighted_random (some 7))) overflowing)
      (ask "/api")
      none
      none
      []).0
    ≡ panicked
unfolding runs
overflow_test = refl

find_matched_sound_example :
    (r : Rule) × (get_elem? three 0 ≡ some r)
    × (rule_matches sample (ask "/api/x") r ≡ true)
    × (r.respond ≡ says 1)
    × (prefix_refuses under_api (codes "/api/x") ≡ false)
find_matched_sound_example =
    find_matched_sound sample (rule_set none three) (ask "/api/x") none none [] 0 (says 1)
      first_tests.0

find_matched-unmatched_iff_example :
    ((find_matched sample (rule_set none three) (ask "/apis") none none []).0 ≡ unmatched) ↔ (
      (prefix_refuses under_api (codes "/apis") ≡ true)
      ⊎ (candidates sample Strategy.first_match (ask "/apis") three ≡ []))
find_matched-unmatched_iff_example =
    find_matched-unmatched_iff sample (rule_set none three) (ask "/apis") none none []

find_matched-panicked_iff_example :
    ((find_matched sample
        (rule_set (some (weighted_random (some 7))) overflowing)
        (ask "/api")
        none
        none
        []).0
      ≡ panicked)
    ↔ ((prefix_refuses under_api (codes "/api") ≡ false)
        × Overflows sample (weighted_random (some 7)) (ask "/api") overflowing)
find_matched-panicked_iff_example =
    find_matched-panicked_iff sample (rule_set (some (weighted_random (some 7))) overflowing)
      (ask "/api") none none []

abbrev twice : List (Arrival sample)
twice =
    (ask "/api/x", none) ∷ (ask "/other", none) ∷ (ask "/api/y", none) ∷ (ask "/api/z", none) ∷ []

round_robin-in_turn_example :
    (find_matched sample
      (rule_set (some round_robin) three)
      (ask "/api")
      none
      none
      (serve sample (rule_set (some round_robin) three) none twice [])).0
    ≡ at ((0, on get 1 2) ∷ (2, on get 3 1) ∷ []) 1
unfolding runs
round_robin-in_turn_example =
    round_robin-in_turn sample (rule_set (some round_robin) three) none refl twice (ask "/api") none
      refl (0, on get 1 2) ((2, on get 3 1) ∷ []) refl

find_matched-IsTop_example :
    (c : ℕ × Rule) × ((find_matched sample
        (rule_set none three)
        (ask "/api/x")
        (some (priority PriorityTiebreaker.first_match))
        none
        []).0
      ≡ answer c)
    × IsTop ((0, on get 1 2) ∷ (2, on get 3 1) ∷ []) c
unfolding runs
find_matched-IsTop_example =
    find_matched-IsTop sample (rule_set none three) (ask "/api/x")
      (some (priority PriorityTiebreaker.first_match)) none [] refl refl (0, on get 1 2)
      ((2, on get 3 1) ∷ []) refl

abbrev weights : List (ℕ × Rule)
weights = (0, on get 1 2) ∷ (1, on get 2 3) ∷ []

choose_weighted-uniform_example :
    (choose_weighted 7 weights ≡ at (unroll weights) (next_index 7 (length (unroll weights))))
    × (next_index 7 (length (unroll weights)) < length (unroll weights))
unfolding total_weight
choose_weighted-uniform_example = choose_weighted-uniform 7 weights (omega arith) (omega arith)

later_test :
    (find_matched sample (rule_set none (on post 2 5 ∷ three)) (ask "/api/x") none none []).0
    ≡ matched 1 (says 1)
unfolding runs
later_test = refl

find_matched-first_example : rule_matches sample (ask "/api/x") (on post 2 5) ≡ false
find_matched-first_example =
    find_matched-first sample (rule_set none (on post 2 5 ∷ three)) (ask "/api/x") none none [] refl
      1 (says 1) later_test 0 (on post 2 5) (omega arith) refl
