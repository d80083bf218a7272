-- ===== src/Workspace/Payload/Choices.antt =====
-- The choices that a payload names: methods and strategies, of
-- crates/apimock-config/src/workspace/edit/payload.rs.
use mathlib.Core.Option
use apimock_rs.Prelude.{
  ℕ, ◌≡◌, refl, sym, ap, ◌∙◌, ◌↔◌, ◌⊎◌, inl, inr, Bool, true, false, if◌then◌else◌, Option, none,
  some, [], ◌∷◌, arith, map, Bool-cases, none-ne-some, some-inj,
}
use apimock_rs.Prelude.Text.{Text, text_eq, text_eq_iff, lower_char, upper_char}
use apimock_rs.Routing.HttpMethod.{
  HttpMethod, get, post, put, delete, patch, as_str, find_name, parse_config_token,
}
use apimock_rs.Routing.HttpMethod.Tokens.{parse_config_token_lem}
use apimock_rs.Routing.Strategy.{
  Strategy, first_match, uniform_random, weighted_random, priority, round_robin, to_string,
  from_bare_name,
}
use apimock_rs.Workspace.Payload.{parse_set_method, strategy_after_choosing}

abbrev pub lowered : HttpMethod → Text
lowered m = map lower_char (as_str m)

lower-upper : (c : ℕ) → lower_char (upper_char c) ≡ lower_char c
unfolding lower_char upper_char
lower-upper c = ground arith

lower-upper_all : (s : Text) → map lower_char (map upper_char s) ≡ map lower_char s
lower-upper_all [] = refl
lower-upper_all (c ∷ s) = cc (lower-upper c, lower-upper_all s)

own_lowered : (m : HttpMethod) → parse_set_method (lowered m) ≡ some m
unfolding parse_set_method parse_config_token find_name as_str text_eq lower_char upper_char
own_lowered get = refl
own_lowered post = refl
own_lowered put = refl
own_lowered delete = refl
own_lowered patch = refl

-- `set` takes a method by the spelling of the configuration or by the same in lower case, and by no
-- other.
pub parse_set_method_iff :
    (token : Text) (m : HttpMethod)
    → (parse_set_method token ≡ some m) ↔ ((token ≡ as_str m) ⊎ (token ≡ lowered m))
unfolding parse_set_method parse_config_token text_eq
parse_set_method_iff token m = (by_config (parse_config_token token) refl, back)
  where
    by_lower :
        (b : Bool)
        → text_eq token (map lower_char token) ≡ b
        → (if b then parse_config_token (map upper_char token) else none) ≡ some m
        → token ≡ lowered m
    by_lower false e h = absurd (none-ne-some m h)
    by_lower true e h =
        (text_eq_iff token (map lower_char token)).0 e
        ∙ sym (lower-upper_all token)
        ∙ ap (map lower_char) (sym ((parse_config_token_lem.0 (map upper_char token) m).0 h))

    by_config :
        (o : Option HttpMethod)
        → parse_config_token token ≡ o
        → elim o as (λ _. Option HttpMethod) [
          | some method ↦ some method
          | none ↦
              if text_eq token (map lower_char token)
              then parse_config_token (map upper_char token)
              else none
        ]
          ≡ some m
        → (token ≡ as_str m) ⊎ (token ≡ lowered m)
    by_config (some n) e h =
        inl (sym ((parse_config_token_lem.0 token m).0 (e ∙ ap (λ x. some x) (some-inj n m h))))
    by_config none e h = inr (by_lower (text_eq token (map lower_char token)) refl h)

    configured : token ≡ as_str m → parse_set_method token ≡ some m
    configured e = rw ((parse_config_token_lem.0 token m).1 (sym e)) refl

    back : (token ≡ as_str m) ⊎ (token ≡ lowered m) → parse_set_method token ≡ some m
    back (inl e) = configured e
    back (inr e) = ap parse_set_method e ∙ own_lowered m

kept_name :
    (old : Strategy)
    → Option.map (strategy_after_choosing (some old)) (from_bare_name (to_string old)) ≡ some old
unfolding strategy_after_choosing from_bare_name to_string text_eq
kept_name first_match = refl
kept_name (uniform_random seed) = refl
kept_name (weighted_random seed) = refl
kept_name (priority tiebreaker) = refl
kept_name round_robin = refl

-- The strategy that is left has the chosen name, and choosing again changes nothing. A strategy that
-- is chosen by its own name stays as it is, with its options.
pub strategy_after_choosing_lem :
    (current : Option Strategy) (chosen old : Strategy)
    → (to_string (strategy_after_choosing current chosen) ≡ to_string chosen)
      × (strategy_after_choosing (some (strategy_after_choosing current chosen)) chosen
          ≡ strategy_after_choosing current chosen)
      × (Option.map (strategy_after_choosing (some old)) (from_bare_name (to_string old))
          ≡ some old)
unfolding strategy_after_choosing
strategy_after_choosing_lem current chosen old = (same_name current, again current, kept_name old)
  where
    same_name :
        (o : Option Strategy) → to_string (strategy_after_choosing o chosen) ≡ to_string chosen
    same_name none = refl
    same_name (some s) = elim (Bool-cases (text_eq (to_string s) (to_string chosen))) [
      | inl e ↦ rw e ((text_eq_iff (to_string s) (to_string chosen)).0 e)
      | inr e ↦ rw e refl
    ]

    again :
        (o : Option Strategy)
        → strategy_after_choosing (some (strategy_after_choosing o chosen)) chosen
          ≡ strategy_after_choosing o chosen
    again o = rw ((text_eq_iff _ _).1 (same_name o)) refl
