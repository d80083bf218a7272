-- ===== src/Routing/BodyOperator.antt =====
-- crates/apimock-routing/src/rule_set/rule/when/request/body/body_operator.rs.
use apimock_rs.Prelude.{ℕ, Bool, true, false, not, ◌&&◌, Option, none, some, ◌==◌, leb, is_some}
use apimock_rs.Prelude.Int.{ℤ, int_eq, parse_i64}
use apimock_rs.Prelude.Text
use apimock_rs.Prelude.Text.{Text, text_eq, parse_usize}
use apimock_rs.Routing.Json.{
  Json, number, string, array, object, Items, Fields, end, field, fields_get, items_length,
  items_any,
}
use apimock_rs.Routing.Libraries.{Libraries}
use apimock_rs.Routing.RuleOp.{regex_is_match}

pub data BodyOperator : Type 0 where
  equal equal_string contains not_contains starts_with not_starts_with ends_with not_ends_with regex
        not_regex equal_typed equal_number greater_than less_than greater_or_equal less_or_equal
        exists absent array_length_equal array_length_at_least array_contains equal_integer
        map_has_key map_does_not_have_key structural_contains :
      BodyOperator

-- `haystack_map.get(k).is_some_and(…)`.
abbrev pub present_and {ℓ} : {A : Type ℓ} → Option A → (A → Bool) → Bool
present_and none p = false
present_and (some a) p = p a

-- `is_subset`: objects by their keys, recursively; any other needle by equality, a parameter.
unfoldable mutual
  pub is_subset : {N : Type 0} → (Json N → Json N → Bool) → Json N → Json N → Bool
  is_subset eq (object fs) (object hs) = fields_subset eq fs hs
  is_subset eq (object fs) _ = false
  is_subset eq needle haystack = eq needle haystack

  pub fields_subset : {N : Type 0} → (Json N → Json N → Bool) → Fields N → Fields N → Bool
  fields_subset eq end hs = true
  fields_subset eq (field k v fs) hs =
      present_and (fields_get k hs) (is_subset eq v) && fields_subset eq fs hs

abbrev same_length : Option ℕ → ℕ → Bool
same_length none n = false
same_length (some m) n = m == n

abbrev long_enough : Option ℕ → ℕ → Bool
long_enough none n = false
long_enough (some m) n = leb m n

abbrev both {ℓ} : {A : Type ℓ} → (A → A → Bool) → Option A → Option A → Bool
both p none r = false
both p (some l) none = false
both p (some l) (some r) = p l r

module _ (lib : Libraries) where
  open lib use {
    Number, Float, as_i64, as_f64, parse_f64, float_near, float_lt, float_le, from_str, to_text,
    json_eq,
  }

  unfoldable pub value_as_string : Json Number → Text
  value_as_string (string s) = s
  value_as_string other = to_text other

  unfoldable pub to_f64 : Json Number → Option Float
  to_f64 (number n) = as_f64 n
  to_f64 (string s) = parse_f64 s
  to_f64 _ = none

  -- The left side of `EqualInteger`.
  unfoldable pub to_i64 : Json Number → Option ℤ
  to_i64 (number n) = as_i64 n
  to_i64 (string s) = parse_i64 s
  to_i64 _ = none

  -- A configured value that is no JSON stands for itself as a string.
  unfoldable pub configured_json : Text → Json Number
  configured_json configured = elim (from_str configured) [ none ↦ string configured | some v ↦ v ]

  abbrev on_array : Json Number → (Items Number → Bool) → Bool
  on_array (array vs) p = p vs
  on_array _ p = false

  abbrev on_object : Json Number → (Fields Number → Bool) → Bool
  on_object (object fs) p = p fs
  on_object _ p = false

  -- `BodyOperator::is_match`.
  unfoldable pub body_op_is_match : BodyOperator → Json Number → Text → Bool
  unfolding value_as_string to_f64 to_i64 configured_json
  body_op_is_match equal v value = text_eq (value_as_string v) value
  body_op_is_match equal_string v value = text_eq (value_as_string v) value
  body_op_is_match contains v value = Text.contains (value_as_string v) value
  body_op_is_match not_contains v value = not (Text.contains (value_as_string v) value)
  body_op_is_match starts_with v value = Text.starts_with (value_as_string v) value
  body_op_is_match not_starts_with v value = not (Text.starts_with (value_as_string v) value)
  body_op_is_match ends_with v value = Text.ends_with (value_as_string v) value
  body_op_is_match not_ends_with v value = not (Text.ends_with (value_as_string v) value)
  body_op_is_match regex v value = regex_is_match lib value (value_as_string v)
  body_op_is_match not_regex v value = not (regex_is_match lib value (value_as_string v))
  body_op_is_match equal_typed v value = present_and (from_str value) (λ w. json_eq v w)
  body_op_is_match equal_number v value = both float_near (to_f64 v) (parse_f64 value)
  body_op_is_match greater_than v value = both (λ l r. float_lt r l) (to_f64 v) (parse_f64 value)
  body_op_is_match less_than v value = both float_lt (to_f64 v) (parse_f64 value)
  body_op_is_match greater_or_equal v value =
      both (λ l r. float_le r l) (to_f64 v) (parse_f64 value)
  body_op_is_match less_or_equal v value = both float_le (to_f64 v) (parse_f64 value)
  body_op_is_match exists v value = true
  body_op_is_match absent v value = false
  body_op_is_match array_length_equal v value =
      on_array v (λ vs. same_length (parse_usize value) (items_length vs))
  body_op_is_match array_length_at_least v value =
      on_array v (λ vs. long_enough (parse_usize value) (items_length vs))
  body_op_is_match array_contains v value =
      on_array v (items_any (λ w. json_eq w (configured_json value)))
  body_op_is_match equal_integer v value = both int_eq (to_i64 v) (parse_i64 value)
  body_op_is_match map_has_key v value = on_object v (λ fs. is_some (fields_get value fs))
  body_op_is_match map_does_not_have_key v value =
      on_object v (λ fs. not (is_some (fields_get value fs)))
  body_op_is_match structural_contains v value =
      on_array v (items_any (is_subset json_eq (configured_json value)))
