-- ===== src/Routing/Headers.antt =====
-- crates/apimock-routing/src/rule_set/rule/when/request/headers.rs and header_operator.rs.
use apimock_rs.Prelude.{Bool, true, false, not, Option, none, some, List, [], ◌∷◌, unwrap_or, all}
use apimock_rs.Prelude.Text.{Text}
use apimock_rs.Routing.Libraries.{Libraries}
use apimock_rs.Routing.RuleOp.{RuleOp, op_is_match}

pub data HeaderOperator : Type 0 where
  equal not_equal starts_with not_starts_with ends_with not_ends_with contains not_contains
        wild_card regex not_regex exists absent :
      HeaderOperator

pub record HeaderConditionStatement : Type 0 where
  pub op : Option HeaderOperator
  pub value : Text

-- `Headers`, an `IndexMap` from lower-cased names, in the order of the file.
abbrev pub Headers : Type 0
Headers = List (Text × HeaderConditionStatement)

-- A `HeaderValue`, by what `to_str` gives.
pub data HeaderValue : Type 0 where
  readable : Text → HeaderValue
  unreadable : HeaderValue

-- The request's `HeaderMap`, by its two queries.
pub record HeaderMap : Type 0 where
  pub contains_key : Text → Bool
  pub get : Text → Option HeaderValue

-- `HeaderOperator::to_rule_op`; `none` is its panic on the presence operators.
unfoldable pub to_rule_op : HeaderOperator → Option RuleOp
to_rule_op equal = some RuleOp.equal
to_rule_op not_equal = some RuleOp.not_equal
to_rule_op starts_with = some RuleOp.starts_with
to_rule_op not_starts_with = some RuleOp.not_starts_with
to_rule_op ends_with = some RuleOp.ends_with
to_rule_op not_ends_with = some RuleOp.not_ends_with
to_rule_op contains = some RuleOp.contains
to_rule_op not_contains = some RuleOp.not_contains
to_rule_op wild_card = some RuleOp.wild_card
to_rule_op regex = some RuleOp.regex
to_rule_op not_regex = some RuleOp.not_regex
to_rule_op exists = none
to_rule_op absent = none

module _ (lib : Libraries) where
  -- `op.to_rule_op().is_match(header_str, &stmt.value)`. The panic is never met: the callers have
  -- returned for the presence operators before.
  abbrev pub compare_value : Option RuleOp → Text → Text → Bool
  compare_value none text value = false
  compare_value (some op) text value = op_is_match lib op text value

  -- The value operators: a missing header and one that cannot be read do not match.
  abbrev pub value_is_match : HeaderOperator → Option HeaderValue → Text → Bool
  value_is_match op none value = false
  value_is_match op (some unreadable) value = false
  value_is_match op (some (readable text)) value = compare_value (to_rule_op op) text value

  -- The body of the loop of `Headers::is_match`.
  unfoldable pub header_is_match : HeaderMap → HeaderOperator → Text → Text → Bool
  header_is_match headers exists key value = headers.contains_key key
  header_is_match headers absent key value = not (headers.contains_key key)
  header_is_match headers op key value = value_is_match op (headers.get key) value

  unfoldable pub headers_is_match : Headers → HeaderMap → Bool
  headers_is_match conditions headers =
      all (λ (key, stmt). header_is_match headers (unwrap_or stmt.op equal) key stmt.value)
        conditions

-- `Headers::validate`: at least one condition.
unfoldable pub headers_validate : Headers → Bool
headers_validate [] = false
headers_validate (_ ∷ _) = true
