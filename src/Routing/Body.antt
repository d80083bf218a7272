-- ===== src/Routing/Body.antt =====
-- crates/apimock-routing/src/rule_set/rule/when/request/body.rs.
use apimock_rs.Prelude.{
  Bool, true, false, not, Option, none, some, List, [], ◌∷◌, unwrap_or, is_some, all,
}
use apimock_rs.Prelude.Text.{Text}
use apimock_rs.Routing.Json.{Json, json_value_by_jsonpath}
use apimock_rs.Routing.Libraries.{Libraries}
use apimock_rs.Routing.BodyOperator.{BodyOperator, body_op_is_match}

pub data BodyKind : Type 0 where
  json : BodyKind

pub record BodyConditionStatement : Type 0 where
  pub op : Option BodyOperator
  pub value : Text

-- The `IndexMap` of the conditions on one kind of body, by dotted path.
abbrev pub Conditions : Type 0
Conditions = List (Text × BodyConditionStatement)

-- `Body`, a `HashMap` from kinds to conditions.
abbrev pub Body : Type 0
Body = List (BodyKind × Conditions)

-- `self.0.get(&BodyKind::Json)`; there is one kind.
unfoldable pub json_conditions : Body → Option Conditions
json_conditions [] = none
json_conditions ((json, conditions) ∷ _) = some conditions

module _ (lib : Libraries) where
  open lib use {Number}

  -- One condition, once its path has been looked up.
  abbrev pub resolved_is_match : BodyOperator → Option (Json Number) → Text → Bool
  resolved_is_match op none value = false
  resolved_is_match op (some v) value = body_op_is_match lib op v value

  -- The body of the loop of `Body::is_match`: `absent` wants a path that does not resolve.
  unfoldable pub condition_is_match : BodyOperator → Option (Json Number) → Text → Bool
  condition_is_match BodyOperator.absent resolved value = not (is_some resolved)
  condition_is_match op resolved value = resolved_is_match op resolved value

  unfoldable pub statement_is_match : Json Number → Text × BodyConditionStatement → Bool
  unfolding condition_is_match
  statement_is_match body (path, stmt) =
      condition_is_match (unwrap_or stmt.op BodyOperator.equal) (json_value_by_jsonpath body path)
        stmt.value

  -- No conditions are no match.
  unfoldable pub conditions_match : Option Conditions → Json Number → Bool
  conditions_match none body = false
  conditions_match (some []) body = false
  conditions_match (some (c ∷ cs)) body = all (statement_is_match body) (c ∷ cs)

  -- `Body::is_match`.
  unfoldable pub body_is_match : Body → Option (Json Number) → Bool
  unfolding conditions_match json_conditions
  body_is_match b none = false
  body_is_match b (some body) = conditions_match (json_conditions b) body

abbrev filled : Conditions → Bool
filled [] = false
filled (_ ∷ _) = true

-- `Body::validate`: some kind is present, and no kind is empty.
unfoldable pub body_validate : Body → Bool
body_validate [] = false
body_validate (k ∷ ks) = all (λ row. filled row.1) (k ∷ ks)
