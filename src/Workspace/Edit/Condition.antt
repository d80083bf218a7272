-- ===== src/Workspace/Edit/Condition.antt =====
-- crates/apimock-config/src/workspace/edit/condition.rs: the commands on one condition of a rule.
use apimock_rs.Prelude.{ℕ, Option, none, some, [], ◌∷◌, unwrap_or, get_elem?}
use apimock_rs.Prelude.Text.{Text}
use apimock_rs.Routing.Libraries.{Libraries}
use apimock_rs.Routing.Headers.{HeaderConditionStatement, Headers}
use apimock_rs.Routing.Body.{BodyKind, BodyConditionStatement, Conditions, Body}
use apimock_rs.Routing.BodyOperator.{value_as_string}
use apimock_rs.Routing.Request.{Request}
use apimock_rs.Routing.RuleSet.{RuleSet}
use apimock_rs.Routing.Rule.{Rule}
use apimock_rs.Workspace.{NodeAddress, rule, header_condition, body_condition, lookup, id_for}
use apimock_rs.Workspace.State.{
  unknown_node, invalid_payload, not_header_condition, not_body_condition, Result, ok, err,
  Workspace, Outcome, done, panicked, try_with, mint,
}
use apimock_rs.Workspace.View.{HeaderConditionPayload, BodyConditionPayload}
use apimock_rs.Workspace.Payload.{
  header_op_to_routing, body_op_to_routing, insert_entry, shift_remove,
}
use apimock_rs.Workspace.Slots.{set_at}
use apimock_rs.Workspace.Nodes.{known, with_rules}

-- `find_rule_indices`.
abbrev pub rule_indices_of : ℕ → Option NodeAddress → Result (ℕ × ℕ)
rule_indices_of rule_id (some (rule s r)) = ok (s, r)
rule_indices_of rule_id _ = err (unknown_node rule_id)

unfoldable pub find_rule_indices : ℕ → Workspace → Result (ℕ × ℕ)
find_rule_indices rule_id ws = rule_indices_of rule_id (lookup rule_id ws.ids)

-- The positions and the name of a condition's address.
abbrev pub as_header_condition : Result NodeAddress → Result (ℕ × ℕ × Text)
as_header_condition (err e) = err e
as_header_condition (ok (header_condition s r name)) = ok (s, r, name)
as_header_condition (ok _) = err (invalid_payload not_header_condition)

abbrev pub as_body_condition : Result NodeAddress → Result (ℕ × ℕ × Text)
as_body_condition (err e) = err e
as_body_condition (ok (body_condition s r path)) = ok (s, r, path)
as_body_condition (ok _) = err (invalid_payload not_body_condition)

-- A change of the request conditions of `rule_sets[s].rules[r]`, then the rest of the command. An
-- index out of range panics.
abbrev pub edit_rule_in :
    ℕ
    → ℕ
    → (Request → Request)
    → Workspace
    → (Workspace → Outcome)
    → RuleSet
    → Option Rule
    → Outcome
edit_rule_in s r change ws rest rs none = panicked ws
edit_rule_in s r change ws rest rs (some found) = rest (
    with_rules s rs
      (set_at r record found { when = record { request = change found.when.request } } rs.rules) ws)

abbrev pub edit_set :
    ℕ → ℕ → (Request → Request) → Workspace → (Workspace → Outcome) → Option RuleSet → Outcome
edit_set s r change ws rest none = panicked ws
edit_set s r change ws rest (some rs) = edit_rule_in s r change ws rest rs (get_elem? rs.rules r)

unfoldable pub edit_request :
    ℕ → ℕ → (Request → Request) → Workspace → (Workspace → Outcome) → Outcome
edit_request s r change ws rest = edit_set s r change ws rest (get_elem? ws.rule_sets s)

unfoldable pub put_header : Text → HeaderConditionStatement → Request → Request
put_header name stmt req = record req {
  headers = some (insert_entry name stmt (unwrap_or req.headers []));
}

unfoldable pub replace_header : Text → Text → HeaderConditionStatement → Request → Request
replace_header old_name new_name stmt req = record req {
  headers = some (insert_entry new_name stmt (shift_remove old_name (unwrap_or req.headers [])));
}

-- The conditions that are left, `none` for no condition.
abbrev none_if_empty : Headers → Option Headers
none_if_empty [] = none
none_if_empty (c ∷ cs) = some (c ∷ cs)

abbrev without_header : Text → Option Headers → Option Headers
without_header name none = none
without_header name (some headers) = none_if_empty (shift_remove name headers)

unfoldable pub remove_header : Text → Request → Request
remove_header name req = record req { headers = without_header name req.headers }

-- A change of the JSON conditions, where there are any.
unfoldable pub change_json : (Conditions → Conditions) → Option Body → Option Body
change_json f none = none
change_json f (some []) = some []
change_json f (some ((BodyKind.json, conditions) ∷ kinds)) =
    some ((BodyKind.json, f conditions) ∷ kinds)

-- `entry(BodyKind::Json).or_default()` on the body, which is made when there is none.
abbrev or_default : Option Body → Body
or_default none = (BodyKind.json, []) ∷ []
or_default (some []) = (BodyKind.json, []) ∷ []
or_default (some (row ∷ kinds)) = row ∷ kinds

unfoldable pub put_body : Text → BodyConditionStatement → Request → Request
put_body path stmt req = record req {
  body = change_json (insert_entry path stmt) (some (or_default req.body));
}

unfoldable pub replace_body : Text → Text → BodyConditionStatement → Request → Request
replace_body old_path new_path stmt req = record req {
  body =
      change_json (λ conditions. insert_entry new_path stmt (shift_remove old_path conditions))
        req.body;
}

unfoldable pub remove_body : Text → Request → Request
remove_body path req = record req { body = change_json (shift_remove path) req.body }

-- What the commands that remove a condition answer.
abbrev pub report_rule : ℕ → ℕ → ℕ → Workspace → Outcome
report_rule id s r ws = done (unwrap_or (id_for (rule s r) ws.ids) id ∷ []) ws

-- `cmd_remove_header_condition`. The identity stays in the index.
unfoldable pub cmd_remove_header_condition : ℕ → Workspace → Outcome
cmd_remove_header_condition id ws =
    try_with ws (as_header_condition (known id ws)) (λ (rs_idx, rule_idx, name).
      edit_request rs_idx rule_idx (remove_header name) ws (report_rule id rs_idx rule_idx))

-- `cmd_remove_body_condition`. The identity stays in the index.
unfoldable pub cmd_remove_body_condition : ℕ → Workspace → Outcome
cmd_remove_body_condition id ws =
    try_with ws (as_body_condition (known id ws)) (λ (rs_idx, rule_idx, path).
      edit_request rs_idx rule_idx (remove_body path) ws (report_rule id rs_idx rule_idx))

module _ (lib : Libraries) (to_lowercase : Text → Text) (new_id : ℕ → ℕ) where
  open lib use {Number}

  abbrev pub header_statement : HeaderConditionPayload → HeaderConditionStatement
  header_statement payload = record {
    op = some (header_op_to_routing payload.op);
    value = unwrap_or payload.value [];
  }

  abbrev pub body_statement : BodyConditionPayload Number → BodyConditionStatement
  body_statement payload = record {
    op = some (body_op_to_routing payload.op);
    value = value_as_string lib payload.value;
  }

  -- The end of the commands that add a condition and of those that replace one.
  abbrev pub report_added : ℕ → ℕ → ℕ → NodeAddress → Workspace → Outcome
  report_added rule_id s r address ws =
      let (cond_id, after) = mint new_id address ws in
      done (unwrap_or (id_for (rule s r) after.ids) rule_id ∷ cond_id ∷ []) after

  abbrev pub report_replaced : NodeAddress → Workspace → Outcome
  report_replaced address ws = let (id, after) = mint new_id address ws in done (id ∷ []) after

  -- `cmd_add_header_condition`.
  unfoldable pub cmd_add_header_condition : ℕ → HeaderConditionPayload → Workspace → Outcome
  cmd_add_header_condition rule_id payload ws =
      try_with ws (find_rule_indices rule_id ws) (λ (rs_idx, rule_idx).
        let name = to_lowercase payload.name in
        edit_request rs_idx rule_idx (put_header name (header_statement payload)) ws
          (report_added rule_id rs_idx rule_idx (header_condition rs_idx rule_idx name)))

  -- `cmd_update_header_condition`.
  unfoldable pub cmd_update_header_condition : ℕ → HeaderConditionPayload → Workspace → Outcome
  cmd_update_header_condition id payload ws =
      try_with ws (as_header_condition (known id ws)) (λ (rs_idx, rule_idx, old_name).
        let new_name = to_lowercase payload.name in
        edit_request rs_idx rule_idx (replace_header old_name new_name (header_statement payload))
          ws (report_replaced (header_condition rs_idx rule_idx new_name)))

  -- `cmd_add_body_condition`.
  unfoldable pub cmd_add_body_condition : ℕ → BodyConditionPayload Number → Workspace → Outcome
  cmd_add_body_condition rule_id payload ws =
      try_with ws (find_rule_indices rule_id ws) (λ (rs_idx, rule_idx).
        edit_request rs_idx rule_idx (put_body payload.path (body_statement payload)) ws
          (report_added rule_id rs_idx rule_idx (body_condition rs_idx rule_idx payload.path)))

  -- `cmd_update_body_condition`.
  unfoldable pub cmd_update_body_condition : ℕ → BodyConditionPayload Number → Workspace → Outcome
  cmd_update_body_condition id payload ws =
      try_with ws (as_body_condition (known id ws)) (λ (rs_idx, rule_idx, old_path).
        edit_request rs_idx rule_idx (replace_body old_path payload.path (body_statement payload))
          ws (report_replaced (body_condition rs_idx rule_idx payload.path)))
