-- ===== src/Workspace/Edit/Rule.antt =====
-- crates/apimock-config/src/workspace/edit/rule.rs: the commands on a rule and on its response.
use apimock_rs.Prelude.{
  ℕ, suc, ◌-◌, ◌||◌, Option, none, some, List, [], ◌∷◌, ◌++◌, ◌==◌, leb, ltb, if◌then◌else◌, any,
  length, get_elem?, zero,
}
use apimock_rs.Prelude.Text.{Text}
use apimock_rs.Routing.Libraries.{Libraries}
use apimock_rs.Routing.Rule.{Rule, Respond, Prefix, compute_derived_fields}
use apimock_rs.Routing.RuleSet.{RuleSet}
use apimock_rs.Workspace.{rule, respond, IdIndex, id_for}
use apimock_rs.Workspace.State.{
  invalid_payload, rule_out_of_range, move_out_of_bounds, rule_not_found, Workspace, Outcome, done,
  refused, try_with, mint, id_or_default,
}
use apimock_rs.Workspace.View.{RulePayload, RespondPayload}
use apimock_rs.Workspace.Payload.{build_rule_from_payload, build_respond_from_payload}
use apimock_rs.Workspace.Slots.{set_at, remove_at, move_entry}
use apimock_rs.Workspace.IdShift.{shift_rules_down}
use apimock_rs.Workspace.Nodes.{
  known, as_rule_set, as_rule, as_respond, or_invalid, nth_rule_set, with_rules, reorder_rule_ids,
}

-- `if let Some(id) = …` before `changed.push(id)`, and the same when `changed` does not contain it.
abbrev pub push_known : Option ℕ → List ℕ → List ℕ
push_known none changed = changed
push_known (some id) changed = changed ++ (id ∷ [])

abbrev pub push_unseen : Option ℕ → List ℕ → List ℕ
push_unseen none changed = changed
push_unseen (some id) changed =
    if any (λ seen. seen == id) changed then changed else changed ++ (id ∷ [])

-- The loops over `count` rules from `r` on.
unfoldable pub push_rules : (Option ℕ → List ℕ → List ℕ) → ℕ → ℕ → ℕ → IdIndex → List ℕ → List ℕ
push_rules push s r zero ids changed = changed
push_rules push s r (suc count) ids changed =
    push_rules push s (suc r) count ids
      (push (id_for (respond s r) ids) (push (id_for (rule s r) ids) changed))

-- `cmd_delete_rule` on the rule set that it has found. The panics of indexing are met only where a
-- guard has failed.
abbrev pub delete_at : ℕ → Workspace → ℕ → ℕ → RuleSet → Outcome
delete_at id ws rs_idx rule_idx rule_set =
    if leb (length rule_set.rules) rule_idx
    then refused (invalid_payload (rule_out_of_range rule_idx)) ws
    else let changed = push_known (id_for (respond rs_idx rule_idx) ws.ids) (id ∷ []) in
      let removed = with_rules rs_idx rule_set (remove_at rule_idx rule_set.rules) ws in
      let shifted = record removed { ids = shift_rules_down rs_idx rule_idx ws.ids } in
      let new_rule_count = length rule_set.rules - 1 in
      done (push_rules push_unseen rs_idx rule_idx (new_rule_count - rule_idx) shifted.ids changed)
        shifted

-- `cmd_delete_rule`.
unfoldable pub cmd_delete_rule : ℕ → Workspace → Outcome
cmd_delete_rule id ws =
    try_with ws (as_rule id (known id ws))
      (λ (rs_idx, rule_idx). try_with ws (nth_rule_set rs_idx ws) (delete_at id ws rs_idx rule_idx))

module _ (new_id : ℕ → ℕ) where
  -- `cmd_move_rule` on the rule set that it has found.
  abbrev pub move_at : ℕ → ℕ → Workspace → ℕ → ℕ → RuleSet → Outcome
  move_at id new_index ws rs_idx old_idx rule_set =
      let len = length rule_set.rules in
      if leb len old_idx || leb len new_index
      then refused (invalid_payload (move_out_of_bounds old_idx new_index len)) ws
      else if old_idx == new_index
      then done (id ∷ []) ws
      else let placed =
          with_rules rs_idx rule_set (move_entry old_idx new_index rule_set.rules) ws in
        let moved = reorder_rule_ids new_id rs_idx len old_idx new_index placed in
        let lo = if ltb old_idx new_index then old_idx else new_index in
        let hi = if ltb old_idx new_index then new_index else old_idx in
        done (push_rules push_known rs_idx lo (suc hi - lo) moved.ids []) moved

  -- `cmd_move_rule`.
  unfoldable pub cmd_move_rule : ℕ → ℕ → Workspace → Outcome
  cmd_move_rule id new_index ws = try_with ws (as_rule id (known id ws)) (λ (rs_idx, old_idx).
      try_with ws (nth_rule_set rs_idx ws) (move_at id new_index ws rs_idx old_idx))

-- `cmd_add_rule` with the rule that is built.
abbrev pub add_at : (ℕ → ℕ) → ℕ → Workspace → ℕ → RuleSet → Rule → Outcome
add_at new_id parent ws rs_idx rule_set new_rule =
    let new_rule_idx = length rule_set.rules in
    let pushed = with_rules rs_idx rule_set (rule_set.rules ++ (new_rule ∷ [])) ws in
    let (r_id, with_rule) = mint new_id (rule rs_idx new_rule_idx) pushed in
    let (resp_id, with_both) = mint new_id (respond rs_idx new_rule_idx) with_rule in
    done (parent ∷ r_id ∷ resp_id ∷ []) with_both

-- The rule at two positions, with its rule set.
abbrev pub rule_found : RuleSet → Option Rule → Option (RuleSet × Rule)
rule_found rs none = none
rule_found rs (some found) = some (rs, found)

abbrev pub rule_in : ℕ → Option RuleSet → Option (RuleSet × Rule)
rule_in r none = none
rule_in r (some rs) = rule_found rs (get_elem? rs.rules r)

abbrev pub nth_rule : ℕ → ℕ → Workspace → Option (RuleSet × Rule)
nth_rule s r ws = rule_in r (get_elem? ws.rule_sets s)

module _ (lib : Libraries) where
  -- The response that is put in place, with the derived fields of its rule.
  abbrev pub with_respond : Respond → Option Prefix → Rule → Rule
  with_respond new_respond prefix found =
      compute_derived_fields lib prefix record found { respond = new_respond }

  -- `cmd_update_respond`.
  unfoldable pub cmd_update_respond : ℕ → RespondPayload → Workspace → Outcome
  cmd_update_respond id payload ws =
      try_with ws (as_respond id (known id ws)) (λ (rs_idx, rule_idx).
        try_with ws (or_invalid (rule_not_found rs_idx rule_idx) (nth_rule rs_idx rule_idx ws))
          (λ (rule_set, found).
            let derived = with_respond (build_respond_from_payload payload) rule_set.prefix found in
            done (id ∷ [])
              (with_rules rs_idx rule_set (set_at rule_idx derived rule_set.rules) ws)))

  module _ (to_lowercase : Text → Text) where
    open lib use {Number}

    -- `cmd_update_rule` on the rule set that it has found.
    abbrev pub update_at : (ℕ → ℕ) → ℕ → RulePayload Number → Workspace → ℕ → ℕ → RuleSet → Outcome
    update_at new_id id payload ws rs_idx rule_idx rule_set =
        let existing = get_elem? rule_set.rules rule_idx in
        try_with ws (build_rule_from_payload lib to_lowercase payload rule_set.prefix existing)
          (λ new_rule. try_with ws (or_invalid (rule_out_of_range rule_idx) existing) (λ old_rule.
            let placed = with_rules rs_idx rule_set (set_at rule_idx new_rule rule_set.rules) ws in
            let (resp_id, after) =
              id_or_default new_id (id_for (respond rs_idx rule_idx) placed.ids) placed in
            done (id ∷ resp_id ∷ []) after))

    -- `cmd_update_rule`.
    unfoldable pub cmd_update_rule : (ℕ → ℕ) → ℕ → RulePayload Number → Workspace → Outcome
    cmd_update_rule new_id id payload ws =
        try_with ws (as_rule id (known id ws)) (λ (rs_idx, rule_idx).
          try_with ws (nth_rule_set rs_idx ws) (update_at new_id id payload ws rs_idx rule_idx))

    -- `cmd_add_rule` on the rule set that it has found.
    abbrev pub build_and_add : (ℕ → ℕ) → ℕ → RulePayload Number → Workspace → ℕ → RuleSet → Outcome
    build_and_add new_id parent payload ws rs_idx rule_set =
        try_with ws (build_rule_from_payload lib to_lowercase payload rule_set.prefix none)
          (add_at new_id parent ws rs_idx rule_set)

    -- `cmd_add_rule`.
    unfoldable pub cmd_add_rule : (ℕ → ℕ) → ℕ → RulePayload Number → Workspace → Outcome
    cmd_add_rule new_id parent payload ws =
        try_with ws (as_rule_set parent (known parent ws)) (λ rs_idx.
          try_with ws (nth_rule_set rs_idx ws) (build_and_add new_id parent payload ws rs_idx))
