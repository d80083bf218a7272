-- ===== src/Workspace/Nodes.antt =====
-- What the editing commands of crates/apimock-config/src/workspace/edit/ share: the guards that turn an
-- identity into positions, the entries of the configuration, and the move of identities of
-- `reorder_rule_ids` of id_shift.rs.
use apimock_rs.Prelude.{ℕ, zero, suc, Option, none, some, List, [], ◌∷◌, ◌++◌, ◌==◌, get_elem?}
use apimock_rs.Prelude.Dict.{remove}
use apimock_rs.Routing.Rule.{Rule}
use apimock_rs.Routing.RuleSet.{RuleSet}
use apimock_rs.Workspace.{
  NodeAddress, rule_set, rule, respond, address_eq, IdIndex, lookup, id_for, put_both,
}
use apimock_rs.Workspace.State.{
  unknown_node, wrong_node_kind, invalid_payload, Reason, expected_rule_set, expected_rule,
  expected_respond, rule_set_out_of_range, Result, ok, err, Workspace, mint,
}
use apimock_rs.Workspace.Slots.{set_at, move_entry}

-- `self.ids.lookup(id).ok_or(ApplyError::UnknownNode { id })?`
abbrev pub known : ℕ → Workspace → Result NodeAddress
known id ws = elim (lookup id ws.ids) [ none ↦ err (unknown_node id) | some address ↦ ok address ]

-- The three `let … else` blocks on an address.
abbrev pub as_rule_set : ℕ → Result NodeAddress → Result ℕ
as_rule_set id (err e) = err e
as_rule_set id (ok (rule_set s)) = ok s
as_rule_set id (ok _) = err (wrong_node_kind id expected_rule_set)

abbrev pub as_rule : ℕ → Result NodeAddress → Result (ℕ × ℕ)
as_rule id (err e) = err e
as_rule id (ok (rule s r)) = ok (s, r)
as_rule id (ok _) = err (wrong_node_kind id expected_rule)

abbrev pub as_respond : ℕ → Result NodeAddress → Result (ℕ × ℕ)
as_respond id (err e) = err e
as_respond id (ok (respond s r)) = ok (s, r)
as_respond id (ok _) = err (wrong_node_kind id expected_respond)

-- `ok_or_else` on an entry of a list.
abbrev pub or_invalid {ℓ} : {A : Type ℓ} → Reason → Option A → Result A
or_invalid reason none = err (invalid_payload reason)
or_invalid reason (some a) = ok a

-- `self.config.service.rule_sets.get_mut(rs_idx)` with its error.
abbrev pub nth_rule_set : ℕ → Workspace → Result RuleSet
nth_rule_set s ws = or_invalid (rule_set_out_of_range s) (get_elem? ws.rule_sets s)

-- The workspace with other rules in a rule set, which the caller has read at `s`.
abbrev pub with_rules : ℕ → RuleSet → List Rule → Workspace → Workspace
with_rules s rs rules ws = record ws {
  rule_sets = set_at s record rs { rules = rules } ws.rule_sets;
}

-- `(0..count).map(|r| self.ids.id_for(…)).collect()`, from an index.
unfoldable pub ids_of : (ℕ → NodeAddress) → ℕ → ℕ → IdIndex → List (Option ℕ)
ids_of address r zero ids = []
ids_of address r (suc count) ids = id_for (address r) ids ∷ ids_of address (suc r) count ids

-- `if let Some(prev_id) = address_to_id.remove(&addr) { id_to_address.remove(&prev_id); }`
abbrev pub forget_row : NodeAddress → Option ℕ → IdIndex → IdIndex
forget_row address none ids = ids
forget_row address (some prev_id) ids = record {
  id_to_address = remove ◌==◌ prev_id ids.id_to_address;
  address_to_id = remove address_eq address ids.address_to_id;
}

abbrev pub forget : NodeAddress → IdIndex → IdIndex
forget address ids = forget_row address (id_for address ids) ids

-- The loop that clears the rows of the rules and their responses.
unfoldable pub forget_rules : ℕ → ℕ → ℕ → IdIndex → IdIndex
forget_rules s r zero ids = ids
forget_rules s r (suc count) ids =
    forget_rules s (suc r) count (forget (respond s r) (forget (rule s r) ids))

module _ (new_id : ℕ → ℕ) where
  -- The loop that mints the identities of the rules of a rule set, `count` of them from `r` on.
  unfoldable pub mint_rules : ℕ → ℕ → ℕ → List ℕ → Workspace → List ℕ × Workspace
  mint_rules s r zero changed ws = (changed, ws)
  mint_rules s r (suc count) changed ws =
      let (r_id, with_rule) = mint new_id (rule s r) ws in
      let (resp_id, with_respond) = mint new_id (respond s r) with_rule in
      mint_rules s (suc r) count (changed ++ (r_id ∷ resp_id ∷ [])) with_respond

  -- The body of the loops that put the rows back: `id_opt.unwrap_or_else(NodeId::new)`.
  abbrev pub put_back : NodeAddress → Option ℕ → Workspace → Workspace
  put_back address (some id) ws = record ws { ids = put_both id address ws.ids }
  put_back address none ws = record ws {
    ids = put_both (new_id ws.minted) address ws.ids;
    minted = suc ws.minted;
  }

  unfoldable pub put_all_back : (ℕ → NodeAddress) → ℕ → List (Option ℕ) → Workspace → Workspace
  put_all_back address r [] ws = ws
  put_all_back address r (id_opt ∷ rest) ws =
      put_all_back address (suc r) rest (put_back (address r) id_opt ws)

  -- `reorder_rule_ids`; `count` is the number of rules of the rule set, which the move keeps.
  unfoldable pub reorder_rule_ids : ℕ → ℕ → ℕ → ℕ → Workspace → Workspace
  reorder_rule_ids s count old_idx new_idx ws =
      let rule_ids = move_entry old_idx new_idx (ids_of (rule s) 0 count ws.ids) in
      let resp_ids = move_entry old_idx new_idx (ids_of (respond s) 0 count ws.ids) in
      put_all_back (respond s) 0 resp_ids
        (put_all_back (rule s) 0 rule_ids record ws { ids = forget_rules s 0 count ws.ids })
