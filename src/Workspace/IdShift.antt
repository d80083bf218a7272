-- ===== src/Workspace/IdShift.antt =====
-- crates/apimock-config/src/workspace/edit/id_shift.rs: what the edits that move nodes do to the
-- index of identities.
use apimock_rs.Prelude.{
  ℕ, ◌-◌, Bool, false, ◌&&◌, Option, none, some, List, [], ◌∷◌, ◌==◌, leb, if◌then◌else◌, filter,
}
use apimock_rs.Prelude.Dict.{remove}
use apimock_rs.Workspace.{NodeAddress, rule_set, rule, respond, address_eq, IdIndex, put_both}

-- The first loop: the rows of `address_to_id` that an edit concerns, in `to_migrate`.
abbrev pub collect : (NodeAddress → Bool) → IdIndex → List (NodeAddress × ℕ)
collect concerns ids = filter (λ row. concerns row.0) ids.address_to_id

-- The second loop takes the rows out of both maps.
unfoldable pub clear : List (NodeAddress × ℕ) → IdIndex → IdIndex
clear [] ids = ids
clear ((address, id) ∷ rows) ids = clear rows record {
  id_to_address = remove ◌==◌ id ids.id_to_address;
  address_to_id = remove address_eq address ids.address_to_id;
}

abbrev pub restore_row : ℕ → Option NodeAddress → IdIndex → IdIndex
restore_row id none ids = ids
restore_row id (some address) ids = put_both id address ids

-- The third loop puts them back under their new addresses; `none` is its `continue`.
unfoldable pub restore :
    (NodeAddress → Option NodeAddress) → List (NodeAddress × ℕ) → IdIndex → IdIndex
restore new_address [] ids = ids
restore new_address ((address, id) ∷ rows) ids =
    restore new_address rows (restore_row id (new_address address) ids)

unfoldable pub migrate :
    (NodeAddress → Bool) → (NodeAddress → Option NodeAddress) → IdIndex → IdIndex
migrate concerns new_address ids =
    let to_migrate = collect concerns ids in restore new_address to_migrate (clear to_migrate ids)

-- The two matches of `shift_rules_down`.
abbrev pub is_later_rule : ℕ → ℕ → NodeAddress → Bool
is_later_rule rule_set_idx removed (rule s i) = s == rule_set_idx && leb removed i
is_later_rule rule_set_idx removed (respond s i) = s == rule_set_idx && leb removed i
is_later_rule rule_set_idx removed _ = false

abbrev pub rule_address : ℕ → NodeAddress → Option NodeAddress
rule_address removed (rule s i) = if i == removed then none else some (rule s (i - 1))
rule_address removed (respond s i) = if i == removed then none else some (respond s (i - 1))
rule_address removed other = some other

-- `shift_rules_down`.
unfoldable pub shift_rules_down : ℕ → ℕ → IdIndex → IdIndex
shift_rules_down rule_set_idx removed ids =
    migrate (is_later_rule rule_set_idx removed) (rule_address removed) ids

-- The two matches of `shift_rule_sets_down`.
abbrev pub is_later_rule_set : ℕ → NodeAddress → Bool
is_later_rule_set removed (rule_set s) = leb removed s
is_later_rule_set removed (rule s i) = leb removed s
is_later_rule_set removed (respond s i) = leb removed s
is_later_rule_set removed _ = false

abbrev pub rule_set_address : ℕ → NodeAddress → Option NodeAddress
rule_set_address removed (rule_set s) = if s == removed then none else some (rule_set (s - 1))
rule_set_address removed (rule s i) = if s == removed then none else some (rule (s - 1) i)
rule_set_address removed (respond s i) = if s == removed then none else some (respond (s - 1) i)
rule_set_address removed other = some other

-- `shift_rule_sets_down`. The source collects `stale` too and does not use it.
unfoldable pub shift_rule_sets_down : ℕ → IdIndex → IdIndex
shift_rule_sets_down removed ids =
    migrate (is_later_rule_set removed) (rule_set_address removed) ids
