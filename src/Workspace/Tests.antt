-- ===== src/Workspace/Tests.antt =====
-- A small index of identities, built by insertions, and the edits on it.
use apimock_rs.Prelude.{ℕ, ◌≡◌, refl, none, some, [], none-ne-some}
use apimock_rs.Prelude.Dict.{lookup_in}
use apimock_rs.Prelude.Text.{codes, text_eq}
use apimock_rs.Workspace.{rule_set, rule, header_condition, address_eq, IdIndex, lookup, insert}
use apimock_rs.Workspace.IdShift.{clear, restore, migrate, shift_rules_down, shift_rule_sets_down}
use apimock_rs.Workspace.Migrate.{IsIndex, and_then}
use apimock_rs.Workspace.Stable.{
  without_rule, without_rule_set, IsInserted, insert_lem, shift_rules_down_lem,
  shift_rule_sets_down_lem,
}

runs : Unit {0}
unfolding insert lookup_in address_eq text_eq shift_rules_down shift_rule_sets_down migrate clear
    restore
runs = tt

abbrev empty : IdIndex
empty = record { id_to_address = []; address_to_id = [] }

empty-IsIndex : IsIndex empty
unfolding lookup_in
empty-IsIndex =
    ((λ id a. ((λ h. absurd (none-ne-some a h)), (λ h. absurd (none-ne-some id h)))), tt)

abbrev with_set : IdIndex
with_set = (insert 10 (rule_set 0) empty).1

abbrev with_rule : IdIndex
with_rule = (insert 11 (rule 0 0) with_set).1

abbrev with_next : IdIndex
with_next = (insert 12 (rule 0 1) with_rule).1

abbrev small : IdIndex
small = (insert 13 (header_condition 0 1 (codes "x")) with_next).1

with_set-IsIndex : IsIndex with_set
unfolding runs
with_set-IsIndex = (insert_lem 10 (rule_set 0) empty empty-IsIndex refl).0

with_rule-IsIndex : IsIndex with_rule
unfolding runs
with_rule-IsIndex = (insert_lem 11 (rule 0 0) with_set with_set-IsIndex refl).0

with_next-IsIndex : IsIndex with_next
unfolding runs
with_next-IsIndex = (insert_lem 12 (rule 0 1) with_rule with_rule-IsIndex refl).0

small-IsIndex : IsIndex small
unfolding runs
small-IsIndex =
    (insert_lem 13 (header_condition 0 1 (codes "x")) with_next with_next-IsIndex refl).0

insert_lem_example : IsInserted (rule 0 1) with_rule (insert 12 (rule 0 1) with_rule)
unfolding runs
insert_lem_example = insert_lem 12 (rule 0 1) with_rule with_rule-IsIndex refl

shift_tests :
    (lookup 12 (shift_rules_down 0 0 small) ≡ some (rule 0 0))
    × (lookup 11 (shift_rules_down 0 0 small) ≡ none)
    × (lookup 13 (shift_rules_down 0 0 small) ≡ some (header_condition 0 1 (codes "x")))
unfolding runs
shift_tests = (refl, refl, refl)

shift_rules_down_lem_example :
    IsIndex (shift_rules_down 0 0 small)
    × ((id : ℕ)
        → lookup id (shift_rules_down 0 0 small) ≡ and_then (lookup id small) (without_rule 0 0))
shift_rules_down_lem_example = shift_rules_down_lem 0 0 small small-IsIndex

shift_rule_sets_down_lem_example :
    IsIndex (shift_rule_sets_down 0 small)
    × ((id : ℕ)
        → lookup id (shift_rule_sets_down 0 small)
          ≡ and_then (lookup id small) (without_rule_set 0))
shift_rule_sets_down_lem_example = shift_rule_sets_down_lem 0 small small-IsIndex
