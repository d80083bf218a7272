-- ===== src/Workspace/Edit/Tests.antt =====
-- A small workspace, and commands on it.
use apimock_rs.Prelude.{
  true, ℕ, ◌≡◌, refl, false, none, some, List, [], ◌∷◌, map, ◌==◌, if◌then◌else◌, ◌↔◌, ◌⊎◌, arith,
}
use mathlib.Core.Option
use apimock_rs.Prelude.Int.{pos}
use apimock_rs.Prelude.Dict.{lookup_in}
use apimock_rs.Prelude.Text.{Text, codes, text_eq, lower_char}
use apimock_rs.Routing.Libraries.Sample.{sample}
use apimock_rs.Routing.HttpMethod.{get, as_str}
use apimock_rs.Routing.Rule.{Rule}
use apimock_rs.Routing.RuleSet.{RuleSet}
use apimock_rs.Routing.Strategy.{uniform_random, first_match, to_string, from_bare_name}
use apimock_rs.Workspace.{rule, respond, address_eq, lookup, insert}
use apimock_rs.Workspace.IdShift.{clear, restore, migrate, shift_rules_down, shift_rule_sets_down}
use apimock_rs.Workspace.State.{Workspace, panicked, workspace_of}
use apimock_rs.Workspace.View.{HeaderConditionPayload, HeaderOp, EditValue}
use apimock_rs.Workspace.Payload.{
  header_op_to_routing, insert_entry, shift_remove, build_headers, parse_set_method,
  strategy_after_choosing, value_as_integer,
}
use apimock_rs.Workspace.Payload.Choices.{
  lowered, parse_set_method_iff, strategy_after_choosing_lem,
}
use apimock_rs.Workspace.Payload.Listed.{last_on, build_headers-last_on}
use apimock_rs.Workspace.Slots.{set_at, remove_at, insert_at, move_entry}
use apimock_rs.Workspace.Nodes.{ids_of, forget_rules, put_all_back, mint_rules, reorder_rule_ids}
use apimock_rs.Workspace.Edit.Rule.{push_rules, cmd_delete_rule, cmd_move_rule}
use apimock_rs.Workspace.Edit.RuleSet.{Disk, fails, cmd_remove_rule_set, push_rule_sets}
use apimock_rs.Workspace.Edit.Condition.{
  find_rule_indices, edit_request, put_header, remove_header, cmd_add_header_condition,
  cmd_remove_header_condition,
}
use apimock_rs.Workspace.Edit.RootSetting.{
  listener_port, set_root, in_port_range, as_u16, cmd_update_root_setting,
}
use apimock_rs.Workspace.Edit.RootSetting.Port.{port_of, is_refused, update_root_setting-port_of}
use apimock_rs.Workspace.Apply.{
  delete_rule, move_rule, seed_ids, seed_rule_sets, seed_middlewares, load_ids, empty_index, apply,
}
use apimock_rs.Workspace.Consistent.{IsConsistent}
use apimock_rs.Workspace.Consistent.Kept.{IsKept}
use apimock_rs.Workspace.Consistent.Reached.{loaded, edited, apply-IsKept, Reached-IsConsistent}
use apimock_rs.Workspace.Consistent.Seed.{load_ids-IsConsistent}
use apimock_rs.Workspace.Identity.{rule_of, IsDone}
use apimock_rs.Workspace.Identity.Deletion.{delete_rule-rule_of}
use apimock_rs.Workspace.Identity.Move.{move_rule-rule_of}
use apimock_rs.Workspace.Identity.Removal.{in_rule_set, remove_rule_set-rule_of}

runs : Unit {0}
unfolding insert lookup_in address_eq text_eq shift_rules_down shift_rule_sets_down migrate clear
    restore set_at remove_at insert_at move_entry ids_of forget_rules put_all_back mint_rules
    reorder_rule_ids push_rules cmd_delete_rule cmd_move_rule cmd_remove_rule_set push_rule_sets
    find_rule_indices edit_request put_header remove_header cmd_add_header_condition
    cmd_remove_header_condition seed_ids seed_rule_sets seed_middlewares load_ids insert_entry
    shift_remove set_root in_port_range as_u16 cmd_update_root_setting value_as_integer
    header_op_to_routing lower_char
runs = tt

abbrev says : ℕ → Rule
says n = record {
  when = record {
    request = record {
      url_path_config = none;
      url_path = none;
      http_method = some get;
      headers = none;
      body = none;
    };
  };
  respond = record {
    file_path = none;
    csv_records_key = none;
    text = some (n ∷ []);
    json = none;
    status = none;
    status_code = none;
    headers = none;
    delay_response_milliseconds = none;
  };
  weight = none;
  priority = none;
}

abbrev of_rules : List Rule → RuleSet
of_rules rules = record {
  prefix = none;
  default_delay = none;
  rules = rules;
  strategy = none;
  file_path = codes "a.toml";
  resolved_respond_dir = codes ".";
}

abbrev config : Workspace
config = record {
  listener = none;
  file_tree_view = none;
  strategy = none;
  rule_sets_file_paths = some (codes "a.toml" ∷ codes "b.toml" ∷ []);
  rule_sets = of_rules (says 1 ∷ says 2 ∷ []) ∷ of_rules (says 3 ∷ []) ∷ [];
  middlewares_file_paths = none;
  fallback_respond_dir = codes ".";
  ids = empty_index;
  minted = 0;
}

abbrev same_id : ℕ → ℕ
same_id n = n

-- The root has 0, the fallback directory 1, the first rule set 2, its rules 3 and 5 and their
-- responses 4 and 6, the second rule set 7, its rule 8 and the response 9.
abbrev start : Workspace
start = load_ids same_id config

start-IsConsistent : IsConsistent same_id start
start-IsConsistent = load_ids-IsConsistent same_id (λ j k e. e) config

abbrev lower : Text → Text
lower = map lower_char

abbrev no_disk : Disk
no_disk = record {
  config_relative_dir = fails (codes "no directory");
  read_to_string = λ path. fails (codes "no file");
  parse_rule_set = λ toml. fails (codes "no rule set");
}

seed_tests :
    (lookup 3 start.ids ≡ some (rule 0 0))
    × (lookup 5 start.ids ≡ some (rule 0 1))
    × (lookup 9 start.ids ≡ some (respond 1 0))
    × (rule_of 5 start ≡ some (says 2))
unfolding runs
seed_tests = (refl, refl, refl, refl)

abbrev moved_down : Workspace
moved_down = workspace_of (cmd_move_rule same_id 3 1 start)

move_tests :
    (lookup 3 moved_down.ids ≡ some (rule 0 1))
    × (lookup 6 moved_down.ids ≡ some (respond 0 0))
    × (rule_of 5 moved_down ≡ some (says 2))
unfolding runs
move_tests = (refl, refl, refl)

abbrev header_named : Text → HeaderConditionPayload
header_named name = record { name = name; op = HeaderOp.exists; value = none }

-- A condition on the second rule, whose identity is 10; then the first rule is deleted.
abbrev with_condition : Workspace
with_condition =
    workspace_of (cmd_add_header_condition sample lower same_id 5 (header_named (codes "X")) start)

abbrev after_deletion : Workspace
after_deletion = workspace_of (cmd_delete_rule 3 with_condition)

-- The identity of the condition has the old position of its rule then, and its removal panics.
stale_condition : cmd_remove_header_condition 10 after_deletion ≡ panicked after_deletion
unfolding runs
stale_condition = refl

apply-IsKept_example :
    IsKept same_id false start (apply sample lower no_disk same_id (delete_rule 3) start)
apply-IsKept_example =
    apply-IsKept sample lower no_disk same_id (λ j k e. e) (delete_rule 3) start start-IsConsistent

Reached-IsConsistent_example :
    IsConsistent same_id (workspace_of (apply sample lower no_disk same_id (move_rule 3 1) start))
Reached-IsConsistent_example =
    Reached-IsConsistent sample lower no_disk same_id (λ j k e. e) config _
      (edited (move_rule 3 1) start loaded)

delete_rule-rule_of_example :
    IsDone
      (λ after. (i : ℕ) → rule_of i after ≡ (if i == 3 then none else rule_of i start))
      (cmd_delete_rule 3 start)
unfolding runs
delete_rule-rule_of_example = delete_rule-rule_of same_id start start-IsConsistent 3 0 0 refl

move_rule-rule_of_example :
    IsDone
      (λ after.
        (lookup 3 after.ids ≡ some (rule 0 1)) × ((i : ℕ) → rule_of i after ≡ rule_of i start))
      (cmd_move_rule same_id 3 1 start)
unfolding runs
move_rule-rule_of_example =
    move_rule-rule_of same_id start start-IsConsistent 3 0 0 1 2 refl refl (omega arith)

remove_rule_set-rule_of_example :
    IsDone
      (λ after.
        (i : ℕ)
        → rule_of i after ≡ (if in_rule_set 0 (lookup i start.ids) then none else rule_of i start))
      (cmd_remove_rule_set 2 start)
unfolding runs
remove_rule_set-rule_of_example = remove_rule_set-rule_of same_id 2 0 start start-IsConsistent refl

port_tests :
    ((workspace_of (
        cmd_update_root_setting {N = ℕ} listener_port
          (EditValue.integer (pos 8080))
          start)).listener
      ≡ some record { ip_address = codes "127.0.0.1"; port = 8080; tls = none })
unfolding runs
port_tests = refl

update_root_setting-port_of_example :
    (port_of (
        workspace_of
          (cmd_update_root_setting {N = ℕ} listener_port (EditValue.integer (pos 70000)) start))
      ≡ port_of start)
    × (is_refused
          (cmd_update_root_setting {N = ℕ} listener_port (EditValue.integer (pos 70000)) start)
        ≡ true)
update_root_setting-port_of_example =
    update_root_setting-port_of start {N = ℕ} listener_port (EditValue.integer (pos 70000))

parse_set_method_iff_example :
    (parse_set_method (codes "get") ≡ some get)
    ↔ ((codes "get" ≡ as_str get) ⊎ (codes "get" ≡ lowered get))
parse_set_method_iff_example = parse_set_method_iff (codes "get") get

strategy_after_choosing_lem_example :
    (to_string (strategy_after_choosing (some (uniform_random (some 7))) (uniform_random none))
      ≡ to_string (uniform_random none))
    × (strategy_after_choosing
          (some (strategy_after_choosing (some (uniform_random (some 7))) (uniform_random none)))
          (uniform_random none)
        ≡ strategy_after_choosing (some (uniform_random (some 7))) (uniform_random none))
    × (Option.map
          (strategy_after_choosing (some first_match))
          (from_bare_name (to_string first_match))
        ≡ some first_match)
strategy_after_choosing_lem_example =
    strategy_after_choosing_lem (some (uniform_random (some 7))) (uniform_random none) first_match

abbrev two_headers : List HeaderConditionPayload
two_headers =
    header_named (codes "X-A")
    ∷ record { name = codes "x-a"; op = HeaderOp.equal; value = some (codes "1") }
    ∷ []

build_headers-last_on_example :
    lookup_in text_eq (codes "x-a") (build_headers sample lower two_headers)
    ≡ last_on lower (codes "x-a") two_headers
build_headers-last_on_example = build_headers-last_on sample lower (codes "x-a") two_headers
