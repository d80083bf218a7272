-- ===== src/Workspace/Apply.antt =====
-- crates/apimock-config/src/workspace/edit.rs and `seed_ids` of crates/apimock-config/src/workspace.rs:
-- the identities of a loaded configuration, and the dispatch of the editing commands.
use apimock_rs.Prelude.{ℕ, zero, suc, Option, none, some, List, [], ◌∷◌, length}
use apimock_rs.Prelude.Text.{Text}
use apimock_rs.Routing.Libraries.{Libraries}
use apimock_rs.Routing.RuleSet.{RuleSet}
use apimock_rs.Workspace.{root, fallback_respond_dir, rule_set, middleware, IdIndex}
use apimock_rs.Workspace.State.{Workspace, Outcome, mint}
use apimock_rs.Workspace.View.{
  RulePayload, RespondPayload, EditValue, HeaderConditionPayload, BodyConditionPayload,
}
use apimock_rs.Workspace.Nodes.{mint_rules}
use apimock_rs.Workspace.Edit.Rule.{
  cmd_add_rule, cmd_update_rule, cmd_delete_rule, cmd_move_rule, cmd_update_respond,
}
use apimock_rs.Workspace.Edit.RuleSet.{
  Disk, cmd_add_rule_set, cmd_remove_rule_set, cmd_update_rule_set_strategy,
}
use apimock_rs.Workspace.Edit.Condition.{
  cmd_add_header_condition, cmd_update_header_condition, cmd_remove_header_condition,
  cmd_add_body_condition, cmd_update_body_condition, cmd_remove_body_condition,
}
use apimock_rs.Workspace.Edit.RootSetting.{RootSettingKey, cmd_update_root_setting}

pub data EditCommand (N : Type 0) : Type 0 where
  add_rule_set : Text → EditCommand N
  remove_rule_set : ℕ → EditCommand N
  add_rule : ℕ → RulePayload N → EditCommand N
  update_rule : ℕ → RulePayload N → EditCommand N
  delete_rule : ℕ → EditCommand N
  move_rule : ℕ → ℕ → EditCommand N
  update_respond : ℕ → RespondPayload → EditCommand N
  update_root_setting : RootSettingKey → EditValue N → EditCommand N
  add_header_condition update_header_condition : ℕ → HeaderConditionPayload → EditCommand N
  remove_header_condition : ℕ → EditCommand N
  add_body_condition update_body_condition : ℕ → BodyConditionPayload N → EditCommand N
  remove_body_condition : ℕ → EditCommand N
  update_rule_set_strategy : ℕ → Option Text → EditCommand N

abbrev pub middleware_count : Option (List Text) → ℕ
middleware_count none = 0
middleware_count (some paths) = length paths

-- `IdIndex::default()`.
abbrev pub empty_index : IdIndex
empty_index = record { id_to_address = []; address_to_id = [] }

module _ (new_id : ℕ → ℕ) where
  -- The loops of `seed_ids`, from an index.
  unfoldable pub seed_rule_sets : ℕ → List RuleSet → Workspace → Workspace
  seed_rule_sets s [] ws = ws
  seed_rule_sets s (rs ∷ rest) ws =
      seed_rule_sets (suc s) rest
        (mint_rules new_id s 0 (length rs.rules) [] (mint new_id (rule_set s) ws).1).1

  unfoldable pub seed_middlewares : ℕ → ℕ → Workspace → Workspace
  seed_middlewares i zero ws = ws
  seed_middlewares i (suc count) ws =
      seed_middlewares (suc i) count (mint new_id (middleware i) ws).1

  -- `seed_ids`.
  unfoldable pub seed_ids : Workspace → Workspace
  seed_ids ws =
      let with_root = (mint new_id root ws).1 in
      let with_dir = (mint new_id fallback_respond_dir with_root).1 in
      seed_middlewares 0 (middleware_count ws.middlewares_file_paths)
        (seed_rule_sets 0 ws.rule_sets with_dir)

  -- The index that `Workspace::load` makes for a configuration.
  unfoldable pub load_ids : Workspace → Workspace
  load_ids ws = seed_ids record ws { ids = empty_index; minted = 0 }

-- `Workspace::apply`, without the diagnostics, which read the workspace.
module _ (lib : Libraries) (to_lowercase : Text → Text) (disk : Disk) (new_id : ℕ → ℕ) where
  open lib use {Number}

  unfoldable pub apply : EditCommand Number → Workspace → Outcome
  apply (add_rule_set path) ws = cmd_add_rule_set lib disk new_id path ws
  apply (remove_rule_set id) ws = cmd_remove_rule_set id ws
  apply (add_rule parent payload) ws = cmd_add_rule lib to_lowercase new_id parent payload ws
  apply (update_rule id payload) ws = cmd_update_rule lib to_lowercase new_id id payload ws
  apply (delete_rule id) ws = cmd_delete_rule id ws
  apply (move_rule id new_index) ws = cmd_move_rule new_id id new_index ws
  apply (update_respond id payload) ws = cmd_update_respond lib id payload ws
  apply (update_root_setting key value) ws = cmd_update_root_setting key value ws
  apply (add_header_condition rule_id condition) ws =
      cmd_add_header_condition lib to_lowercase new_id rule_id condition ws
  apply (update_header_condition id condition) ws =
      cmd_update_header_condition lib to_lowercase new_id id condition ws
  apply (remove_header_condition id) ws = cmd_remove_header_condition id ws
  apply (add_body_condition rule_id condition) ws =
      cmd_add_body_condition lib to_lowercase new_id rule_id condition ws
  apply (update_body_condition id condition) ws =
      cmd_update_body_condition lib to_lowercase new_id id condition ws
  apply (remove_body_condition id) ws = cmd_remove_body_condition id ws
  apply (update_rule_set_strategy id name) ws = cmd_update_rule_set_strategy id name ws
