-- ===== src/Workspace/Consistent/Reached.antt =====
-- All commands of crates/apimock-config/src/workspace/edit.rs, and the workspaces that they lead to.
use apimock_rs.Prelude.{ℕ, ◌≡◌, sym, Bool, true, false}
use apimock_rs.Prelude.Text.{Text}
use apimock_rs.Routing.Libraries.{Libraries}
use mathlib.Core.Path.{subst}
use apimock_rs.Workspace.State.{Workspace, Outcome, done, refused, panicked, workspace_of}
use apimock_rs.Workspace.Edit.RuleSet.{Disk}
use apimock_rs.Workspace.Apply.{
  EditCommand, add_rule_set, remove_rule_set, add_rule, update_rule, delete_rule, move_rule,
  update_respond, update_root_setting, add_header_condition, update_header_condition,
  remove_header_condition, add_body_condition, update_body_condition, remove_body_condition,
  update_rule_set_strategy, apply, load_ids,
}
use apimock_rs.Workspace.Consistent.{IsConsistent}
use apimock_rs.Workspace.Consistent.Kept.{IsKept}
use apimock_rs.Workspace.Consistent.Delete.{delete_rule-IsKept}
use apimock_rs.Workspace.Consistent.Move.{move_rule-IsKept}
use apimock_rs.Workspace.Consistent.RemoveSet.{remove_rule_set-IsKept}
use apimock_rs.Workspace.Consistent.Add.{add_rule-IsKept, add_rule_set-IsKept}
use apimock_rs.Workspace.Consistent.Update.{
  update_rule-IsKept, update_respond-IsKept, update_root_setting-IsKept, update_strategy-IsKept,
}
use apimock_rs.Workspace.Consistent.Condition.{
  remove_header-IsKept, remove_body-IsKept, update_header-IsKept, update_body-IsKept,
  add_header-IsKept, add_body-IsKept,
}
use apimock_rs.Workspace.Consistent.Seed.{load_ids-IsConsistent}

-- The commands that take the identity of a condition.
abbrev pub names_condition : {N : Type 0} → EditCommand N → Bool
names_condition (update_header_condition id condition) = true
names_condition (remove_header_condition id) = true
names_condition (update_body_condition id condition) = true
names_condition (remove_body_condition id) = true
names_condition _ = false

module _ (lib : Libraries) (to_lowercase : Text → Text) (disk : Disk) (new_id : ℕ → ℕ)
    (new_id-inj : (j k : ℕ) → new_id j ≡ new_id k → j ≡ k) where
  open lib use {Number}

  -- On a workspace whose index fits its configuration, every command that is done leaves such a
  -- workspace, every command that is refused leaves the workspace as it was, and no command panics,
  -- except one that takes the identity of a condition, before any change. The identities that
  -- `NodeId::new` returns are taken to be distinct.
  pub apply-IsKept :
      (cmd : EditCommand Number) (ws : Workspace)
      → IsConsistent new_id ws
      → IsKept new_id (names_condition cmd) ws (apply lib to_lowercase disk new_id cmd ws)
  unfolding apply
  apply-IsKept (add_rule_set path) ws h = add_rule_set-IsKept new_id new_id-inj ws h lib disk path
  apply-IsKept (remove_rule_set id) ws h = remove_rule_set-IsKept new_id ws h id
  apply-IsKept (add_rule parent payload) ws h =
      add_rule-IsKept new_id new_id-inj ws h lib to_lowercase parent payload
  apply-IsKept (update_rule id payload) ws h =
      update_rule-IsKept new_id ws h lib to_lowercase id payload
  apply-IsKept (delete_rule id) ws h = delete_rule-IsKept new_id ws h id
  apply-IsKept (move_rule id new_index) ws h = move_rule-IsKept new_id ws h id new_index
  apply-IsKept (update_respond id payload) ws h = update_respond-IsKept new_id ws h lib id payload
  apply-IsKept (update_root_setting key value) ws h =
      update_root_setting-IsKept new_id ws h key value
  apply-IsKept (add_header_condition id payload) ws h =
      add_header-IsKept new_id ws h new_id-inj lib to_lowercase id payload
  apply-IsKept (update_header_condition id payload) ws h =
      update_header-IsKept new_id ws h new_id-inj lib to_lowercase id payload
  apply-IsKept (remove_header_condition id) ws h = remove_header-IsKept new_id ws h id
  apply-IsKept (add_body_condition id payload) ws h =
      add_body-IsKept new_id ws h new_id-inj lib to_lowercase id payload
  apply-IsKept (update_body_condition id payload) ws h =
      update_body-IsKept new_id ws h new_id-inj lib to_lowercase id payload
  apply-IsKept (remove_body_condition id) ws h = remove_body-IsKept new_id ws h id
  apply-IsKept (update_rule_set_strategy id name) ws h = update_strategy-IsKept new_id ws h id name

  -- A workspace that commands lead to, from a loaded one, whatever each command answers.
  pub data Reached (config : Workspace) : Workspace → Type 0 where
    loaded : Reached config (load_ids new_id config)
    edited :
        (cmd : EditCommand Number) (ws : Workspace)
        → Reached config ws
        → Reached config (workspace_of (apply lib to_lowercase disk new_id cmd ws))

  kept-IsConsistent :
      (may_panic : Bool) (ws : Workspace) (o : Outcome)
      → IsConsistent new_id ws
      → IsKept new_id may_panic ws o
      → IsConsistent new_id (workspace_of o)
  kept-IsConsistent may_panic ws (done changed after) h k = k
  kept-IsConsistent may_panic ws (refused e after) h k = subst (IsConsistent new_id) (sym k) h
  kept-IsConsistent may_panic ws (panicked after) h k = subst (IsConsistent new_id) (sym k.1) h

  -- Loading a configuration and any commands after it lead to workspaces whose index fits the
  -- configuration: identities and addresses correspond one to one, the root, the fallback directory
  -- and every rule set, rule, response and middleware have an identity, and no identity names one
  -- that is not there; those of single conditions are left out. The identities that `NodeId::new`
  -- returns are taken to be distinct.
  pub Reached-IsConsistent : (config ws : Workspace) → Reached config ws → IsConsistent new_id ws
  Reached-IsConsistent config ws loaded = load_ids-IsConsistent new_id new_id-inj config
  Reached-IsConsistent config ws (edited cmd before h) =
      let known = Reached-IsConsistent config before h in
      kept-IsConsistent (names_condition cmd) before _ known (apply-IsKept cmd before known)
