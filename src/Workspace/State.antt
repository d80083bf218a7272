-- ===== src/Workspace/State.antt =====
-- What the editing commands change: the parts of `Config` of crates/apimock-config/src/config.rs that a
-- command reads or writes, the index of identities, and the errors of crates/apimock-config/src/error.rs.
use apimock_rs.Prelude.{
  ℕ, suc, Bool, true, false, Option, none, some, List, [], is_some, if◌then◌else◌,
}
use apimock_rs.Prelude.Int.{ℤ}
use apimock_rs.Prelude.Text.{Text, codes}
use apimock_rs.Routing.RuleSet.{RuleSet}
use apimock_rs.Routing.Strategy.{Strategy}
use apimock_rs.Workspace.{NodeAddress, IdIndex, insert, id_for}

pub record TlsConfig : Type 0 where
  pub key : Text
  pub cert : Text
  pub port : Option ℕ
  pub handshake_timeout_seconds : Option ℕ
  pub max_connections : Option ℕ

pub record ListenerConfig : Type 0 where
  pub ip_address : Text
  pub port : ℕ
  pub tls : Option TlsConfig

-- `ListenerConfig::default`.
abbrev pub default_listener : ListenerConfig
default_listener = record { ip_address = codes "127.0.0.1"; port = 3001; tls = none }

pub record FileTreeViewConfig : Type 0 where
  pub show_hidden : Bool
  pub builtin_excludes : Bool
  pub extra_excludes : List Text
  pub include : List Text
  pub respect_gitignore : Bool

-- `FileTreeViewConfig::default`.
abbrev pub default_file_tree_view : FileTreeViewConfig
default_file_tree_view = record {
  show_hidden = false;
  builtin_excludes = true;
  extra_excludes = [];
  include = [];
  respect_gitignore = false;
}

-- `minted` counts the calls of `NodeId::new`.
pub record Workspace : Type 0 where
  pub listener : Option ListenerConfig
  pub file_tree_view : Option FileTreeViewConfig
  pub strategy : Option Strategy
  pub rule_sets_file_paths : Option (List Text)
  pub rule_sets : List RuleSet
  pub middlewares_file_paths : Option (List Text)
  pub fallback_respond_dir : Text
  pub ids : IdIndex
  pub minted : ℕ

-- The `reason` of an error, by the numbers and names that its text gives. The value that `{:?}` prints
-- in the reasons of a wrong kind of value is left out.
pub data Reason : Type 0 where
  expected_rule_set expected_rule expected_respond : Reason
  not_header_condition not_body_condition : Reason
  rule_set_out_of_range rule_out_of_range : ℕ → Reason
  rule_set_out_of_range_of : ℕ → ℕ → Reason
  move_out_of_bounds : ℕ → ℕ → ℕ → Reason
  rule_not_found : ℕ → ℕ → Reason
  op_without_url_path : Reason
  -- the token, and why it cannot be matched
  unsupported_method : Text → Option Text → Reason
  unknown_strategy invalid_log_level invalid_log_format : Text → Reason
  expected_string expected_integer expected_boolean expected_string_list : Reason
  port_out_of_range : ℤ → Reason
  no_relative_dir : Text → Reason
  rule_set_not_loaded : Text → Text → Reason

pub data ApplyError : Type 0 where
  unknown_node : ℕ → ApplyError
  wrong_node_kind : ℕ → Reason → ApplyError
  invalid_payload : Reason → ApplyError

pub data Result {ℓ} (A : Type ℓ) : Type ℓ where
  ok : A → Result A
  err : ApplyError → Result A

-- `?` between two results.
abbrev pub then_ok {ℓ κ} : {A : Type ℓ} {B : Type κ} → Result A → (A → Result B) → Result B
then_ok (ok a) f = f a
then_ok (err e) f = err e

-- How a command ends: with the identities that changed, with an error, or in a panic (an index out
-- of range, an `expect`); with the workspace as it then is.
pub data Outcome : Type 0 where
  done : List ℕ → Workspace → Outcome
  refused : ApplyError → Workspace → Outcome
  panicked : Workspace → Outcome

abbrev pub workspace_of : Outcome → Workspace
workspace_of (done changed ws) = ws
workspace_of (refused e ws) = ws
workspace_of (panicked ws) = ws

-- `?` on a result.
abbrev pub try_with {ℓ} : {A : Type ℓ} → Workspace → Result A → (A → Outcome) → Outcome
try_with ws (ok a) f = f a
try_with ws (err e) f = refused e ws

-- `self.ids.insert(address)`; `new_id` numbers the results of `NodeId::new`.
abbrev pub mint : (ℕ → ℕ) → NodeAddress → Workspace → ℕ × Workspace
mint new_id address ws =
    let (id, ids) = insert (new_id ws.minted) address ws.ids in
    (
      id,
      record ws {
        ids = ids;
        minted = if is_some (id_for address ws.ids) then ws.minted else suc ws.minted;
      },
    )

-- `unwrap_or_default` on an identity: the default is a call of `NodeId::new`.
abbrev pub id_or_default : (ℕ → ℕ) → Option ℕ → Workspace → ℕ × Workspace
id_or_default new_id (some id) ws = (id, ws)
id_or_default new_id none ws = (new_id ws.minted, record ws { minted = suc ws.minted })

-- A result that is not an error has a property.
abbrev pub Settles {ℓ} : (Workspace → Type ℓ) → Result Workspace → Type ℓ
Settles P (ok after) = P after
Settles P (err e) = Unit

pub then_ok-Settles {ℓ κ} :
    {A : Type κ} (P : Workspace → Type ℓ) (x : Result A) (f : A → Result Workspace)
    → ((a : A) → Settles P (f a))
    → Settles P (then_ok x f)
then_ok-Settles P (ok a) f h = h a
then_ok-Settles P (err e) f h = tt
