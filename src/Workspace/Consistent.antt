-- ===== src/Workspace/Consistent.antt =====
-- When the index of identities fits the configuration: what the commands of
-- crates/apimock-config/src/workspace/edit/ rely on.
pub mod Mint
pub mod Moved
pub mod Kept
pub mod Delete
pub mod Move
pub mod RemoveSet
pub mod Add
pub mod Update
pub mod Condition
pub mod Seed
pub mod Reached
use apimock_rs.Prelude.{
  ℕ, ◌≡◌, refl, ◌≤◌, ap, ◌∙◌, sym, Bool, true, false, Option, none, some, get_elem?, length, ltb,
  is_some, is_some_and,
}
use apimock_rs.Routing.RuleSet.{RuleSet}
use apimock_rs.Workspace.{
  NodeAddress, root, fallback_respond_dir, rule_set, middleware, rule, respond, header_condition,
  body_condition, IdIndex, lookup, id_for,
}
use apimock_rs.Workspace.Migrate.{IsIndex}
use apimock_rs.Workspace.Stable.{map_to}
use apimock_rs.Workspace.State.{Workspace}
use apimock_rs.Workspace.Apply.{middleware_count}

abbrev pub is_condition : NodeAddress → Bool
is_condition (header_condition s r name) = true
is_condition (body_condition s r path) = true
is_condition _ = false

-- The number of rules of each rule set, by its position.
abbrev pub rule_count : Workspace → ℕ → Option ℕ
rule_count ws s = map_to (get_elem? ws.rule_sets s) (λ rs. length rs.rules)

-- The addresses of a configuration, by the numbers of its parts.
abbrev pub exists_in : (ℕ → Option ℕ) → ℕ → NodeAddress → Bool
exists_in count middlewares root = true
exists_in count middlewares fallback_respond_dir = true
exists_in count middlewares (rule_set s) = is_some (count s)
exists_in count middlewares (middleware i) = ltb i middlewares
exists_in count middlewares (rule s r) = is_some_and (ltb r) (count s)
exists_in count middlewares (respond s r) = is_some_and (ltb r) (count s)
exists_in count middlewares _ = false

-- An address that is no condition has an identity where `present` says so, and nowhere else.
abbrev pub Covers : (NodeAddress → Bool) → IdIndex → Type 0
Covers present ids = (a : NodeAddress) → is_condition a ≡ false → is_some (id_for a ids) ≡ present a

-- The identities that `NodeId::new` is still to return are not in use.
abbrev pub IsFresh : (ℕ → ℕ) → Workspace → Type 0
IsFresh new_id ws = (j : ℕ) → ws.minted ≤ j → lookup (new_id j) ws.ids ≡ none

abbrev pub Indexes : (ℕ → ℕ) → (NodeAddress → Bool) → Workspace → Type 0
Indexes new_id present ws = IsIndex ws.ids × IsFresh new_id ws × Covers present ws.ids

abbrev pub node_exists : Workspace → NodeAddress → Bool
node_exists ws = exists_in (rule_count ws) (middleware_count ws.middlewares_file_paths)

-- Identities and addresses correspond, the root, the fallback directory and every rule set, rule,
-- response and middleware of the configuration have one, and no address of these kinds out of range
-- has one.
abbrev pub IsConsistent : (ℕ → ℕ) → Workspace → Type 0
IsConsistent new_id ws = Indexes new_id (node_exists ws) ws

pub Indexes-cong :
    (new_id : ℕ → ℕ) (p q : NodeAddress → Bool) (ws : Workspace)
    → ((a : NodeAddress) → is_condition a ≡ false → p a ≡ q a)
    → Indexes new_id p ws
    → Indexes new_id q ws
Indexes-cong new_id p q ws same (index, fresh, covers) =
    (index, fresh, λ a c. covers a c ∙ same a c)

pub exists_in-cong :
    (count count' : ℕ → Option ℕ) (m : ℕ) (a : NodeAddress)
    → ((s : ℕ) → count s ≡ count' s)
    → exists_in count m a ≡ exists_in count' m a
exists_in-cong count count' m root same = refl
exists_in-cong count count' m fallback_respond_dir same = refl
exists_in-cong count count' m (rule_set s) same = ap is_some (same s)
exists_in-cong count count' m (middleware i) same = refl
exists_in-cong count count' m (rule s r) same = ap (is_some_and (ltb r)) (same s)
exists_in-cong count count' m (respond s r) same = ap (is_some_and (ltb r)) (same s)
exists_in-cong count count' m (header_condition s r name) same = refl
exists_in-cong count count' m (body_condition s r path) same = refl
