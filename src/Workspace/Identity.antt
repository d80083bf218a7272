-- ===== src/Workspace/Identity.antt =====
-- Which rule an identity names, through the commands of crates/apimock-config/src/workspace/edit/rule.rs
-- that move rules.
pub mod Removal
pub mod Deletion
pub mod Move
use apimock_rs.Prelude.{
  ℕ, suc, ◌-◌, ◌<◌, ◌≡◌, refl, sym, ap, ◌∙◌, inl, inr, Bool, true, false, ◌||◌, Option, none, some,
  List, arith, ◌==◌, ==_iff, leb, ltb, if◌then◌else◌, length, get_elem?, get_elem?_lt, Bool-cases,
  some-inj, none-ne-some, is_some, is_some_and,
}
use apimock_rs.Routing.Rule.{Rule}
use apimock_rs.Routing.RuleSet.{RuleSet}
use apimock_rs.Workspace.{
  NodeAddress, rule_set, middleware, rule, respond, header_condition, body_condition, lookup,
  id_for,
}
use apimock_rs.Workspace.Migrate.{IsIndex, and_then}
use apimock_rs.Workspace.IdShift.{shift_rules_down}
use apimock_rs.Workspace.Stable.{without_rule, position_after, shift_rules_down_lem, map_to}
use apimock_rs.Workspace.State.{Workspace, Outcome, done, refused, panicked}
use apimock_rs.Workspace.Slots.{
  set_at, remove_at, move_entry, moved_from, get_elem?-set_at, get_elem?-remove_at,
  get_elem?-move_entry,
}
use apimock_rs.Workspace.Reorder.Rows.{after_move, moved_from-moved_from}
use apimock_rs.Workspace.Reorder.Moved.{reorder_rule_ids-config}
use apimock_rs.Workspace.Nodes.{as_rule, known, nth_rule_set, with_rules, reorder_rule_ids}
use apimock_rs.Workspace.Edit.Rule.{delete_at, cmd_delete_rule, move_at, cmd_move_rule}
use apimock_rs.Workspace.Consistent.{rule_count, node_exists, IsConsistent}
use apimock_rs.Workspace.Consistent.Delete.{deleted}
use apimock_rs.Workspace.Consistent.Update.{true-ne-false}
use apimock_rs.Workspace.Consistent.Move.{moved, moved_lem}

abbrev pub rule_in_set : ℕ → Option RuleSet → Option Rule
rule_in_set r o = and_then o (λ rs. get_elem? rs.rules r)

abbrev pub rule_at : List RuleSet → NodeAddress → Option Rule
rule_at sets (rule s r) = rule_in_set r (get_elem? sets s)
rule_at sets _ = none

-- A command is done, and what it leaves has a property.
abbrev pub IsDone : (Workspace → Type 0) → Outcome → Type 0
IsDone P (done changed after) = P after
IsDone P (refused e after) = ⊥
IsDone P (panicked after) = ⊥

-- The rule that an identity names.
abbrev pub rule_of : ℕ → Workspace → Option Rule
rule_of id ws = and_then (lookup id ws.ids) (rule_at ws.rule_sets)

-- A rule set with other rules, read at any positions.
rule_at-set_at :
    (sets : List RuleSet) (s t k : ℕ) (rs : RuleSet) (rules : List Rule)
    → get_elem? sets s ≡ some rs
    → rule_at (set_at s record rs { rules = rules } sets) (rule t k)
      ≡ (if s == t then get_elem? rules k else rule_at sets (rule t k))
rule_at-set_at sets s t k rs rules found =
    ap (rule_in_set k)
      (get_elem?-set_at sets s t record rs { rules = rules } (get_elem?_lt sets s rs found))
    ∙ ground arith

-- The rules of the rule set itself.
pub rule_at-own :
    (sets : List RuleSet) (s t k : ℕ) (rs : RuleSet)
    → get_elem? sets s ≡ some rs
    → (t == s) ≡ true
    → rule_at sets (rule t k) ≡ get_elem? rs.rules k
rule_at-own sets s t k rs found e =
    ap (λ i. rule_in_set k (get_elem? sets i)) ((==_iff t s).0 e) ∙ ap (rule_in_set k) found

pub rule_at-set_at_own :
    (sets : List RuleSet) (s t k : ℕ) (rs : RuleSet) (rules : List Rule)
    → get_elem? sets s ≡ some rs
    → (t == s) ≡ true
    → rule_at (set_at s record rs { rules = rules } sets) (rule t k) ≡ get_elem? rules k
rule_at-set_at_own sets s t k rs rules found e =
    rule_at-set_at sets s t k rs rules found ∙ ground arith

pub rule_at-set_at_other :
    (sets : List RuleSet) (s t k : ℕ) (rs : RuleSet) (rules : List Rule)
    → get_elem? sets s ≡ some rs
    → (t == s) ≡ false
    → rule_at (set_at s record rs { rules = rules } sets) (rule t k) ≡ rule_at sets (rule t k)
rule_at-set_at_other sets s t k rs rules found e =
    rule_at-set_at sets s t k rs rules found ∙ ground arith

module _ (new_id : ℕ → ℕ) (ws : Workspace) (consistent : IsConsistent new_id ws) where
  -- The rule set and the rule that the identity of a rule names.
  pub rule_there :
      (id s r : ℕ)
      → lookup id ws.ids ≡ some (rule s r)
      → (rs : RuleSet) × (get_elem? ws.rule_sets s ≡ some rs) × (r < length rs.rules)
  rule_there id s r h =
      let (index, fresh, covers) = consistent in
      by_set (get_elem? ws.rule_sets s) refl
        (sym (covers (rule s r) refl) ∙ ap is_some ((index.0 id (rule s r)).0 h))
    where
      by_set :
          (o : Option RuleSet)
          → get_elem? ws.rule_sets s ≡ o
          → is_some_and (ltb r) (map_to (get_elem? ws.rule_sets s) (λ x. length x.rules)) ≡ true
          → (rs : RuleSet) × (get_elem? ws.rule_sets s ≡ some rs) × (r < length rs.rules)
      by_set none e k =
          absurd (
            true-ne-false
              (sym k ∙ ap (λ o. is_some_and (ltb r) (map_to o (λ x. length x.rules))) e))
      by_set (some rs) e k =
          let in_range : ltb r (length rs.rules) ≡ true =
            sym (ap (λ o. is_some_and (ltb r) (map_to o (λ x. length x.rules))) e) ∙ k in
          (rs, e, ground arith)
