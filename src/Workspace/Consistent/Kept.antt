-- ===== src/Workspace/Consistent/Kept.antt =====
-- What every command of crates/apimock-config/src/workspace/edit/ leaves behind, and the guards.
use apimock_rs.Prelude.{
  ℕ, ◌≡◌, refl, ap, ◌∙◌, Bool, true, Option, none, some, List, arith, ◌==◌, if◌then◌else◌, length,
  get_elem?, get_elem?_lt,
}
use apimock_rs.Routing.Rule.{Rule}
use apimock_rs.Routing.RuleSet.{RuleSet}
use apimock_rs.Workspace.{NodeAddress, rule_set, rule, lookup}
use apimock_rs.Workspace.Stable.{map_to}
use apimock_rs.Workspace.State.{
  ApplyError, unknown_node, Result, ok, err, Workspace, Outcome, done, refused, panicked, try_with,
}
use apimock_rs.Workspace.Slots.{get_elem?-set_at}
use apimock_rs.Workspace.Nodes.{known, as_rule_set, as_rule, nth_rule_set, with_rules}
use apimock_rs.Workspace.Consistent.{IsConsistent, rule_count}

-- A command that is done leaves a consistent workspace, one that is refused leaves it as it was, and a
-- panic is met only where `may_panic` says so and before any change.
abbrev pub IsKept : (ℕ → ℕ) → Bool → Workspace → Outcome → Type 0
IsKept new_id may_panic ws (done changed after) = IsConsistent new_id after
IsKept new_id may_panic ws (refused e after) = after ≡ ws
IsKept new_id may_panic ws (panicked after) = (may_panic ≡ true) × (after ≡ ws)

pub try_with_lem {ℓ κ} :
    {A : Type ℓ} (P : Outcome → Type κ) (ws : Workspace) (x : Result A) (f : A → Outcome)
    → ((e : ApplyError) → P (refused e ws))
    → ((a : A) → x ≡ ok a → P (f a))
    → P (try_with ws x f)
try_with_lem P ws (ok a) f r g = g a refl
try_with_lem P ws (err e) f r g = r e

pub as_rule_sound :
    (id s r : ℕ) (ws : Workspace)
    → as_rule id (known id ws) ≡ ok (s, r)
    → lookup id ws.ids ≡ some (rule s r)
as_rule_sound id s r ws h = by_address (lookup id ws.ids) refl h
  where
    by_address :
        (o : Option NodeAddress)
        → lookup id ws.ids ≡ o
        → as_rule id (elim o [ none ↦ err (unknown_node id) | some address ↦ ok address ])
          ≡ ok (s, r)
        → lookup id ws.ids ≡ some (rule s r)
    by_address none e k = cc
    by_address (some (rule t i)) e k = cc
    by_address (some a) e k = cc

pub as_rule_set_sound :
    (id s : ℕ) (ws : Workspace)
    → as_rule_set id (known id ws) ≡ ok s
    → lookup id ws.ids ≡ some (rule_set s)
as_rule_set_sound id s ws h = by_address (lookup id ws.ids) refl h
  where
    by_address :
        (o : Option NodeAddress)
        → lookup id ws.ids ≡ o
        → as_rule_set id (elim o [ none ↦ err (unknown_node id) | some address ↦ ok address ])
          ≡ ok s
        → lookup id ws.ids ≡ some (rule_set s)
    by_address none e k = cc
    by_address (some (rule_set t)) e k = cc
    by_address (some a) e k = cc

pub nth_rule_set_sound :
    (s : ℕ) (rs : RuleSet) (ws : Workspace)
    → nth_rule_set s ws ≡ ok rs
    → get_elem? ws.rule_sets s ≡ some rs
nth_rule_set_sound s rs ws h = ground arith

pub rule_count-with_rules :
    (s t : ℕ) (rs : RuleSet) (rules : List Rule) (ws : Workspace)
    → get_elem? ws.rule_sets s ≡ some rs
    → rule_count (with_rules s rs rules ws) t
      ≡ (if s == t then some (length rules) else rule_count ws t)
rule_count-with_rules s t rs rules ws h =
    ap (λ o. map_to o (λ x. length x.rules))
      (get_elem?-set_at ws.rule_sets s t record rs { rules = rules }
        (get_elem?_lt ws.rule_sets s rs h))
    ∙ ground arith
