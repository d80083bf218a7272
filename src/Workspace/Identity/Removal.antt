-- ===== src/Workspace/Identity/Removal.antt =====
-- Which rule an identity names, through the removal of a rule set: `cmd_remove_rule_set` of
-- crates/apimock-config/src/workspace/edit/rule_set.rs.
use apimock_rs.Prelude.{
  ℕ, suc, ◌-◌, ◌≡◌, refl, sym, ap, ◌∙◌, inl, inr, Bool, true, false, Option, none, some, List,
  arith, ◌==◌, leb, ltb, if◌then◌else◌, length, get_elem?, Bool-cases, is_some,
}
use apimock_rs.Routing.RuleSet.{RuleSet}
use apimock_rs.Workspace.{NodeAddress, rule_set, rule, respond, lookup}
use apimock_rs.Workspace.Migrate.{and_then}
use apimock_rs.Workspace.Stable.{map_to, without_rule_set, shift_rule_sets_down_lem}
use apimock_rs.Workspace.State.{Workspace}
use apimock_rs.Workspace.Slots.{remove_at, get_elem?-remove_at}
use apimock_rs.Workspace.Nodes.{known}
use apimock_rs.Workspace.Edit.RuleSet.{remove_set_at, cmd_remove_rule_set}
use apimock_rs.Workspace.Consistent.{IsConsistent}
use apimock_rs.Workspace.Consistent.Update.{true-ne-false}
use apimock_rs.Workspace.Identity.{rule_in_set, rule_at, rule_of, IsDone}

-- An identity names a rule of the rule set `s`.
abbrev pub in_rule_set : ℕ → Option NodeAddress → Bool
in_rule_set s (some (rule t k)) = t == s
in_rule_set s _ = false

removed-rule_at :
    (sets : List RuleSet) (s : ℕ) (o : Option NodeAddress)
    → and_then (and_then o (without_rule_set s)) (rule_at (remove_at s sets))
      ≡ (if in_rule_set s o then none else and_then o (rule_at sets))
removed-rule_at sets s none = refl
removed-rule_at sets s (some (rule t k)) = elim (Bool-cases (t == s)) [
  | inl e ↦ rw e refl
  | inr e ↦ elim (Bool-cases (ltb s t)) [
    | inl f ↦
        rw (e, f)
          (ap (rule_in_set k)
            (get_elem?-remove_at sets s (t - 1) ∙ ap (get_elem? sets) (back_up e f)))
    | inr f ↦
        rw (e, f)
          (ap (rule_in_set k) (get_elem?-remove_at sets s t ∙ ap (get_elem? sets) (stay e f)))
  ]
]
  where
    back_up : (t == s) ≡ false → ltb s t ≡ true → (if leb s (t - 1) then suc (t - 1) else t - 1) ≡ t
    back_up e f = ground arith

    stay : (t == s) ≡ false → ltb s t ≡ false → (if leb s t then suc t else t) ≡ t
    stay e f = ground arith
removed-rule_at sets s (some (rule_set t)) = ground arith
removed-rule_at sets s (some (respond t k)) = ground arith
removed-rule_at sets s (some a) = refl

-- On a workspace whose index fits its configuration, the removal of a rule set by its identity is
-- done, the identities of its rules then name no rule, and every other identity names the rule that
-- it named before.
pub remove_rule_set-rule_of :
    (new_id : ℕ → ℕ) (id s : ℕ) (ws : Workspace)
    → IsConsistent new_id ws
    → lookup id ws.ids ≡ some (rule_set s)
    → IsDone
        (λ after.
          (i : ℕ)
          → rule_of i after ≡ (if in_rule_set s (lookup i ws.ids) then none else rule_of i ws))
        (cmd_remove_rule_set id ws)
unfolding cmd_remove_rule_set
remove_rule_set-rule_of new_id id s ws (index, fresh, covers) h =
    rw (known, h) (by_set (get_elem? ws.rule_sets s) refl)
  where
    by_set :
        (o : Option RuleSet)
        → get_elem? ws.rule_sets s ≡ o
        → IsDone
            (λ after.
              (i : ℕ)
              → rule_of i after ≡ (if in_rule_set s (lookup i ws.ids) then none else rule_of i ws))
            (remove_set_at id ws s o)
    by_set none e = true-ne-false (
        sym (ap is_some ((index.0 id (rule_set s)).0 h))
        ∙ covers (rule_set s) refl
        ∙ ap (λ o. is_some (map_to o (λ x. length x.rules))) e)
    by_set (some rs) e =
        let (index', moves) = shift_rule_sets_down_lem s ws.ids index in
        λ i.
          ap (λ o. and_then o (rule_at (remove_at s ws.rule_sets))) (moves i)
          ∙ removed-rule_at ws.rule_sets s (lookup i ws.ids)
