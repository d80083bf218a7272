-- ===== src/Workspace/Identity/Move.antt =====
-- Which rule an identity names, through `cmd_move_rule` of
-- crates/apimock-config/src/workspace/edit/rule.rs.
use apimock_rs.Prelude.{
  ℕ, ◌<◌, ◌≡◌, refl, sym, ap, ◌∙◌, inl, inr, true, false, ◌||◌, Option, none, some, List, arith,
  ◌==◌, ==_iff, leb, length, get_elem?, Bool-cases, some-inj,
}
use apimock_rs.Routing.RuleSet.{RuleSet}
use apimock_rs.Workspace.{NodeAddress, rule, respond, lookup}
use apimock_rs.Workspace.Migrate.{and_then}
use apimock_rs.Workspace.Stable.{map_to}
use apimock_rs.Workspace.State.{Workspace}
use apimock_rs.Workspace.Slots.{set_at, move_entry, moved_from, get_elem?-move_entry}
use apimock_rs.Workspace.Reorder.Rows.{after_move, moved_from-moved_from}
use apimock_rs.Workspace.Reorder.Moved.{reorder_rule_ids-config}
use apimock_rs.Workspace.Nodes.{known, nth_rule_set, with_rules}
use apimock_rs.Workspace.Edit.Rule.{cmd_move_rule}
use apimock_rs.Workspace.Consistent.{rule_count, IsConsistent}
use apimock_rs.Workspace.Consistent.Move.{moved, moved_lem}
use apimock_rs.Workspace.Identity.{
  rule_at, rule_of, rule_at-own, rule_at-set_at_own, rule_at-set_at_other, rule_there, IsDone,
}

-- A move leaves every rule where `after_move` says.
moved-rule_at :
    (sets : List RuleSet) (s old new : ℕ) (rs : RuleSet) (a : NodeAddress)
    → get_elem? sets s ≡ some rs
    → old < length rs.rules
    → new < length rs.rules
    → rule_at
        (set_at s record rs { rules = move_entry old new rs.rules } sets)
        (after_move s old new a)
      ≡ rule_at sets a
moved-rule_at sets s old new rs (rule t k) found old_in new_in = elim (Bool-cases (s == t)) [
  | inl e ↦
      let e' : (t == s) ≡ true = ground arith in
      rw e (
        rule_at-set_at_own sets s t (moved_from new old k) rs (move_entry old new rs.rules) found e'
        ∙ get_elem?-move_entry rs.rules old new (moved_from new old k) old_in new_in
        ∙ ap (get_elem? rs.rules) (moved_from-moved_from old new k)
        ∙ sym (rule_at-own sets s t k rs found e'))
  | inr e ↦
      rw e (rule_at-set_at_other sets s t k rs (move_entry old new rs.rules) found (ground arith))
]
moved-rule_at sets s old new rs (respond t k) found old_in new_in = ground arith
moved-rule_at sets s old new rs a found old_in new_in = ground arith

module _ (new_id : ℕ → ℕ) (ws : Workspace) (consistent : IsConsistent new_id ws) where
  -- On a workspace whose index fits its configuration, the move of a rule to a position of its rule
  -- set is done, its identity then has the new position, and every identity, also those of the rules
  -- that give way, names the rule that it named before.
  pub move_rule-rule_of :
      (id s old new n : ℕ)
      → lookup id ws.ids ≡ some (rule s old)
      → rule_count ws s ≡ some n
      → new < n
      → IsDone
          (λ after.
            (lookup id after.ids ≡ some (rule s new)) × ((i : ℕ) → rule_of i after ≡ rule_of i ws))
          (cmd_move_rule new_id id new ws)
  unfolding cmd_move_rule
  move_rule-rule_of id s old new n h count new_below =
      let (rs, found, old_in) = rule_there new_id ws consistent id s old h in
      let counted : n ≡ length rs.rules =
        some-inj n _ (sym count ∙ ap (λ o. map_to o (λ x. length x.rules)) found) in
      let new_in : new < length rs.rules = omega arith in
      let guard : (leb (length rs.rules) old || leb (length rs.rules) new) ≡ false = ground arith in
      elim (Bool-cases (old == new)) [
        | inl e ↦
            rw (known, h, nth_rule_set, found, guard, e)
              (h ∙ ap (λ k. some (rule s k)) ((==_iff old new).0 e), λ i. refl)
        | inr e ↦
            let (index, moves, minted) =
              moved_lem new_id ws consistent s old new rs found old_in new_in in
            rw (known, h, nth_rule_set, found, guard, e)
              (
                moves id
                    ∙ ap (λ o. and_then o (λ a. some (after_move s old new a))) h
                    ∙ ap (λ b. some b) (own_place s old new),
                λ i.
                    ap
                      (λ o.
                        and_then o (rule_at (moved new_id ws consistent s old new rs).rule_sets))
                      (moves i)
                    ∙ ap
                        (λ sets.
                          and_then (and_then (lookup i ws.ids) (λ a. some (after_move s old new a)))
                            (rule_at sets))
                        (reorder_rule_ids-config new_id s (length rs.rules) old new
                          (with_rules s rs (move_entry old new rs.rules) ws)).0
                    ∙ by_address rs found old_in new_in (lookup i ws.ids),
              )
      ]
    where
      own_place : (s old new : ℕ) → after_move s old new (rule s old) ≡ rule s new
      own_place s old new = ground arith

      by_address :
          (rs : RuleSet)
          → get_elem? ws.rule_sets s ≡ some rs
          → old < length rs.rules
          → new < length rs.rules
          → (o : Option NodeAddress)
          → and_then
              (and_then o (λ a. some (after_move s old new a)))
              (rule_at (with_rules s rs (move_entry old new rs.rules) ws).rule_sets)
            ≡ and_then o (rule_at ws.rule_sets)
      by_address rs found old_in new_in none = refl
      by_address rs found old_in new_in (some a) =
          moved-rule_at ws.rule_sets s old new rs a found old_in new_in
