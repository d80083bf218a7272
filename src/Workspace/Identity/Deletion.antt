-- ===== src/Workspace/Identity/Deletion.antt =====
-- Which rule an identity names, through `cmd_delete_rule` of
-- crates/apimock-config/src/workspace/edit/rule.rs.
use apimock_rs.Prelude.{
  ℕ, suc, ◌-◌, ◌≡◌, refl, sym, ap, ◌∙◌, inl, inr, true, false, Option, none, some, List, arith,
  ◌==◌, ==_iff, leb, ltb, if◌then◌else◌, length, get_elem?, Bool-cases, some-inj,
}
use apimock_rs.Routing.RuleSet.{RuleSet}
use apimock_rs.Workspace.{NodeAddress, rule, respond, lookup}
use apimock_rs.Workspace.Migrate.{and_then}
use apimock_rs.Workspace.Stable.{without_rule, shift_rules_down_lem}
use apimock_rs.Workspace.State.{Workspace}
use apimock_rs.Workspace.Slots.{set_at, remove_at, get_elem?-remove_at}
use apimock_rs.Workspace.Nodes.{known, nth_rule_set}
use apimock_rs.Workspace.Edit.Rule.{cmd_delete_rule}
use apimock_rs.Workspace.Consistent.{IsConsistent}
use apimock_rs.Workspace.Consistent.Delete.{deleted}
use apimock_rs.Workspace.Consistent.Update.{true-ne-false}
use apimock_rs.Workspace.Identity.{
  rule_at, rule_of, rule_at-own, rule_at-set_at_own, rule_at-set_at_other, rule_there, IsDone,
}

-- A deletion leaves the other rules where `without_rule` says.
deleted-rule_at :
    (sets : List RuleSet) (s r : ℕ) (rs : RuleSet) (a : NodeAddress)
    → get_elem? sets s ≡ some rs
    → (a ≡ rule s r → ⊥)
    → and_then
        (without_rule s r a)
        (rule_at (set_at s record rs { rules = remove_at r rs.rules } sets))
      ≡ rule_at sets a
deleted-rule_at sets s r rs (rule t k) found other = elim (Bool-cases (t == s)) [
  | inl e ↦ elim (Bool-cases (k == r)) [
    | inl f ↦
        absurd (other (ap (λ i. rule i k) ((==_iff t s).0 e) ∙ ap (rule s) ((==_iff k r).0 f)))
    | inr f ↦ elim (Bool-cases (ltb r k)) [
      | inl g ↦
          rw (e, f, g)
            (rule_at-set_at_own sets s t (k - 1) rs (remove_at r rs.rules) found e
              ∙ get_elem?-remove_at rs.rules r (k - 1)
              ∙ ap (get_elem? rs.rules) (back_up k f g)
              ∙ sym (rule_at-own sets s t k rs found e))
      | inr g ↦
          rw (e, f, g)
            (rule_at-set_at_own sets s t k rs (remove_at r rs.rules) found e
              ∙ get_elem?-remove_at rs.rules r k
              ∙ ap (get_elem? rs.rules) (stay k f g)
              ∙ sym (rule_at-own sets s t k rs found e))
    ]
  ]
  | inr e ↦ rw e (rule_at-set_at_other sets s t k rs (remove_at r rs.rules) found e)
]
  where
    back_up :
        (k : ℕ)
        → (k == r) ≡ false
        → ltb r k ≡ true
        → (if leb r (k - 1) then suc (k - 1) else k - 1) ≡ k
    back_up k f g = ground arith

    stay : (k : ℕ) → (k == r) ≡ false → ltb r k ≡ false → (if leb r k then suc k else k) ≡ k
    stay k f g = ground arith
deleted-rule_at sets s r rs (respond t k) found other = ground arith
deleted-rule_at sets s r rs a found other = ground arith

module _ (new_id : ℕ → ℕ) (ws : Workspace) (consistent : IsConsistent new_id ws) where
  -- On a workspace whose index fits its configuration, the deletion of a rule by its identity is
  -- done, that identity then names no rule, and every other identity names the rule that it named
  -- before.
  pub delete_rule-rule_of :
      (id s r : ℕ)
      → lookup id ws.ids ≡ some (rule s r)
      → IsDone
          (λ after. (i : ℕ) → rule_of i after ≡ (if i == id then none else rule_of i ws))
          (cmd_delete_rule id ws)
  unfolding cmd_delete_rule
  delete_rule-rule_of id s r h =
      let (rs, found, in_range) = rule_there new_id ws consistent id s r h in
      let (index, moves) = shift_rules_down_lem s r ws.ids consistent.0 in
      let guard : leb (length rs.rules) r ≡ false = ground arith in
      rw (known, h, nth_rule_set, found, guard)
        (λ i.
          ap (λ o. and_then o (rule_at (deleted s r rs ws).rule_sets)) (moves i)
          ∙ by_address i rs found (lookup i ws.ids) refl)
    where
      none_left :
          (sets : List RuleSet) → and_then (without_rule s r (rule s r)) (rule_at sets) ≡ none
      none_left sets = ground arith

      by_address :
          (i : ℕ) (rs : RuleSet)
          → get_elem? ws.rule_sets s ≡ some rs
          → (o : Option NodeAddress) → lookup i ws.ids ≡ o
          → and_then (and_then o (without_rule s r)) (rule_at (deleted s r rs ws).rule_sets)
            ≡ (if i == id then none else and_then o (rule_at ws.rule_sets))
      by_address i rs found none e = ground arith
      by_address i rs found (some a) e = elim (Bool-cases (i == id)) [
        | inl f ↦
            let same : a ≡ rule s r =
              some-inj a (rule s r) (sym e ∙ ap (λ j. lookup j ws.ids) ((==_iff i id).0 f) ∙ h) in
            rw f (
              ap (λ b. and_then (without_rule s r b) (rule_at (deleted s r rs ws).rule_sets)) same
              ∙ none_left (deleted s r rs ws).rule_sets)
        | inr f ↦ rw f (
            deleted-rule_at ws.rule_sets s r rs a found (λ same.
              let ids = consistent.0.0 in
              let known = (ids i (rule s r)).0 (e ∙ ap (λ b. some b) same) in
              let equal : i ≡ id = some-inj i id (sym known ∙ (ids id (rule s r)).0 h) in
              true-ne-false (sym ((==_iff i id).1 equal) ∙ f)))
      ]
