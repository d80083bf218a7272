-- ===== src/Workspace/Consistent/Delete.antt =====
-- The deletion of a rule: `cmd_delete_rule` of crates/apimock-config/src/workspace/edit/rule.rs.
use apimock_rs.Prelude.{
  ℕ, suc, ◌-◌, ◌<◌, ◌≡◌, refl, sym, ap, ◌∙◌, inl, inr, true, false, Option, some, arith, ◌==◌,
  ==_iff, leb, if◌then◌else◌, length, get_elem?, Bool-cases,
}
use apimock_rs.Routing.RuleSet.{RuleSet}
use apimock_rs.Workspace.{NodeAddress, rule_set, rule, respond, header_condition, body_condition}
use apimock_rs.Workspace.IdShift.{shift_rules_down}
use apimock_rs.Workspace.Migrate.{and_then}
use apimock_rs.Workspace.Stable.{map_to, without_rule, shift_rules_down_lem}
use apimock_rs.Workspace.State.{Workspace}
use apimock_rs.Workspace.Slots.{remove_at, length-remove_at}
use apimock_rs.Workspace.Nodes.{with_rules}
use apimock_rs.Workspace.Edit.Rule.{delete_at, cmd_delete_rule}
use apimock_rs.Workspace.Consistent.{
  is_condition, exists_in, exists_in-cong, rule_count, node_exists, IsConsistent,
}
use apimock_rs.Workspace.Apply.{middleware_count}
use apimock_rs.Workspace.Consistent.Moved.{moved-Covers}
use apimock_rs.Workspace.Consistent.Kept.{
  IsKept, try_with_lem, nth_rule_set_sound, rule_count-with_rules,
}

module _ (count : ℕ → Option ℕ) (middlewares s r n : ℕ) (counted : count s ≡ some n)
    (in_range : r < n) where
  abbrev count_after : ℕ → Option ℕ
  count_after t = if s == t then some (n - 1) else count t

  count_at : (t : ℕ) → (s == t) ≡ true → count t ≡ some n
  count_at t e = ap count (sym ((==_iff s t).0 e)) ∙ counted

  forth :
      (a b : NodeAddress)
      → without_rule s r a ≡ some b
      → is_condition b ≡ false
      → (is_condition a ≡ false)
        × (exists_in count middlewares a ≡ true → exists_in count_after middlewares b ≡ true)
  forth (rule t i) b f c = (ground arith, λ e. ground (arith, counted, count_at t))
  forth (respond t i) b f c = (ground arith, λ e. ground (arith, counted, count_at t))
  forth (rule_set t) b f c = (ground arith, λ e. ground (arith, counted, count_at t))
  forth (header_condition t i name) b f c = (ground arith, λ e. ground (arith, counted, count_at t))
  forth (body_condition t i name) b f c = (ground arith, λ e. ground (arith, counted, count_at t))
  forth a b f c = ground arith

  -- The address that a node had before the deletion.
  abbrev before : NodeAddress → NodeAddress
  before (rule t i) = if s == t then rule t (if leb r i then suc i else i) else rule t i
  before (respond t i) = if s == t then respond t (if leb r i then suc i else i) else respond t i
  before b = b

  back :
      (b : NodeAddress)
      → is_condition b ≡ false
      → exists_in count_after middlewares b ≡ true
      → (a : NodeAddress) × (without_rule s r a ≡ some b)
        × (is_condition a ≡ false)
        × (exists_in count middlewares a ≡ true)
  back (rule t i) c e =
      (before (rule t i), ground arith, ground arith, ground (arith, counted, count_at t))
  back (respond t i) c e =
      (before (respond t i), ground arith, ground arith, ground (arith, counted, count_at t))
  back (rule_set t) c e = (rule_set t, refl, refl, ground (arith, counted, count_at t))
  back b c e = (b, ground arith, c, ground arith)

-- The workspace after the deletion.
abbrev pub deleted : ℕ → ℕ → RuleSet → Workspace → Workspace
deleted s r rs ws = record (with_rules s rs (remove_at r rs.rules) ws) {
  ids = shift_rules_down s r ws.ids;
}

module _ (new_id : ℕ → ℕ) (ws : Workspace) (consistent : IsConsistent new_id ws) where
  deleted-IsConsistent :
      (s r : ℕ) (rs : RuleSet)
      → get_elem? ws.rule_sets s ≡ some rs
      → r < length rs.rules
      → IsConsistent new_id (deleted s r rs ws)
  deleted-IsConsistent s r rs found in_range =
      let (index, fresh, covers) = consistent in
      let (index', moved) = shift_rules_down_lem s r ws.ids index in
      let counted : rule_count ws s ≡ some (length rs.rules) =
        ap (λ o. map_to o (λ x. length x.rules)) found in
      let m = middleware_count ws.middlewares_file_paths in
      (
        index',
        (λ j h. moved (new_id j) ∙ ap (λ o. and_then o (without_rule s r)) (fresh j h)),
        λ a c.
            moved-Covers (without_rule s r) (node_exists ws)
              (exists_in (count_after (rule_count ws) m s r (length rs.rules) counted in_range) m)
              (forth (rule_count ws) m s r (length rs.rules) counted in_range)
              (λ b c e.
                let (x, f, k, l) =
                  back (rule_count ws) m s r (length rs.rules) counted in_range b c e in
                (x, f, k, l))
              ws.ids (shift_rules_down s r ws.ids) index index' moved covers a c
            ∙ sym (
                exists_in-cong (rule_count (deleted s r rs ws)) _ m a (λ t.
                  rule_count-with_rules s t rs (remove_at r rs.rules) ws found
                  ∙ ap (λ n. if s == t then some n else rule_count ws t)
                      (omega (arith, length-remove_at rs.rules r in_range)))),
      )

  delete_at-IsKept :
      (id s r : ℕ) (rs : RuleSet)
      → get_elem? ws.rule_sets s ≡ some rs
      → IsKept new_id false ws (delete_at id ws s r rs)
  delete_at-IsKept id s r rs found = elim (Bool-cases (leb (length rs.rules) r)) [
    | inl g ↦ rw g refl
    | inr g ↦ rw g (deleted-IsConsistent s r rs found (ground arith))
  ]

  pub delete_rule-IsKept : (id : ℕ) → IsKept new_id false ws (cmd_delete_rule id ws)
  unfolding cmd_delete_rule
  delete_rule-IsKept id =
      try_with_lem (IsKept new_id false ws) ws _ _ (λ e. refl)
        (λ (s, r) e.
          try_with_lem (IsKept new_id false ws) ws _ _ (λ e. refl)
            (λ rs f. delete_at-IsKept id s r rs (nth_rule_set_sound s rs ws f)))
