-- ===== src/Workspace/Consistent/RemoveSet.antt =====
-- The removal of a rule set: `cmd_remove_rule_set` of
-- crates/apimock-config/src/workspace/edit/rule_set.rs.
use apimock_rs.Prelude.{
  ℕ, suc, ◌-◌, ◌≡◌, refl, sym, ap, ◌∙◌, true, false, Option, none, some, arith, leb, ltb,
  if◌then◌else◌, length, get_elem?,
}
use apimock_rs.Routing.RuleSet.{RuleSet}
use apimock_rs.Workspace.{NodeAddress, rule_set, rule, respond}
use apimock_rs.Workspace.IdShift.{shift_rule_sets_down}
use apimock_rs.Workspace.Migrate.{and_then}
use apimock_rs.Workspace.Stable.{map_to, without_rule_set, shift_rule_sets_down_lem}
use apimock_rs.Workspace.State.{Workspace}
use apimock_rs.Workspace.Slots.{remove_at, get_elem?-remove_at}
use apimock_rs.Workspace.Edit.RuleSet.{remove_path, remove_set_at, cmd_remove_rule_set}
use apimock_rs.Workspace.Consistent.{
  is_condition, exists_in, exists_in-cong, rule_count, node_exists, IsConsistent,
}
use apimock_rs.Workspace.Apply.{middleware_count}
use apimock_rs.Workspace.Consistent.Moved.{moved-Covers}
use apimock_rs.Workspace.Consistent.Kept.{IsKept, try_with_lem}

module _ (count : ℕ → Option ℕ) (middlewares s : ℕ) where
  abbrev count_after : ℕ → Option ℕ
  count_after t = count (if leb s t then suc t else t)

  count_before : (t : ℕ) → ltb s t ≡ true → count (suc (t - 1)) ≡ count t
  count_before t h = ap count (ground arith)

  forth :
      (a b : NodeAddress)
      → without_rule_set s a ≡ some b
      → is_condition b ≡ false
      → (is_condition a ≡ false)
        × (exists_in count middlewares a ≡ true → exists_in count_after middlewares b ≡ true)
  forth (rule t i) b f c = (refl, λ e. ground (arith, count_before t))
  forth (respond t i) b f c = (refl, λ e. ground (arith, count_before t))
  forth (rule_set t) b f c = (refl, λ e. ground (arith, count_before t))
  forth a b f c = ground arith

  -- The address that a node had before the removal.
  abbrev before : NodeAddress → NodeAddress
  before (rule t i) = rule (if leb s t then suc t else t) i
  before (respond t i) = respond (if leb s t then suc t else t) i
  before (rule_set t) = rule_set (if leb s t then suc t else t)
  before b = b

  back :
      (b : NodeAddress)
      → is_condition b ≡ false
      → exists_in count_after middlewares b ≡ true
      → (a : NodeAddress) × (without_rule_set s a ≡ some b)
        × (is_condition a ≡ false)
        × (exists_in count middlewares a ≡ true)
  back (rule t i) c e = (before (rule t i), ground arith, refl, e)
  back (respond t i) c e = (before (respond t i), ground arith, refl, e)
  back (rule_set t) c e = (before (rule_set t), ground arith, refl, e)
  back b c e = (b, ground arith, c, ground arith)

-- The workspace after the removal.
abbrev pub removed : ℕ → Workspace → Workspace
removed s ws = record ws {
  rule_sets = remove_at s ws.rule_sets;
  rule_sets_file_paths = remove_path s ws.rule_sets_file_paths;
  ids = shift_rule_sets_down s ws.ids;
}

module _ (new_id : ℕ → ℕ) (ws : Workspace) (consistent : IsConsistent new_id ws) where
  removed-IsConsistent : (s : ℕ) → IsConsistent new_id (removed s ws)
  removed-IsConsistent s =
      let (index, fresh, covers) = consistent in
      let (index', moved) = shift_rule_sets_down_lem s ws.ids index in
      let m = middleware_count ws.middlewares_file_paths in
      (
        index',
        (λ j h. moved (new_id j) ∙ ap (λ o. and_then o (without_rule_set s)) (fresh j h)),
        λ a c.
            moved-Covers (without_rule_set s) (node_exists ws)
              (exists_in (count_after (rule_count ws) m s) m) (forth (rule_count ws) m s)
              (λ b c e. let (x, f, k, l) = back (rule_count ws) m s b c e in (x, f, k, l)) ws.ids
              (shift_rule_sets_down s ws.ids) index index' moved covers a c
            ∙ sym (
                exists_in-cong (rule_count (removed s ws)) _ m a (λ t.
                  ap (λ o. map_to o (λ x. length x.rules)) (get_elem?-remove_at ws.rule_sets s t))),
      )

  pub remove_rule_set-IsKept : (id : ℕ) → IsKept new_id false ws (cmd_remove_rule_set id ws)
  unfolding cmd_remove_rule_set
  remove_rule_set-IsKept id =
      try_with_lem (IsKept new_id false ws) ws _ _ (λ e. refl)
        (λ s e. by_entry s (get_elem? ws.rule_sets s))
    where
      by_entry : (s : ℕ) (o : Option RuleSet) → IsKept new_id false ws (remove_set_at id ws s o)
      by_entry s none = refl
      by_entry s (some rs) = removed-IsConsistent s
