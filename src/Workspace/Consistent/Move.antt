-- ===== src/Workspace/Consistent/Move.antt =====
-- The move of a rule: `cmd_move_rule` of crates/apimock-config/src/workspace/edit/rule.rs.
use apimock_rs.Prelude.{
  ℕ, ◌<◌, ◌≡◌, refl, sym, ap, ◌∙◌, inl, inr, true, false, ◌||◌, Option, none, some, arith, ◌==◌,
  ==_iff, leb, ltb, if◌then◌else◌, length, get_elem?, Bool-cases, some-inj, is_some,
}
use apimock_rs.Routing.RuleSet.{RuleSet}
use apimock_rs.Workspace.{NodeAddress, rule, respond, lookup, id_for}
use apimock_rs.Workspace.Migrate.{IsIndex, and_then}
use apimock_rs.Workspace.Stable.{map_to}
use apimock_rs.Workspace.State.{Workspace}
use apimock_rs.Workspace.Slots.{moved_from, move_entry, length-move_entry}
use apimock_rs.Workspace.Nodes.{with_rules, reorder_rule_ids}
use apimock_rs.Workspace.Reorder.Rows.{
  after_move, before_move, before_move-after_move, moved_from-lt,
}
use apimock_rs.Workspace.Reorder.Moved.{reorder_rule_ids_lem, reorder_rule_ids-config}
use apimock_rs.Workspace.Edit.Rule.{move_at, cmd_move_rule}
use apimock_rs.Workspace.Consistent.{
  is_condition, exists_in, exists_in-cong, rule_count, node_exists, IsConsistent,
}
use apimock_rs.Workspace.Apply.{middleware_count}
use apimock_rs.Workspace.Consistent.Moved.{moved-Covers}
use apimock_rs.Workspace.Consistent.Kept.{
  IsKept, try_with_lem, nth_rule_set_sound, rule_count-with_rules,
}

known_id : (o : Option ℕ) → is_some o ≡ true → (id : ℕ) × (o ≡ some id)
known_id none h = cc
known_id (some id) h = (id, refl)

-- A move of a rule within its rule set keeps the addresses that exist.
module _ (count : ℕ → Option ℕ) (middlewares s old new n : ℕ) (counted : count s ≡ some n)
    (old_in : old < n) (new_in : new < n) where
  count_at : (t : ℕ) → (s == t) ≡ true → count t ≡ some n
  count_at t e = ap count (sym ((==_iff s t).0 e)) ∙ counted

  stays_in : (i : ℕ) → ltb i n ≡ true → ltb (moved_from new old i) n ≡ true
  stays_in i h = let lt = moved_from-lt new old i n new_in old_in (ground arith) in ground arith

  kept_kind : (a : NodeAddress) → is_condition (after_move s old new a) ≡ is_condition a
  kept_kind a = ground arith

  after_move-exists :
      (a : NodeAddress)
      → exists_in count middlewares a ≡ true
      → exists_in count middlewares (after_move s old new a) ≡ true
  after_move-exists (rule t i) e = elim (Bool-cases (s == t)) [
    | inl f ↦ rw (f, count_at t f) (stays_in i (rw (count_at t f) at e))
    | inr f ↦ rw f e
  ]
  after_move-exists (respond t i) e = elim (Bool-cases (s == t)) [
    | inl f ↦ rw (f, count_at t f) (stays_in i (rw (count_at t f) at e))
    | inr f ↦ rw f e
  ]
  after_move-exists a e = ground (arith, e)

module _ (new_id : ℕ → ℕ) (ws : Workspace) (consistent : IsConsistent new_id ws) where
  -- The workspace after the move.
  abbrev pub placed : ℕ → ℕ → ℕ → RuleSet → Workspace
  placed s old new rs = with_rules s rs (move_entry old new rs.rules) ws

  abbrev pub moved : ℕ → ℕ → ℕ → RuleSet → Workspace
  moved s old new rs = reorder_rule_ids new_id s (length rs.rules) old new (placed s old new rs)

  module _ (s old new : ℕ) (rs : RuleSet) (found : get_elem? ws.rule_sets s ≡ some rs)
      (old_in : old < length rs.rules) (new_in : new < length rs.rules) where
    counted : rule_count ws s ≡ some (length rs.rules)
    counted = ap (λ o. map_to o (λ x. length x.rules)) found

    has_id :
        (a : NodeAddress)
        → is_condition a ≡ false
        → node_exists ws a ≡ true
        → (id : ℕ) × (id_for a ws.ids ≡ some id)
    has_id a c e =
        let (index, fresh, covers) = consistent in known_id (id_for a ws.ids) (covers a c ∙ e)

    pub moved_lem :
        IsIndex (moved s old new rs).ids
        × ((id : ℕ)
            → lookup id (moved s old new rs).ids
              ≡ and_then (lookup id ws.ids) (λ a. some (after_move s old new a)))
        × ((moved s old new rs).minted ≡ ws.minted)
    moved_lem =
        reorder_rule_ids_lem new_id s (length rs.rules) old new old_in new_in (placed s old new rs)
          consistent.0 (λ r h. has_id (rule s r) refl (rw counted (ground arith)))
          (λ r h. has_id (respond s r) refl (rw counted (ground arith)))

    same_nodes : (a : NodeAddress) → node_exists ws a ≡ node_exists (moved s old new rs) a
    same_nodes a =
        let (sets, middlewares) =
          reorder_rule_ids-config new_id s (length rs.rules) old new (placed s old new rs) in
        exists_in-cong (rule_count ws) (rule_count (moved s old new rs)) _ a (λ t. sym (
          ap (λ xs. map_to (get_elem? xs t) (λ x. length x.rules)) sets
          ∙ rule_count-with_rules s t rs (move_entry old new rs.rules) ws found
          ∙ ap (λ n. if s == t then some n else rule_count ws t)
              (length-move_entry rs.rules old new old_in)
          ∙ elim (Bool-cases (s == t)) [
            | inl e ↦ rw e (sym counted ∙ ap (rule_count ws) ((==_iff s t).0 e))
            | inr e ↦ rw e refl
          ]))
        ∙ ap (λ m. exists_in (rule_count (moved s old new rs)) (middleware_count m) a)
            (sym middlewares)

    follows :
        (b d : NodeAddress)
        → some (after_move s old new b) ≡ some d
        → is_condition d ≡ false
        → (is_condition b ≡ false) × (node_exists ws b ≡ true → node_exists ws d ≡ true)
    follows b d e k =
        let same : after_move s old new b ≡ d = some-inj _ _ e in
        let n = length rs.rules in
        let m = middleware_count ws.middlewares_file_paths in
        (
          sym (kept_kind (rule_count ws) m s old new n counted old_in new_in b)
              ∙ ap is_condition same
              ∙ k,
          λ l.
              sym (ap (node_exists ws) same)
              ∙ after_move-exists (rule_count ws) m s old new n counted old_in new_in b l,
        )

    preceded :
        (b : NodeAddress)
        → is_condition b ≡ false
        → node_exists ws b ≡ true
        → (a : NodeAddress) × (some (after_move s old new a) ≡ some b)
          × (is_condition a ≡ false)
          × (node_exists ws a ≡ true)
    preceded b k e =
        let n = length rs.rules in
        let m = middleware_count ws.middlewares_file_paths in
        (
          before_move s old new b,
          ap (λ c. some c) (before_move-after_move s new old b),
          kept_kind (rule_count ws) m s new old n counted new_in old_in b ∙ k,
          after_move-exists (rule_count ws) m s new old n counted new_in old_in b e,
        )

    moved-IsConsistent : IsConsistent new_id (moved s old new rs)
    moved-IsConsistent =
        let (index, fresh, covers) = consistent in
        let (index', found', same) = moved_lem in
        (
          index',
          (λ j h.
              found' (new_id j)
              ∙ ap (λ o. and_then o (λ a. some (after_move s old new a)))
                  (fresh j (omega (arith, same)))),
          λ a c.
              moved-Covers (λ b. some (after_move s old new b)) (node_exists ws) (node_exists ws)
                (λ b d e k. follows b d e k) (λ b k e. preceded b k e) ws.ids
                (moved s old new rs).ids index index' found' covers a c
              ∙ same_nodes a,
        )

  move_at-IsKept :
      (id s old new : ℕ) (rs : RuleSet)
      → get_elem? ws.rule_sets s ≡ some rs
      → IsKept new_id false ws (move_at new_id id new ws s old rs)
  move_at-IsKept id s old new rs found =
      elim (Bool-cases (leb (length rs.rules) old || leb (length rs.rules) new)) [
        | inl g ↦ rw g refl
        | inr g ↦ elim (Bool-cases (old == new)) [
          | inl h ↦ rw (g, h) consistent
          | inr h ↦ rw (g, h) (moved-IsConsistent s old new rs found (ground arith) (ground arith))
        ]
      ]

  pub move_rule-IsKept : (id new : ℕ) → IsKept new_id false ws (cmd_move_rule new_id id new ws)
  unfolding cmd_move_rule
  move_rule-IsKept id new =
      try_with_lem (IsKept new_id false ws) ws _ _ (λ e. refl)
        (λ (s, old) e.
          try_with_lem (IsKept new_id false ws) ws _ _ (λ e. refl)
            (λ rs f. move_at-IsKept id s old new rs (nth_rule_set_sound s rs ws f)))
