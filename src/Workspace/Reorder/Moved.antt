-- ===== src/Workspace/Reorder/Moved.antt =====
-- `reorder_rule_ids` of crates/apimock-config/src/workspace/edit/id_shift.rs as a whole.
use apimock_rs.Prelude.{
  ℕ, suc, ◌+◌, ◌<◌, ◌≡◌, refl, sym, ap, ◌∙◌, inl, inr, Bool, false, not, ◌&&◌, Option, none, some,
  List, [], ◌∷◌, arith, ◌==◌, if◌then◌else◌, length, get_elem?, Bool-cases, Option-cases,
  none-ne-some, some-inj,
}
use apimock_rs.Workspace.{NodeAddress, rule, respond, address_eq, lookup, id_for}
use apimock_rs.Workspace.Migrate.{IsIndex, and_then}
use apimock_rs.Workspace.State.{Workspace}
use apimock_rs.Workspace.Slots.{moved_from, move_entry, get_elem?-move_entry, length-move_entry}
use apimock_rs.Workspace.Nodes.{ids_of, forget_rules, put_all_back, put_back, reorder_rule_ids}
use apimock_rs.Workspace.Reorder.{IsMasked, Holds, put_all_back-IsMasked}
use apimock_rs.Workspace.Reorder.Rows.{
  between, address_eq-rule, address_eq-respond, forget_rules_lem, after_move, before_move,
  before_move-after_move, moved_from-lt, moved_from-far, length-ids_of, get_elem?-ids_of,
}

zero_add : (n : ℕ) → 0 + n ≡ n
zero_add n = omega arith

module _ (new_id : ℕ → ℕ) (s count old new : ℕ) (old_in : old < count) (new_in : new < count)
    (ws : Workspace) (index : IsIndex ws.ids) where
  abbrev source : NodeAddress → NodeAddress
  source = before_move s old new

  source-inj : (a b : NodeAddress) → source a ≡ source b → a ≡ b
  source-inj a b e =
      sym (before_move-after_move s new old a)
      ∙ ap (after_move s old new) e
      ∙ before_move-after_move s new old b

  abbrev mask : ℕ → ℕ → NodeAddress → Bool
  mask k m = between s k m count

  source_outside : (b : NodeAddress) → mask 0 0 b ≡ false → source b ≡ b
  source_outside (rule t i) h = elim (Bool-cases (s == t)) [
    | inl e ↦ rw e (ap (rule t) (moved_from-far old new i count old_in new_in (ground arith)))
    | inr e ↦ rw e refl
  ]
  source_outside (respond t i) h = elim (Bool-cases (s == t)) [
    | inl e ↦ rw e (ap (respond t) (moved_from-far old new i count old_in new_in (ground arith)))
    | inr e ↦ rw e refl
  ]
  source_outside b h = ground arith

  forgotten : IsMasked source (mask 0 0) ws.ids (forget_rules s 0 count ws.ids)
  forgotten =
      let (now, rows) = forget_rules_lem s 0 count ws.ids index in
      (
        now,
        λ b.
            rows b
            ∙ ap (λ n. if between s 0 0 n b then none else id_for b ws.ids) (omega arith)
            ∙ unmoved b,
      )
    where
      unmoved :
          (b : NodeAddress)
          → (if mask 0 0 b then none else id_for b ws.ids)
            ≡ (if mask 0 0 b then none else id_for (source b) ws.ids)
      unmoved b = elim (Bool-cases (mask 0 0 b)) [
        | inl e ↦ rw e refl
        | inr e ↦ rw e (ap (λ c. id_for c ws.ids) (sym (source_outside b e)))
      ]

  module _ (address : ℕ → NodeAddress)
      (moves : (r : ℕ) → source (address r) ≡ address (moved_from old new r))
      (given : (r : ℕ) → r < count → (id : ℕ) × (id_for (address r) ws.ids ≡ some id)) where
    holds :
        (r : ℕ) (xs : List (Option ℕ))
        → r + length xs ≡ count
        → ((j : ℕ)
            → j < length xs
            → get_elem? xs j ≡ some (id_for (address (moved_from old new (r + j))) ws.ids))
        → Holds source ws.ids address r xs
    holds r [] e h = tt
    holds r (x ∷ xs) e h =
        let (id, e1) =
          given (moved_from old new r)
            (moved_from-lt old new r count old_in new_in (omega arith)) in
        let here : x ≡ id_for (address (moved_from old new r)) ws.ids =
          some-inj x _ (h 0 (omega arith))
          ∙ ap (λ k. id_for (address (moved_from old new k)) ws.ids) (omega arith) in
        (
          (id, here ∙ e1, ap (λ c. id_for c ws.ids) (moves r) ∙ e1),
          holds (suc r) xs (omega arith) (λ j k.
              h (suc j) (omega arith)
              ∙ ap (λ k. some (id_for (address (moved_from old new k)) ws.ids)) (omega arith)),
        )

    abbrev moved_ids : List (Option ℕ)
    moved_ids = move_entry old new (ids_of address 0 count ws.ids)

    moved-Holds : Holds source ws.ids address 0 moved_ids × (length moved_ids ≡ count)
    moved-Holds =
        let all = length-ids_of address 0 count ws.ids in
        let len = length-move_entry (ids_of address 0 count ws.ids) old new (omega arith) ∙ all in
        (
          holds 0 moved_ids (omega arith) (λ j k.
              get_elem?-move_entry (ids_of address 0 count ws.ids) old new j (omega arith)
                (omega arith)
              ∙ get_elem?-ids_of address 0 count (moved_from old new j) ws.ids
                  (moved_from-lt old new j count old_in new_in (omega arith))
              ∙ ap (λ k. some (id_for (address k) ws.ids))
                  (zero_add _ ∙ ap (moved_from old new) (sym (zero_add j)))),
          len,
        )

  module _ (rules : (r : ℕ) → r < count → (id : ℕ) × (id_for (rule s r) ws.ids ≡ some id))
      (responds : (r : ℕ) → r < count → (id : ℕ) × (id_for (respond s r) ws.ids ≡ some id)) where
    abbrev cleared : Workspace
    cleared = record ws { ids = forget_rules s 0 count ws.ids }

    moves_rule : (r : ℕ) → source (rule s r) ≡ rule s (moved_from old new r)
    moves_rule r = ground arith

    moves_respond : (r : ℕ) → source (respond s r) ≡ respond s (moved_from old new r)
    moves_respond r = ground arith

    rule_step :
        (r : ℕ) (b : NodeAddress) → mask (suc r) 0 b ≡ (mask r 0 b && not (address_eq (rule s r) b))
    rule_step r b = rw (address_eq-rule s r b) (ground arith)

    respond_step :
        (r : ℕ) (b : NodeAddress)
        → mask count (suc r) b ≡ (mask count r b && not (address_eq (respond s r) b))
    respond_step r b = rw (address_eq-respond s r b) (ground arith)

    reordered :
        IsMasked source (mask count count) ws.ids (reorder_rule_ids new_id s count old new ws).ids
        × ((reorder_rule_ids new_id s count old new ws).minted ≡ ws.minted)
    unfolding reorder_rule_ids
    reordered =
        let (rules_held, rules_length) = moved-Holds (rule s) moves_rule rules in
        let (responds_held, responds_length) = moved-Holds (respond s) moves_respond responds in
        let (first, same) =
          put_all_back-IsMasked source source-inj ws.ids index new_id (rule s) (λ r. mask r 0)
            rule_step count (λ r h. ground arith) 0 (moved_ids (rule s) moves_rule rules) cleared
            (omega arith) rules_held forgotten in
        let (second, same') =
          put_all_back-IsMasked source source-inj ws.ids index new_id (respond s) (mask count)
            respond_step count (λ r h. ground arith) 0
            (moved_ids (respond s) moves_respond responds) _ (omega arith) responds_held first in
        (second, same' ∙ same)

    -- The identities follow their rules and responses to the new positions.
    pub reorder_rule_ids_lem :
        IsIndex (reorder_rule_ids new_id s count old new ws).ids
        × ((id : ℕ)
            → lookup id (reorder_rule_ids new_id s count old new ws).ids
              ≡ and_then (lookup id ws.ids) (λ a. some (after_move s old new a)))
        × ((reorder_rule_ids new_id s count old new ws).minted ≡ ws.minted)
    reorder_rule_ids_lem =
        let ((index', rows), same) = reordered in
        (index', (λ id. by_address index' rows id (lookup id ws.ids) refl), same)
      where
        nothing_left : (b : NodeAddress) → mask count count b ≡ false
        nothing_left b = ground arith

        by_address :
            IsIndex (reorder_rule_ids new_id s count old new ws).ids
            → ((b : NodeAddress)
                → id_for b (reorder_rule_ids new_id s count old new ws).ids
                  ≡ (if mask count count b then none else id_for (source b) ws.ids))
            → (id : ℕ) (o : Option NodeAddress) → lookup id ws.ids ≡ o
            → lookup id (reorder_rule_ids new_id s count old new ws).ids
              ≡ and_then o (λ a. some (after_move s old new a))
        by_address index' rows id (some a) e = (index'.0 id (after_move s old new a)).1 (
            rows (after_move s old new a)
            ∙ rw (nothing_left (after_move s old new a)) (
                ap (λ c. id_for c ws.ids) (before_move-after_move s old new a)
                ∙ (index.0 id a).0 e))
        by_address index' rows id none e =
            elim (Option-cases (lookup id (reorder_rule_ids new_id s count old new ws).ids)) [
              | inl f ↦ f
              | inr (b, f) ↦
                  let known = sym (rows b ∙ rw (nothing_left b) refl) ∙ (index'.0 id b).0 f in
                  absurd (none-ne-some (source b) (sym e ∙ (index.0 id (source b)).1 known))
            ]

-- The move of identities touches the index and the supply of identities only.
put_all_back-config :
    (new_id : ℕ → ℕ) (address : ℕ → NodeAddress) (r : ℕ) (xs : List (Option ℕ)) (ws : Workspace)
    → ((put_all_back new_id address r xs ws).rule_sets ≡ ws.rule_sets)
      × ((put_all_back new_id address r xs ws).middlewares_file_paths ≡ ws.middlewares_file_paths)
unfolding put_all_back
put_all_back-config new_id address r [] ws = (refl, refl)
put_all_back-config new_id address r (some id ∷ xs) ws =
    put_all_back-config new_id address (suc r) xs (put_back new_id (address r) (some id) ws)
put_all_back-config new_id address r (none ∷ xs) ws =
    put_all_back-config new_id address (suc r) xs (put_back new_id (address r) none ws)

pub reorder_rule_ids-config :
    (new_id : ℕ → ℕ) (s count old new : ℕ) (ws : Workspace)
    → ((reorder_rule_ids new_id s count old new ws).rule_sets ≡ ws.rule_sets)
      × ((reorder_rule_ids new_id s count old new ws).middlewares_file_paths
          ≡ ws.middlewares_file_paths)
unfolding reorder_rule_ids
reorder_rule_ids-config new_id s count old new ws =
    let (a, b) = put_all_back-config new_id (rule s) 0 _ _ in
    let (c, d) = put_all_back-config new_id (respond s) 0 _ _ in (c ∙ a, d ∙ b)
