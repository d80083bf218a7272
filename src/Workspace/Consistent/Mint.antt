-- ===== src/Workspace/Consistent/Mint.antt =====
-- What `IdIndex::insert` does to the addresses that have an identity.
use apimock_rs.Prelude.{
  ℕ, suc, ◌≡◌, refl, sym, ap, ◌∙◌, ◌≤◌, inl, inr, Bool, true, false, ◌||◌, Option, none, some,
  arith, ◌==◌, ==_iff, is_some, Bool-cases, if◌then◌else◌,
}
use apimock_rs.Prelude.Dict.{lookup_in-put}
use apimock_rs.Workspace.{
  NodeAddress, address_eq, address_eq_iff, IdIndex, lookup, id_for, insert, put_both,
}
use apimock_rs.Workspace.Stable.{insert_lem}
use apimock_rs.Workspace.State.{Workspace, mint}
use apimock_rs.Workspace.Consistent.{is_condition, Indexes, Indexes-cong}

insert-id_for :
    (new_id : ℕ) (a b : NodeAddress) (ids : IdIndex)
    → is_some (id_for b (insert new_id a ids).1) ≡ (is_some (id_for b ids) || address_eq a b)
unfolding insert
insert-id_for new_id a b ids = by_known (id_for a ids) refl
  where
    by_known :
        (o : Option ℕ)
        → id_for a ids ≡ o
        → is_some (
            id_for b
              (elim o as (λ _. ℕ × IdIndex) [
                | some id ↦ (id, ids)
                | none ↦ (new_id, put_both new_id a ids)
              ]).1)
          ≡ (is_some (id_for b ids) || address_eq a b)
    by_known none e =
        ap is_some (lookup_in-put address_eq address_eq_iff b a new_id ids.address_to_id)
        ∙ ground arith
    by_known (some id) e = elim (Bool-cases (address_eq a b)) [
      | inl f ↦
          let known = sym (ap (λ c. id_for c ids) ((address_eq_iff a b).0 f)) ∙ e in
          rw (f, known) refl
      | inr f ↦ rw f (ground arith)
    ]

insert-lookup_unused :
    (new_id id : ℕ) (a : NodeAddress) (ids : IdIndex)
    → (new_id == id) ≡ false
    → lookup id ids ≡ none
    → lookup id (insert new_id a ids).1 ≡ none
unfolding insert
insert-lookup_unused new_id id a ids apart unused = by_known (id_for a ids)
  where
    by_known :
        (o : Option ℕ)
        → lookup id
            (elim o as (λ _. ℕ × IdIndex) [
              | some i ↦ (i, ids)
              | none ↦ (new_id, put_both new_id a ids)
            ]).1
          ≡ none
    by_known none =
        lookup_in-put ◌==◌ ==_iff id new_id a ids.id_to_address ∙ rw (apart, unused) refl
    by_known (some i) = unused

insert-known :
    (new_id id : ℕ) (a : NodeAddress) (ids : IdIndex)
    → id_for a ids ≡ some id
    → (insert new_id a ids).1 ≡ ids
unfolding insert
insert-known new_id id a ids e = rw (insert, e) refl

module _ (new_id : ℕ → ℕ) (new_id-inj : (j k : ℕ) → new_id j ≡ new_id k → j ≡ k) where
  pub mint_lem :
      (a : NodeAddress) (present : NodeAddress → Bool) (ws : Workspace)
      → Indexes new_id present ws
      → Indexes new_id (λ b. present b || address_eq a b) (mint new_id a ws).1
  mint_lem a present ws (index, fresh, covers) = (
    (insert_lem (new_id ws.minted) a ws.ids index (fresh ws.minted (omega arith))).0,
    fresh_after (id_for a ws.ids) refl,
    λ b c.
        insert-id_for (new_id ws.minted) a b ws.ids
        ∙ ap (λ known. known || address_eq a b) (covers b c),
  )
    where
      differ : (j : ℕ) → suc ws.minted ≤ j → (new_id ws.minted == new_id j) ≡ false
      differ j h = elim (Bool-cases (new_id ws.minted == new_id j)) [
        | inl e ↦
            let same = new_id-inj ws.minted j ((==_iff (new_id ws.minted) (new_id j)).0 e) in
            absurd (omega arith)
        | inr e ↦ e
      ]

      fresh_after :
          (o : Option ℕ)
          → id_for a ws.ids ≡ o
          → (j : ℕ) → (if is_some o then ws.minted else suc ws.minted) ≤ j
          → lookup (new_id j) (insert (new_id ws.minted) a ws.ids).1 ≡ none
      fresh_after none e j h =
          insert-lookup_unused (new_id ws.minted) (new_id j) a ws.ids (differ j h)
            (fresh j (omega arith))
      fresh_after (some id) e j h =
          ap (lookup (new_id j)) (insert-known (new_id ws.minted) id a ws.ids e) ∙ fresh j h

  -- A new identity of a condition concerns no other kind of address.
  pub mint_condition :
      (a : NodeAddress) (present : NodeAddress → Bool) (ws : Workspace)
      → is_condition a ≡ true
      → Indexes new_id present ws
      → Indexes new_id present (mint new_id a ws).1
  mint_condition a present ws h known =
      Indexes-cong new_id (λ b. present b || address_eq a b) present (mint new_id a ws).1
        (λ b c. ground (arith, other b c)) (mint_lem a present ws known)
    where
      other : (b : NodeAddress) → is_condition b ≡ false → address_eq a b ≡ false
      other b c = elim (Bool-cases (address_eq a b)) [
        | inl e ↦ cc (h, c, ap is_condition ((address_eq_iff a b).0 e))
        | inr e ↦ e
      ]
