-- ===== src/Workspace/Reorder.antt =====
-- What taking rows out of an index and putting them back under other addresses gives: the loops of
-- `reorder_rule_ids` of crates/apimock-config/src/workspace/edit/id_shift.rs.
pub mod Rows
pub mod Moved
use apimock_rs.Prelude.{
  ℕ, zero, suc, ◌+◌, ◌≡◌, refl, sym, ap, ◌∙◌, ◌↔◌, inl, inr, Bool, true, false, not, ◌&&◌, Option,
  none, some, List, [], ◌∷◌, arith, ◌==◌, ==_iff, if◌then◌else◌, length, ◌<◌, Bool-cases,
  Option-cases, none-ne-some, some-inj,
}
use apimock_rs.Prelude.Dict.{lookup_in-remove, lookup_in-put, remove-IsDict}
use apimock_rs.Workspace.{
  NodeAddress, address_eq, address_eq_iff, IdIndex, lookup, id_for, put_both,
}
use apimock_rs.Workspace.Migrate.{IsIndex, and_then}
use apimock_rs.Workspace.Stable.{put_both-IsIndex}
use apimock_rs.Workspace.State.{Workspace}
use apimock_rs.Workspace.Nodes.{forget, forget_row, put_all_back}

forget_row-IsIndex :
    (a : NodeAddress) (o : Option ℕ) (ids : IdIndex)
    → IsIndex ids
    → id_for a ids ≡ o
    → IsIndex (forget_row a o ids)
      × ((b : NodeAddress)
          → id_for b (forget_row a o ids) ≡ (if address_eq a b then none else id_for b ids))
forget_row-IsIndex a none ids index e = (
  index,
  λ b. elim (Bool-cases (address_eq a b)) [
    | inl f ↦ rw f (sym (ap (λ c. id_for c ids) ((address_eq_iff a b).0 f)) ∙ e)
    | inr f ↦ rw f refl
  ],
)
forget_row-IsIndex a (some prev) ids index e = (
  (both, remove-IsDict address_eq address_eq_iff a ids.address_to_id index.1),
  λ b. lookup_in-remove address_eq address_eq_iff b a ids.address_to_id,
)
  where
    held : lookup prev ids ≡ some a
    held = (index.0 prev a).1 e

    other_address :
        (i : ℕ) (b : NodeAddress)
        → (prev == i) ≡ true
        → address_eq a b ≡ false
        → id_for b ids ≡ some i
        → ⊥
    other_address i b f g z =
        let same = ap (λ j. lookup j ids) ((==_iff prev i).0 f) in
        let equal = some-inj a b (sym held ∙ same ∙ (index.0 i b).1 z) in
        cc (g, (address_eq_iff a b).1 equal)

    other_id :
        (i : ℕ) (b : NodeAddress)
        → (prev == i) ≡ false
        → address_eq a b ≡ true
        → lookup i ids ≡ some b
        → ⊥
    other_id i b f g z =
        let same = ap (λ c. id_for c ids) ((address_eq_iff a b).0 g) in
        let equal = some-inj prev i (sym e ∙ same ∙ (index.0 i b).0 z) in
        cc (f, (==_iff prev i).1 equal)

    both :
        (i : ℕ) (b : NodeAddress)
        → (lookup i (forget_row a (some prev) ids) ≡ some b)
          ↔ (id_for b (forget_row a (some prev) ids) ≡ some i)
    both i b =
        rw
          (
            lookup_in-remove ◌==◌ ==_iff i prev ids.id_to_address,
            lookup_in-remove address_eq address_eq_iff b a ids.address_to_id,
          )
          (elim (Bool-cases (prev == i)) [
            | inl f ↦ elim (Bool-cases (address_eq a b)) [
              | inl g ↦
                  rw (f, g) ((λ z. absurd (none-ne-some b z)), (λ z. absurd (none-ne-some i z)))
              | inr g ↦
                  rw (f, g)
                    ((λ z. absurd (none-ne-some b z)), (λ z. absurd (other_address i b f g z)))
            ]
            | inr f ↦ elim (Bool-cases (address_eq a b)) [
              | inl g ↦
                  rw (f, g) ((λ z. absurd (other_id i b f g z)), (λ z. absurd (none-ne-some i z)))
              | inr g ↦ rw (f, g) (index.0 i b)
            ]
          ])

-- The index of an edit that is under way: the addresses in `mask` are without identity, the others
-- have the one that `source` had in the index from before.
abbrev pub IsMasked :
    (NodeAddress → NodeAddress) → (NodeAddress → Bool) → IdIndex → IdIndex → Type 0
IsMasked source mask old ids =
    IsIndex ids
    × ((b : NodeAddress) → id_for b ids ≡ (if mask b then none else id_for (source b) old))

-- The list holds the identities of the rows that go to `address r` and on.
abbrev pub Holds :
    (NodeAddress → NodeAddress) → IdIndex → (ℕ → NodeAddress) → ℕ → List (Option ℕ) → Type 0
Holds source old address r [] = Unit
Holds source old address r (x ∷ xs) =
    ((id : ℕ) × (x ≡ some id) × (id_for (source (address r)) old ≡ some id))
    × Holds source old address (suc r) xs

module _ (source : NodeAddress → NodeAddress)
    (source-inj : (a b : NodeAddress) → source a ≡ source b → a ≡ b) (old : IdIndex)
    (index : IsIndex old) where
  -- One row is put back.
  put_both-IsMasked :
      (mask mask' : NodeAddress → Bool) (a : NodeAddress) (id : ℕ) (ids : IdIndex)
      → ((b : NodeAddress) → mask' b ≡ (mask b && not (address_eq a b)))
      → mask a ≡ true
      → id_for (source a) old ≡ some id
      → IsMasked source mask old ids
      → IsMasked source mask' old (put_both id a ids)
  put_both-IsMasked mask mask' a id ids smaller pending found (now, rows) = (
    put_both-IsIndex id a ids now unused (rows a ∙ rw pending refl),
    λ b.
        lookup_in-put address_eq address_eq_iff b a id ids.address_to_id
        ∙ elim (Bool-cases (address_eq a b)) [
          | inl e ↦
              rw (smaller b, e)
                (sym found
                  ∙ ap (λ c. id_for (source c) old) ((address_eq_iff a b).0 e)
                  ∙ ground arith)
          | inr e ↦ rw (smaller b, e) (rows b ∙ ground arith)
        ],
  )
    where
      taken : (b : NodeAddress) → lookup id ids ≡ some b → ⊥
      taken b h =
          let known = (now.0 id b).0 h in
          elim (Bool-cases (mask b)) [
            | inl e ↦ none-ne-some id (sym (rows b ∙ rw e refl) ∙ known)
            | inr e ↦
                let was : id_for (source b) old ≡ some id = sym (rows b ∙ rw e refl) ∙ known in
                let equal : source b ≡ source a =
                  some-inj (source b) (source a)
                    (sym ((index.0 id (source b)).1 was) ∙ (index.0 id (source a)).1 found) in
                cc (pending, e, ap mask (source-inj b a equal))
          ]

      unused : lookup id ids ≡ none
      unused = elim (Option-cases (lookup id ids)) [ inl e ↦ e | inr (b, e) ↦ absurd (taken b e) ]

  module _ (new_id : ℕ → ℕ) (address : ℕ → NodeAddress) where
    module _ (mask : ℕ → NodeAddress → Bool)
        (step : (r : ℕ) (b : NodeAddress)
          → mask (suc r) b ≡ (mask r b && not (address_eq (address r) b)))
        (count : ℕ) (awaited : (r : ℕ) → r < count → mask r (address r) ≡ true) where
      pub put_all_back-IsMasked :
          (r : ℕ) (xs : List (Option ℕ)) (ws : Workspace)
          → r + length xs ≡ count
          → Holds source old address r xs
          → IsMasked source (mask r) old ws.ids
          → IsMasked source (mask count) old (put_all_back new_id address r xs ws).ids
            × ((put_all_back new_id address r xs ws).minted ≡ ws.minted)
      unfolding put_all_back
      put_all_back-IsMasked r [] ws e h masked = (
        mathlib.Core.Path.subst (λ k. IsMasked source (mask k) old ws.ids) (omega arith) masked,
        refl,
      )
      put_all_back-IsMasked r (none ∷ xs) ws e ((id, f, g), h) masked = absurd (none-ne-some id f)
      put_all_back-IsMasked r (some x ∷ xs) ws e ((id, f, g), h) masked =
          put_all_back-IsMasked (suc r) xs record ws { ids = put_both x (address r) ws.ids }
            (omega arith) h
            (put_both-IsMasked (mask r) (mask (suc r)) (address r) x ws.ids (step r)
              (awaited r (omega arith)) (g ∙ sym f) masked)
