-- ===== src/Workspace/Migrate.antt =====
-- What `migrate` does to an index, whatever the addresses it moves.
pub mod Restore
pub mod Clear
use mathlib.Core.Path.{subst}
use apimock_rs.Prelude.{
  none-ne-some, some-inj, ℕ, ◌≡◌, refl, sym, ap, ◌∙◌, ◌≢◌, ◌↔◌, ◌⊎◌, inl, inr, Bool, true, false,
  not, ◌||◌, Option, none, some, List, [], ◌∷◌, arith, ◌==◌, ==_iff, if◌then◌else◌, Bool-cases,
  Option-cases, or_else, is_some_and, any, filter,
}
use apimock_rs.Prelude.Dict.{
  any-In, any_sound, In, here, there, In-nil, In-cons, filter-In, filter_sound, lookup_in, remove,
  put, IsDict, lookup_in-remove, lookup_in-put, remove-IsDict, put-IsDict, In-lookup_in,
  lookup_in-In,
}
use apimock_rs.Workspace.{
  NodeAddress, address_eq, address_eq_iff, IdIndex, lookup, id_for, put_both,
}
use apimock_rs.Workspace.IdShift.{collect, clear, restore_row, restore, migrate}
use apimock_rs.Workspace.Migrate.Clear.{Rows, clear-lookup, clear-id_for, clear-IsDict}
use apimock_rs.Workspace.Migrate.Restore.{
  moved, restore-lookup, moved_skip, moved-In, placed, restore-id_for, placed_skip, placed-In,
  placed_from, restore-IsDict,
}

-- The two maps are inverse to each other, and no address stands twice.
abbrev pub IsIndex : IdIndex → Type 0
IsIndex ids =
    ((id : ℕ) (address : NodeAddress)
      → (lookup id ids ≡ some address) ↔ (id_for address ids ≡ some id))
    × IsDict address_eq ids.address_to_id

-- The address of a node after a migration, if it still has one.
abbrev pub renumber :
    (NodeAddress → Bool) → (NodeAddress → Option NodeAddress) → NodeAddress → Option NodeAddress
renumber concerns new_address a = if concerns a then new_address a else some a

abbrev pub and_then {ℓ κ} : {A : Type ℓ} {B : Type κ} → Option A → (A → Option B) → Option B
and_then none f = none
and_then (some a) f = f a

module _ (concerns : NodeAddress → Bool) (new_address : NodeAddress → Option NodeAddress)
    (stays : (a b : NodeAddress) → concerns a ≡ true → new_address a ≡ some b → concerns b ≡ true)
    (apart : (a c b : NodeAddress)
      → concerns a ≡ true
      → concerns c ≡ true
      → new_address a ≡ some b
      → new_address c ≡ some b
      → a ≡ c)
    (ids : IdIndex) (index : IsIndex ids) where
  abbrev rows : Rows
  rows = collect concerns ids

  row-id_for :
      (a : NodeAddress) (id : ℕ) → In (a, id) rows → (id_for a ids ≡ some id) × (concerns a ≡ true)
  row-id_for a id m =
      let (n, c) = filter_sound (λ row. concerns row.0) (a, id) ids.address_to_id m in
      (In-lookup_in address_eq address_eq_iff a id ids.address_to_id index.1 n, c)

  id_for-row :
      (a : NodeAddress) (id : ℕ) → id_for a ids ≡ some id → concerns a ≡ true → In (a, id) rows
  id_for-row a id h c =
      filter-In (λ row. concerns row.0) (a, id) ids.address_to_id
        (lookup_in-In address_eq address_eq_iff a id ids.address_to_id h) c

  -- The rows with one identity have one address.
  row_unique : (a b : NodeAddress) (id : ℕ) → lookup id ids ≡ some a → In (b, id) rows → b ≡ a
  row_unique a b id h m = some-inj b a (sym ((index.0 id b).1 (row-id_for b id m).0) ∙ h)

  cleared-lookup-concerned :
      (id : ℕ) (a : NodeAddress)
      → lookup id ids ≡ some a
      → concerns a ≡ true
      → lookup id (clear rows ids) ≡ none
  cleared-lookup-concerned id a h c =
      clear-lookup id rows ids
      ∙ rw
          (any-In (λ row. row.1 == id) (a, id) rows (id_for-row a id ((index.0 id a).0 h) c)
            ((==_iff id id).1 refl))
          refl

  cleared-lookup :
      (id : ℕ)
      → ((a : NodeAddress) → In (a, id) rows → ⊥)
      → lookup id (clear rows ids) ≡ lookup id ids
  cleared-lookup id no_row = elim (Bool-cases (any (λ row. row.1 == id) rows)) [
    | inl e ↦
        let ((a, i), m, t) = any_sound (λ row. row.1 == id) rows e in
        absurd (no_row a (subst (λ j. In (a, j) rows) ((==_iff i id).0 t) m))
    | inr e ↦ clear-lookup id rows ids ∙ rw e refl
  ]

  cleared-id_for :
      (b : NodeAddress) → id_for b (clear rows ids) ≡ (if concerns b then none else id_for b ids)
  cleared-id_for b = clear-id_for b rows ids ∙ by_row (id_for b ids) refl
    where
      by_row :
          (o : Option ℕ)
          → id_for b ids ≡ o
          → (if any (λ row. address_eq row.0 b) rows then none else id_for b ids)
            ≡ (if concerns b then none else id_for b ids)
      by_row o h = elim (Bool-cases (any (λ row. address_eq row.0 b) rows)) [
        | inl e ↦
            let ((a, i), m, t) = any_sound (λ row. address_eq row.0 b) rows e in
            let c = (row-id_for a i m).1 in
            rw (e, (ap concerns (sym ((address_eq_iff a b).0 t)) ∙ c)) refl
        | inr e ↦ rw e (missed o h e)
      ]
        where
          missed :
              (o : Option ℕ)
              → id_for b ids ≡ o
              → any (λ row. address_eq row.0 b) rows ≡ false
              → id_for b ids ≡ (if concerns b then none else id_for b ids)
          missed none h e = rw h (ground arith)
          missed (some i) h e = elim (Bool-cases (concerns b)) [
            | inl c ↦ cc (
              e,
              any-In (λ row. address_eq row.0 b) (b, i) rows (id_for-row b i h c)
                  ((address_eq_iff b b).1 refl),
            )
            | inr c ↦ rw c refl
          ]

  migrate-lookup :
      (id : ℕ)
      → lookup id (migrate concerns new_address ids)
        ≡ and_then (lookup id ids) (renumber concerns new_address)
  unfolding migrate
  migrate-lookup id =
      restore-lookup new_address id rows (clear rows ids) ∙ by_address (lookup id ids) refl
    where
      untouched :
          ((a : NodeAddress) → In (a, id) rows → ⊥)
          → moved new_address id rows (lookup id (clear rows ids)) ≡ lookup id ids
      untouched no_row = moved_skip new_address id rows _ no_row ∙ cleared-lookup id no_row

      by_address :
          (o : Option NodeAddress)
          → lookup id ids ≡ o
          → moved new_address id rows (lookup id (clear rows ids))
            ≡ and_then o (renumber concerns new_address)
      by_address none h =
          untouched (λ a m. none-ne-some a (sym h ∙ (index.0 id a).1 (row-id_for a id m).0)) ∙ h
      by_address (some a) h = elim (Bool-cases (concerns a)) [
        | inl c ↦
            ap (moved new_address id rows) (cleared-lookup-concerned id a h c)
            ∙ moved-In new_address a id rows (id_for-row a id ((index.0 id a).0 h) c)
                (λ b m. row_unique a b id h m)
            ∙ rw c refl
        | inr c ↦
            untouched (λ b m. cc (c, ap concerns (row_unique a b id h m), (row-id_for b id m).1))
            ∙ h
            ∙ rw c refl
      ]

  -- An address that the migration leaves alone keeps its identity.
  unconcerned-id_for :
      (b : NodeAddress)
      → concerns b ≡ false
      → placed new_address b rows (id_for b (clear rows ids)) ≡ id_for b ids
  unconcerned-id_for b c =
      placed_skip new_address b rows _ (λ a i m t. cc (c, stays a b (row-id_for a i m).1 t))
      ∙ cleared-id_for b
      ∙ rw c refl

  lookup-placed :
      (id : ℕ) (b : NodeAddress) (o : Option NodeAddress)
      → lookup id ids ≡ o
      → and_then o (renumber concerns new_address) ≡ some b
      → placed new_address b rows (id_for b (clear rows ids)) ≡ some id
  lookup-placed id b none h t = cc
  lookup-placed id b (some a) h t = elim (Bool-cases (concerns a)) [
    | inl c ↦
        let u : new_address a ≡ some b = rw c at t in
        let old = (index.0 id a).0 h in
        placed-In new_address b a id rows _ (id_for-row a id old c) u (λ d i m v.
          let (known, concerned) = row-id_for d i m in
          let same = apart d a b concerned c v u in
          some-inj i id (sym known ∙ ap (λ e. id_for e ids) same ∙ old))
    | inr c ↦
        let same : a ≡ b = some-inj a b (rw c at t) in
        unconcerned-id_for b (ap concerns (sym same) ∙ c)
        ∙ (index.0 id b).0 (h ∙ ap (λ e. some e) same)
  ]

  placed-lookup :
      (id : ℕ) (b : NodeAddress)
      → placed new_address b rows (id_for b (clear rows ids)) ≡ some id
      → and_then (lookup id ids) (renumber concerns new_address) ≡ some b
  placed-lookup id b h = elim (Bool-cases (concerns b)) [
    | inl c ↦ elim (placed_from new_address b id rows _ h) [
      | inl (a, m, t) ↦
          let (known, concerned) = row-id_for a id m in rw ((index.0 id a).1 known) (rw concerned t)
      | inr f ↦ absurd (none-ne-some id (sym (rw c at (cleared-id_for b)) ∙ f))
    ]
    | inr c ↦ rw ((index.0 id b).1 (sym (unconcerned-id_for b c) ∙ h)) (rw c refl)
  ]

  -- A migration gives every identity its new address, and the index stays one.
  pub migrate_lem :
      IsIndex (migrate concerns new_address ids)
      × ((id : ℕ)
          → lookup id (migrate concerns new_address ids)
            ≡ and_then (lookup id ids) (renumber concerns new_address))
  unfolding migrate
  migrate_lem =
      ((both, restore-IsDict new_address rows _ (clear-IsDict rows ids index.1)), migrate-lookup)
    where
      both :
          (id : ℕ) (b : NodeAddress)
          → (lookup id (migrate concerns new_address ids) ≡ some b)
            ↔ (id_for b (migrate concerns new_address ids) ≡ some id)
      both id b = (
        (λ h.
            restore-id_for new_address b rows (clear rows ids)
            ∙ lookup-placed id b (lookup id ids) refl (sym (migrate-lookup id) ∙ h)),
        (λ h.
            migrate-lookup id
            ∙ placed-lookup id b (sym (restore-id_for new_address b rows (clear rows ids)) ∙ h)),
      )
