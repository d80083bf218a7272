-- ===== src/Workspace/Migrate/Restore.antt =====
-- What `restore` does to the two maps of an index.
use apimock_rs.Prelude.{
  ℕ, ◌≡◌, refl, sym, ap, ◌∙◌, ◌≢◌, ◌↔◌, ◌⊎◌, inl, inr, Bool, true, false, Option, none, some, List,
  [], ◌∷◌, arith, ◌==◌, ==_iff, if◌then◌else◌, Bool-cases, or_else, is_some_and,
}
use apimock_rs.Prelude.Dict.{In, here, there, In-cons, IsDict, lookup_in-put, put-IsDict}
use apimock_rs.Workspace.{NodeAddress, address_eq, address_eq_iff, IdIndex, lookup, id_for}
use apimock_rs.Workspace.IdShift.{restore_row, restore}

abbrev Rows : Type 0
Rows = List (NodeAddress × ℕ)

module _ (new_address : NodeAddress → Option NodeAddress) where
  pub restore-IsDict :
      (rows : Rows) (ids : IdIndex)
      → IsDict address_eq ids.address_to_id
      → IsDict address_eq (restore new_address rows ids).address_to_id
  unfolding restore
  restore-IsDict [] ids h = h
  restore-IsDict ((a, i) ∷ rows) ids h = restore-IsDict rows _ (row_kept (new_address a))
    where
      row_kept : (o : Option NodeAddress) → IsDict address_eq (restore_row i o ids).address_to_id
      row_kept none = h
      row_kept (some b) = put-IsDict address_eq address_eq_iff b i ids.address_to_id h

  -- The address of an identity after `restore`, from the one before it.
  pub moved : ℕ → Rows → Option NodeAddress → Option NodeAddress
  moved id [] before = before
  moved id ((a, i) ∷ rows) before =
      moved id rows (if i == id then or_else (new_address a) before else before)

  pub restore-lookup :
      (id : ℕ) (rows : Rows) (ids : IdIndex)
      → lookup id (restore new_address rows ids) ≡ moved id rows (lookup id ids)
  unfolding restore moved
  restore-lookup id [] ids = refl
  restore-lookup id ((a, i) ∷ rows) ids =
      restore-lookup id rows _ ∙ ap (moved id rows) (one (new_address a))
    where
      one :
          (o : Option NodeAddress)
          → lookup id (restore_row i o ids)
            ≡ (if i == id then or_else o (lookup id ids) else lookup id ids)
      one none = ground arith
      one (some b) = lookup_in-put ◌==◌ ==_iff id i b ids.id_to_address

  -- Whether a row goes to the address.
  abbrev pub goes_to : NodeAddress → NodeAddress → Bool
  goes_to b a = is_some_and (λ c. address_eq c b) (new_address a)

  pub goes_to_iff : (b a : NodeAddress) → (goes_to b a ≡ true) ↔ (new_address a ≡ some b)
  goes_to_iff b a = (hits (new_address a), λ e. rw e ((address_eq_iff b b).1 refl))
    where
      hits : (o : Option NodeAddress) → is_some_and (λ c. address_eq c b) o ≡ true → o ≡ some b
      hits none e = cc
      hits (some c) e = ap (λ x. some x) ((address_eq_iff c b).0 e)

  -- The identity of an address after `restore`.
  pub placed : NodeAddress → Rows → Option ℕ → Option ℕ
  placed b [] before = before
  placed b ((a, i) ∷ rows) before =
      placed b rows (if is_some_and (λ c. address_eq c b) (new_address a) then some i else before)

  pub restore-id_for :
      (b : NodeAddress) (rows : Rows) (ids : IdIndex)
      → id_for b (restore new_address rows ids) ≡ placed b rows (id_for b ids)
  unfolding restore placed
  restore-id_for b [] ids = refl
  restore-id_for b ((a, i) ∷ rows) ids =
      restore-id_for b rows _ ∙ ap (placed b rows) (one (new_address a))
    where
      one :
          (o : Option NodeAddress)
          → id_for b (restore_row i o ids)
            ≡ (if is_some_and (λ c. address_eq c b) o then some i else id_for b ids)
      one none = refl
      one (some c) = lookup_in-put address_eq address_eq_iff b c i ids.address_to_id

  pub moved_skip :
      (id : ℕ) (rows : Rows) (before : Option NodeAddress)
      → ((a : NodeAddress) → In (a, id) rows → ⊥)
      → moved id rows before ≡ before
  unfolding moved
  moved_skip id [] before h = refl
  moved_skip id ((a, i) ∷ rows) before h = elim (Bool-cases (i == id)) [
    | inl e ↦ absurd (h a (here (ap (λ j. (a, j)) ((==_iff i id).0 e))))
    | inr e ↦ rw e (moved_skip id rows before (λ b m. h b (there m)))
  ]

  moved_same :
      (a : NodeAddress) (id : ℕ) (rows : Rows)
      → ((b : NodeAddress) → In (b, id) rows → b ≡ a)
      → moved id rows (new_address a) ≡ new_address a
  unfolding moved
  moved_same a id [] h = refl
  moved_same a id ((b, i) ∷ rows) h = elim (Bool-cases (i == id)) [
    | inl e ↦
        let same : b ≡ a = h b (here (ap (λ j. (b, j)) ((==_iff i id).0 e))) in
        rw (e, same, idem (new_address a)) (moved_same a id rows (λ c m. h c (there m)))
    | inr e ↦ rw e (moved_same a id rows (λ c m. h c (there m)))
  ]
    where
      idem : (o : Option NodeAddress) → or_else o o ≡ o
      idem none = refl
      idem (some c) = refl

  pub moved-In :
      (a : NodeAddress) (id : ℕ) (rows : Rows)
      → In (a, id) rows
      → ((b : NodeAddress) → In (b, id) rows → b ≡ a)
      → moved id rows none ≡ new_address a
  unfolding moved
  moved-In a id [] m h = elim m [ ]
  moved-In a id ((b, i) ∷ rows) m h = elim (Bool-cases (i == id)) [
    | inl e ↦
        let same : b ≡ a = h b (here (ap (λ j. (b, j)) ((==_iff i id).0 e))) in
        rw (e, same, or_none (new_address a)) (moved_same a id rows (λ c n. h c (there n)))
    | inr e ↦
        rw e (moved-In a id rows (later e (In-cons (a, id) (b, i) rows m)) (λ c n. h c (there n)))
  ]
    where
      or_none : (o : Option NodeAddress) → or_else o none ≡ o
      or_none none = refl
      or_none (some c) = refl

      later :
          (i == id) ≡ false
          → ◌≡◌ {A = NodeAddress × ℕ} (b, i) (a, id) ⊎ In (a, id) rows
          → In (a, id) rows
      later e (inl f) = absurd (true-ne-false (sym ((==_iff i id).1 (ap (λ r. r.1) f)) ∙ e))
        where
          true-ne-false : true ≡ false → ⊥
          true-ne-false p = cc
      later e (inr n) = n

  pub placed_skip :
      (b : NodeAddress) (rows : Rows) (before : Option ℕ)
      → ((a : NodeAddress) (i : ℕ) → In (a, i) rows → new_address a ≢ some b)
      → placed b rows before ≡ before
  unfolding placed
  placed_skip b [] before h = refl
  placed_skip b ((a, i) ∷ rows) before h = elim (Bool-cases (goes_to b a)) [
    | inl e ↦ absurd (h a i (here refl) ((goes_to_iff b a).0 e))
    | inr e ↦ rw e (placed_skip b rows before (λ c j m. h c j (there m)))
  ]

  placed_same :
      (b : NodeAddress) (id : ℕ) (rows : Rows)
      → ((a : NodeAddress) (i : ℕ) → In (a, i) rows → new_address a ≡ some b → i ≡ id)
      → placed b rows (some id) ≡ some id
  unfolding placed
  placed_same b id [] h = refl
  placed_same b id ((a, i) ∷ rows) h = elim (Bool-cases (goes_to b a)) [
    | inl e ↦
        let same : i ≡ id = h a i (here refl) ((goes_to_iff b a).0 e) in
        rw (e, same) (placed_same b id rows (λ c j m. h c j (there m)))
    | inr e ↦ rw e (placed_same b id rows (λ c j m. h c j (there m)))
  ]

  pub placed-In :
      (b a : NodeAddress) (id : ℕ) (rows : Rows) (before : Option ℕ)
      → In (a, id) rows
      → new_address a ≡ some b
      → ((c : NodeAddress) (i : ℕ) → In (c, i) rows → new_address c ≡ some b → i ≡ id)
      → placed b rows before ≡ some id
  unfolding placed
  placed-In b a id [] before m t h = elim m [ ]
  placed-In b a id ((c, i) ∷ rows) before m t h = elim (Bool-cases (goes_to b c)) [
    | inl e ↦
        let same : i ≡ id = h c i (here refl) ((goes_to_iff b c).0 e) in
        rw (e, same) (placed_same b id rows (λ d j n. h d j (there n)))
    | inr e ↦ rw e (
        placed-In b a id rows before (later e (In-cons (a, id) (c, i) rows m)) t
          (λ d j n. h d j (there n)))
  ]
    where
      later :
          goes_to b c ≡ false
          → ◌≡◌ {A = NodeAddress × ℕ} (c, i) (a, id) ⊎ In (a, id) rows
          → In (a, id) rows
      later e (inl f) = cc (e, (goes_to_iff b c).1 (ap (λ r. new_address r.0) f ∙ t))
      later e (inr n) = n

  pub placed_from :
      (b : NodeAddress) (id : ℕ) (rows : Rows) (before : Option ℕ)
      → placed b rows before ≡ some id
      → ((a : NodeAddress) × In (a, id) rows × (new_address a ≡ some b)) ⊎ (before ≡ some id)
  unfolding placed
  placed_from b id [] before h = inr h
  placed_from b id ((a, i) ∷ rows) before h = elim (Bool-cases (goes_to b a)) [
    | inl e ↦ elim (placed_from b id rows (some i) (rw e at h)) [
      | inl (c, m, t) ↦ inl (c, there m, t)
      | inr f ↦ inl (a, here (ap (λ j. (a, j)) (some-inj f)), (goes_to_iff b a).0 e)
    ]
    | inr e ↦ elim (placed_from b id rows before (rw e at h)) [
      | inl (c, m, t) ↦ inl (c, there m, t)
      | inr f ↦ inr f
    ]
  ]
    where
      some-inj : some i ≡ some id → i ≡ id
      some-inj p = cc
