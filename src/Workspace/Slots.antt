-- ===== src/Workspace/Slots.antt =====
-- `Vec` by its positions: `slice[i] = x`, `Vec::remove` and `Vec::insert`, which the callers of the
-- editing commands reach with an index in range.
use apimock_rs.Prelude.{
  ℕ, zero, suc, ◌-◌, ◌≡◌, refl, sym, ap, ◌∙◌, inl, inr, Option, none, some, List, [], ◌∷◌, ◌<◌, ◌≤◌,
  arith, ◌==◌, leb, ltb, if◌then◌else◌, length, get_elem?, get_elem?_of_lt, Bool-cases,
  none-ne-some,
}

-- The element at a position of the moved list stood here before.
abbrev pub moved_from : ℕ → ℕ → ℕ → ℕ
moved_from old new j =
    if new == j
    then old
    else let k = if ltb new j then j - 1 else j in if leb old k then suc k else k

module _ {ℓ} {A : Type ℓ} where
  unfoldable pub set_at : ℕ → A → List A → List A
  set_at i x [] = []
  set_at zero x (y ∷ ys) = x ∷ ys
  set_at (suc i) x (y ∷ ys) = y ∷ set_at i x ys

  unfoldable pub remove_at : ℕ → List A → List A
  remove_at i [] = []
  remove_at zero (y ∷ ys) = ys
  remove_at (suc i) (y ∷ ys) = y ∷ remove_at i ys

  unfoldable pub insert_at : ℕ → A → List A → List A
  insert_at zero x ys = x ∷ ys
  insert_at (suc i) x [] = x ∷ []
  insert_at (suc i) x (y ∷ ys) = y ∷ insert_at i x ys

  -- `let x = v.remove(old); v.insert(new, x)`.
  unfoldable pub move_entry : ℕ → ℕ → List A → List A
  move_entry old new xs = elim (get_elem? xs old) [
    | none ↦ xs
    | some x ↦ insert_at new x (remove_at old xs)
  ]

  pub get_elem?-set_at :
      (xs : List A) (i j : ℕ) (x : A)
      → i < length xs
      → get_elem? (set_at i x xs) j ≡ (if i == j then some x else get_elem? xs j)
  unfolding set_at
  get_elem?-set_at [] i j x h = elim h [ ]
  get_elem?-set_at (y ∷ ys) zero zero x h = refl
  get_elem?-set_at (y ∷ ys) zero (suc j) x h = ground arith
  get_elem?-set_at (y ∷ ys) (suc i) zero x h = ground arith
  get_elem?-set_at (y ∷ ys) (suc i) (suc j) x h =
      get_elem?-set_at ys i j x (omega arith) ∙ ground arith

  pub length-set_at : (xs : List A) (i : ℕ) (x : A) → length (set_at i x xs) ≡ length xs
  unfolding set_at
  length-set_at [] i x = refl
  length-set_at (y ∷ ys) zero x = refl
  length-set_at (y ∷ ys) (suc i) x = ap suc (length-set_at ys i x)

  pub get_elem?-remove_at :
      (xs : List A) (i j : ℕ)
      → get_elem? (remove_at i xs) j ≡ get_elem? xs (if leb i j then suc j else j)
  unfolding remove_at
  get_elem?-remove_at [] i j = refl
  get_elem?-remove_at (y ∷ ys) zero j = ground arith
  get_elem?-remove_at (y ∷ ys) (suc i) zero = ground arith
  get_elem?-remove_at (y ∷ ys) (suc i) (suc j) = get_elem?-remove_at ys i j ∙ ground arith

  pub length-remove_at :
      (xs : List A) (i : ℕ) → i < length xs → suc (length (remove_at i xs)) ≡ length xs
  unfolding remove_at
  length-remove_at [] i h = elim h [ ]
  length-remove_at (y ∷ ys) zero h = refl
  length-remove_at (y ∷ ys) (suc i) h = ap suc (length-remove_at ys i (omega arith))

  pub get_elem?-insert_at :
      (xs : List A) (i j : ℕ) (x : A)
      → i ≤ length xs
      → get_elem? (insert_at i x xs) j
        ≡ (if i == j then some x else get_elem? xs (if ltb i j then j - 1 else j))
  unfolding insert_at
  get_elem?-insert_at xs zero zero x h = refl
  get_elem?-insert_at xs zero (suc j) x h = ground arith
  get_elem?-insert_at [] (suc i) j x h = elim h [ ]
  get_elem?-insert_at (y ∷ ys) (suc i) zero x h = ground arith
  get_elem?-insert_at (y ∷ ys) (suc i) (suc zero) x h =
      get_elem?-insert_at ys i zero x (omega arith) ∙ ground arith
  get_elem?-insert_at (y ∷ ys) (suc i) (suc (suc j)) x h =
      get_elem?-insert_at ys i (suc j) x (omega arith) ∙ ground arith

  pub length-insert_at : (xs : List A) (i : ℕ) (x : A) → length (insert_at i x xs) ≡ suc (length xs)
  unfolding insert_at
  length-insert_at xs zero x = refl
  length-insert_at [] (suc i) x = refl
  length-insert_at (y ∷ ys) (suc i) x = ap suc (length-insert_at ys i x)

  pub get_elem?-move_entry :
      (xs : List A) (old new j : ℕ)
      → old < length xs
      → new < length xs
      → get_elem? (move_entry old new xs) j ≡ get_elem? xs (moved_from old new j)
  unfolding move_entry
  get_elem?-move_entry xs old new j h k = by_entry (get_elem? xs old) refl
    where
      by_entry :
          (o : Option A)
          → get_elem? xs old ≡ o
          → get_elem? (elim o [ none ↦ xs | some x ↦ insert_at new x (remove_at old xs) ]) j
            ≡ get_elem? xs (moved_from old new j)
      by_entry none e = let (x, f) = get_elem?_of_lt xs old h in absurd (none-ne-some x (sym e ∙ f))
      by_entry (some x) e =
          get_elem?-insert_at (remove_at old xs) new j x (omega (arith, length-remove_at xs old h))
          ∙ elim (Bool-cases (new == j)) [
            | inl f ↦ rw f (sym e)
            | inr f ↦ rw f (get_elem?-remove_at xs old (if ltb new j then j - 1 else j))
          ]

  pub length-move_entry :
      (xs : List A) (old new : ℕ) → old < length xs → length (move_entry old new xs) ≡ length xs
  unfolding move_entry
  length-move_entry xs old new h = by_entry (get_elem? xs old)
    where
      by_entry :
          (o : Option A)
          → length
              (elim o as (λ _. List A) [ none ↦ xs | some x ↦ insert_at new x (remove_at old xs) ])
            ≡ length xs
      by_entry none = refl
      by_entry (some x) = length-insert_at (remove_at old xs) new x ∙ length-remove_at xs old h
