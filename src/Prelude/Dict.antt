-- ===== src/Prelude/Dict.antt =====
-- `HashMap`, as the list of its rows in the order that an iteration takes, with a test of keys.
use mathlib.Core.Path.{◌≡◌, refl, sym, ap, ◌∙◌}
use mathlib.Core.Logic.{◌↔◌, ◌⊎◌, inl, inr}
use mathlib.Core.Bool.{Bool, true, not}
use mathlib.Core.Option.{Option, none, some}
use mathlib.Core.List.{List, [], ◌∷◌}
use native.Mathlib.Omega.{arith}
use apimock_rs.Prelude.Tests.{if◌then◌else◌, Bool-cases}
use apimock_rs.Prelude.Lists.{any, filter}

-- One of the elements of a list.
pub data In {ℓ} {A : Type ℓ} (x : A) : List A → Type ℓ where
  here : {y : A} {ys : List A} → y ≡ x → In x (y ∷ ys)
  there : {y : A} {ys : List A} → In x ys → In x (y ∷ ys)

pub In-nil {ℓ} : {A : Type ℓ} (x : A) → In x [] → ⊥
In-nil x h = elim h [ ]

pub In-cons {ℓ} : {A : Type ℓ} (x y : A) (ys : List A) → In x (y ∷ ys) → (y ≡ x) ⊎ In x ys
In-cons x y ys (here e) = inl e
In-cons x y ys (there h) = inr h

pub filter-In {ℓ} :
    {A : Type ℓ} (p : A → Bool) (x : A) (ys : List A) → In x ys → p x ≡ true → In x (filter p ys)
filter-In p x [] h t = elim h [ ]
filter-In p x (y ∷ ys) (here e) t = rw (ap p e ∙ t) (here e)
filter-In p x (y ∷ ys) (there h) t = elim (Bool-cases (p y)) [
  | inl e ↦ rw e (there (filter-In p x ys h t))
  | inr e ↦ rw e (filter-In p x ys h t)
]

pub filter_sound {ℓ} :
    {A : Type ℓ} (p : A → Bool) (x : A) (ys : List A) → In x (filter p ys) → In x ys × (p x ≡ true)
filter_sound p x [] h = absurd (In-nil x h)
filter_sound p x (y ∷ ys) h = elim (Bool-cases (p y)) [
  | inl e ↦ elim (In-cons x y (filter p ys) (rw e at h)) [
    | inl f ↦ (here f, ap p (sym f) ∙ e)
    | inr g ↦ let (k, t) = filter_sound p x ys g in (there k, t)
  ]
  | inr e ↦ let (k, t) = filter_sound p x ys (rw e at h) in (there k, t)
]

pub any-In {ℓ} :
    {A : Type ℓ} (p : A → Bool) (x : A) (ys : List A) → In x ys → p x ≡ true → any p ys ≡ true
any-In p x [] h t = elim h [ ]
any-In p x (y ∷ ys) (here e) t = rw (ap p e ∙ t) refl
any-In p x (y ∷ ys) (there h) t = rw (any-In p x ys h t) (ground arith)

pub any_sound {ℓ} :
    {A : Type ℓ} (p : A → Bool) (ys : List A) → any p ys ≡ true → (x : A) × In x ys × (p x ≡ true)
any_sound p [] h = cc
any_sound p (y ∷ ys) h = elim (Bool-cases (p y)) [
  | inl e ↦ (y, here refl, e)
  | inr e ↦ let (x, i, t) = any_sound p ys (rw e at h) in (x, there i, t)
]

module _ {ℓ κ} {K : Type ℓ} {V : Type κ} (eq : K → K → Bool) where
  -- `get`, `remove` and `insert`.
  unfoldable pub lookup_in : K → List (K × V) → Option V
  lookup_in k [] = none
  lookup_in k ((j, v) ∷ m) = if eq j k then some v else lookup_in k m

  abbrev pub remove : K → List (K × V) → List (K × V)
  remove k m = filter (λ row. not (eq row.0 k)) m

  abbrev pub put : K → V → List (K × V) → List (K × V)
  put k v m = (k, v) ∷ remove k m

  -- No key stands twice.
  abbrev pub IsDict : List (K × V) → Type κ
  IsDict [] = Unit
  IsDict ((k, v) ∷ m) = (lookup_in k m ≡ none) × IsDict m

  module _ (eq_iff : (j k : K) → (eq j k ≡ true) ↔ (j ≡ k)) where
    pub lookup_in-remove :
        (k j : K) (m : List (K × V))
        → lookup_in k (remove j m) ≡ (if eq j k then none else lookup_in k m)
    unfolding lookup_in
    lookup_in-remove k j [] = ground arith
    lookup_in-remove k j ((i, v) ∷ m) =
        ground (arith, lookup_in-remove k j m, eq_iff i j, eq_iff j k, eq_iff i k)

    pub lookup_in-put :
        (k j : K) (v : V) (m : List (K × V))
        → lookup_in k (put j v m) ≡ (if eq j k then some v else lookup_in k m)
    unfolding lookup_in
    lookup_in-put k j v m = ground (arith, lookup_in-remove k j m)

    pub remove-IsDict : (j : K) (m : List (K × V)) → IsDict m → IsDict (remove j m)
    remove-IsDict j [] h = tt
    remove-IsDict j ((i, v) ∷ m) h = elim (Bool-cases (eq i j)) [
      | inl e ↦ rw e (remove-IsDict j m h.1)
      | inr e ↦ rw e (lookup_in-remove i j m ∙ ground (arith, h.0), remove-IsDict j m h.1)
    ]

    pub put-IsDict : (j : K) (v : V) (m : List (K × V)) → IsDict m → IsDict (put j v m)
    put-IsDict j v m h = (lookup_in-remove j j m ∙ ground (arith, eq_iff j j), remove-IsDict j m h)

    -- A row of the list is what its key is looked up to, and conversely.
    pub In-lookup_in :
        (k : K) (v : V) (m : List (K × V)) → IsDict m → In (k, v) m → lookup_in k m ≡ some v
    unfolding lookup_in
    In-lookup_in k v [] h i = elim i [ ]
    In-lookup_in k v ((j, w) ∷ m) h (here e) =
        rw ((eq_iff j k).1 (ap (λ r. r.0) e)) (ap (λ r. some r.1) e)
    In-lookup_in k v ((j, w) ∷ m) h (there i) =
        let found = In-lookup_in k v m h.1 i in
        elim (Bool-cases (eq j k)) [
          | inl e ↦
              absurd (none-ne-some (sym h.0 ∙ ap (λ c. lookup_in c m) ((eq_iff j k).0 e) ∙ found))
          | inr e ↦ rw e found
        ]
      where
        none-ne-some : none ≡ some v → ⊥
        none-ne-some p = cc

    pub lookup_in-In : (k : K) (v : V) (m : List (K × V)) → lookup_in k m ≡ some v → In (k, v) m
    unfolding lookup_in
    lookup_in-In k v [] h = cc
    lookup_in-In k v ((j, w) ∷ m) h = elim (Bool-cases (eq j k)) [
      | inl e ↦ let same : w ≡ v = some-inj (rw e at h) in here (cc (same, (eq_iff j k).0 e))
      | inr e ↦ there (lookup_in-In k v m (rw e at h))
    ]
      where
        some-inj : some w ≡ some v → w ≡ v
        some-inj p = cc
