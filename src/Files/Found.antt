-- ===== src/Files/Found.antt =====
-- crates/apimock-server/src/json_path_util.rs, response/confine.rs: what a found file is.
use apimock_rs.Prelude.{
  true, false, Option, none, some, ◌⊎◌, inl, inr, ◌++◌, ◌↔◌, arith, Option-cases, Bool-cases,
  none-ne-some, some-inj, All, ap, sym, refl, ◌∙◌, if◌then◌else◌, ◌≡◌, List, [], ◌∷◌,
}
use apimock_rs.Prelude.Text.{Text, codes}
use apimock_rs.Files.{
  FileSystem, with_extension, index_file, resolve_with_json_compatible_extensions, canonical_dir,
  confine,
}

module _ (fs : FileSystem) where
  -- The paths that are tried, in this order; the last four are served by their canonical path.
  abbrev pub tried_plain : Text → List Text
  tried_plain path =
      path ∷ (path ++ codes ".json") ∷ (path ++ codes ".json5") ∷ (path ++ codes ".csv") ∷ []

  abbrev pub tried_index : Text → List Text
  tried_index path =
      fs.path_join path (codes "index.json")
      ∷ fs.path_join path (codes "index.json5")
      ∷ fs.path_join path (codes "index.csv")
      ∷ fs.path_join path (codes "index.html")
      ∷ []

  abbrev pub NoFile : List Text → Type 0
  NoFile = All (λ p. fs.is_file p ≡ false)

  -- The first file of the list, behind paths that are none.
  abbrev pub IsFirst : List Text → Text → Type 0
  IsFirst paths p =
      (before : List Text) × (after : List Text) × (paths ≡ before ++ (p ∷ after))
      × NoFile before
      × (fs.is_file p ≡ true)

  unfoldable first_file : List Text → Option Text
  first_file [] = none
  first_file (p ∷ ps) = let rest = first_file ps in if fs.is_file p then some p else rest

  first_file_sound : (paths : List Text) (p : Text) → first_file paths ≡ some p → IsFirst paths p
  unfolding first_file
  first_file_sound [] p h = absurd (none-ne-some p h)
  first_file_sound (q ∷ qs) p h = elim (Bool-cases (fs.is_file q)) [
    | inl e ↦
        let same : q ≡ p = some-inj q p (rw e at h) in
        ([], qs, ap (λ x. x ∷ qs) same, tt, ap fs.is_file (sym same) ∙ e)
    | inr e ↦
        let (before, after, split, none_before, file) = first_file_sound qs p (rw e at h) in
        (q ∷ before, after, ap (λ xs. q ∷ xs) split, (e, none_before), file)
  ]

  first_file_complete :
      (paths before after : List Text) (p : Text)
      → paths ≡ before ++ (p ∷ after)
      → NoFile before
      → fs.is_file p ≡ true
      → first_file paths ≡ some p
  unfolding first_file
  first_file_complete paths [] after p e h f = rw (e, f) refl
  first_file_complete paths (q ∷ qs) after p e h f =
      rw (e, h.0) (first_file_complete (qs ++ (p ∷ after)) qs after p refl h.1 f)

  first_file-NoFile : (paths : List Text) → (first_file paths ≡ none) ↔ NoFile paths
  unfolding first_file
  first_file-NoFile [] = ((λ h. tt), (λ h. refl))
  first_file-NoFile (p ∷ ps) = ground (arith, first_file-NoFile ps)

  resolve_as_first :
      (path : Text)
      → resolve_with_json_compatible_extensions fs path ≡ elim (first_file (tried_plain path)) [
        | some p ↦ some p
        | none ↦ elim (first_file (tried_index path)) [ none ↦ none | some p ↦ fs.canonicalize p ]
      ]
  unfolding resolve_with_json_compatible_extensions with_extension index_file first_file
  resolve_as_first path = ground arith

  -- The resolution of a path gives `found` exactly when that is the first file among the path itself
  -- and the path with the extensions json, json5 and csv, in this order; or when none of these is a
  -- file and the first file among index.json, index.json5, index.csv and index.html in the directory
  -- of that name, in this order, has `found` as its canonical path.
  pub resolve_iff :
      (path found : Text)
      → (resolve_with_json_compatible_extensions fs path ≡ some found) ↔ (
          IsFirst (tried_plain path) found
          ⊎ (NoFile (tried_plain path)
              × (p : Text) × IsFirst (tried_index path) p
              × (fs.canonicalize p ≡ some found)))
  resolve_iff path found =
      rw (resolve_as_first path)
        (by_first (first_file (tried_plain path)) refl (first_file (tried_index path)) refl)
    where
      file_of : (paths : List Text) (p : Text) → IsFirst paths p → first_file paths ≡ some p
      file_of paths p (before, after, e, h, f) = first_file_complete paths before after p e h f

      by_first :
          (o : Option Text)
          → first_file (tried_plain path) ≡ o
          → (o' : Option Text) → first_file (tried_index path) ≡ o'
          → ((elim o as (λ _. Option Text) [
            | some p ↦ some p
            | none ↦ elim o' as (λ _. Option Text) [ none ↦ none | some p ↦ fs.canonicalize p ]
          ])
              ≡ some found)
            ↔ (IsFirst (tried_plain path) found
                ⊎ (NoFile (tried_plain path)
                    × (p : Text) × IsFirst (tried_index path) p
                    × (fs.canonicalize p ≡ some found)))
      by_first (some q) e o' f = (
        λ h. inl (first_file_sound (tried_plain path) found (e ∙ h)),
        λ h. elim h [
          | inl first ↦ sym e ∙ file_of (tried_plain path) found first
          | inr (empty, p, first, c) ↦
              absurd (none-ne-some q (sym ((first_file-NoFile (tried_plain path)).1 empty) ∙ e))
        ],
      )
      by_first none e none f = (
        λ h. absurd (none-ne-some found h),
        λ h. elim h [
          | inl first ↦ absurd (none-ne-some found (sym e ∙ file_of (tried_plain path) found first))
          | inr (empty, p, first, c) ↦
              absurd (none-ne-some p (sym f ∙ file_of (tried_index path) p first))
        ],
      )
      by_first none e (some q) f = (
        λ h. inr (
          (first_file-NoFile (tried_plain path)).0 e,
          q,
          first_file_sound (tried_index path) q f,
          h,
        ),
        λ h. elim h [
          | inl first ↦ absurd (none-ne-some found (sym e ∙ file_of (tried_plain path) found first))
          | inr (empty, p, first, c) ↦
              ap fs.canonicalize (some-inj q p (sym f ∙ file_of (tried_index path) p first)) ∙ c
        ],
      )

  -- A path is let through exactly as the canonical form of the candidate, where that lies inside the
  -- canonical form of the directory, and that is a directory.
  pub confine-canonical_dir_iff :
      (candidate dir found : Text)
      → (confine fs candidate (canonical_dir fs dir) ≡ some found) ↔ (
          (fs.canonicalize candidate ≡ some found)
          × (base : Text) × (fs.canonicalize dir ≡ some base)
          × (fs.is_dir base ≡ true)
          × (fs.path_starts_with found base ≡ true))
  unfolding confine canonical_dir
  confine-canonical_dir_iff candidate dir found = (
    λ h. elim (Option-cases (fs.canonicalize dir)) [
      | inl n ↦ ground arith
      | inr (base, d) ↦ elim (Option-cases (fs.canonicalize candidate)) [
        | inl n ↦ ground arith
        | inr (c, e) ↦ (ground arith, base, d, ground arith, ground arith)
      ]
    ],
    λ h. ground arith,
  )
