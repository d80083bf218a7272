-- ===== src/Routing/Respond/Meaning.antt =====
-- The respond blocks that validation accepts.
use mathlib.Core.Path.{subst}
use apimock_rs.Prelude.{
  ℕ, ◌≡◌, refl, sym, ap, ◌∙◌, ◌↔◌, ◌⊎◌, inl, inr, true, Option, none, some, is_some_and, arith,
  Option-cases, none-ne-some, some-inj,
}
use apimock_rs.Prelude.Text.{Text}
use apimock_rs.Routing.Rule.{Respond}
use apimock_rs.Routing.Respond.{
  Outcome, fine, failed, Files, accepted, is_json_extension, file_path_validate, check_content,
  respond_validate,
}

module _ (files : Files) where
  open files use {join_path, exists, extension, read_to_string, json_error}

  -- The file is there, and if it is named as JSON it can be read and parses.
  abbrev pub IsUsableFile : Text → Type 0
  IsUsableFile p =
      (exists p ≡ true)
      × (is_some_and is_json_extension (extension p) ≡ true
          → (content : Text) × (read_to_string p ≡ fine content) × (json_error content ≡ none))

  -- One body at most: a file, without a status; a text; a JSON text that parses; or a status alone.
  abbrev pub IsServable : Respond → Text → Type 0
  IsServable r dir_prefix =
      ((path : Text) × (r.file_path ≡ some path)
        × (r.text ≡ none)
        × (r.json ≡ none)
        × (r.status ≡ none)
        × IsUsableFile (join_path dir_prefix path))
      ⊎ (((text : Text) × (r.text ≡ some text) × (r.file_path ≡ none) × (r.json ≡ none))
          ⊎ (((json : Text) × (r.json ≡ some json)
                × (r.file_path ≡ none)
                × (r.text ≡ none)
                × (json_error json ≡ none))
              ⊎ ((status : ℕ) × (r.status ≡ some status)
                  × (r.file_path ≡ none)
                  × (r.text ≡ none)
                  × (r.json ≡ none))))

  content_iff :
      (p : Text) (rule_idx rule_set_idx : ℕ) (o : Outcome)
      → (check_content files p rule_idx rule_set_idx o ≡ accepted)
        ↔ ((content : Text) × (o ≡ fine content) × (json_error content ≡ none))
  content_iff p i j (failed e) = ((λ h. cc h), (λ (content, h, k). cc h))
  content_iff p i j (fine content) = elim (Option-cases (json_error content)) [
    | inl e ↦ rw (check_content, e) ((λ h. (content, refl, e)), (λ h. refl))
    | inr (reason, e) ↦
        rw (check_content, e)
          (
            (λ h. cc h),
            (λ (other, f, k).
                absurd
                  (none-ne-some reason (sym k ∙ ap json_error (fine-inj other content f) ∙ e))),
          )
  ]
    where
      fine-inj : (a b : Text) → fine b ≡ fine a → a ≡ b
      fine-inj a b p = cc

  file_path_validate_iff :
      (path dir_prefix : Text) (rule_idx rule_set_idx : ℕ)
      → (file_path_validate files path dir_prefix rule_idx rule_set_idx ≡ accepted)
        ↔ IsUsableFile (join_path dir_prefix path)
  unfolding file_path_validate
  file_path_validate_iff path dir_prefix i j = ground (
    arith,
    content_iff (join_path dir_prefix path) i j (read_to_string (join_path dir_prefix path)),
  )

  -- `Respond::validate` accepts a block exactly when it gives a file alone, without a text, a JSON text or
  -- a status, that exists and, if its extension is `json` or `json5` in any case, can be read and parses;
  -- or a text alone, a JSON text alone that parses, each with or without a status; or a status alone. The number
  -- of the status is not looked at, so one that is no HTTP status code, like 9999, is accepted too.
  pub respond_validate_iff :
      (r : Respond) (dir_prefix : Text) (rule_idx rule_set_idx : ℕ)
      → (respond_validate files r dir_prefix rule_idx rule_set_idx ≡ accepted)
        ↔ IsServable r dir_prefix
  unfolding respond_validate
  respond_validate_iff r dir_prefix i j = by_fields r.file_path r.text r.json r.status
    where
      by_fields :
          (f t js : Option Text) (s : Option ℕ)
          → (respond_validate files
                (record r { file_path = f; text = t; json = js; status = s })
                dir_prefix
                i
                j
              ≡ accepted)
            ↔ IsServable (record r { file_path = f; text = t; json = js; status = s }) dir_prefix
      by_fields none none none none = ground arith
      by_fields none none none (some s) = ground arith
      by_fields none none (some js) none = ground arith
      by_fields none none (some js) (some s) = ground arith
      by_fields none (some t) none s = ground arith
      by_fields none (some t) (some js) s = ground arith
      by_fields (some f) none none none =
          let (to, from) = file_path_validate_iff f dir_prefix i j in
          (
            (λ h. inl (f, refl, refl, refl, refl, to h)),
            (λ h. elim h [
              | inl (path, e, t, j, st, u) ↦
                  from
                    (subst (λ q. IsUsableFile (join_path dir_prefix q)) (some-inj path f (sym e)) u)
              | inr (inl (text, e, t, j)) ↦ absurd (none-ne-some text e)
              | inr (inr (inl (json, e, t, j, u))) ↦ absurd (none-ne-some json e)
              | inr (inr (inr (status, e, t, j, u))) ↦ absurd (none-ne-some status e)
            ]),
          )
      by_fields (some f) none none (some s) = ground arith
      by_fields (some f) none (some js) s = ground arith
      by_fields (some f) (some t) none s = ground arith
      by_fields (some f) (some t) (some js) s = ground arith
