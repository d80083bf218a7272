-- ===== src/Routing/Respond.antt =====
-- crates/apimock-routing/src/rule_set/rule/respond.rs: the validation of a respond block. A message
-- is a constructor with the numbers it names; the file system and the JSON5 parser are parameters.
mod Tests
pub mod Meaning
use apimock_rs.Prelude.{
  ℕ, suc, Bool, true, false, not, ◌&&◌, ◌||◌, Option, none, some, List, [], ◌∷◌, if◌then◌else◌,
  is_some, is_some_and, ltb, length, filter, map,
}
use apimock_rs.Prelude.Text.{Text, codes, text_eq, lower_char}
use apimock_rs.Routing.Rule.{Respond}

-- What a library call gives: nothing, or a value, or an error's text.
pub data Outcome : Type 0 where
  fine : Text → Outcome
  failed : Text → Outcome

-- `Path::join`, `exists`, `extension` as UTF-8, `fs::read_to_string`, and `json5::from_str` by its error.
pub record Files : Type 0 where
  pub join_path : Text → Text → Text
  pub exists : Text → Bool
  pub extension : Text → Option Text
  pub read_to_string : Text → Outcome
  pub json_error : Text → Option Text

-- The reasons of a refusal, each with the rule and the rule set, counted from 1.
pub data Refusal : Type 0 where
  all_missing mutually_exclusive status_with_file : ℕ → ℕ → Refusal
  invalid_json : ℕ → ℕ → Text → Refusal
  not_found : ℕ → ℕ → Text → Refusal
  unreadable invalid_file : Text → ℕ → ℕ → Text → Refusal

pub data Verdict : Type 0 where
  accepted : Verdict
  refused : Refusal → Verdict

abbrev pub is_json_extension : Text → Bool
is_json_extension e =
    let lower = map lower_char e in text_eq lower (codes "json") || text_eq lower (codes "json5")

-- `[…].into_iter().filter(|&set| set).count()`.
abbrev pub sources_set : Respond → ℕ
sources_set r =
    length (filter (λ set. set) (is_some r.file_path ∷ is_some r.text ∷ is_some r.json ∷ []))

module _ (files : Files) where
  open files use {join_path, exists, extension, read_to_string, json_error}

  -- The rest of the check, once the content of a JSON file is read.
  abbrev pub check_content : Text → ℕ → ℕ → Outcome → Verdict
  check_content p rule_idx rule_set_idx (failed e) =
      refused (unreadable p (suc rule_idx) (suc rule_set_idx) e)
  check_content p rule_idx rule_set_idx (fine content) = elim (json_error content) [
    | none ↦ accepted
    | some e ↦ refused (invalid_file p (suc rule_idx) (suc rule_set_idx) e)
  ]

  unfoldable pub file_path_validate : Text → Text → ℕ → ℕ → Verdict
  file_path_validate file_path dir_prefix rule_idx rule_set_idx =
      let p = join_path dir_prefix file_path in
      if not (exists p)
      then refused (not_found (suc rule_idx) (suc rule_set_idx) p)
      else if is_some_and is_json_extension (extension p)
      then check_content p rule_idx rule_set_idx (read_to_string p)
      else accepted

  -- The last check, on the file.
  abbrev pub check_file : Option Text → Text → ℕ → ℕ → Verdict
  check_file none dir_prefix rule_idx rule_set_idx = accepted
  check_file (some file_path) dir_prefix rule_idx rule_set_idx =
      file_path_validate file_path dir_prefix rule_idx rule_set_idx

  abbrev pub json_reason : Option Text → Option Text
  json_reason none = none
  json_reason (some json_str) = json_error json_str

  -- `Respond::validate`.
  unfoldable pub respond_validate : Respond → Text → ℕ → ℕ → Verdict
  respond_validate r dir_prefix rule_idx rule_set_idx =
      if not (is_some r.file_path)
        && not (is_some r.text)
        && not (is_some r.json)
        && not (is_some r.status)
      then refused (all_missing (suc rule_idx) (suc rule_set_idx))
      else if ltb 1 (sources_set r)
      then refused (mutually_exclusive (suc rule_idx) (suc rule_set_idx))
      else if is_some r.file_path && is_some r.status
      then refused (status_with_file (suc rule_idx) (suc rule_set_idx))
      else elim (json_reason r.json) [
        | some e ↦ refused (invalid_json (suc rule_idx) (suc rule_set_idx) e)
        | none ↦ check_file r.file_path dir_prefix rule_idx rule_set_idx
      ]
