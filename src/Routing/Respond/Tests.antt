-- ===== src/Routing/Respond/Tests.antt =====
-- Runs of the validation of respond blocks.
use apimock_rs.Prelude.{ℕ, ◌≡◌, refl, ◌↔◌, Option, none, some, if◌then◌else◌}
use apimock_rs.Prelude.Text.{Text, codes, text_eq, ends_with, lower_char}
use apimock_rs.Routing.Rule.{Respond}
use apimock_rs.Routing.Respond.{
  fine, Files, accepted, refused, mutually_exclusive, invalid_file, status_with_file,
  file_path_validate, respond_validate,
}
use apimock_rs.Routing.Respond.Meaning.{IsServable, respond_validate_iff}

runs : Unit {0}
unfolding respond_validate file_path_validate text_eq ends_with lower_char
runs = tt

-- One directory with a file that parses and one that does not.
abbrev files : Files
files = record {
  join_path = λ dir path. path;
  exists = λ p. ends_with p (codes ".JSON");
  extension = λ p. some (codes "JSON");
  read_to_string = λ p. fine p;
  json_error = λ s. if text_eq s (codes "bad.JSON") then some (codes "at 1:1") else none;
}

abbrev block : Option Text → Option Text → Option ℕ → Respond
block file_path text status = record {
  file_path = file_path;
  csv_records_key = none;
  text = text;
  json = none;
  status = status;
  status_code = none;
  headers = none;
  delay_response_milliseconds = none;
}

respond_tests :
    (respond_validate files (block (some (codes "a.JSON")) none none) (codes ".") 0 0 ≡ accepted)
    × (respond_validate files
          (block (some (codes "a.JSON")) (some (codes "x")) none)
          (codes ".")
          0
          0
        ≡ refused (mutually_exclusive 1 1))
    × (respond_validate files (block (some (codes "a.JSON")) none (some 200)) (codes ".") 2 0
        ≡ refused (status_with_file 3 1))
    × (respond_validate files (block (some (codes "bad.JSON")) none none) (codes ".") 0 0
        ≡ refused (invalid_file (codes "bad.JSON") 1 1 (codes "at 1:1")))
unfolding runs
respond_tests = (refl, refl, refl, refl)

respond_validate_iff_example :
    (respond_validate files (block (some (codes "bad.JSON")) none none) (codes ".") 0 0 ≡ accepted)
    ↔ IsServable files (block (some (codes "bad.JSON")) none none) (codes ".")
respond_validate_iff_example =
    respond_validate_iff files (block (some (codes "bad.JSON")) none none) (codes ".") 0 0
