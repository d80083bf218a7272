-- ===== src/Files/Tests.antt =====
-- Examples for crates/apimock-server/src/json_path_util.rs and response/confine.rs.
use apimock_rs.Prelude.{◌⊎◌, Bool, true, ◌≡◌, refl, ◌↔◌, none, some, ◌++◌, ◌∷◌, List, [], any}
use apimock_rs.Prelude.Text.{Text, codes, text_eq, starts_with, strip_prefix}
use apimock_rs.Files.{
  FileSystem, with_extension, index_file, resolve_with_json_compatible_extensions, canonical_dir,
  confine,
}
use apimock_rs.Files.Found.{
  IsFirst, NoFile, tried_plain, tried_index, resolve_iff, confine-canonical_dir_iff,
}

abbrev among : List Text → Text → Bool
among names path = any (λ name. text_eq name path) names

-- Two files in a directory.
abbrev disk : FileSystem
disk = record {
  is_file = among (codes "/d/users.json" ∷ codes "/d/index.json5" ∷ []);
  is_dir = among (codes "/d" ∷ []);
  path_join = λ dir name. dir ++ (b'/' ∷ name);
  canonicalize = λ path. some path;
  path_starts_with = starts_with;
}

found_index :
    resolve_with_json_compatible_extensions disk (codes "/d") ≡ some (codes "/d/index.json5")
unfolding resolve_with_json_compatible_extensions with_extension index_file text_eq
found_index = refl

refused_outside : confine disk (codes "/e/x") (canonical_dir disk (codes "/d")) ≡ none
unfolding confine canonical_dir text_eq starts_with strip_prefix
refused_outside = refl

resolve_iff_example :
    (resolve_with_json_compatible_extensions disk (codes "/d") ≡ some (codes "/d/index.json5")) ↔ (
      IsFirst disk (tried_plain disk (codes "/d")) (codes "/d/index.json5")
      ⊎ (NoFile disk (tried_plain disk (codes "/d"))
          × (p : Text) × IsFirst disk (tried_index disk (codes "/d")) p
          × (disk.canonicalize p ≡ some (codes "/d/index.json5"))))
resolve_iff_example = resolve_iff disk (codes "/d") (codes "/d/index.json5")

confine-canonical_dir_iff_example :
    (confine disk (codes "/d/users.json") (canonical_dir disk (codes "/d"))
      ≡ some (codes "/d/users.json"))
    ↔ ((disk.canonicalize (codes "/d/users.json") ≡ some (codes "/d/users.json"))
        × (base : Text) × (disk.canonicalize (codes "/d") ≡ some base)
        × (disk.is_dir base ≡ true)
        × (disk.path_starts_with (codes "/d/users.json") base ≡ true))
confine-canonical_dir_iff_example =
    confine-canonical_dir_iff disk (codes "/d/users.json") (codes "/d") (codes "/d/users.json")
