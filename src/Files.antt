-- ===== src/Files.antt =====
-- crates/apimock-server/src/json_path_util.rs and response/confine.rs: the file that answers for a
-- path. The file system is the record FileSystem, on paths that are UTF-8.
pub mod Found
mod Tests
use apimock_rs.Prelude.{Bool, true, false, Option, none, some, List, [], ◌∷◌, ◌++◌, if◌then◌else◌}
use apimock_rs.Prelude.Text.{Text, codes}

pub record FileSystem : Type 0 where
  -- `Path::is_file`, `Path::is_dir`, `Path::join`, and `canonicalize` where it succeeds
  pub is_file : Text → Bool
  pub is_dir : Text → Bool
  pub path_join : Text → Text → Text
  pub canonicalize : Text → Option Text
  -- `Path::starts_with`, by components: the path, then the base
  pub path_starts_with : Text → Text → Bool

-- `JSON_COMPATIBLE_EXTENSIONS`.
abbrev pub json_compatible_extensions : List Text
json_compatible_extensions = codes "json" ∷ codes "json5" ∷ codes "csv" ∷ []

module _ (fs : FileSystem) where
  -- The first loop: the path with each extension.
  unfoldable pub with_extension : Text → List Text → Option Text
  with_extension path [] = none
  with_extension path (ext ∷ exts) =
      let rest = with_extension path exts in
      let with_ext = path ++ (b'.' ∷ ext) in if fs.is_file with_ext then some with_ext else rest

  -- The second loop and the last test: the first index file that is there, by its canonical path.
  -- The search ends at it, also where `canonicalize` fails.
  unfoldable pub index_file : Text → List Text → Option Text
  index_file path [] =
      let p = fs.path_join path (codes "index.html") in
      if fs.is_file p then fs.canonicalize p else none
  index_file path (ext ∷ exts) =
      let rest = index_file path exts in
      let p = fs.path_join path (codes "index." ++ ext) in
      if fs.is_file p then fs.canonicalize p else rest

  unfoldable pub resolve_with_json_compatible_extensions : Text → Option Text
  resolve_with_json_compatible_extensions unknown_path =
      if fs.is_file unknown_path
      then some unknown_path
      else elim (with_extension unknown_path json_compatible_extensions) [
        | some found ↦ some found
        | none ↦ index_file unknown_path json_compatible_extensions
      ]

  abbrev directory_only : Option Text → Option Text
  directory_only none = none
  directory_only (some p) = if fs.is_dir p then some p else none

  unfoldable pub canonical_dir : Text → Option Text
  canonical_dir dir = directory_only (fs.canonicalize dir)

  abbrev inside : Text → Option Text → Option Text
  inside base none = none
  inside base (some candidate) = if fs.path_starts_with candidate base then some candidate else none

  unfoldable pub confine : Text → Option Text → Option Text
  confine candidate none = none
  confine candidate (some base) = inside base (fs.canonicalize candidate)
