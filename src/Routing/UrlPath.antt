-- ===== src/Routing/UrlPath.antt =====
-- crates/apimock-routing/src/util/http.rs and the prefix test of
-- crates/apimock-routing/src/rule_set.rs: the canonical form of URL paths.
pub mod Canonical
pub mod Segments
use apimock_rs.Prelude.{
  Bool, true, false, not, ◌||◌, Option, none, some, List, [], ◌∷◌, ◌++◌, if◌then◌else◌, unwrap_or,
  filter,
}
use apimock_rs.Prelude.Text.{
  Text, codes, text_eq, strip_prefix, strip_suffix, starts_with, split, join,
}

-- The prefix without its trailing slash; an empty one and a missing one are the same.
unfoldable pub trimmed_prefix : Option Text → Text
trimmed_prefix none = []
trimmed_prefix (some []) = []
trimmed_prefix (some (c ∷ p)) = unwrap_or (strip_suffix (codes "/") (c ∷ p)) (c ∷ p)

-- One trailing slash is taken off, then one leading slash.
unfoldable pub trim_slashes : Text → Text
trim_slashes merged =
    let trimmed = unwrap_or (strip_suffix (codes "/") merged) merged in
    unwrap_or (strip_prefix (codes "/") trimmed) trimmed

abbrev pub is_kept : Text → Bool
is_kept seg = not (text_eq seg (codes ".."))

-- `segments`: the parts that are not `..`, joined behind a leading slash.
unfoldable pub rebuild : Text → Text
rebuild trimmed = b'/' ∷ join b'/' (filter is_kept (split b'/' trimmed))

unfoldable pub normalize_url_path : Text → Option Text → Text
normalize_url_path url_path url_path_prefix =
    let path = unwrap_or (strip_prefix (codes "/") url_path) url_path in
    rebuild (trim_slashes (trimmed_prefix url_path_prefix ++ (b'/' ∷ path)))

-- `url_path_matches_prefix`.
unfoldable pub url_path_matches_prefix : Text → Text → Bool
url_path_matches_prefix url_path prefix =
    if text_eq prefix (codes "/")
    then true
    else text_eq url_path prefix || starts_with url_path (prefix ++ codes "/")
