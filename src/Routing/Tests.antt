-- ===== src/Routing/Tests.antt =====
-- Runs of the glob matcher and of the URL path functions.
use apimock_rs.Prelude.{◌≡◌, refl, ◌↔◌, true, false, arith, some, none, [], ◌∷◌, All}
use apimock_rs.Prelude.Text.{codes, split, join, strip_prefix, strip_suffix, starts_with, text_eq}
use apimock_rs.Routing.Libraries.Sample.{sample}
use apimock_rs.Routing.RuleOp.{simple, url_path_is_match}
use apimock_rs.Routing.RuleOp.Spelling.{url_path_is_match-spelled}
use apimock_rs.Routing.Rule.{derived_url_path}
use apimock_rs.Routing.Glob.{glob_match}
use apimock_rs.Routing.Glob.Meaning.{Matches, glob_match_iff}
use apimock_rs.Routing.UrlPath.{
  trimmed_prefix, trim_slashes, rebuild, normalize_url_path, url_path_matches_prefix,
}
use apimock_rs.Routing.UrlPath.Segments.{Extends, matches_prefix_iff}
use apimock_rs.Routing.UrlPath.Canonical.{IsNotUp, normalize-IsNotUp, normalize_canonical}

runs : Unit {0}
unfolding normalize_url_path trimmed_prefix trim_slashes rebuild split join strip_prefix
    strip_suffix starts_with text_eq url_path_matches_prefix
runs = tt

path_tests :
    (normalize_url_path (codes "../a/../b/") (some (codes "/api")) ≡ codes "/api/a/b")
    × (normalize_url_path (codes "/") none ≡ codes "/")
    × (normalize_url_path (codes "/a//") none ≡ codes "/a/")
    × (url_path_matches_prefix (codes "/apis") (codes "/api") ≡ false)
unfolding runs
path_tests = (refl, refl, refl, refl)

glob_match_iff_example :
    (glob_match (codes "/a/*/?") (codes "/a/b/c/d") ≡ true)
    ↔ Matches (codes "/a/*/?") (codes "/a/b/c/d")
glob_match_iff_example = glob_match_iff (codes "/a/*/?") (codes "/a/b/c/d")

matches_prefix_iff_example :
    (url_path_matches_prefix (codes "/api/x") (codes "/api") ≡ true)
    ↔ Extends (codes "/api/x") (codes "/api")
matches_prefix_iff_example = matches_prefix_iff (codes "/api/x") (codes "/api") (λ e. cc e)

normalize-IsNotUp_example :
    All IsNotUp (split b'/' (normalize_url_path (codes "/../a/../b") (some (codes "/api"))))
normalize-IsNotUp_example = normalize-IsNotUp (codes "/../a/../b") (some (codes "/api"))

normalize_canonical_example :
    normalize_url_path (codes "a/b/") (some (codes "/api")) ≡ codes "/api/a/b"
unfolding runs
normalize_canonical_example =
    normalize_canonical false true (codes "api" ∷ []) (codes "a") (codes "b" ∷ []) (ground arith)
      (ground arith)

url_path_is_match-spelled_example :
    url_path_is_match sample
      (derived_url_path
        (some (record { url_path_prefix = some (codes "/api"); respond_dir_prefix = none }))
        (simple (codes "a/b")))
      (normalize_url_path (codes "/api/a/b/") none)
    ≡ true
unfolding runs
url_path_is_match-spelled_example =
    url_path_is_match-spelled sample none false false true true (codes "api" ∷ []) (codes "a")
      (codes "b" ∷ []) (ground arith) (ground arith)
