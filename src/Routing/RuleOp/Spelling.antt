-- ===== src/Routing/RuleOp/Spelling.antt =====
-- A rule's path and a request's path, in any spelling.
use apimock_rs.Prelude.{
  ◌≡◌, sym, ◌∙◌, Bool, true, Option, none, some, List, [], ◌∷◌, ◌++◌, filter, All, All-append,
}
use apimock_rs.Prelude.Text.{Text, join, text_eq_iff}
use apimock_rs.Prelude.Text.Slash.{IsSegment}
use apimock_rs.Routing.Libraries.{Libraries}
use apimock_rs.Routing.RuleOp.{simple, op_is_match, operand, url_path_is_match}
use apimock_rs.Routing.Rule.{derived_url_path, url_path_with_prefix}
use apimock_rs.Routing.UrlPath.{is_kept, normalize_url_path}
use apimock_rs.Routing.UrlPath.Canonical.{spelled, prefix_of, normalize_canonical}

-- The request's path below the prefix.
below :
    (lead trail : Bool) (ps : List Text) (w : Text) (ws : List Text)
    → All IsSegment ps
    → All IsSegment (w ∷ ws)
    → normalize_url_path (spelled lead trail (ps ++ (w ∷ ws))) none
      ≡ b'/' ∷ join b'/' (filter is_kept (ps ++ (w ∷ ws)))
below lead trail [] w ws hp hw = normalize_canonical lead trail [] w ws tt hw
below lead trail (p ∷ ps) w ws hp hw =
    normalize_canonical lead trail [] p (ps ++ (w ∷ ws)) tt
      (hp.0, All-append IsSegment ps (w ∷ ws) hp.1 hw)

-- A rule that gives a path as a plain string matches the request for that path below the prefix of its
-- rule set, whatever leading and trailing slashes the two are spelled with. The path has a segment,
-- and no segment is empty.
pub url_path_is_match-spelled :
    (lib : Libraries) (respond_dir : Option Text) (lead trail lead' trail' : Bool) (ps : List Text)
    (w : Text) (ws : List Text)
    → All IsSegment ps
    → All IsSegment (w ∷ ws)
    → url_path_is_match lib
        (derived_url_path
          (some (record { url_path_prefix = prefix_of ps; respond_dir_prefix = respond_dir }))
          (simple (spelled lead trail (w ∷ ws))))
        (normalize_url_path (spelled lead' trail' (ps ++ (w ∷ ws))) none)
      ≡ true
unfolding url_path_is_match operand op_is_match derived_url_path url_path_with_prefix
url_path_is_match-spelled lib respond_dir lead trail lead' trail' ps w ws hp hw =
    (text_eq_iff _ _).1
      (below lead' trail' ps w ws hp hw ∙ sym (normalize_canonical lead trail ps w ws hp hw))
