-- ===== src/Routing/Glob.antt =====
-- crates/apimock-routing/src/util/glob.rs: the wildcard matcher of rule conditions.
pub mod Meaning
use apimock_rs.Prelude.{Bool, true, false, ◌||◌, [], ◌∷◌, ◌==◌, if◌then◌else◌}
use apimock_rs.Prelude.Text.{Text}

-- `glob_match_impl`, over the slices that are left; `*` tries to skip first, then to take a
-- character.
pub glob_match : Text → Text → Bool
glob_match [] [] = true
glob_match [] (_ ∷ _) = false
glob_match (p ∷ pat) [] = let skip = glob_match pat [] in if p == b'*' then skip else false
glob_match (p ∷ pat) (t ∷ text) =
    let skip = glob_match pat (t ∷ text) in
    let take = glob_match (p ∷ pat) text in
    let next = glob_match pat text in
    if p == b'*' then skip || take else if p == b'?' then next else if p == t then next else false
