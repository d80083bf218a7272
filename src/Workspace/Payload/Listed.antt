-- ===== src/Workspace/Payload/Listed.antt =====
-- The conditions that a payload lists, of crates/apimock-config/src/workspace/edit/payload.rs.
use apimock_rs.Prelude.{
  ◌≡◌, refl, ap, ◌∙◌, Option, none, some, List, [], ◌∷◌, arith, if◌then◌else◌, or_else, unwrap_or,
}
use apimock_rs.Prelude.Dict.{lookup_in}
use apimock_rs.Prelude.Text.{Text, text_eq, text_eq_iff}
use apimock_rs.Routing.Libraries.{Libraries}
use apimock_rs.Routing.Headers.{HeaderConditionStatement, Headers}
use apimock_rs.Workspace.View.{HeaderConditionPayload}
use apimock_rs.Workspace.Payload.{header_op_to_routing, insert_entry, add_headers, build_headers}

insert_entry-lookup_in {ℓ} :
    {V : Type ℓ} (k j : Text) (v : V) (m : List (Text × V))
    → lookup_in text_eq k (insert_entry j v m)
      ≡ (if text_eq j k then some v else lookup_in text_eq k m)
unfolding insert_entry lookup_in
insert_entry-lookup_in k j v [] = refl
insert_entry-lookup_in k j v ((i, w) ∷ m) =
    ground
      (arith, insert_entry-lookup_in k j v m, text_eq_iff i j, text_eq_iff j k, text_eq_iff i k)

abbrev pub statement : HeaderConditionPayload → HeaderConditionStatement
statement cond = record {
  op = some (header_op_to_routing cond.op);
  value = unwrap_or cond.value [];
}

-- The last condition on a header name, however its letters are spelled.
abbrev pub last_on :
    (Text → Text) → Text → List HeaderConditionPayload → Option HeaderConditionStatement
last_on to_lowercase k [] = none
last_on to_lowercase k (cond ∷ conds) =
    or_else (last_on to_lowercase k conds)
      (if text_eq (to_lowercase cond.name) k then some (statement cond) else none)

add_headers-lookup_in :
    (lib : Libraries) (to_lowercase : Text → Text) (k : Text) (conds : List HeaderConditionPayload)
    (headers : Headers)
    → lookup_in text_eq k (add_headers lib to_lowercase conds headers)
      ≡ or_else (last_on to_lowercase k conds) (lookup_in text_eq k headers)
unfolding add_headers
add_headers-lookup_in lib to_lowercase k [] headers = refl
add_headers-lookup_in lib to_lowercase k (cond ∷ conds) headers =
    add_headers-lookup_in lib to_lowercase k conds _
    ∙ ap (or_else (last_on to_lowercase k conds))
        (insert_entry-lookup_in k (to_lowercase cond.name) (statement cond) headers)
    ∙ ground arith

-- The headers that are built from a payload have under a name the last condition of the payload whose
-- name is that one in lower case, with its operator and value, and none under a name that the payload
-- does not list.
pub build_headers-last_on :
    (lib : Libraries) (to_lowercase : Text → Text) (k : Text) (conds : List HeaderConditionPayload)
    → lookup_in text_eq k (build_headers lib to_lowercase conds) ≡ last_on to_lowercase k conds
unfolding build_headers lookup_in
build_headers-last_on lib to_lowercase k conds =
    add_headers-lookup_in lib to_lowercase k conds [] ∙ ground arith
