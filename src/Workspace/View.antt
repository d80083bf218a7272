-- ===== src/Workspace/View.antt =====
-- crates/apimock-config/src/view.rs: the payloads of the editing commands.
use apimock_rs.Prelude.{ℕ, Bool, Option, List}
use apimock_rs.Prelude.Int.{ℤ}
use apimock_rs.Prelude.Text.{Text}
use apimock_rs.Routing.Json.{Json}

pub data UrlPathOp : Type 0 where
  equal starts_with not_starts_with ends_with not_ends_with contains not_contains wild_card
        not_equal regex not_regex :
      UrlPathOp

pub data HeaderOp : Type 0 where
  equal contains not_contains starts_with not_starts_with ends_with not_ends_with regex not_regex
        exists absent not_equal wild_card :
      HeaderOp

pub data BodyOp : Type 0 where
  equal equal_string contains not_contains starts_with not_starts_with ends_with not_ends_with regex
        not_regex equal_typed equal_number greater_than less_than greater_or_equal less_or_equal
        exists absent array_length_equal array_length_at_least array_contains equal_integer
        map_has_key map_does_not_have_key structural_contains :
      BodyOp

pub record HeaderConditionPayload : Type 0 where
  pub name : Text
  pub op : HeaderOp
  pub value : Option Text

-- The kind is always JSON.
pub record BodyConditionPayload (N : Type 0) : Type 0 where
  pub path : Text
  pub op : BodyOp
  pub value : Json N

pub record RespondPayload : Type 0 where
  pub file_path : Option Text
  pub text : Option Text
  pub json : Option Text
  pub status : Option ℕ
  pub delay_milliseconds : Option ℕ

pub record RulePayload (N : Type 0) : Type 0 where
  pub url_path : Option Text
  pub url_path_op : Option UrlPathOp
  pub method : Option Text
  pub priority : Option ℤ
  pub headers : Option (List HeaderConditionPayload)
  pub body : Option (List (BodyConditionPayload N))
  pub respond : RespondPayload

pub data EditValue (N : Type 0) : Type 0 where
  string : Text → EditValue N
  integer : ℤ → EditValue N
  boolean : Bool → EditValue N
  string_list : List Text → EditValue N
  enum : Text → EditValue N
  json : Json N → EditValue N
