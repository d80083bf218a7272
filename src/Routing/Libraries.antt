-- ===== src/Routing/Libraries.antt =====
-- The third-party code that the matcher calls, as operations of a parameter: `serde_json`'s numbers,
-- parser, printer and equality, the `regex` crate, `f64`, and `hyper::StatusCode::from_u16`.
pub mod Sample
use apimock_rs.Prelude.{ℕ, Bool, Option}
use apimock_rs.Prelude.Int.{ℤ}
use apimock_rs.Prelude.Text.{Text}
use apimock_rs.Routing.Json.{Json}

pub record Libraries : Type 1 where
  pub Number : Type 0
  pub Float : Type 0
  -- `Number::as_i64`, `Number::as_f64`, `str::parse::<f64>`
  pub as_i64 : Number → Option ℤ
  pub as_f64 : Number → Option Float
  pub parse_f64 : Text → Option Float
  -- `(l - r).abs() < f64::EPSILON`, `l < r`, `l <= r`
  pub float_near : Float → Float → Bool
  pub float_lt : Float → Float → Bool
  pub float_le : Float → Float → Bool
  -- `Regex::new(pattern)`, as the test of a text
  pub new_regex : Text → Option (Text → Bool)
  -- `serde_json::from_str`, `Value::to_string` and `Value == Value`
  pub from_str : Text → Option (Json Number)
  pub to_text : Json Number → Text
  pub json_eq : Json Number → Json Number → Bool
  -- `StatusCode::from_u16`
  pub from_u16 : ℕ → Option ℕ
