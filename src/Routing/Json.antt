-- ===== src/Routing/Json.antt =====
-- `serde_json::Value`, as far as the matcher takes it apart, and
-- crates/apimock-routing/src/util/json.rs. What a number is stays a parameter `N`.
use apimock_rs.Prelude.{
  ℕ, zero, suc, Bool, false, ◌||◌, Option, none, some, List, [], ◌∷◌, if◌then◌else◌,
}
use apimock_rs.Prelude.Text.{Text, text_eq, split, parse_usize}

mutual
  pub data Json (N : Type 0) : Type 0 where
    null : Json N
    boolean : Bool → Json N
    number : N → Json N
    string : Text → Json N
    array : Items N → Json N
    object : Fields N → Json N

  pub data Items (N : Type 0) : Type 0 where
    nil : Items N
    cons : Json N → Items N → Items N

  pub data Fields (N : Type 0) : Type 0 where
    end : Fields N
    field : Text → Json N → Fields N → Fields N

module _ {N : Type 0} where
  -- `map.get(key)`.
  unfoldable pub fields_get : Text → Fields N → Option (Json N)
  fields_get key end = none
  fields_get key (field k v fs) = if text_eq k key then some v else fields_get key fs

  -- `arr.get(i)`.
  unfoldable pub items_get : Items N → ℕ → Option (Json N)
  items_get nil i = none
  items_get (cons v vs) zero = some v
  items_get (cons v vs) (suc i) = items_get vs i

  unfoldable pub items_length : Items N → ℕ
  items_length nil = 0
  items_length (cons v vs) = suc (items_length vs)

  -- `arr.iter().any(p)`.
  unfoldable pub items_any : (Json N → Bool) → Items N → Bool
  items_any p nil = false
  items_any p (cons v vs) = p v || items_any p vs

  abbrev at_index : Items N → Option ℕ → Option (Json N)
  at_index vs none = none
  at_index vs (some i) = items_get vs i

  -- One step of a dotted path: an object by key, an array by a numeric segment.
  unfoldable pub child : Json N → Text → Option (Json N)
  child (object fs) key = fields_get key fs
  child (array vs) key = at_index vs (parse_usize key)
  child _ key = none

  -- The `try_fold` over the segments.
  unfoldable pub descend : Json N → List Text → Option (Json N)
  descend v [] = some v
  descend v (key ∷ keys) = elim (child v key) [ none ↦ none | some w ↦ descend w keys ]

  unfoldable pub json_value_by_jsonpath : Json N → Text → Option (Json N)
  json_value_by_jsonpath value jsonpath = descend value (split b'.' jsonpath)
