-- ===== src/Workspace.antt =====
-- crates/apimock-config/src/workspace/id_index.rs: the identities of the nodes that can be edited.
mod Tests
pub mod IdShift
pub mod Migrate
pub mod Stable
pub mod State
pub mod View
pub mod Payload
pub mod Slots
pub mod Nodes
pub mod Edit
pub mod Apply
pub mod Consistent
pub mod Identity
pub mod Reorder
use apimock_rs.Prelude.{
  ℕ, zero, suc, ◌≡◌, refl, sym, ap, ◌∙◌, ◌↔◌, Bool, true, false, Option, none, some, List, [], ◌∷◌,
  ◌==◌,
}
use apimock_rs.Prelude.Dict.{lookup_in, put}
use apimock_rs.Prelude.Text.{Text, text_eq, text_eq_iff, text_eq_refl}

pub data NodeAddress : Type 0 where
  root fallback_respond_dir : NodeAddress
  rule_set middleware : ℕ → NodeAddress
  -- the rule set, then the rule
  rule respond : ℕ → ℕ → NodeAddress
  header_condition body_condition : ℕ → ℕ → Text → NodeAddress

-- The number of the constructor, then its fields.
abbrev key : NodeAddress → List ℕ
key root = 0 ∷ []
key fallback_respond_dir = 1 ∷ []
key (rule_set i) = 2 ∷ i ∷ []
key (middleware i) = 3 ∷ i ∷ []
key (rule s i) = 4 ∷ s ∷ i ∷ []
key (respond s i) = 5 ∷ s ∷ i ∷ []
key (header_condition s i name) = 6 ∷ s ∷ i ∷ name
key (body_condition s i path) = 7 ∷ s ∷ i ∷ path

-- The derived `==` of `NodeAddress`: the same constructor with the same fields.
unfoldable pub address_eq : NodeAddress → NodeAddress → Bool
address_eq a b = text_eq (key a) (key b)

abbrev of_fields : ℕ → List ℕ → NodeAddress
of_fields zero _ = root
of_fields (suc zero) _ = fallback_respond_dir
of_fields (suc (suc zero)) (i ∷ _) = rule_set i
of_fields (suc (suc (suc zero))) (i ∷ _) = middleware i
of_fields (suc (suc (suc (suc zero)))) (s ∷ i ∷ _) = rule s i
of_fields (suc (suc (suc (suc (suc zero))))) (s ∷ i ∷ _) = respond s i
of_fields (suc (suc (suc (suc (suc (suc zero)))))) (s ∷ i ∷ name) = header_condition s i name
of_fields (suc (suc (suc (suc (suc (suc (suc zero))))))) (s ∷ i ∷ path) = body_condition s i path
of_fields _ _ = root

abbrev of_key : List ℕ → NodeAddress
of_key [] = root
of_key (tag ∷ fields) = of_fields tag fields

of_key-key : (a : NodeAddress) → of_key (key a) ≡ a
of_key-key root = refl
of_key-key fallback_respond_dir = refl
of_key-key (rule_set i) = refl
of_key-key (middleware i) = refl
of_key-key (rule s i) = refl
of_key-key (respond s i) = refl
of_key-key (header_condition s i name) = refl
of_key-key (body_condition s i path) = refl

pub address_eq_iff : (a b : NodeAddress) → (address_eq a b ≡ true) ↔ (a ≡ b)
unfolding address_eq
address_eq_iff a b = (
  (λ e. sym (of_key-key a) ∙ ap of_key ((text_eq_iff (key a) (key b)).0 e) ∙ of_key-key b),
  (λ e. ap (λ c. text_eq (key a) (key c)) (sym e) ∙ text_eq_refl (key a)),
)

-- The index of identities: both maps of `IdIndex`. A `NodeId` is a number.
pub record IdIndex : Type 0 where
  pub id_to_address : List (ℕ × NodeAddress)
  pub address_to_id : List (NodeAddress × ℕ)

-- `lookup` and `id_for`.
abbrev pub lookup : ℕ → IdIndex → Option NodeAddress
lookup id ids = lookup_in ◌==◌ id ids.id_to_address

abbrev pub id_for : NodeAddress → IdIndex → Option ℕ
id_for address ids = lookup_in address_eq address ids.address_to_id

-- One row into both maps.
abbrev pub put_both : ℕ → NodeAddress → IdIndex → IdIndex
put_both id address ids = record {
  id_to_address = put ◌==◌ id address ids.id_to_address;
  address_to_id = put address_eq address id ids.address_to_id;
}

-- `IdIndex::insert`; `new_id` is what `NodeId::new` returns.
unfoldable pub insert : ℕ → NodeAddress → IdIndex → ℕ × IdIndex
insert new_id address ids = elim (id_for address ids) [
  | some id ↦ (id, ids)
  | none ↦ (new_id, put_both new_id address ids)
]
