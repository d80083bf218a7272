-- ===== src/Workspace/Migrate/Clear.antt =====
-- What `clear` does to the two maps of an index.
use apimock_rs.Prelude.{
  ℕ, ◌≡◌, refl, ◌∙◌, none, List, [], ◌∷◌, arith, ◌==◌, ==_iff, if◌then◌else◌, any,
}
use apimock_rs.Prelude.Dict.{IsDict, lookup_in-remove, remove-IsDict}
use apimock_rs.Workspace.{NodeAddress, address_eq, address_eq_iff, IdIndex, lookup, id_for}
use apimock_rs.Workspace.IdShift.{clear}

abbrev pub Rows : Type 0
Rows = List (NodeAddress × ℕ)

-- `clear` on the two maps.
pub clear-lookup :
    (id : ℕ) (rows : Rows) (ids : IdIndex)
    → lookup id (clear rows ids) ≡ (if any (λ row. row.1 == id) rows then none else lookup id ids)
unfolding clear
clear-lookup id [] ids = refl
clear-lookup id ((a, i) ∷ rows) ids =
    clear-lookup id rows _ ∙ ground (arith, lookup_in-remove ◌==◌ ==_iff id i ids.id_to_address)

pub clear-id_for :
    (a : NodeAddress) (rows : Rows) (ids : IdIndex)
    → id_for a (clear rows ids)
      ≡ (if any (λ row. address_eq row.0 a) rows then none else id_for a ids)
unfolding clear
clear-id_for a [] ids = refl
clear-id_for a ((b, i) ∷ rows) ids =
    clear-id_for a rows _
    ∙ ground (arith, lookup_in-remove address_eq address_eq_iff a b ids.address_to_id)

pub clear-IsDict :
    (rows : Rows) (ids : IdIndex)
    → IsDict address_eq ids.address_to_id
    → IsDict address_eq (clear rows ids).address_to_id
unfolding clear
clear-IsDict [] ids h = h
clear-IsDict ((a, i) ∷ rows) ids h =
    clear-IsDict rows _ (remove-IsDict address_eq address_eq_iff a ids.address_to_id h)
