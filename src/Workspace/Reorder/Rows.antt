-- ===== src/Workspace/Reorder/Rows.antt =====
-- The rows of the rules of one rule set in `reorder_rule_ids` of
-- crates/apimock-config/src/workspace/edit/id_shift.rs.
use apimock_rs.Prelude.{
  ℕ, zero, suc, ◌+◌, ◌<◌, ◌≡◌, refl, ap, ◌∙◌, inl, inr, Bool, false, ◌&&◌, Option, none, some,
  arith, ◌==◌, leb, ltb, if◌then◌else◌, length, get_elem?, Bool-cases,
}
use apimock_rs.Prelude.Text.{text_eq}
use apimock_rs.Workspace.{NodeAddress, rule, respond, address_eq, IdIndex, id_for}
use apimock_rs.Workspace.Migrate.{IsIndex}
use apimock_rs.Workspace.Slots.{moved_from}
use apimock_rs.Workspace.Nodes.{forget, ids_of, forget_rules}
use apimock_rs.Workspace.Reorder.{forget_row-IsIndex}

-- The rules from `k` on and the responses from `m` on, below `n`.
abbrev pub between : ℕ → ℕ → ℕ → ℕ → NodeAddress → Bool
between s k m n (rule t i) = s == t && leb k i && ltb i n
between s k m n (respond t i) = s == t && leb m i && ltb i n
between s k m n _ = false

abbrev pub is_rule : ℕ → ℕ → NodeAddress → Bool
is_rule s r (rule t i) = s == t && r == i
is_rule s r _ = false

abbrev pub is_respond : ℕ → ℕ → NodeAddress → Bool
is_respond s r (respond t i) = s == t && r == i
is_respond s r _ = false

pub address_eq-rule : (s r : ℕ) (b : NodeAddress) → address_eq (rule s r) b ≡ is_rule s r b
unfolding address_eq text_eq
address_eq-rule s r b = ground arith

pub address_eq-respond : (s r : ℕ) (b : NodeAddress) → address_eq (respond s r) b ≡ is_respond s r b
unfolding address_eq text_eq
address_eq-respond s r b = ground arith

joined :
    (s r count : ℕ) (b : NodeAddress) (o : Option ℕ)
    → (if between s (suc r) (suc r) (suc r + count) b
        then none
        else if is_respond s r b
        then none
        else if is_rule s r b
        then none
        else o)
      ≡ (if between s r r (r + suc count) b then none else o)
joined s r count (rule t i) o = ground arith
joined s r count (respond t i) o = ground arith
joined s r count b o = ground arith

pub forget_rules_lem :
    (s r count : ℕ) (ids : IdIndex)
    → IsIndex ids
    → IsIndex (forget_rules s r count ids)
      × ((b : NodeAddress)
          → id_for b (forget_rules s r count ids)
            ≡ (if between s r r (r + count) b then none else id_for b ids))
unfolding forget_rules
forget_rules_lem s r zero ids index = (index, λ b. ground arith)
forget_rules_lem s r (suc count) ids index =
    let (one, first) = forget_row-IsIndex (rule s r) (id_for (rule s r) ids) ids index refl in
    let mid = forget (rule s r) ids in
    let (two, second) = forget_row-IsIndex (respond s r) (id_for (respond s r) mid) mid one refl in
    let (all, third) = forget_rules_lem s (suc r) count (forget (respond s r) mid) two in
    (
      all,
      λ b.
          third b
          ∙ ap (λ o. if between s (suc r) (suc r) (suc r + count) b then none else o)
              (second b ∙ ap (λ o. if address_eq (respond s r) b then none else o) (first b))
          ∙ rw (address_eq-respond s r b, address_eq-rule s r b)
              (joined s r count b (id_for b ids)),
    )

-- The address that a node has after the move, and the one it had before.
abbrev pub after_move : ℕ → ℕ → ℕ → NodeAddress → NodeAddress
after_move s old new (rule t i) = if s == t then rule t (moved_from new old i) else rule t i
after_move s old new (respond t i) =
    if s == t then respond t (moved_from new old i) else respond t i
after_move s old new other = other

abbrev pub before_move : ℕ → ℕ → ℕ → NodeAddress → NodeAddress
before_move s old new = after_move s new old

pub moved_from-moved_from : (old new i : ℕ) → moved_from old new (moved_from new old i) ≡ i
moved_from-moved_from old new i = ground arith

pub before_move-after_move :
    (s old new : ℕ) (a : NodeAddress) → before_move s old new (after_move s old new a) ≡ a
before_move-after_move s old new (rule t i) = elim (Bool-cases (s == t)) [
  | inl e ↦ rw (e, e) (ap (rule t) (moved_from-moved_from old new i))
  | inr e ↦ rw (e, e) refl
]
before_move-after_move s old new (respond t i) = elim (Bool-cases (s == t)) [
  | inl e ↦ rw (e, e) (ap (respond t) (moved_from-moved_from old new i))
  | inr e ↦ rw (e, e) refl
]
before_move-after_move s old new a = ground arith

pub moved_from-lt : (old new i n : ℕ) → old < n → new < n → i < n → moved_from old new i < n
moved_from-lt old new i n h k l = ground arith

pub moved_from-far :
    (old new i n : ℕ) → old < n → new < n → ltb i n ≡ false → moved_from old new i ≡ i
moved_from-far old new i n h k l = ground arith

pub length-ids_of :
    (address : ℕ → NodeAddress) (r count : ℕ) (ids : IdIndex)
    → length (ids_of address r count ids) ≡ count
unfolding ids_of
length-ids_of address r zero ids = refl
length-ids_of address r (suc count) ids = ap suc (length-ids_of address (suc r) count ids)

pub get_elem?-ids_of :
    (address : ℕ → NodeAddress) (r count j : ℕ) (ids : IdIndex)
    → j < count
    → get_elem? (ids_of address r count ids) j ≡ some (id_for (address (r + j)) ids)
unfolding ids_of
get_elem?-ids_of address r zero j ids h = elim h [ ]
get_elem?-ids_of address r (suc count) zero ids h =
    ap (λ k. some (id_for (address k) ids)) (omega arith)
get_elem?-ids_of address r (suc count) (suc j) ids h =
    get_elem?-ids_of address (suc r) count j ids (omega arith)
    ∙ ap (λ k. some (id_for (address k) ids)) (omega arith)
