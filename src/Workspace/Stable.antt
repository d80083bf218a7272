-- ===== src/Workspace/Stable.antt =====
-- The identities that survive the edits which move nodes, and those that an insertion makes.
use apimock_rs.Prelude.{
  ℕ, ◌-◌, ◌≡◌, refl, sym, ap, ◌∙◌, ◌↔◌, inl, inr, true, false, Option, none, some, arith, ◌==◌,
  ==_iff, ltb, if◌then◌else◌, Bool-cases, none-ne-some, some-inj,
}
use apimock_rs.Prelude.Dict.{lookup_in-put, put-IsDict}
use apimock_rs.Workspace.{
  NodeAddress, rule_set, rule, respond, address_eq, address_eq_iff, IdIndex, lookup, id_for,
  put_both, insert,
}
use apimock_rs.Workspace.IdShift.{
  is_later_rule, rule_address, shift_rules_down, is_later_rule_set, rule_set_address,
  shift_rule_sets_down,
}
use apimock_rs.Workspace.Migrate.{IsIndex, renumber, and_then, migrate_lem}

-- The position of a node once the one at `removed` is gone.
abbrev pub position_after : ℕ → ℕ → Option ℕ
position_after removed i =
    if i == removed then none else if ltb removed i then some (i - 1) else some i

abbrev pub map_to {ℓ κ} : {A : Type ℓ} {B : Type κ} → Option A → (A → B) → Option B
map_to none f = none
map_to (some a) f = some (f a)

-- The address that the index is to hold for an identity once the rule `removed` of the rule set is
-- gone: that of the same node for a rule, a response and any node outside of rules. An address of a
-- single condition is left as it is, also where its rule has moved.
abbrev pub without_rule : ℕ → ℕ → NodeAddress → Option NodeAddress
without_rule rule_set_idx removed (rule s i) =
    if s == rule_set_idx then map_to (position_after removed i) (λ j. rule s j) else some (rule s i)
without_rule rule_set_idx removed (respond s i) =
    if s == rule_set_idx
    then map_to (position_after removed i) (λ j. respond s j)
    else some (respond s i)
without_rule rule_set_idx removed other = some other

-- The same once the rule set `removed` is gone, with single conditions left as they are.
abbrev pub without_rule_set : ℕ → NodeAddress → Option NodeAddress
without_rule_set removed (rule_set s) = map_to (position_after removed s) (λ t. rule_set t)
without_rule_set removed (rule s i) = map_to (position_after removed s) (λ t. rule t i)
without_rule_set removed (respond s i) = map_to (position_after removed s) (λ t. respond t i)
without_rule_set removed other = some other

renumber-rule :
    (s removed : ℕ) (a : NodeAddress)
    → renumber (is_later_rule s removed) (rule_address removed) a ≡ without_rule s removed a
renumber-rule s removed a = ground arith

renumber-rule_set :
    (removed : ℕ) (a : NodeAddress)
    → renumber (is_later_rule_set removed) (rule_set_address removed) a ≡ without_rule_set removed a
renumber-rule_set removed a = ground arith

rule_address-stays :
    (s removed : ℕ) (a b : NodeAddress)
    → is_later_rule s removed a ≡ true
    → rule_address removed a ≡ some b
    → is_later_rule s removed b ≡ true
rule_address-stays s removed a b h e = ground arith

rule_address-apart :
    (s removed : ℕ) (a c b : NodeAddress)
    → is_later_rule s removed a ≡ true
    → is_later_rule s removed c ≡ true
    → rule_address removed a ≡ some b
    → rule_address removed c ≡ some b
    → a ≡ c
rule_address-apart s removed a c b h k e f = ground arith

rule_set_address-stays :
    (removed : ℕ) (a b : NodeAddress)
    → is_later_rule_set removed a ≡ true
    → rule_set_address removed a ≡ some b
    → is_later_rule_set removed b ≡ true
rule_set_address-stays removed a b h e = ground arith

rule_set_address-apart :
    (removed : ℕ) (a c b : NodeAddress)
    → is_later_rule_set removed a ≡ true
    → is_later_rule_set removed c ≡ true
    → rule_set_address removed a ≡ some b
    → rule_set_address removed c ≡ some b
    → a ≡ c
rule_set_address-apart removed a c b h k e f = ground arith

and_then-cong {ℓ κ} :
    {A : Type ℓ} {B : Type κ} (o : Option A) (f g : A → Option B)
    → ((a : A) → f a ≡ g a)
    → and_then o f ≡ and_then o g
and_then-cong none f g h = refl
and_then-cong (some a) f g h = h a

-- When a rule is deleted from an index in which identities and addresses correspond, they still
-- correspond. The identities of the later rules of its rule set and of their responses get the
-- addresses one further down, where these nodes then are; those of the deleted rule and of its
-- response are gone; every other identity keeps its address. That includes the identities of single
-- conditions: those of a later rule keep the index that the rule had before the deletion, and so do
-- not follow their node, and those of the deleted rule stay in the index.
pub shift_rules_down_lem :
    (rule_set_idx removed : ℕ) (ids : IdIndex)
    → IsIndex ids
    → IsIndex (shift_rules_down rule_set_idx removed ids)
      × ((id : ℕ)
          → lookup id (shift_rules_down rule_set_idx removed ids)
            ≡ and_then (lookup id ids) (without_rule rule_set_idx removed))
unfolding shift_rules_down
shift_rules_down_lem s removed ids index =
    let (kept, found) =
      migrate_lem (is_later_rule s removed) (rule_address removed) (rule_address-stays s removed)
        (rule_address-apart s removed) ids index in
    (kept, λ id. found id ∙ and_then-cong (lookup id ids) _ _ (renumber-rule s removed))

-- When a rule set is removed from an index in which identities and addresses correspond, they still
-- correspond. The identities of the later rule sets, their rules and responses get the addresses one
-- further down, where these nodes then are; those of the removed rule set, its rules and their
-- responses are gone; every other identity keeps its address. That includes the identities of single
-- conditions: those of a later rule set keep the index that it had before the removal, and so do not
-- follow their node, and those of the removed rule set stay in the index.
pub shift_rule_sets_down_lem :
    (removed : ℕ) (ids : IdIndex)
    → IsIndex ids
    → IsIndex (shift_rule_sets_down removed ids)
      × ((id : ℕ)
          → lookup id (shift_rule_sets_down removed ids)
            ≡ and_then (lookup id ids) (without_rule_set removed))
unfolding shift_rule_sets_down
shift_rule_sets_down_lem removed ids index =
    let (kept, found) =
      migrate_lem (is_later_rule_set removed) (rule_set_address removed)
        (rule_set_address-stays removed) (rule_set_address-apart removed) ids index in
    (kept, λ id. found id ∙ and_then-cong (lookup id ids) _ _ (renumber-rule_set removed))

pub put_both-IsIndex :
    (id : ℕ) (address : NodeAddress) (ids : IdIndex)
    → IsIndex ids
    → lookup id ids ≡ none
    → id_for address ids ≡ none
    → IsIndex (put_both id address ids)
put_both-IsIndex id address ids index fresh unknown =
    (both, put-IsDict address_eq address_eq_iff address id ids.address_to_id index.1)
  where
    differ-address : (b : NodeAddress) → address_eq address b ≡ false → address ≡ b → ⊥
    differ-address b f p = cc (f, (address_eq_iff address b).1 p)

    differ-id : (i : ℕ) → (id == i) ≡ false → id ≡ i → ⊥
    differ-id i e p = cc (e, (==_iff id i).1 p)

    both :
        (i : ℕ) (b : NodeAddress)
        → (lookup i (put_both id address ids) ≡ some b)
          ↔ (id_for b (put_both id address ids) ≡ some i)
    both i b =
        rw
          (
            lookup_in-put ◌==◌ ==_iff i id address ids.id_to_address,
            lookup_in-put address_eq address_eq_iff b address id ids.address_to_id,
          )
          (elim (Bool-cases (id == i)) [
            | inl e ↦ elim (Bool-cases (address_eq address b)) [
              | inl f ↦
                  let same = (==_iff id i).0 e in
                  let same' = (address_eq_iff address b).0 f in
                  rw (e, f) ((λ z. ap (λ j. some j) same), (λ z. ap (λ d. some d) same'))
              | inr f ↦
                  let same = (==_iff id i).0 e in
                  rw (e, f)
                    (
                      (λ z. absurd (differ-address b f (some-inj address b z))),
                      (λ z. absurd (
                          none-ne-some b
                            (sym fresh ∙ (index.0 id b).1 (z ∙ ap (λ j. some j) (sym same))))),
                    )
            ]
            | inr e ↦ elim (Bool-cases (address_eq address b)) [
              | inl f ↦
                  let same = (address_eq_iff address b).0 f in
                  rw (e, f)
                    (
                      (λ z. absurd (
                          none-ne-some i (
                            sym unknown
                            ∙ (index.0 i address).0 (z ∙ ap (λ d. some d) (sym same))))),
                      (λ z. absurd (differ-id i e (some-inj id i z))),
                    )
              | inr f ↦ rw (e, f) (index.0 i b)
            ]
          ])

-- What an insertion of an address into the index gives, as an identity and the new index.
abbrev pub IsInserted : NodeAddress → IdIndex → ℕ × IdIndex → Type 0
IsInserted address ids (id, after) =
    IsIndex after
    × (id_for address after ≡ some id)
    × ((i : ℕ) (a : NodeAddress) → lookup i ids ≡ some a → lookup i after ≡ some a)

-- Inserting an address into an index in which identities and addresses correspond keeps them so, for
-- a new identity that is not in the index: the address then has the identity that is returned, and
-- every identity from before keeps its address.
pub insert_lem :
    (new_id : ℕ) (address : NodeAddress) (ids : IdIndex)
    → IsIndex ids
    → lookup new_id ids ≡ none
    → IsInserted address ids (insert new_id address ids)
unfolding insert
insert_lem new_id address ids index fresh = by_known (id_for address ids) refl
  where
    other :
        (i : ℕ) (a : NodeAddress)
        → lookup i ids ≡ some a
        → (if new_id == i then some address else lookup i ids) ≡ some a
    other i a h = elim (Bool-cases (new_id == i)) [
      | inl e ↦
          absurd (none-ne-some a (sym fresh ∙ ap (λ j. lookup j ids) ((==_iff new_id i).0 e) ∙ h))
      | inr e ↦ rw e h
    ]

    by_known :
        (o : Option ℕ)
        → id_for address ids ≡ o
        → IsInserted address ids
            (elim o [ some id ↦ (id, ids) | none ↦ (new_id, put_both new_id address ids) ])
    by_known (some id) e = (index, e, λ i a h. h)
    by_known none e = (
      put_both-IsIndex new_id address ids index fresh e,
      lookup_in-put address_eq address_eq_iff address address new_id ids.address_to_id
          ∙ rw ((address_eq_iff address address).1 refl) refl,
      λ i a h. lookup_in-put ◌==◌ ==_iff i new_id address ids.id_to_address ∙ other i a h,
    )
