-- ===== src/Workspace/Consistent/Moved.antt =====
-- What a change of addresses does to the addresses that have an identity.
use apimock_rs.Prelude.{
  ℕ, ◌≡◌, refl, sym, ap, ◌∙◌, Bool, true, false, Option, none, some, is_some, none-ne-some,
}
use apimock_rs.Workspace.{NodeAddress, IdIndex, lookup, id_for}
use apimock_rs.Workspace.Migrate.{IsIndex, and_then}
use apimock_rs.Workspace.Consistent.{is_condition, Covers}

same_truth : (p q : Bool) → (p ≡ true → q ≡ true) → (q ≡ true → p ≡ true) → p ≡ q
same_truth true q f g = sym (f refl)
same_truth false true f g = g refl
same_truth false false f g = refl

is_some_get : (o : Option ℕ) → is_some o ≡ true → (id : ℕ) × (o ≡ some id)
is_some_get none h = cc
is_some_get (some id) h = (id, refl)

and_then_from :
    (o : Option NodeAddress) (f : NodeAddress → Option NodeAddress) (b : NodeAddress)
    → and_then o f ≡ some b
    → (a : NodeAddress) × (o ≡ some a) × (f a ≡ some b)
and_then_from none f b h = absurd (none-ne-some b h)
and_then_from (some a) f b h = (a, refl, h)

module _ (f : NodeAddress → Option NodeAddress) (present present' : NodeAddress → Bool)
    (forth : (a b : NodeAddress)
      → f a ≡ some b
      → is_condition b ≡ false
      → (is_condition a ≡ false) × (present a ≡ true → present' b ≡ true))
    (back : (b : NodeAddress)
      → is_condition b ≡ false
      → present' b ≡ true
      → (a : NodeAddress) × (f a ≡ some b) × (is_condition a ≡ false) × (present a ≡ true)) where
  pub moved-Covers :
      (ids ids' : IdIndex)
      → IsIndex ids
      → IsIndex ids'
      → ((id : ℕ) → lookup id ids' ≡ and_then (lookup id ids) f)
      → Covers present ids
      → Covers present' ids'
  moved-Covers ids ids' index index' found covers b c =
      same_truth (is_some (id_for b ids')) (present' b)
        (λ h.
          let (id, e) = is_some_get (id_for b ids') h in
          let (a, old, t) =
            and_then_from (lookup id ids) f b (sym (found id) ∙ (index'.0 id b).1 e) in
          let (plain, stays) = forth a b t c in
          stays (sym (covers a plain) ∙ ap is_some ((index.0 id a).0 old)))
        (λ h.
          let (a, t, plain, p) = back b c h in
          let (id, e) = is_some_get (id_for a ids) (covers a plain ∙ p) in
          ap is_some
            ((index'.0 id b).0 (found id ∙ ap (λ o. and_then o f) ((index.0 id a).1 e) ∙ t)))
