-- ===== src/Routing/RuleSet/Weighted.antt =====
-- The weighted choice of rule_set.rs, within and beyond 32 bits.
use native.Mathlib.Nat.{mod-lt}
use apimock_rs.Prelude.{
  ℕ, zero, suc, ◌+◌, ◌-◌, ◌%◌, ◌≤◌, ◌<◌, ◌≡◌, refl, sym, ap, ◌∙◌, ◌≢◌, ◌↔◌, inl, inr, Bool, true,
  false, some, List, [], ◌∷◌, ◌++◌, arith, ltb, ◌==◌, ==_iff, if◌then◌else◌, Bool-cases, length,
  get_elem?, length-append,
}
use apimock_rs.Routing.Rule.{Rule}
use apimock_rs.Routing.Strategy.{next, next_index}
use apimock_rs.Routing.RuleSet.{
  Found, panicked, answer, at, last, weight_of, u32_mod, sum_weights, pick_weighted,
  choose_weighted,
}

module _ {ℓ} {A : Type ℓ} where
  abbrev replicate : ℕ → A → List A
  replicate zero x = []
  replicate (suc n) x = x ∷ replicate n x

  length-replicate : (n : ℕ) (x : A) → length (replicate n x) ≡ n
  length-replicate zero x = omega arith
  length-replicate (suc n) x = omega (arith, length-replicate n x)

  get_elem?-replicate :
      (n i : ℕ) (x : A) (ys : List A) → i < n → get_elem? (replicate n x ++ ys) i ≡ some x
  get_elem?-replicate zero i x ys h = elim h [ ]
  get_elem?-replicate (suc n) zero x ys h = refl
  get_elem?-replicate (suc n) (suc i) x ys h = get_elem?-replicate n i x ys (omega arith)

  get_elem?-beyond :
      (n i : ℕ) (x : A) (ys : List A) → get_elem? (replicate n x ++ ys) (i + n) ≡ get_elem? ys i
  get_elem?-beyond zero i x ys = ap (get_elem? ys) (omega arith)
  get_elem?-beyond (suc n) i x ys =
      ap (get_elem? (x ∷ (replicate n x ++ ys)))
        (let e : i + suc n ≡ suc (i + n) = omega arith in e)
      ∙ get_elem?-beyond n i x ys

-- The sum of the weights, without the 32-bit limit.
unfoldable pub total_weight : List (ℕ × Rule) → ℕ
total_weight [] = 0
total_weight (m ∷ ms) = weight_of m.1 + total_weight ms

-- The list in which each candidate stands as often as its weight says.
pub unroll : List (ℕ × Rule) → List (ℕ × Rule)
unroll [] = []
unroll (m ∷ ms) = replicate (weight_of m.1) m ++ unroll ms

pub length-unroll : (ms : List (ℕ × Rule)) → length (unroll ms) ≡ total_weight ms
unfolding unroll total_weight
length-unroll [] = refl
length-unroll (m ∷ ms) = omega (
  arith,
  length-append (replicate (weight_of m.1) m) (unroll ms),
  length-replicate (weight_of m.1) m,
  length-unroll ms,
)

-- The sum that the code computes is the true one modulo 2^32.
pub sum_weights-mod :
    (acc : ℕ) (ms : List (ℕ × Rule))
    → acc < u32_mod
    → sum_weights acc ms ≡ (acc + total_weight ms) % u32_mod
unfolding sum_weights total_weight
sum_weights-mod acc [] h = omega arith
sum_weights-mod acc (m ∷ ms) h =
    omega (arith, sum_weights-mod ((acc + weight_of m.1) % u32_mod) ms (omega arith))

at-here :
    (m : ℕ × Rule) (ms : List (ℕ × Rule)) (i : ℕ)
    → i < weight_of m.1
    → at (unroll (m ∷ ms)) i ≡ answer m
unfolding unroll
at-here m ms i h = rw (get_elem?-replicate (weight_of m.1) i m (unroll ms) h, at) refl

at-there :
    (m : ℕ × Rule) (ms : List (ℕ × Rule)) (i j : ℕ)
    → i ≡ j + weight_of m.1
    → at (unroll (m ∷ ms)) i ≡ at (unroll ms) j
unfolding unroll
at-there m ms i j e =
    ap (at (unroll (m ∷ ms))) e ∙ rw (get_elem?-beyond (weight_of m.1) j m (unroll ms), at) refl

pick_weighted-unroll :
    (pick acc : ℕ) (whole ms : List (ℕ × Rule))
    → acc ≤ pick
    → pick < acc + total_weight ms
    → acc + total_weight ms < u32_mod
    → pick_weighted pick acc whole ms ≡ at (unroll ms) (pick - acc)
unfolding pick_weighted total_weight
pick_weighted-unroll pick acc whole [] h k l = absurd (omega arith)
pick_weighted-unroll pick acc whole (m ∷ ms) h k l =
    let fits : (acc + weight_of m.1) % u32_mod ≡ acc + weight_of m.1 = omega arith in
    elim (Bool-cases (ltb pick (acc + weight_of m.1))) [
      | inl e ↦ rw (fits, e) (sym (at-here m ms (pick - acc) (ground arith)))
      | inr e ↦
          rw (fits, e)
            (pick_weighted-unroll pick (acc + weight_of m.1) whole ms (ground arith) (omega arith)
                (omega arith)
              ∙ sym (at-there m ms (pick - acc) (pick - (acc + weight_of m.1)) (ground arith)))
    ]

choose_weighted-unroll :
    (rng : ℕ) (m : ℕ × Rule) (ms : List (ℕ × Rule))
    → 0 < total_weight (m ∷ ms)
    → total_weight (m ∷ ms) < u32_mod
    → choose_weighted rng (m ∷ ms) ≡ at (unroll (m ∷ ms)) (next rng % total_weight (m ∷ ms))
unfolding choose_weighted
choose_weighted-unroll rng m ms p l =
    let exact : sum_weights 0 (m ∷ ms) ≡ total_weight (m ∷ ms) =
      omega (arith, sum_weights-mod 0 (m ∷ ms) (omega arith)) in
    let low : next rng % total_weight (m ∷ ms) < total_weight (m ∷ ms) = mod-lt (next rng) p in
    let same : next rng % total_weight (m ∷ ms) % u32_mod ≡ next rng % total_weight (m ∷ ms) =
      omega arith in
    let some_weight : (total_weight (m ∷ ms) == 0) ≡ false = ground arith in
    rw (exact, some_weight, same)
      (pick_weighted-unroll (next rng % total_weight (m ∷ ms)) 0 (m ∷ ms) (m ∷ ms) (omega arith)
          (omega arith) (omega arith)
        ∙ ap (at (unroll (m ∷ ms))) (omega arith))

-- While the weights of the candidates sum to at least 1 and less than 2^32, the weighted choice is the uniform
-- choice from the list in which every candidate stands as often as its weight says, and the index
-- lies in that list.
pub choose_weighted-uniform :
    (rng : ℕ) (ms : List (ℕ × Rule))
    → 0 < total_weight ms
    → total_weight ms < u32_mod
    → (choose_weighted rng ms ≡ at (unroll ms) (next_index rng (length (unroll ms))))
      × (next_index rng (length (unroll ms)) < length (unroll ms))
unfolding next_index
choose_weighted-uniform rng [] p l = unfold total_weight in absurd (omega arith)
choose_weighted-uniform rng (m ∷ ms) p l =
    rw (length-unroll (m ∷ ms)) (choose_weighted-unroll rng m ms p l, mod-lt (next rng) p)

answer-ne-panicked : (m : ℕ × Rule) → answer m ≢ panicked
answer-ne-panicked m e = cc e

last-ne-panicked : (ms : List (ℕ × Rule)) → last ms ≢ panicked
last-ne-panicked [] e = cc e
last-ne-panicked (m ∷ []) e = cc e
last-ne-panicked (_ ∷ m ∷ ms) e = last-ne-panicked (m ∷ ms) e

pick_weighted-ne-panicked :
    (pick acc : ℕ) (whole ms : List (ℕ × Rule)) → pick_weighted pick acc whole ms ≢ panicked
unfolding pick_weighted
pick_weighted-ne-panicked pick acc whole [] = last-ne-panicked whole
pick_weighted-ne-panicked pick acc whole (m ∷ ms) =
    elim (Bool-cases (ltb pick ((acc + weight_of m.1) % u32_mod))) [
      | inl t ↦ rw t (λ e. answer-ne-panicked m e)
      | inr f ↦ rw f (pick_weighted-ne-panicked pick ((acc + weight_of m.1) % u32_mod) whole ms)
    ]

panics_at_zero :
    (b : Bool) (f : Found) → f ≢ panicked → ((if b then panicked else f) ≡ panicked) ↔ (b ≡ true)
panics_at_zero true f n = (λ _. refl, λ _. refl)
panics_at_zero false f n = (λ e. absurd (n e), λ e. cc e)

-- On a non-empty list of candidates the weighted choice panics exactly when the sum of their weights
-- is a multiple of 2^32: then the 32-bit total is zero, and it is the divisor of a remainder.
pub choose_weighted-panics_iff :
    (rng : ℕ) (m : ℕ × Rule) (ms : List (ℕ × Rule))
    → (choose_weighted rng (m ∷ ms) ≡ panicked) ↔ (total_weight (m ∷ ms) % u32_mod ≡ 0)
unfolding choose_weighted
choose_weighted-panics_iff rng m ms =
    let wraps = sum_weights-mod 0 (m ∷ ms) (omega arith) in
    let (to, from) = panics_at_zero (sum_weights 0 (m ∷ ms) == 0) _ (
      pick_weighted-ne-panicked (next rng % sum_weights 0 (m ∷ ms) % u32_mod) 0 (m ∷ ms)
        (m ∷ ms)) in
    (
      (λ e. let z = to e in omega (arith, (==_iff (sum_weights 0 (m ∷ ms)) 0).0 z, wraps)),
      (λ z. from ((==_iff (sum_weights 0 (m ∷ ms)) 0).1 (omega (arith, wraps)))),
    )
