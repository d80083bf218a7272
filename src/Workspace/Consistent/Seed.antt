-- ===== src/Workspace/Consistent/Seed.antt =====
-- The identities that `seed_ids` of crates/apimock-config/src/workspace.rs gives a loaded configuration.
use apimock_rs.Prelude.{
  ℕ, zero, suc, ◌+◌, ◌-◌, ◌≡◌, refl, sym, ap, ◌∙◌, Bool, false, ◌||◌, ◌&&◌, Option, some, List, [],
  ◌∷◌, arith, leb, ltb, length, if◌then◌else◌, get_elem?, is_some, is_some_and, none-ne-some,
}
use apimock_rs.Prelude.Dict.{lookup_in}
use apimock_rs.Prelude.Text.{text_eq}
use apimock_rs.Routing.RuleSet.{RuleSet}
use apimock_rs.Workspace.{
  NodeAddress, root, fallback_respond_dir, rule_set, middleware, rule, respond, address_eq,
}
use apimock_rs.Workspace.Stable.{map_to}
use apimock_rs.Workspace.State.{Workspace, mint}
use apimock_rs.Workspace.Nodes.{mint_rules}
use apimock_rs.Workspace.Reorder.Rows.{between}
use apimock_rs.Workspace.Apply.{
  middleware_count, seed_rule_sets, seed_middlewares, seed_ids, load_ids, empty_index,
}
use apimock_rs.Workspace.Consistent.{exists_in, node_exists, IsConsistent, Indexes, Indexes-cong}
use apimock_rs.Workspace.Consistent.Mint.{mint_lem}
use apimock_rs.Workspace.Consistent.Add.{mint_rules_lem, mint_rules-config}

-- The addresses of the rule sets from `s` on, and of the middlewares from `i` on.
abbrev sets_from : ℕ → List RuleSet → NodeAddress → Bool
sets_from s [] b = false
sets_from s (rs ∷ rest) b =
    (address_eq (rule_set s) b || between s 0 0 (0 + length rs.rules) b) || sets_from (suc s) rest b

abbrev middlewares_from : ℕ → ℕ → NodeAddress → Bool
middlewares_from i zero b = false
middlewares_from i (suc count) b = address_eq (middleware i) b || middlewares_from (suc i) count b

abbrev count_of : List RuleSet → ℕ → Option ℕ
count_of sets t = map_to (get_elem? sets t) (λ rs. length rs.rules)

abbrev is_middleware : ℕ → ℕ → NodeAddress → Bool
is_middleware i n (middleware k) = leb i k && ltb k n
is_middleware i n _ = false

middlewares_from_lem :
    (i count : ℕ) (b : NodeAddress) → middlewares_from i count b ≡ is_middleware i (i + count) b
unfolding address_eq text_eq
middlewares_from_lem i zero b = ground arith
middlewares_from_lem i (suc count) b =
    ap (λ p. address_eq (middleware i) b || p) (middlewares_from_lem (suc i) count b) ∙ ground arith

-- The same by positions: `t` counts from the first of the list.
abbrev stands_in : ℕ → List RuleSet → NodeAddress → Bool
stands_in s sets (rule_set t) = leb s t && is_some (count_of sets (t - s))
stands_in s sets (rule t i) = leb s t && is_some_and (ltb i) (count_of sets (t - s))
stands_in s sets (respond t i) = leb s t && is_some_and (ltb i) (count_of sets (t - s))
stands_in s sets _ = false

count_of_cons :
    (s t : ℕ) (rs : RuleSet) (rest : List RuleSet)
    → count_of (rs ∷ rest) (t - s)
      ≡ (if leb t s then some (length rs.rules) else count_of rest (t - suc s))
count_of_cons s t rs rest = by_distance (t - s) refl
  where
    by_distance :
        (d : ℕ)
        → t - s ≡ d
        → count_of (rs ∷ rest) d
          ≡ (if leb t s then some (length rs.rules) else count_of rest (t - suc s))
    by_distance zero e = ground arith
    by_distance (suc d) e =
        let next : d ≡ t - suc s = omega arith in ap (count_of rest) next ∙ ground arith

stands_in_cons :
    (s : ℕ) (rs : RuleSet) (rest : List RuleSet) (b : NodeAddress)
    → ((address_eq (rule_set s) b || between s 0 0 (0 + length rs.rules) b)
        || stands_in (suc s) rest b)
      ≡ stands_in s (rs ∷ rest) b
unfolding address_eq text_eq
stands_in_cons s rs rest (rule_set t) = rw (count_of_cons s t rs rest) (ground arith)
stands_in_cons s rs rest (rule t i) = rw (count_of_cons s t rs rest) (ground arith)
stands_in_cons s rs rest (respond t i) = rw (count_of_cons s t rs rest) (ground arith)
stands_in_cons s rs rest b = ground arith

sets_from_lem :
    (s : ℕ) (sets : List RuleSet) (b : NodeAddress) → sets_from s sets b ≡ stands_in s sets b
unfolding address_eq text_eq
sets_from_lem s [] b = ground arith
sets_from_lem s (rs ∷ rest) b =
    ap (λ p. (address_eq (rule_set s) b || between s 0 0 (0 + length rs.rules) b) || p)
      (sets_from_lem (suc s) rest b)
    ∙ stands_in_cons s rs rest b

minus_zero : (t : ℕ) → t - 0 ≡ t
minus_zero t = omega arith

module _ (new_id : ℕ → ℕ) (new_id-inj : (j k : ℕ) → new_id j ≡ new_id k → j ≡ k) where
  seed_rule_sets_lem :
      (s : ℕ) (sets : List RuleSet) (present : NodeAddress → Bool) (ws : Workspace)
      → Indexes new_id present ws
      → Indexes new_id (λ b. present b || sets_from s sets b) (seed_rule_sets new_id s sets ws)
        × ((seed_rule_sets new_id s sets ws).rule_sets ≡ ws.rule_sets)
        × ((seed_rule_sets new_id s sets ws).middlewares_file_paths ≡ ws.middlewares_file_paths)
  unfolding seed_rule_sets
  seed_rule_sets_lem s [] present ws h =
      (Indexes-cong new_id present _ ws (λ a c. ground arith) h, refl, refl)
  seed_rule_sets_lem s (rs ∷ rest) present ws h =
      let with_set = (mint new_id (rule_set s) ws).1 in
      let n = length rs.rules in
      let with_rules = (mint_rules new_id s 0 n [] with_set).1 in
      let (sets, middlewares) = mint_rules-config new_id s 0 n [] with_set in
      let (all, sets', middlewares') = seed_rule_sets_lem (suc s) rest _ with_rules (
        mint_rules_lem new_id new_id-inj s 0 n [] _ with_set
          (mint_lem new_id new_id-inj (rule_set s) present ws h)) in
      (
        Indexes-cong new_id _ _ (seed_rule_sets new_id (suc s) rest with_rules)
            (λ a c. ground arith) all,
        sets' ∙ sets,
        middlewares' ∙ middlewares,
      )

  seed_middlewares_lem :
      (i count : ℕ) (present : NodeAddress → Bool) (ws : Workspace)
      → Indexes new_id present ws
      → Indexes new_id
          (λ b. present b || middlewares_from i count b)
          (seed_middlewares new_id i count ws)
        × ((seed_middlewares new_id i count ws).rule_sets ≡ ws.rule_sets)
        × ((seed_middlewares new_id i count ws).middlewares_file_paths ≡ ws.middlewares_file_paths)
  unfolding seed_middlewares
  seed_middlewares_lem i zero present ws h =
      (Indexes-cong new_id present _ ws (λ a c. ground arith) h, refl, refl)
  seed_middlewares_lem i (suc count) present ws h =
      let with_one = (mint new_id (middleware i) ws).1 in
      let (all, sets, middlewares) =
        seed_middlewares_lem (suc i) count _ with_one
          (mint_lem new_id new_id-inj (middleware i) present ws h) in
      (
        Indexes-cong new_id _ _ (seed_middlewares new_id (suc i) count with_one)
            (λ a c. ground arith) all,
        sets,
        middlewares,
      )

  empty-Indexes :
      (ws : Workspace) → Indexes new_id (λ a. false) record ws { ids = empty_index; minted = 0 }
  unfolding lookup_in
  empty-Indexes ws = (
    ((λ id a. ((λ h. absurd (none-ne-some a h)), (λ h. absurd (none-ne-some id h)))), tt),
    (λ j h. refl),
    λ a c. refl,
  )

  all_nodes :
      (sets : List RuleSet) (m : ℕ) (a : NodeAddress)
      → ((((false || address_eq root a) || address_eq fallback_respond_dir a) || sets_from 0 sets a)
          || middlewares_from 0 m a)
        ≡ exists_in (count_of sets) m a
  unfolding address_eq text_eq
  all_nodes sets m a = rw (sets_from_lem 0 sets a, middlewares_from_lem 0 m a) (by_kind a)
    where
      by_kind :
          (a : NodeAddress)
          → ((((false || address_eq root a) || address_eq fallback_respond_dir a)
                || stands_in 0 sets a)
              || is_middleware 0 (0 + m) a)
            ≡ exists_in (count_of sets) m a
      by_kind (rule_set t) = ground (arith, ap (λ k. is_some (count_of sets k)) (minus_zero t))
      by_kind (rule t i) =
          ground (arith, ap (λ k. is_some_and (ltb i) (count_of sets k)) (minus_zero t))
      by_kind (respond t i) =
          ground (arith, ap (λ k. is_some_and (ltb i) (count_of sets k)) (minus_zero t))
      by_kind a = ground arith

  pub load_ids-IsConsistent : (ws : Workspace) → IsConsistent new_id (load_ids new_id ws)
  unfolding load_ids seed_ids
  load_ids-IsConsistent ws =
      let m = middleware_count ws.middlewares_file_paths in
      let start = record ws { ids = empty_index; minted = 0 } in
      let with_root = (mint new_id root start).1 in
      let with_dir = (mint new_id fallback_respond_dir with_root).1 in
      let (some_sets, sets, middlewares) = seed_rule_sets_lem 0 ws.rule_sets _ with_dir (
        mint_lem new_id new_id-inj fallback_respond_dir _ with_root
          (mint_lem new_id new_id-inj root (λ a. false) start (empty-Indexes ws))) in
      let with_sets = seed_rule_sets new_id 0 ws.rule_sets with_dir in
      let (all, sets', middlewares') = seed_middlewares_lem 0 m _ with_sets some_sets in
      let after = seed_middlewares new_id 0 m with_sets in
      Indexes-cong new_id _ (node_exists after) after
        (λ a c.
          all_nodes ws.rule_sets m a
          ∙ sym (
              ap (λ x. exists_in (count_of x) (middleware_count after.middlewares_file_paths) a)
                (sets' ∙ sets)
              ∙ ap (λ o. exists_in (count_of ws.rule_sets) (middleware_count o) a)
                  (middlewares' ∙ middlewares)))
        all
