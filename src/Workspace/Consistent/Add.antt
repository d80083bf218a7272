-- ===== src/Workspace/Consistent/Add.antt =====
-- The additions: `cmd_add_rule`, `cmd_add_rule_set`, and the loop that both they and `seed_ids` of
-- crates/apimock-config/src/workspace.rs share.
use apimock_rs.Prelude.{
  ℕ, zero, suc, ◌+◌, ◌≡◌, refl, sym, ap, ◌∙◌, Bool, true, false, ◌||◌, Option, none, some, List, [],
  ◌∷◌, ◌++◌, arith, ◌==◌, ==_iff, if◌then◌else◌, length, length-append, get_elem?, get_elem?-append,
  unwrap_or,
}
use apimock_rs.Prelude.Text.{Text, text_eq}
use apimock_rs.Routing.Libraries.{Libraries}
use apimock_rs.Routing.Rule.{Rule}
use apimock_rs.Routing.RuleSet.{RuleSet}
use apimock_rs.Workspace.{NodeAddress, rule_set, rule, respond, address_eq}
use apimock_rs.Workspace.Stable.{map_to}
use apimock_rs.Workspace.State.{
  Workspace, refused, mint, invalid_payload, no_relative_dir, rule_set_not_loaded,
}
use apimock_rs.Workspace.View.{RulePayload}
use apimock_rs.Workspace.Payload.{build_rule_from_payload}
use apimock_rs.Workspace.Nodes.{with_rules, mint_rules}
use apimock_rs.Workspace.Reorder.Rows.{
  between, is_rule, is_respond, address_eq-rule, address_eq-respond,
}
use apimock_rs.Workspace.Edit.Rule.{add_at, build_and_add, cmd_add_rule}
use apimock_rs.Workspace.Edit.RuleSet.{
  Disk, Called, gives, fails, load_rule_set, join_path, add_loaded, cmd_add_rule_set,
}
use apimock_rs.Workspace.Consistent.{
  exists_in, exists_in-cong, rule_count, node_exists, IsConsistent, Indexes, Indexes-cong,
}
use apimock_rs.Workspace.Apply.{middleware_count}
use apimock_rs.Workspace.Consistent.Mint.{mint_lem}
use apimock_rs.Workspace.Consistent.Kept.{
  IsKept, try_with_lem, nth_rule_set_sound, rule_count-with_rules,
}

-- Two more addresses are those of one more rule.
one_more :
    (count : ℕ → Option ℕ) (m s n : ℕ) (a : NodeAddress)
    → count s ≡ some n
    → ((exists_in count m a || address_eq (rule s n) a) || address_eq (respond s n) a)
      ≡ exists_in (λ t. if s == t then some (suc n) else count t) m a
one_more count m s n a h = rw (address_eq-rule s n a, address_eq-respond s n a) (by_kind a)
  where
    count_at : (t : ℕ) → (s == t) ≡ true → count t ≡ some n
    count_at t e = ap count (sym ((==_iff s t).0 e)) ∙ h

    by_kind :
        (a : NodeAddress)
        → ((exists_in count m a || is_rule s n a) || is_respond s n a)
          ≡ exists_in (λ t. if s == t then some (suc n) else count t) m a
    by_kind (rule t i) = ground (arith, count_at t)
    by_kind (respond t i) = ground (arith, count_at t)
    by_kind (rule_set t) = ground (arith, count_at t)
    by_kind a = ground arith

-- The addresses of a rule set behind the last one.
one_more_set :
    (count : ℕ → Option ℕ) (m s n : ℕ) (a : NodeAddress)
    → count s ≡ none
    → ((exists_in count m a || address_eq (rule_set s) a) || between s 0 0 n a)
      ≡ exists_in (λ t. if s == t then some n else count t) m a
unfolding address_eq text_eq
one_more_set count m s n a h = by_kind a
  where
    count_at : (t : ℕ) → (s == t) ≡ true → count t ≡ none
    count_at t e = ap count (sym ((==_iff s t).0 e)) ∙ h

    by_kind :
        (a : NodeAddress)
        → ((exists_in count m a || address_eq (rule_set s) a) || between s 0 0 n a)
          ≡ exists_in (λ t. if s == t then some n else count t) m a
    by_kind (rule t i) = ground (arith, count_at t)
    by_kind (respond t i) = ground (arith, count_at t)
    by_kind (rule_set t) = ground (arith, count_at t)
    by_kind a = ground arith

next_between :
    (p : Bool) (s r count : ℕ) (a : NodeAddress)
    → (((p || address_eq (rule s r) a) || address_eq (respond s r) a)
        || between s (suc r) (suc r) (suc r + count) a)
      ≡ (p || between s r r (r + suc count) a)
next_between p s r count a = rw (address_eq-rule s r a, address_eq-respond s r a) (by_kind a)
  where
    by_kind :
        (a : NodeAddress)
        → (((p || is_rule s r a) || is_respond s r a)
            || between s (suc r) (suc r) (suc r + count) a)
          ≡ (p || between s r r (r + suc count) a)
    by_kind (rule t i) = ground arith
    by_kind (respond t i) = ground arith
    by_kind a = ground arith

get_elem?-length {ℓ} : {A : Type ℓ} (xs : List A) → get_elem? xs (length xs) ≡ none
get_elem?-length [] = refl
get_elem?-length (x ∷ xs) = get_elem?-length xs

rule_count-end : (ws : Workspace) → rule_count ws (length ws.rule_sets) ≡ none
rule_count-end ws = ap (λ o. map_to o (λ x. length x.rules)) (get_elem?-length ws.rule_sets)

zero_add : (n : ℕ) → 0 + n ≡ n
zero_add n = omega arith

pub mint_rules-config :
    (new_id : ℕ → ℕ) (s r count : ℕ) (changed : List ℕ) (ws : Workspace)
    → ((mint_rules new_id s r count changed ws).1.rule_sets ≡ ws.rule_sets)
      × ((mint_rules new_id s r count changed ws).1.middlewares_file_paths
          ≡ ws.middlewares_file_paths)
unfolding mint_rules
mint_rules-config new_id s r zero changed ws = (refl, refl)
mint_rules-config new_id s r (suc count) changed ws =
    let (r_id, with_rule) = mint new_id (rule s r) ws in
    let (resp_id, with_both) = mint new_id (respond s r) with_rule in
    mint_rules-config new_id s (suc r) count (changed ++ (r_id ∷ resp_id ∷ [])) with_both

module _ (new_id : ℕ → ℕ) (new_id-inj : (j k : ℕ) → new_id j ≡ new_id k → j ≡ k) where
  pub mint_rules_lem :
      (s r count : ℕ) (changed : List ℕ) (present : NodeAddress → Bool) (ws : Workspace)
      → Indexes new_id present ws
      → Indexes new_id
          (λ b. present b || between s r r (r + count) b)
          (mint_rules new_id s r count changed ws).1
  unfolding mint_rules
  mint_rules_lem s r zero changed present ws h =
      Indexes-cong new_id present _ ws (λ a c. ground arith) h
  mint_rules_lem s r (suc count) changed present ws h =
      let (r_id, with_rule) = mint new_id (rule s r) ws in
      let (resp_id, with_both) = mint new_id (respond s r) with_rule in
      let ids = changed ++ (r_id ∷ resp_id ∷ []) in
      Indexes-cong new_id _ _ (mint_rules new_id s (suc r) count ids with_both).1
        (λ a c. next_between (present a) s r count a)
        (mint_rules_lem s (suc r) count ids _ with_both (
          mint_lem new_id new_id-inj (respond s r) _ with_rule
            (mint_lem new_id new_id-inj (rule s r) present ws h)))

  module _ (ws : Workspace) (consistent : IsConsistent new_id ws) where
    add_at-IsKept :
        (parent s : ℕ) (rs : RuleSet) (built : Rule)
        → get_elem? ws.rule_sets s ≡ some rs
        → IsKept new_id false ws (add_at new_id parent ws s rs built)
    add_at-IsKept parent s rs built found =
        let n = length rs.rules in
        let pushed = with_rules s rs (rs.rules ++ (built ∷ [])) ws in
        let m = middleware_count ws.middlewares_file_paths in
        let counted : rule_count ws s ≡ some n = ap (λ o. map_to o (λ x. length x.rules)) found in
        let with_rule = (mint new_id (rule s n) pushed).1 in
        Indexes-cong new_id _ (node_exists pushed) (mint new_id (respond s n) with_rule).1
          (λ a c.
            one_more (rule_count ws) m s n a counted
            ∙ sym (
                exists_in-cong (rule_count pushed) _ m a (λ t.
                  rule_count-with_rules s t rs (rs.rules ++ (built ∷ [])) ws found
                  ∙ ap (λ k. if s == t then some k else rule_count ws t)
                      (length-append rs.rules (built ∷ []) ∙ omega arith))))
          (mint_lem new_id new_id-inj (respond s n) _ with_rule
            (mint_lem new_id new_id-inj (rule s n) (node_exists ws) pushed consistent))

    pub add_rule-IsKept :
        (lib : Libraries) (to_lowercase : Text → Text) (parent : ℕ)
        (payload : RulePayload lib.Number)
        → IsKept new_id false ws (cmd_add_rule lib to_lowercase new_id parent payload ws)
    unfolding cmd_add_rule
    add_rule-IsKept lib to_lowercase parent payload =
        try_with_lem (IsKept new_id false ws) ws _ _ (λ e. refl)
          (λ s e.
            try_with_lem (IsKept new_id false ws) ws _
              (build_and_add lib to_lowercase new_id parent payload ws s) (λ e. refl)
              (λ rs f.
                try_with_lem (IsKept new_id false ws) ws
                  (build_rule_from_payload lib to_lowercase payload rs.prefix none)
                  (add_at new_id parent ws s rs) (λ e. refl)
                  (λ built g. add_at-IsKept parent s rs built (nth_rule_set_sound s rs ws f))))

    -- The workspace with a loaded rule set behind the last one, before its identities are minted.
    abbrev pushed_set : Text → RuleSet → Workspace
    pushed_set path rs = record ws {
      rule_sets_file_paths = some (unwrap_or ws.rule_sets_file_paths [] ++ (path ∷ []));
      rule_sets = ws.rule_sets ++ (rs ∷ []);
    }

    added-IsKept :
        (path : Text) (rs : RuleSet) → IsKept new_id false ws (add_loaded new_id path rs ws)
    unfolding add_loaded
    added-IsKept path rs =
        let s = length ws.rule_sets in
        let n = length rs.rules in
        let m = middleware_count ws.middlewares_file_paths in
        let (rs_id, with_set) = mint new_id (rule_set s) (pushed_set path rs) in
        let after = (mint_rules new_id s 0 n (rs_id ∷ []) with_set).1 in
        let (sets, middlewares) = mint_rules-config new_id s 0 n (rs_id ∷ []) with_set in
        Indexes-cong new_id _ (node_exists after) after
          (λ a c.
            ap (λ k. (node_exists ws a || address_eq (rule_set s) a) || between s 0 0 k a)
              (zero_add n)
            ∙ one_more_set (rule_count ws) m s n a (rule_count-end ws)
            ∙ sym (
                ap (λ o. exists_in (rule_count after) (middleware_count o) a) middlewares
                ∙ exists_in-cong (rule_count after) _ m a (λ t.
                  ap (λ xs. map_to (get_elem? xs t) (λ x. length x.rules)) sets
                  ∙ ap (λ o. map_to o (λ x. length x.rules)) (get_elem?-append ws.rule_sets rs t)
                  ∙ ground arith)))
          (mint_rules_lem s 0 n (rs_id ∷ []) _ with_set (
            mint_lem new_id new_id-inj (rule_set s) (node_exists ws) (pushed_set path rs)
              consistent))

    pub add_rule_set-IsKept :
        (lib : Libraries) (disk : Disk) (path : Text)
        → IsKept new_id false ws (cmd_add_rule_set lib disk new_id path ws)
    unfolding cmd_add_rule_set
    add_rule_set-IsKept lib disk path = by_dir disk.config_relative_dir
      where
        by_loaded :
            (o : Called RuleSet)
            → IsKept new_id false ws (elim o [
              | fails e ↦ refused (invalid_payload (rule_set_not_loaded path e)) ws
              | gives new_rule_set ↦ add_loaded new_id path new_rule_set ws
            ])
        by_loaded (fails e) = refl
        by_loaded (gives rs) = added-IsKept path rs

        by_dir :
            (o : Called Text)
            → IsKept new_id false ws (elim o [
              | fails e ↦ refused (invalid_payload (no_relative_dir e)) ws
              | gives dir ↦ elim (load_rule_set lib disk (join_path dir path) dir) [
                | fails e ↦ refused (invalid_payload (rule_set_not_loaded path e)) ws
                | gives new_rule_set ↦ add_loaded new_id path new_rule_set ws
              ]
            ])
        by_dir (fails e) = refl
        by_dir (gives dir) = by_loaded (load_rule_set lib disk (join_path dir path) dir)
