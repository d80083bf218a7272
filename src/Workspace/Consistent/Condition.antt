-- ===== src/Workspace/Consistent/Condition.antt =====
-- The commands on single conditions of crates/apimock-config/src/workspace/edit/condition.rs.
use apimock_rs.Prelude.{
  ℕ, ◌≡◌, refl, sym, ap, ◌∙◌, inl, inr, Bool, true, false, Option, none, some, arith, ltb, length,
  get_elem?, get_elem?_of_lt, is_some, is_some_and, Bool-cases,
}
use apimock_rs.Prelude.Text.{Text}
use apimock_rs.Routing.Libraries.{Libraries}
use apimock_rs.Routing.Request.{Request}
use apimock_rs.Routing.Rule.{Rule}
use apimock_rs.Routing.RuleSet.{RuleSet}
use apimock_rs.Workspace.{NodeAddress, rule, header_condition, body_condition, lookup}
use apimock_rs.Workspace.Stable.{map_to}
use apimock_rs.Workspace.State.{ok, Workspace, Outcome}
use apimock_rs.Workspace.View.{HeaderConditionPayload, BodyConditionPayload}
use apimock_rs.Workspace.Slots.{length-set_at}
use apimock_rs.Workspace.Nodes.{known}
use apimock_rs.Workspace.Edit.Condition.{
  rule_indices_of, find_rule_indices, edit_request, edit_rule_in, edit_set, report_rule,
  report_added, report_replaced, put_header, put_body, replace_header, replace_body, remove_header,
  remove_body, as_header_condition, as_body_condition, header_statement, body_statement,
  cmd_add_header_condition, cmd_update_header_condition, cmd_remove_header_condition,
  cmd_add_body_condition, cmd_update_body_condition, cmd_remove_body_condition,
}
use apimock_rs.Workspace.Consistent.{node_exists, IsConsistent}
use apimock_rs.Workspace.Consistent.Mint.{mint_condition}
use apimock_rs.Workspace.Consistent.Kept.{IsKept, try_with_lem}
use apimock_rs.Workspace.Consistent.Update.{replaced-IsConsistent, true-ne-false}

-- A rule stands at two positions.
abbrev pub has_rule : ℕ → Option RuleSet → Bool
has_rule r o = is_some_and (λ rs. is_some (get_elem? rs.rules r)) o

module _ (new_id : ℕ → ℕ) (ws : Workspace) (consistent : IsConsistent new_id ws) where
  -- An edit of the request conditions of a rule, then a command's end that keeps consistency.
  edit_request-IsKept :
      (may_panic : Bool) (s r : ℕ) (change : Request → Request) (rest : Workspace → Outcome)
      → (has_rule r (get_elem? ws.rule_sets s) ≡ false → may_panic ≡ true)
      → ((after : Workspace) → IsConsistent new_id after → IsKept new_id may_panic ws (rest after))
      → IsKept new_id may_panic ws (edit_request s r change ws rest)
  unfolding edit_request
  edit_request-IsKept may_panic s r change rest missing kept =
      by_set (get_elem? ws.rule_sets s) refl
    where
      by_rule :
          (rs : RuleSet)
          → get_elem? ws.rule_sets s ≡ some rs
          → (o : Option Rule) → get_elem? rs.rules r ≡ o
          → IsKept new_id may_panic ws (edit_rule_in s r change ws rest rs o)
      by_rule rs found none e = (missing (ap (has_rule r) found ∙ ap is_some e), refl)
      by_rule rs found (some x) e =
          kept _
            (replaced-IsConsistent new_id ws consistent s rs _ found (length-set_at rs.rules r _))

      by_set :
          (o : Option RuleSet)
          → get_elem? ws.rule_sets s ≡ o
          → IsKept new_id may_panic ws (edit_set s r change ws rest o)
      by_set none e = (missing (ap (has_rule r) e), refl)
      by_set (some rs) e = by_rule rs e (get_elem? rs.rules r) refl

  pub remove_header-IsKept : (id : ℕ) → IsKept new_id true ws (cmd_remove_header_condition id ws)
  unfolding cmd_remove_header_condition
  remove_header-IsKept id =
      try_with_lem (IsKept new_id true ws) ws (as_header_condition (known id ws)) _ (λ e. refl)
        (λ (s, r, name) e.
          edit_request-IsKept true s r (remove_header name) (report_rule id s r) (λ h. refl)
            (λ after h. h))

  pub remove_body-IsKept : (id : ℕ) → IsKept new_id true ws (cmd_remove_body_condition id ws)
  unfolding cmd_remove_body_condition
  remove_body-IsKept id =
      try_with_lem (IsKept new_id true ws) ws (as_body_condition (known id ws)) _ (λ e. refl)
        (λ (s, r, path) e.
          edit_request-IsKept true s r (remove_body path) (report_rule id s r) (λ h. refl)
            (λ after h. h))

  module _ (new_id-inj : (j k : ℕ) → new_id j ≡ new_id k → j ≡ k) (lib : Libraries)
      (to_lowercase : Text → Text) where
    open lib use {Number}

    pub update_header-IsKept :
        (id : ℕ) (payload : HeaderConditionPayload)
        → IsKept new_id true ws (cmd_update_header_condition lib to_lowercase new_id id payload ws)
    unfolding cmd_update_header_condition
    update_header-IsKept id payload =
        try_with_lem (IsKept new_id true ws) ws (as_header_condition (known id ws)) _ (λ e. refl)
          (λ (s, r, old) e.
            edit_request-IsKept true s r
              (replace_header old (to_lowercase payload.name)
                (header_statement lib to_lowercase new_id payload))
              (report_replaced lib to_lowercase new_id
                (header_condition s r (to_lowercase payload.name)))
              (λ h. refl)
              (λ after h.
                mint_condition new_id new_id-inj (header_condition s r (to_lowercase payload.name))
                  (node_exists after) after refl h))

    pub update_body-IsKept :
        (id : ℕ) (payload : BodyConditionPayload Number)
        → IsKept new_id true ws (cmd_update_body_condition lib to_lowercase new_id id payload ws)
    unfolding cmd_update_body_condition
    update_body-IsKept id payload =
        try_with_lem (IsKept new_id true ws) ws (as_body_condition (known id ws)) _ (λ e. refl)
          (λ (s, r, old) e.
            edit_request-IsKept true s r
              (replace_body old payload.path (body_statement lib to_lowercase new_id payload))
              (report_replaced lib to_lowercase new_id (body_condition s r payload.path))
              (λ h. refl)
              (λ after h.
                mint_condition new_id new_id-inj (body_condition s r payload.path)
                  (node_exists after) after refl h))

    rule_there :
        (id s r : ℕ)
        → find_rule_indices id ws ≡ ok (s, r)
        → has_rule r (get_elem? ws.rule_sets s) ≡ false
        → false ≡ true
    unfolding find_rule_indices
    rule_there id s r h e =
        let (index, fresh, covers) = consistent in
        absurd (
          true-ne-false (
            sym
              (ap is_some ((index.0 id (rule s r)).0 (rule_indices_of_sound (lookup id ws.ids) h)))
            ∙ covers (rule s r) refl
            ∙ by_set (get_elem? ws.rule_sets s) e))
      where
        rule_indices_of_sound :
            (o : Option NodeAddress) → rule_indices_of id o ≡ ok (s, r) → o ≡ some (rule s r)
        rule_indices_of_sound none k = cc
        rule_indices_of_sound (some (rule t i)) k = cc
        rule_indices_of_sound (some a) k = cc

        by_set :
            (o : Option RuleSet)
            → has_rule r o ≡ false
            → is_some_and (ltb r) (map_to o (λ x. length x.rules)) ≡ false
        by_set none k = refl
        by_set (some rs) k = elim (Bool-cases (ltb r (length rs.rules))) [
          | inl f ↦
              let (x, g) = get_elem?_of_lt rs.rules r (ground arith) in
              absurd (true-ne-false (sym (ap is_some g) ∙ k))
          | inr f ↦ f
        ]

    pub add_header-IsKept :
        (id : ℕ) (payload : HeaderConditionPayload)
        → IsKept new_id false ws (cmd_add_header_condition lib to_lowercase new_id id payload ws)
    unfolding cmd_add_header_condition
    add_header-IsKept id payload =
        let name = to_lowercase payload.name in
        try_with_lem (IsKept new_id false ws) ws (find_rule_indices id ws) _ (λ e. refl)
          (λ (s, r) e.
            edit_request-IsKept false s r
              (put_header name (header_statement lib to_lowercase new_id payload))
              (report_added lib to_lowercase new_id id s r (header_condition s r name))
              (rule_there id s r e)
              (λ after h.
                mint_condition new_id new_id-inj (header_condition s r name) (node_exists after)
                  after refl h))

    pub add_body-IsKept :
        (id : ℕ) (payload : BodyConditionPayload Number)
        → IsKept new_id false ws (cmd_add_body_condition lib to_lowercase new_id id payload ws)
    unfolding cmd_add_body_condition
    add_body-IsKept id payload =
        try_with_lem (IsKept new_id false ws) ws (find_rule_indices id ws) _ (λ e. refl)
          (λ (s, r) e.
            edit_request-IsKept false s r
              (put_body payload.path (body_statement lib to_lowercase new_id payload))
              (report_added lib to_lowercase new_id id s r (body_condition s r payload.path))
              (rule_there id s r e)
              (λ after h.
                mint_condition new_id new_id-inj (body_condition s r payload.path)
                  (node_exists after) after refl h))
