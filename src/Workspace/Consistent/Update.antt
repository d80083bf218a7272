-- ===== src/Workspace/Consistent/Update.antt =====
-- The commands that change the configuration in place: a rule, a response, a condition, a strategy, a
-- setting of the root.
use apimock_rs.Prelude.{
  ℕ, ◌≡◌, refl, sym, ap, ◌∙◌, inl, inr, true, false, Option, none, some, [], ◌∷◌, arith, ◌==◌,
  ==_iff, if◌then◌else◌, length, get_elem?, get_elem?_lt, Bool-cases, is_some,
}
use apimock_rs.Prelude.Text.{Text}
use apimock_rs.Routing.Libraries.{Libraries}
use apimock_rs.Routing.Rule.{Rule}
use apimock_rs.Routing.RuleSet.{RuleSet}
use apimock_rs.Routing.Strategy.{Strategy}
use apimock_rs.Workspace.{NodeAddress, root, rule_set, respond, lookup, id_for}
use apimock_rs.Workspace.Stable.{map_to}
use apimock_rs.Workspace.State.{
  Result, ok, err, Workspace, Outcome, done, try_with, id_or_default, Settles, then_ok-Settles,
  rule_out_of_range, rule_not_found, unknown_strategy,
}
use mathlib.Core.Option
use apimock_rs.Workspace.View.{RulePayload, RespondPayload, EditValue}
use apimock_rs.Workspace.Payload.{
  strategy_after_choosing, value_as_text, value_as_integer, value_as_bool, value_as_string_list,
  build_rule_from_payload, build_respond_from_payload,
}
use apimock_rs.Workspace.Slots.{set_at, length-set_at, get_elem?-set_at}
use apimock_rs.Workspace.Nodes.{with_rules, or_invalid}
use apimock_rs.Workspace.Edit.Rule.{
  update_at, cmd_update_rule, nth_rule, rule_in, rule_found, with_respond, cmd_update_respond,
}
use apimock_rs.Workspace.Edit.RuleSet.{
  rule_set_of, parse_strategy_name, set_strategy_at, cmd_update_rule_set_strategy,
}
use apimock_rs.Routing.Strategy.{from_bare_name}
use apimock_rs.Workspace.Edit.RootSetting.{
  RootSettingKey, listener_port, listener_ip_address, service_fallback_respond_dir, tls_enabled,
  tls_cert_file, tls_key_file, log_file, file_tree_show_hidden, file_tree_builtin_excludes,
  file_tree_extra_excludes, file_tree_include, file_tree_respect_gitignore, service_strategy,
  log_level, log_format, trace_capture_body, trace_max_body_bytes, set_port, set_service_strategy,
  set_root, report_root, cmd_update_root_setting,
}
use apimock_rs.Workspace.Consistent.{
  exists_in-cong, rule_count, node_exists, IsConsistent, Indexes-cong,
}
use apimock_rs.Workspace.Apply.{middleware_count}
use apimock_rs.Workspace.Consistent.Kept.{IsKept, try_with_lem, nth_rule_set_sound}

pub true-ne-false : true ≡ false → ⊥
true-ne-false h = cc

module _ (new_id : ℕ → ℕ) (ws : Workspace) (consistent : IsConsistent new_id ws) where
  -- A rule set with as many rules keeps the addresses.
  pub replaced-IsConsistent :
      (s : ℕ) (rs rs' : RuleSet)
      → get_elem? ws.rule_sets s ≡ some rs
      → length rs'.rules ≡ length rs.rules
      → IsConsistent new_id record ws { rule_sets = set_at s rs' ws.rule_sets }
  replaced-IsConsistent s rs rs' found same =
      let after = record ws { rule_sets = set_at s rs' ws.rule_sets } in
      Indexes-cong new_id (node_exists ws) (node_exists after) after
        (λ a c.
          exists_in-cong (rule_count ws) (rule_count after)
            (middleware_count ws.middlewares_file_paths) a
            (λ t. sym (
              ap (λ o. map_to o (λ x. length x.rules))
                (get_elem?-set_at ws.rule_sets s t rs' (get_elem?_lt ws.rule_sets s rs found))
              ∙ by_position t)))
        consistent
    where
      by_position :
          (t : ℕ)
          → map_to (if s == t then some rs' else get_elem? ws.rule_sets t) (λ x. length x.rules)
            ≡ rule_count ws t
      by_position t = elim (Bool-cases (s == t)) [
        | inl e ↦ rw e (
            ap (λ n. some n) same
            ∙ sym (ap (λ o. map_to o (λ x. length x.rules)) found)
            ∙ ap (rule_count ws) ((==_iff s t).0 e))
        | inr e ↦ rw e refl
      ]

  id_or_default-IsConsistent :
      (o : Option ℕ) (placed : Workspace)
      → IsConsistent new_id placed
      → IsConsistent new_id (id_or_default new_id o placed).1
  id_or_default-IsConsistent (some id) placed h = h
  id_or_default-IsConsistent none placed (index, fresh, covers) =
      (index, λ j h. fresh j (omega arith), covers)

  pub update_rule-IsKept :
      (lib : Libraries) (to_lowercase : Text → Text) (id : ℕ) (payload : RulePayload lib.Number)
      → IsKept new_id false ws (cmd_update_rule lib to_lowercase new_id id payload ws)
  unfolding cmd_update_rule
  update_rule-IsKept lib to_lowercase id payload =
      try_with_lem (IsKept new_id false ws) ws _ _ (λ e. refl)
        (λ (s, r) e.
          try_with_lem (IsKept new_id false ws) ws _
            (update_at lib to_lowercase new_id id payload ws s r) (λ e. refl)
            (λ rs f. in_set s r rs (nth_rule_set_sound s rs ws f)))
    where
      placed : ℕ → ℕ → RuleSet → Rule → Workspace
      placed s r rs built = with_rules s rs (set_at r built rs.rules) ws

      replaced : ℕ → ℕ → RuleSet → Rule → Outcome
      replaced s r rs built =
          let (resp_id, after) =
            id_or_default new_id (id_for (respond s r) ws.ids) (placed s r rs built) in
          done (id ∷ resp_id ∷ []) after

      in_set :
          (s r : ℕ) (rs : RuleSet)
          → get_elem? ws.rule_sets s ≡ some rs
          → IsKept new_id false ws (update_at lib to_lowercase new_id id payload ws s r rs)
      in_set s r rs found =
          try_with_lem (IsKept new_id false ws) ws
            (build_rule_from_payload lib to_lowercase payload rs.prefix (get_elem? rs.rules r))
            (λ built.
              try_with ws (or_invalid (rule_out_of_range r) (get_elem? rs.rules r))
                (λ old. replaced s r rs built))
            (λ e. refl)
            (λ built g.
              try_with_lem (IsKept new_id false ws) ws
                (or_invalid (rule_out_of_range r) (get_elem? rs.rules r))
                (λ old. replaced s r rs built) (λ e. refl)
                (λ old h.
                  id_or_default-IsConsistent (id_for (respond s r) ws.ids) (placed s r rs built) (
                    replaced-IsConsistent s rs record rs { rules = set_at r built rs.rules } found
                      (length-set_at rs.rules r built))))

  pub update_respond-IsKept :
      (lib : Libraries) (id : ℕ) (payload : RespondPayload)
      → IsKept new_id false ws (cmd_update_respond lib id payload ws)
  unfolding cmd_update_respond
  update_respond-IsKept lib id payload =
      try_with_lem (IsKept new_id false ws) ws _ _ (λ e. refl)
        (λ (s, r) e.
          try_with_lem (IsKept new_id false ws) ws
            (or_invalid (rule_not_found s r) (nth_rule s r ws)) (changed s r) (λ e. refl)
            (λ (rs, found) f.
              replaced-IsConsistent s rs record rs { rules = set_at r (derived rs found) rs.rules }
                (rule_in_sound s r rs found (get_elem? ws.rule_sets s) f)
                (length-set_at rs.rules r (derived rs found))))
    where
      derived : RuleSet → Rule → Rule
      derived rs found = with_respond lib (build_respond_from_payload payload) rs.prefix found

      changed : ℕ → ℕ → RuleSet × Rule → Outcome
      changed s r (rs, found) =
          done (id ∷ []) (with_rules s rs (set_at r (derived rs found) rs.rules) ws)

      rule_in_sound :
          (s r : ℕ) (rs : RuleSet) (found : Rule) (o : Option RuleSet)
          → or_invalid (rule_not_found s r) (rule_in r o) ≡ ok (rs, found)
          → o ≡ some rs
      rule_in_sound s r rs found none h = cc
      rule_in_sound s r rs found (some x) h = by_rule (get_elem? x.rules r) h
        where
          by_rule :
              (o : Option Rule)
              → or_invalid (rule_not_found s r) (rule_found x o) ≡ ok (rs, found)
              → some x ≡ some rs
          by_rule none k = cc
          by_rule (some y) k = ap (λ z. some z) (fst-inj k)
            where
              fst-inj : {a b : RuleSet × Rule} → Result.ok a ≡ ok b → a.0 ≡ b.0
              fst-inj p = cc

  -- A setting of the root touches neither the rule sets nor the identities.
  set_root-Settles :
      {N : Type 0} (key : RootSettingKey) (value : EditValue N)
      → Settles (IsConsistent new_id) (set_root key value ws)
  unfolding set_root
  set_root-Settles listener_port value =
      then_ok-Settles (IsConsistent new_id) (value_as_integer value) (λ n. set_port n ws)
        (λ n. ground arith)
  set_root-Settles service_strategy value =
      then_ok-Settles (IsConsistent new_id) (value_as_text value) (λ s. set_service_strategy s ws)
        (λ s.
          then_ok-Settles (IsConsistent new_id) (or_invalid (unknown_strategy s) (from_bare_name s))
            _ (λ chosen. consistent))
  set_root-Settles log_level value =
      then_ok-Settles (IsConsistent new_id) (value_as_text value) _ (λ s. ground arith)
  set_root-Settles log_format value =
      then_ok-Settles (IsConsistent new_id) (value_as_text value) _ (λ s. ground arith)
  set_root-Settles trace_capture_body value = consistent
  set_root-Settles trace_max_body_bytes value = consistent
  set_root-Settles listener_ip_address value =
      then_ok-Settles (IsConsistent new_id) (value_as_text value) _ (λ s. consistent)
  set_root-Settles service_fallback_respond_dir value =
      then_ok-Settles (IsConsistent new_id) (value_as_text value) _ (λ s. consistent)
  set_root-Settles tls_enabled value =
      then_ok-Settles (IsConsistent new_id) (value_as_bool value) _ (λ s. consistent)
  set_root-Settles tls_cert_file value =
      then_ok-Settles (IsConsistent new_id) (value_as_text value) _ (λ s. consistent)
  set_root-Settles tls_key_file value =
      then_ok-Settles (IsConsistent new_id) (value_as_text value) _ (λ s. consistent)
  set_root-Settles log_file value =
      then_ok-Settles (IsConsistent new_id) (value_as_text value) _ (λ s. consistent)
  set_root-Settles file_tree_show_hidden value =
      then_ok-Settles (IsConsistent new_id) (value_as_bool value) _ (λ s. consistent)
  set_root-Settles file_tree_builtin_excludes value =
      then_ok-Settles (IsConsistent new_id) (value_as_bool value) _ (λ s. consistent)
  set_root-Settles file_tree_extra_excludes value =
      then_ok-Settles (IsConsistent new_id) (value_as_string_list value) _ (λ s. consistent)
  set_root-Settles file_tree_include value =
      then_ok-Settles (IsConsistent new_id) (value_as_string_list value) _ (λ s. consistent)
  set_root-Settles file_tree_respect_gitignore value =
      then_ok-Settles (IsConsistent new_id) (value_as_bool value) _ (λ s. consistent)

  pub update_root_setting-IsKept :
      {N : Type 0} (key : RootSettingKey) (value : EditValue N)
      → IsKept new_id false ws (cmd_update_root_setting key value ws)
  unfolding cmd_update_root_setting
  update_root_setting-IsKept key value =
      by_result (set_root key value ws) (set_root-Settles key value)
    where
      root_known :
          (after : Workspace)
          → IsConsistent new_id after
          → (o : Option ℕ) → id_for root after.ids ≡ o
          → IsKept new_id false ws (report_root after o)
      root_known after h (some id) e = h
      root_known after (index, fresh, covers) none e =
          absurd (true-ne-false (sym (covers root refl) ∙ ap is_some e))

      by_result :
          (x : Result Workspace)
          → Settles (IsConsistent new_id) x
          → IsKept new_id false ws
              (try_with ws x (λ after. report_root after (id_for root after.ids)))
      by_result (ok after) h = root_known after h (id_for root after.ids) refl
      by_result (err e) h = refl

  pub update_strategy-IsKept :
      (id : ℕ) (name : Option Text)
      → IsKept new_id false ws (cmd_update_rule_set_strategy id name ws)
  unfolding cmd_update_rule_set_strategy
  update_strategy-IsKept id name =
      try_with_lem (IsKept new_id false ws) ws (rule_set_of id (lookup id ws.ids)) _ (λ e. refl)
        (λ s e.
          try_with_lem (IsKept new_id false ws) ws (parse_strategy_name name) _ (λ e. refl)
            (λ strategy f.
              by_set s strategy (rule_set_of_sound s (lookup id ws.ids) e)
                (get_elem? ws.rule_sets s) refl))
    where
      rule_set_of_sound :
          (s : ℕ) (o : Option NodeAddress) → rule_set_of id o ≡ ok s → o ≡ some (rule_set s)
      rule_set_of_sound s none h = cc
      rule_set_of_sound s (some (rule_set t)) h = cc
      rule_set_of_sound s (some a) h = cc

      by_set :
          (s : ℕ) (strategy : Option Strategy)
          → lookup id ws.ids ≡ some (rule_set s)
          → (o : Option RuleSet) → get_elem? ws.rule_sets s ≡ o
          → IsKept new_id false ws (set_strategy_at id ws s strategy o)
      by_set s strategy h (some rs) e =
          replaced-IsConsistent s rs
            record rs { strategy = Option.map (strategy_after_choosing rs.strategy) strategy } e
            refl
      by_set s strategy h none e =
          let (index, fresh, covers) = consistent in
          absurd (
            true-ne-false (
              sym (ap is_some ((index.0 id (rule_set s)).0 h))
              ∙ covers (rule_set s) refl
              ∙ ap (λ o. is_some (map_to o (λ x. length x.rules))) e))
