-- ===== src/Workspace/Edit/RootSetting/Port.antt =====
-- The port of the listener through the settings of the root, of
-- crates/apimock-config/src/workspace/edit/root_setting.rs.
use apimock_rs.Prelude.{
  ℕ, ◌≡◌, refl, ◌∙◌, ap, Option, none, some, arith, unwrap_or, leb, if◌then◌else◌, Bool, true,
  false, not, is_some, inl, inr, Bool-cases,
}
use apimock_rs.Prelude.Int.{ℤ, pos, negsuc}
use apimock_rs.Routing.Strategy.{from_bare_name}
use apimock_rs.Workspace.{root, id_for}
use apimock_rs.Workspace.State.{
  ListenerConfig, default_listener, Result, ok, err, Settles, then_ok-Settles, Workspace, Outcome,
  refused, workspace_of, try_with, unknown_strategy,
}
use apimock_rs.Workspace.View.{EditValue, string, integer, boolean, string_list, enum, json}
use apimock_rs.Workspace.Payload.{
  value_as_text, value_as_integer, value_as_bool, value_as_string_list,
}
use apimock_rs.Workspace.Nodes.{or_invalid}
use apimock_rs.Workspace.Edit.RootSetting.{
  RootSettingKey, listener_port, listener_ip_address, service_fallback_respond_dir, tls_enabled,
  tls_cert_file, tls_key_file, log_file, file_tree_show_hidden, file_tree_builtin_excludes,
  file_tree_extra_excludes, file_tree_include, file_tree_respect_gitignore, service_strategy,
  log_level, log_format, trace_capture_body, trace_max_body_bytes, without_tls, in_port_range,
  as_u16, set_port, set_service_strategy, set_root, report_root, cmd_update_root_setting,
}

-- The port of the listener, that of the default where the configuration has no listener.
abbrev pub port_of : Workspace → ℕ
port_of ws = (unwrap_or ws.listener default_listener).port

-- The port that a command asks for: an integer from 0 to 65535 under the key of the port.
abbrev pub requested_port : {N : Type 0} → RootSettingKey → EditValue N → Option ℕ
requested_port listener_port (integer (pos n)) = if leb n 65535 then some n else none
requested_port _ _ = none

abbrev pub is_refused : Outcome → Bool
is_refused (refused e after) = true
is_refused _ = false

module _ (ws : Workspace) where
  abbrev Keeps : Workspace → Type 0
  Keeps after = port_of after ≡ port_of ws

  dropped_tls :
      (o : Option ListenerConfig)
      → (unwrap_or (without_tls o) default_listener).port ≡ (unwrap_or o default_listener).port
  dropped_tls none = refl
  dropped_tls (some l) = refl

  -- What a setting gives, for the port that it asks for.
  abbrev Gives : Option ℕ → Result Workspace → Type 0
  Gives o (ok after) = port_of after ≡ unwrap_or o (port_of ws)
  Gives o (err e) = o ≡ none

  Gives-Settles : (x : Result Workspace) → Settles Keeps x → Gives none x
  Gives-Settles (ok after) h = h
  Gives-Settles (err e) h = refl

  set_port-Gives :
      (N : Type 0) (n : ℤ)
      → Gives (requested_port {N = N} listener_port (integer n)) (set_port n ws)
  unfolding in_port_range as_u16
  set_port-Gives N (pos n) = elim (Bool-cases (leb n 65535)) [
    | inl e ↦ rw e (ground arith)
    | inr e ↦ rw e refl
  ]
  set_port-Gives N (negsuc n) = refl

  set_root-Gives :
      {N : Type 0} (key : RootSettingKey) (value : EditValue N)
      → Gives (requested_port key value) (set_root key value ws)
  unfolding set_root value_as_integer
  set_root-Gives {N = N} listener_port (integer n) = set_port-Gives N n
  set_root-Gives listener_port (string s) = refl
  set_root-Gives listener_port (boolean b) = refl
  set_root-Gives listener_port (string_list v) = refl
  set_root-Gives listener_port (enum s) = refl
  set_root-Gives listener_port (json v) = refl
  set_root-Gives service_strategy value = Gives-Settles _ (
      then_ok-Settles Keeps (value_as_text value) (λ s. set_service_strategy s ws)
        (λ s.
          then_ok-Settles Keeps (or_invalid (unknown_strategy s) (from_bare_name s)) _
            (λ chosen. refl)))
  set_root-Gives log_level value =
      Gives-Settles _ (then_ok-Settles Keeps (value_as_text value) _ (λ s. ground arith))
  set_root-Gives log_format value =
      Gives-Settles _ (then_ok-Settles Keeps (value_as_text value) _ (λ s. ground arith))
  set_root-Gives trace_capture_body value = refl
  set_root-Gives trace_max_body_bytes value = refl
  set_root-Gives listener_ip_address value =
      Gives-Settles _ (then_ok-Settles Keeps (value_as_text value) _ (λ s. refl))
  set_root-Gives tls_cert_file value =
      Gives-Settles _ (then_ok-Settles Keeps (value_as_text value) _ (λ s. refl))
  set_root-Gives tls_key_file value =
      Gives-Settles _ (then_ok-Settles Keeps (value_as_text value) _ (λ s. refl))
  set_root-Gives service_fallback_respond_dir value =
      Gives-Settles _ (then_ok-Settles Keeps (value_as_text value) _ (λ s. refl))
  set_root-Gives log_file value =
      Gives-Settles _ (then_ok-Settles Keeps (value_as_text value) _ (λ s. refl))
  set_root-Gives tls_enabled value =
      Gives-Settles _ (
        then_ok-Settles Keeps (value_as_bool value) _
          (λ s. ground (arith, dropped_tls ws.listener)))
  set_root-Gives file_tree_show_hidden value =
      Gives-Settles _ (then_ok-Settles Keeps (value_as_bool value) _ (λ s. refl))
  set_root-Gives file_tree_builtin_excludes value =
      Gives-Settles _ (then_ok-Settles Keeps (value_as_bool value) _ (λ s. refl))
  set_root-Gives file_tree_respect_gitignore value =
      Gives-Settles _ (then_ok-Settles Keeps (value_as_bool value) _ (λ s. refl))
  set_root-Gives file_tree_extra_excludes value =
      Gives-Settles _ (then_ok-Settles Keeps (value_as_string_list value) _ (λ s. refl))
  set_root-Gives file_tree_include value =
      Gives-Settles _ (then_ok-Settles Keeps (value_as_string_list value) _ (λ s. refl))

  abbrev is_ok : Result Workspace → Bool
  is_ok (ok after) = true
  is_ok (err e) = false

  is_ok-set_root :
      {N : Type 0} (value : EditValue N)
      → is_ok (set_root listener_port value ws) ≡ is_some (requested_port listener_port value)
  unfolding set_root value_as_integer in_port_range
  is_ok-set_root (integer (pos n)) = ground arith
  is_ok-set_root (integer (negsuc n)) = refl
  is_ok-set_root (string s) = refl
  is_ok-set_root (boolean b) = refl
  is_ok-set_root (string_list v) = refl
  is_ok-set_root (enum s) = refl
  is_ok-set_root (json v) = refl

  -- A setting of the root sets the port that it asks for, where it gives an integer from 0 to 65535
  -- under the key of the port, and leaves the port as it was in every other case: under another key,
  -- on a value that is no such integer, and where it is refused. Under the key of the port it is
  -- refused exactly when it asks for no such port. The port is that of the default listener where
  -- there is none.
  pub update_root_setting-port_of :
      {N : Type 0} (key : RootSettingKey) (value : EditValue N)
      → (port_of (workspace_of (cmd_update_root_setting key value ws))
          ≡ unwrap_or (requested_port key value) (port_of ws))
        × (is_refused (cmd_update_root_setting listener_port value ws)
            ≡ not (is_some (requested_port listener_port value)))
  unfolding cmd_update_root_setting
  update_root_setting-port_of key value = (
    by_result (requested_port key value) (set_root key value ws) (set_root-Gives key value),
    by_answer (set_root listener_port value ws) ∙ ap not (is_ok-set_root value),
  )
    where
      by_root :
          (after : Workspace) (o : Option ℕ)
          → port_of (workspace_of (report_root after o)) ≡ port_of after
      by_root after none = refl
      by_root after (some id) = refl

      by_result :
          (o : Option ℕ) (x : Result Workspace)
          → Gives o x
          → port_of
              (workspace_of (try_with ws x (λ after. report_root after (id_for root after.ids))))
            ≡ unwrap_or o (port_of ws)
      by_result o (ok after) h = by_root after (id_for root after.ids) ∙ h
      by_result o (err e) h = rw h refl

      not_refused : (after : Workspace) (o : Option ℕ) → is_refused (report_root after o) ≡ false
      not_refused after none = refl
      not_refused after (some id) = refl

      by_answer :
          (x : Result Workspace)
          → is_refused (try_with ws x (λ after. report_root after (id_for root after.ids)))
            ≡ not (is_ok x)
      by_answer (ok after) = not_refused after (id_for root after.ids)
      by_answer (err e) = refl
