-- ===== src/Workspace/Edit/RootSetting.antt =====
-- crates/apimock-config/src/workspace/edit/root_setting.rs: the command on the settings of the root.
pub mod Port
use apimock_rs.Prelude.{
  ℕ, ◌-◌, ◌%◌, ◌^◌, Bool, false, Option, none, some, List, [], ◌∷◌, leb, if◌then◌else◌, any,
  unwrap_or,
}
use apimock_rs.Prelude.Int.{ℤ, pos, negsuc}
use apimock_rs.Prelude.Text.{Text, codes, text_eq}
use apimock_rs.Routing.Strategy.{from_bare_name}
use apimock_rs.Workspace.{root, id_for}
use apimock_rs.Workspace.State.{
  invalid_payload, port_out_of_range, unknown_strategy, invalid_log_level, invalid_log_format,
  TlsConfig, ListenerConfig, default_listener, FileTreeViewConfig, default_file_tree_view, Result,
  ok, err, then_ok, Workspace, Outcome, done, panicked, try_with,
}
use apimock_rs.Workspace.Nodes.{or_invalid}
use apimock_rs.Workspace.View.{EditValue}
use apimock_rs.Workspace.Payload.{
  value_as_text, value_as_integer, value_as_bool, value_as_string_list, strategy_after_choosing,
}

pub data RootSettingKey : Type 0 where
  listener_ip_address listener_port : RootSettingKey
  service_fallback_respond_dir service_strategy : RootSettingKey
  tls_enabled tls_cert_file tls_key_file : RootSettingKey
  log_level log_file log_format : RootSettingKey
  file_tree_show_hidden file_tree_builtin_excludes file_tree_extra_excludes file_tree_include
        file_tree_respect_gitignore :
      RootSettingKey
  trace_capture_body trace_max_body_bytes : RootSettingKey

-- `listener.get_or_insert_with(Default::default)` and the same for the TLS block and the tree view.
abbrev pub with_listener : (ListenerConfig → ListenerConfig) → Workspace → Workspace
with_listener change ws = record ws {
  listener = some (change (unwrap_or ws.listener default_listener));
}

abbrev empty_tls : TlsConfig
empty_tls = record {
  key = [];
  cert = [];
  port = none;
  handshake_timeout_seconds = none;
  max_connections = none;
}

abbrev pub with_tls : (TlsConfig → TlsConfig) → Workspace → Workspace
with_tls change ws =
    with_listener (λ l. record l { tls = some (change (unwrap_or l.tls empty_tls)) }) ws

abbrev pub with_file_tree : (FileTreeViewConfig → FileTreeViewConfig) → Workspace → Workspace
with_file_tree change ws = record ws {
  file_tree_view = some (change (unwrap_or ws.file_tree_view default_file_tree_view));
}

abbrev pub without_tls : Option ListenerConfig → Option ListenerConfig
without_tls none = none
without_tls (some l) = some record l { tls = none }

-- `(0..=u16::MAX as i64).contains(&n)`.
unfoldable pub in_port_range : ℤ → Bool
in_port_range (pos n) = leb n 65535
in_port_range (negsuc n) = false

-- `n as u16`, the low 16 bits.
unfoldable pub as_u16 : ℤ → ℕ
as_u16 (pos n) = n % 2 ^ 16
as_u16 (negsuc n) = (2 ^ 16 - 1) - n % 2 ^ 16

abbrev one_of : Text → List Text → Bool
one_of s names = any (λ name. text_eq name s) names

abbrev log_levels : List Text
log_levels = codes "trace" ∷ codes "debug" ∷ codes "info" ∷ codes "warn" ∷ codes "error" ∷ []

abbrev pub set_service_strategy : Text → Workspace → Result Workspace
set_service_strategy s ws =
    then_ok (or_invalid (unknown_strategy s) (from_bare_name s))
      (λ chosen. ok record ws { strategy = some (strategy_after_choosing ws.strategy chosen) })

abbrev pub set_port : ℤ → Workspace → Result Workspace
set_port n ws =
    if in_port_range n
    then ok (with_listener (λ l. record l { port = as_u16 n }) ws)
    else err (invalid_payload (port_out_of_range n))

-- The match on the key: the new configuration, or the error.
unfoldable pub set_root : {N : Type 0} → RootSettingKey → EditValue N → Workspace → Result Workspace
set_root listener_ip_address value ws =
    then_ok (value_as_text value) (λ s. ok (with_listener (λ l. record l { ip_address = s }) ws))
set_root listener_port value ws = then_ok (value_as_integer value) (λ n. set_port n ws)
set_root service_fallback_respond_dir value ws =
    then_ok (value_as_text value) (λ s. ok record ws { fallback_respond_dir = s })
set_root service_strategy value ws = then_ok (value_as_text value) (λ s. set_service_strategy s ws)
set_root tls_enabled value ws = then_ok (value_as_bool value) (λ enabled.
    ok record ws { listener = if enabled then ws.listener else without_tls ws.listener })
set_root tls_cert_file value ws =
    then_ok (value_as_text value) (λ s. ok (with_tls (λ tls. record tls { cert = s }) ws))
set_root tls_key_file value ws =
    then_ok (value_as_text value) (λ s. ok (with_tls (λ tls. record tls { key = s }) ws))
set_root log_level value ws =
    then_ok (value_as_text value)
      (λ s. if one_of s log_levels then ok ws else err (invalid_payload (invalid_log_level s)))
set_root log_file value ws = then_ok (value_as_text value) (λ s. ok ws)
set_root log_format value ws = then_ok (value_as_text value) (λ s.
    if one_of s (codes "text" ∷ codes "json" ∷ [])
    then ok ws
    else err (invalid_payload (invalid_log_format s)))
set_root file_tree_show_hidden value ws =
    then_ok (value_as_bool value)
      (λ b. ok (with_file_tree (λ view. record view { show_hidden = b }) ws))
set_root file_tree_builtin_excludes value ws =
    then_ok (value_as_bool value)
      (λ b. ok (with_file_tree (λ view. record view { builtin_excludes = b }) ws))
set_root file_tree_extra_excludes value ws =
    then_ok (value_as_string_list value)
      (λ list. ok (with_file_tree (λ view. record view { extra_excludes = list }) ws))
set_root file_tree_include value ws =
    then_ok (value_as_string_list value)
      (λ list. ok (with_file_tree (λ view. record view { include = list }) ws))
set_root file_tree_respect_gitignore value ws =
    then_ok (value_as_bool value)
      (λ b. ok (with_file_tree (λ view. record view { respect_gitignore = b }) ws))
set_root trace_capture_body value ws = ok ws
set_root trace_max_body_bytes value ws = ok ws

-- Without an identity of the root the `expect` panics.
abbrev pub report_root : Workspace → Option ℕ → Outcome
report_root after none = panicked after
report_root after (some id) = done (id ∷ []) after

-- `cmd_update_root_setting`.
unfoldable pub cmd_update_root_setting :
    {N : Type 0} → RootSettingKey → EditValue N → Workspace → Outcome
cmd_update_root_setting key value ws = try_with ws (set_root key value ws) (λ after.
    elim (id_for root after.ids) [ none ↦ panicked after | some id ↦ done (id ∷ []) after ])
