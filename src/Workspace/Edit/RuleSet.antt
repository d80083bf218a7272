-- ===== src/Workspace/Edit/RuleSet.antt =====
-- crates/apimock-config/src/workspace/edit/rule_set.rs, with `RuleSet::new` of
-- crates/apimock-routing/src/rule_set.rs, which an added rule set is loaded by.
use mathlib.Core.Option
use apimock_rs.Prelude.{
  ℕ, zero, suc, ◌-◌, Bool, false, not, ◌&&◌, ◌||◌, Option, none, some, List, [], ◌∷◌, ◌++◌, map,
  ltb, ◌==◌, if◌then◌else◌, unwrap_or, all, length, get_elem?,
}
use apimock_rs.Prelude.Text.{Text, codes, text_eq, split}
use apimock_rs.Routing.Libraries.{Libraries}
use apimock_rs.Routing.UrlPath.{normalize_url_path}
use apimock_rs.Routing.Rule.{Prefix, compute_derived_fields}
use apimock_rs.Routing.RuleSet.{RuleSet}
use apimock_rs.Routing.Strategy.{Strategy, from_bare_name}
use apimock_rs.Workspace.{NodeAddress, rule_set, lookup, id_for, IdIndex}
use apimock_rs.Workspace.State.{
  unknown_node, invalid_payload, rule_set_out_of_range_of, unknown_strategy, no_relative_dir,
  rule_set_not_loaded, Result, ok, err, Workspace, Outcome, done, refused, panicked, try_with, mint,
}
use apimock_rs.Workspace.Payload.{strategy_after_choosing}
use apimock_rs.Workspace.Slots.{set_at, remove_at}
use apimock_rs.Workspace.IdShift.{shift_rule_sets_down}
use apimock_rs.Workspace.Nodes.{known, as_rule_set, mint_rules}
use apimock_rs.Workspace.Edit.Rule.{push_known, push_unseen, push_rules}

-- What a call outside gives: a value, or an error's text.
pub data Called (A : Type 0) : Type 0 where
  gives : A → Called A
  fails : Text → Called A

-- The file system and the TOML reader: the directory of the configuration file, `fs::read_to_string`,
-- and `toml::from_str` on a rule set, which leaves the skipped fields empty.
pub record Disk : Type 0 where
  pub config_relative_dir : Called Text
  pub read_to_string : Text → Called Text
  pub parse_rule_set : Text → Called RuleSet

-- `is_purely_current_dir` on Unix: a relative path of `.` and of empty parts between slashes.
unfoldable pub is_purely_current_dir : Text → Bool
is_purely_current_dir [] = false
is_purely_current_dir (c ∷ s) =
    not (c == b'/')
    && all (λ part. text_eq part [] || text_eq part (codes ".")) (split b'/' (c ∷ s))

-- `Path::join` on Unix.
unfoldable pub ends_in_slash : Text → Bool
ends_in_slash [] = false
ends_in_slash (c ∷ []) = c == b'/'
ends_in_slash (_ ∷ d ∷ s) = ends_in_slash (d ∷ s)

unfoldable pub join_path : Text → Text → Text
join_path dir [] = if text_eq dir [] || ends_in_slash dir then dir else dir ++ codes "/"
join_path dir (c ∷ s) =
    if c == b'/'
    then c ∷ s
    else if text_eq dir [] || ends_in_slash dir
    then dir ++ (c ∷ s)
    else dir ++ (b'/' ∷ c ∷ s)

-- The repair of `[prefix]`: the canonical URL path, and one dot for the current directory.
unfoldable pub loaded_prefix : Prefix → Prefix
loaded_prefix p = record {
  url_path_prefix = Option.map (λ url_path. normalize_url_path url_path none) p.url_path_prefix;
  respond_dir_prefix =
      Option.map (λ dir. if is_purely_current_dir dir then codes "." else dir) p.respond_dir_prefix;
}

abbrev authored_respond_dir : Option Prefix → Text
authored_respond_dir none = codes "."
authored_respond_dir (some p) = unwrap_or p.respond_dir_prefix (codes ".")

module _ (new_id : ℕ → ℕ) where
  -- The rest of the command, with the loaded rule set.
  unfoldable pub add_loaded : Text → RuleSet → Workspace → Outcome
  add_loaded path new_rule_set ws =
      let next_idx = length ws.rule_sets in
      let pushed = record ws {
        rule_sets_file_paths = some (unwrap_or ws.rule_sets_file_paths [] ++ (path ∷ []));
        rule_sets = ws.rule_sets ++ (new_rule_set ∷ []);
      } in
      let (rs_id, with_set) = mint new_id (rule_set next_idx) pushed in
      let (changed, with_all) =
        mint_rules new_id next_idx 0 (length new_rule_set.rules) (rs_id ∷ []) with_set in
      done changed with_all

module _ (lib : Libraries) where
  -- `RuleSet::new` after the reading: the derived fields of the rules under the new prefix.
  unfoldable pub derive_rule_set : Text → Text → RuleSet → RuleSet
  derive_rule_set file_path dir parsed =
      let prefix = Option.map loaded_prefix parsed.prefix in
      record parsed {
        prefix = prefix;
        resolved_respond_dir = join_path dir (authored_respond_dir prefix);
        rules = map (compute_derived_fields lib prefix) parsed.rules;
        file_path = file_path;
      }

  module _ (disk : Disk) where
    open disk use {config_relative_dir, read_to_string, parse_rule_set}

    -- `RuleSet::new`.
    unfoldable pub load_rule_set : Text → Text → Called RuleSet
    load_rule_set file_path dir = elim (read_to_string file_path) [
      | fails e ↦ fails e
      | gives toml ↦ elim (parse_rule_set toml) [
        | fails e ↦ fails e
        | gives parsed ↦ gives (derive_rule_set file_path dir parsed)
      ]
    ]

    -- `cmd_add_rule_set`. The joined path of two texts is a text.
    unfoldable pub cmd_add_rule_set : (ℕ → ℕ) → Text → Workspace → Outcome
    cmd_add_rule_set new_id path ws = elim config_relative_dir [
      | fails e ↦ refused (invalid_payload (no_relative_dir e)) ws
      | gives dir ↦ elim (load_rule_set (join_path dir path) dir) [
        | fails e ↦ refused (invalid_payload (rule_set_not_loaded path e)) ws
        | gives new_rule_set ↦ add_loaded new_id path new_rule_set ws
      ]
    ]

-- The loop over the rule sets that have moved, `count` of them from `s` on.
unfoldable pub push_rule_sets : ℕ → ℕ → IdIndex → List ℕ → List ℕ
push_rule_sets s zero ids changed = changed
push_rule_sets s (suc count) ids changed =
    push_rule_sets (suc s) count ids (push_unseen (id_for (rule_set s) ids) changed)

-- `if idx < paths.len() { paths.remove(idx); }`
abbrev pub remove_path : ℕ → Option (List Text) → Option (List Text)
remove_path idx none = none
remove_path idx (some paths) = some (if ltb idx (length paths) then remove_at idx paths else paths)

-- `cmd_remove_rule_set` with what stands at the position that it has found.
abbrev pub remove_set_at : ℕ → Workspace → ℕ → Option RuleSet → Outcome
remove_set_at id ws idx none =
    refused (invalid_payload (rule_set_out_of_range_of idx (length ws.rule_sets))) ws
remove_set_at id ws idx (some removed_rs) =
    let changed = push_rules push_known idx 0 (length removed_rs.rules) ws.ids (id ∷ []) in
    let shifted = record ws {
      rule_sets = remove_at idx ws.rule_sets;
      rule_sets_file_paths = remove_path idx ws.rule_sets_file_paths;
      ids = shift_rule_sets_down idx ws.ids;
    } in
    done (push_rule_sets idx (length ws.rule_sets - 1 - idx) shifted.ids changed) shifted

-- `cmd_remove_rule_set`.
unfoldable pub cmd_remove_rule_set : ℕ → Workspace → Outcome
cmd_remove_rule_set id ws =
    try_with ws (as_rule_set id (known id ws))
      (λ idx. remove_set_at id ws idx (get_elem? ws.rule_sets idx))

-- The strategy of a name: none and the empty name remove it, an unknown name is an error.
unfoldable pub parse_strategy_name : Option Text → Result (Option Strategy)
parse_strategy_name none = ok none
parse_strategy_name (some []) = ok none
parse_strategy_name (some (c ∷ s)) = elim (from_bare_name (c ∷ s)) [
  | some parsed ↦ ok (some parsed)
  | none ↦ err (invalid_payload (unknown_strategy (c ∷ s)))
]

abbrev pub rule_set_of : ℕ → Option NodeAddress → Result ℕ
rule_set_of id (some (rule_set s)) = ok s
rule_set_of id _ = err (unknown_node id)

-- `cmd_update_rule_set_strategy` with the rule set that it indexes.
abbrev pub set_strategy_at : ℕ → Workspace → ℕ → Option Strategy → Option RuleSet → Outcome
set_strategy_at id ws rs_idx strategy none = panicked ws
set_strategy_at id ws rs_idx strategy (some rs) =
    let chosen = Option.map (strategy_after_choosing rs.strategy) strategy in
    done (unwrap_or (id_for (rule_set rs_idx) ws.ids) id ∷ [])
      record ws { rule_sets = set_at rs_idx record rs { strategy = chosen } ws.rule_sets }

-- `cmd_update_rule_set_strategy`.
unfoldable pub cmd_update_rule_set_strategy : ℕ → Option Text → Workspace → Outcome
cmd_update_rule_set_strategy id strategy_name ws =
    try_with ws (rule_set_of id (lookup id ws.ids)) (λ rs_idx.
      try_with ws (parse_strategy_name strategy_name)
        (λ strategy. set_strategy_at id ws rs_idx strategy (get_elem? ws.rule_sets rs_idx)))
