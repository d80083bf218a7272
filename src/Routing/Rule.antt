-- ===== src/Routing/Rule.antt =====
-- crates/apimock-routing/src/rule_set/rule.rs, rule/util.rs, and the data of rule/respond.rs and
-- rule_set/prefix.rs.
use mathlib.Core.Option
use apimock_rs.Prelude.{ℕ, Option, none, some, List}
use apimock_rs.Prelude.Int.{ℤ}
use apimock_rs.Prelude.Text.{Text}
use apimock_rs.Routing.Libraries.{Libraries}
use apimock_rs.Routing.Request.{Request}
use apimock_rs.Routing.RuleOp.{UrlPath, UrlPathConfig, simple, detailed}
use apimock_rs.Routing.UrlPath.{normalize_url_path}

pub record Respond : Type 0 where
  pub file_path : Option Text
  pub csv_records_key : Option Text
  pub text : Option Text
  pub json : Option Text
  pub status : Option ℕ
  pub status_code : Option ℕ
  pub headers : Option (List (Text × Option Text))
  pub delay_response_milliseconds : Option ℕ

pub record When : Type 0 where
  pub request : Request

pub record Rule : Type 0 where
  pub when : When
  pub respond : Respond
  pub weight : Option ℕ
  pub priority : Option ℤ

-- `Rule::new`.
unfoldable pub new_rule : When → Respond → Rule
new_rule w r = record { when = w; respond = r; weight = none; priority = none }

pub record Prefix : Type 0 where
  pub url_path_prefix : Option Text
  pub respond_dir_prefix : Option Text

abbrev prefix_path : Option Prefix → Option Text
prefix_path none = none
prefix_path (some p) = p.url_path_prefix

-- `url_path_with_prefix`.
unfoldable pub url_path_with_prefix : Text → Option Prefix → Text
url_path_with_prefix url_path prefix = normalize_url_path url_path (prefix_path prefix)

unfoldable pub derived_url_path : Option Prefix → UrlPathConfig → UrlPath
derived_url_path prefix (simple s) = record {
  value = s;
  value_with_prefix = url_path_with_prefix s prefix;
  op = none;
}
derived_url_path prefix (detailed u) = record {
  value = u.value;
  value_with_prefix = url_path_with_prefix u.value prefix;
  op = u.op;
}

module _ (lib : Libraries) where
  open lib use {from_u16}

  -- An unset status leaves the derived field as it is; a status out of range clears it.
  abbrev derived_status : Option ℕ → Option ℕ → Option ℕ
  derived_status none old = old
  derived_status (some status) old = from_u16 status

  -- `Rule::compute_derived_fields`; of the rule set it reads the prefix.
  unfoldable pub compute_derived_fields : Option Prefix → Rule → Rule
  unfolding derived_url_path
  compute_derived_fields prefix rule =
      let req = rule.when.request in
      record rule {
        when = record {
          request = record req {
            url_path = Option.map (derived_url_path prefix) req.url_path_config;
          };
        };
        respond = record (rule.respond) {
          status_code = derived_status rule.respond.status rule.respond.status_code;
        };
      }
