-- ===== src/Routing/RuleOp.antt =====
-- crates/apimock-routing/src/rule_set/rule/when/request/rule_op.rs and url_path.rs.
pub mod Spelling
use apimock_rs.Prelude.{Bool, not, Option, is_some_and, unwrap_or}
use apimock_rs.Prelude.Text
use apimock_rs.Prelude.Text.{Text, text_eq}
use apimock_rs.Routing.Glob.{glob_match}
use apimock_rs.Routing.Libraries.{Libraries}

pub data RuleOp : Type 0 where
  equal not_equal starts_with not_starts_with ends_with not_ends_with contains not_contains
        wild_card regex not_regex :
      RuleOp

pub record UrlPath : Type 0 where
  pub value : Text
  pub value_with_prefix : Text
  pub op : Option RuleOp

pub data UrlPathConfig : Type 0 where
  simple : Text → UrlPathConfig
  detailed : UrlPath → UrlPathConfig

module _ (lib : Libraries) where
  open lib use {new_regex}

  -- A pattern that does not compile matches nothing.
  unfoldable pub regex_is_match : Text → Text → Bool
  regex_is_match pattern text = is_some_and (λ re. re text) (new_regex pattern)

  -- `RuleOp::is_match`.
  unfoldable pub op_is_match : RuleOp → Text → Text → Bool
  op_is_match equal text checker = text_eq text checker
  op_is_match not_equal text checker = not (text_eq text checker)
  op_is_match starts_with text checker = Text.starts_with text checker
  op_is_match not_starts_with text checker = not (Text.starts_with text checker)
  op_is_match ends_with text checker = Text.ends_with text checker
  op_is_match not_ends_with text checker = not (Text.ends_with text checker)
  op_is_match contains text checker = Text.contains text checker
  op_is_match not_contains text checker = not (Text.contains text checker)
  op_is_match wild_card text checker = glob_match checker text
  op_is_match regex text checker = regex_is_match checker text
  op_is_match not_regex text checker = not (regex_is_match checker text)

  -- The operand of `UrlPath::is_match`: `contains` takes the raw value.
  unfoldable pub operand : RuleOp → UrlPath → Text
  operand contains u = u.value
  operand _ u = u.value_with_prefix

  -- `UrlPath::is_match`; the default operator is `equal`.
  unfoldable pub url_path_is_match : UrlPath → Text → Bool
  unfolding operand
  url_path_is_match u request_url_path =
      let op = unwrap_or u.op equal in op_is_match op request_url_path (operand op u)
