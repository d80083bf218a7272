-- ===== src/RuleCheck/Display.antt =====
-- The `Display` texts of the operators: rule_op.rs, headers/header_operator.rs and
-- body/body_operator.rs of crates/apimock-routing/src/rule_set/rule/when/request.
use apimock_rs.Prelude.Text.{Text, codes}
use apimock_rs.Routing.RuleOp.{RuleOp}
use apimock_rs.Routing.Headers.{HeaderOperator}
use apimock_rs.Routing.BodyOperator.{BodyOperator}

-- `Display` of `RuleOp`.
unfoldable pub rule_op_text : RuleOp → Text
rule_op_text RuleOp.equal = codes " == "
rule_op_text RuleOp.not_equal = codes " != "
rule_op_text RuleOp.starts_with = codes " starts with "
rule_op_text RuleOp.not_starts_with = codes " does not start with "
rule_op_text RuleOp.ends_with = codes " ends with "
rule_op_text RuleOp.not_ends_with = codes " does not end with "
rule_op_text RuleOp.contains = codes " contains "
rule_op_text RuleOp.not_contains = codes " does not contain "
rule_op_text RuleOp.wild_card = codes " wild card matches "
rule_op_text RuleOp.regex = codes " matches regex "
rule_op_text RuleOp.not_regex = codes " does not match regex "

-- `Display` of `HeaderOperator`.
unfoldable pub header_operator_text : HeaderOperator → Text
header_operator_text HeaderOperator.equal = codes " == "
header_operator_text HeaderOperator.not_equal = codes " != "
header_operator_text HeaderOperator.starts_with = codes " starts with "
header_operator_text HeaderOperator.not_starts_with = codes " does not start with "
header_operator_text HeaderOperator.ends_with = codes " ends with "
header_operator_text HeaderOperator.not_ends_with = codes " does not end with "
header_operator_text HeaderOperator.contains = codes " contains "
header_operator_text HeaderOperator.not_contains = codes " does not contain "
header_operator_text HeaderOperator.wild_card = codes " wild card matches "
header_operator_text HeaderOperator.regex = codes " matches regex "
header_operator_text HeaderOperator.not_regex = codes " does not match regex "
header_operator_text HeaderOperator.exists = codes " exists"
header_operator_text HeaderOperator.absent = codes " absent"

-- `Display` of `BodyOperator`.
unfoldable pub body_operator_text : BodyOperator → Text
body_operator_text BodyOperator.equal = codes " == "
body_operator_text BodyOperator.equal_string = codes " == (string) "
body_operator_text BodyOperator.contains = codes " contains "
body_operator_text BodyOperator.not_contains = codes " does not contain "
body_operator_text BodyOperator.starts_with = codes " starts_with "
body_operator_text BodyOperator.not_starts_with = codes " does not start_with "
body_operator_text BodyOperator.ends_with = codes " ends_with "
body_operator_text BodyOperator.not_ends_with = codes " does not end_with "
body_operator_text BodyOperator.regex = codes " matches regex "
body_operator_text BodyOperator.not_regex = codes " does not match regex "
body_operator_text BodyOperator.equal_typed = codes " == (typed) "
body_operator_text BodyOperator.equal_number = codes " == (number) "
body_operator_text BodyOperator.greater_than = codes " > "
body_operator_text BodyOperator.less_than = codes " < "
body_operator_text BodyOperator.greater_or_equal = codes " >= "
body_operator_text BodyOperator.less_or_equal = codes " <= "
body_operator_text BodyOperator.exists = codes " exists"
body_operator_text BodyOperator.absent = codes " absent"
body_operator_text BodyOperator.array_length_equal = codes " array_length == "
body_operator_text BodyOperator.array_length_at_least = codes " array_length >= "
body_operator_text BodyOperator.array_contains = codes " array_contains "
body_operator_text BodyOperator.equal_integer = codes " == (integer) "
body_operator_text BodyOperator.map_has_key = codes " map_has_key "
body_operator_text BodyOperator.map_does_not_have_key = codes " map_does_not_have_key "
body_operator_text BodyOperator.structural_contains = codes " structural_contains "
