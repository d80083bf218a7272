-- ===== src/Lib.antt =====
-- Verification of apimock-rs, a mock HTTP server that answers from rule sets.
--
-- A request passes the middleware, then each rule set in turn. A rule set
-- (crates/apimock-routing/src/rule_set.rs) refuses paths outside its prefix, finds the rules whose
-- conditions hold and lets its strategy choose the one that answers. The command line explains a
-- decision condition by condition (crates/apimock/src/cmd/rule_check.rs). An editor of the
-- configuration names the nodes by identities, which an index maps to their positions.
--
-- Files and code:
--   Prelude            shared names; `str` as the list of its code points (Prelude/Text.antt) with
--                      the methods that the code calls; i64 and f64 bounds (Prelude/Int.antt)
--   Routing/Glob       crates/apimock-routing/src/util/glob.rs
--   Routing/UrlPath    util/http.rs `normalize_url_path`, rule_set.rs `url_path_matches_prefix`
--   Routing/Json       util/json.rs, over a type of JSON values whose numbers are a parameter
--   Routing/RuleOp, HttpMethod, Headers, BodyOperator, Body, Request
--                      rule_set/rule/when/request.rs and the modules below it
--   Routing/Rule       rule_set/rule.rs and the data of respond.rs and prefix.rs
--   Routing/Respond    rule_set/rule/respond.rs, the validation; its messages are constructors
--   Routing/Strategy   strategy.rs, the generator on 64-bit words
--   Routing/RuleSet    rule_set.rs: `find_matched` is the function of the same name, its strategies
--                      are `choose_*`; Sound, Answered, Total, Order, Priority, Weighted and RoundRobin
--                      hold the proofs
--   RuleCheck          crates/apimock/src/cmd/rule_check.rs; RuleCheck/Agreement its proofs
--   Cors               crates/apimock-server/src/response_handler.rs, the default headers and the rule
--                      on cross-origin requests with credentials
--   Trace              crates/apimock-server/src/trace.rs: what a trace event shows of a request, and
--                      the counters of the emitter
--   Files              crates/apimock-server/src/json_path_util.rs and response/confine.rs
--   Workspace          crates/apimock-config/src/workspace/id_index.rs. A hash map is the list of its
--                      rows (Prelude/Dict.antt), in the order of iteration
--   Workspace/IdShift, Nodes
--                      workspace/edit/id_shift.rs; Nodes also holds the guards that the commands share.
--                      Migrate, Stable and Reorder hold the proofs
--   Workspace/State    the parts of `Config` that the commands change, the index, ApplyError
--   Workspace/View, Payload
--                      view.rs, the payloads, and workspace/edit/payload.rs
--   Workspace/Edit/Rule, RuleSet, Condition, RootSetting
--                      the file of the same name under workspace/edit/; RuleSet also loads a rule set
--                      (`RuleSet::new`)
--   Workspace/Apply    workspace/edit.rs `apply`, and workspace.rs `seed_ids`
--   Workspace/Consistent, Identity
--                      what a fitting index is and what every command does to it, and which rule an
--                      identity names through the commands that move rules
--
-- State and errors: the round-robin counters go in and come out of `find_matched`; the clock's
-- reading, which seeds the generator, is an argument. A panic is the result `panicked`. Words wrap
-- as in the release profile, which has no overflow checks: counters at 2 ^ 64, weights at 2 ^ 32.
-- A command of the editor takes the workspace
-- and gives an `Outcome`: the identities that it reports, an error or a panic, each with the workspace
-- as it then is. `NodeId::new` is a function from the number of the call, taken to be injective where a
-- theorem says so. All recursion is structural; there is no fuel.
--
-- Routing/Libraries is what the code takes from serde_json, regex, f64 and hyper, as operations of
-- a record that the definitions take as an argument; nothing is assumed of them. The checks of header
-- names and values by hyper are arguments of Cors, the percent decoder, the length of a serialised body and
-- the result of `send` those of Trace, and the record FileSystem that of Files. The file system and the TOML reader are the record Disk
-- of Workspace/Edit/RuleSet; lower case beyond ASCII is an argument of the commands on headers.
--
-- Not modelled: the TOML reader and writer, the loading of the root file, saving, the diagnostics, the HTTP server, TLS,
-- middleware scripts, the channel and the transports of trace events, the command line's arguments and printing, and log lines.

pub mod Prelude
pub mod Routing
pub mod RuleCheck
pub mod Workspace
pub mod Cors
pub mod Trace
pub mod Files
