-- ===== src/Workspace/Edit.antt =====
-- crates/apimock-config/src/workspace/edit.rs: the editing commands, one module for each of its files.
mod Tests
pub mod Rule
pub mod RuleSet
pub mod Condition
pub mod RootSetting
