-- ===== src/Routing.antt =====
-- The crate `apimock-routing`: the matcher (crates/apimock-routing/src).
mod Tests
pub mod Glob
pub mod UrlPath
pub mod Json
pub mod Libraries
pub mod RuleOp
pub mod HttpMethod
pub mod Headers
pub mod BodyOperator
pub mod Body
pub mod Request
pub mod Strategy
pub mod Rule
pub mod RuleSet
pub mod Respond
