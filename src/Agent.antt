-- ===== src/Agent.antt =====
-- internal/agent: the operations behind the command line and the MCP server, and what an agent may
-- do with them.
pub mod Tier
pub mod Value
pub mod Schema
pub mod OpResult
pub mod Registry
pub mod Invoke
pub mod Error
pub mod Policy
pub mod Containers
pub mod Lifecycle
pub mod Fanout
pub mod Audit
pub mod Wait
pub mod Output
pub mod Redact
mod Tests
