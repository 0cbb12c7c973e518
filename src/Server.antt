-- ===== src/Server.antt =====
-- The MCP server, crates/qaas-server/src/mcp.rs and http_auth.rs: the registry of queues of every tenant,
-- and the tools over it. A tool call is modelled as one step: two calls interleave only in the source.
pub mod Answers
pub mod Registry
pub mod State
pub mod Producing
pub mod Consuming
pub mod Settings
pub mod Letters
pub mod Credentials
pub mod Dashboard
pub mod Scopes
pub mod Frames
pub mod Requests
pub mod Keeping
pub mod Isolation
pub mod Views
pub mod Interference
pub mod Spending
pub mod Keyed
pub mod Limits
pub mod Login
pub mod Tests
