-- ===== src/Lifecycle.antt =====
-- The lifecycle of an application over everything that changes the table: the handlers of
-- server/src/routes.rs, the proxy's retries in server/src/proxy.rs, and the commands of
-- server/src/lib.rs.
pub mod Rows
pub mod Registry
pub mod Moves
pub mod Reach
pub mod Refines
pub mod Active
pub mod Tokens
pub mod Statements
pub mod Addressed
