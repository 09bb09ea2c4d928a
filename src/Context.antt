-- ===== src/Context.antt =====
-- core/scope/ContextManager.ts. Manager has the maps and the sessions, Request the requests and
-- lifecycles; the others prove what holds of them.
pub mod Manager
pub mod Request
pub mod Sessions
pub mod Active
pub mod WellFormed
pub mod Kept
pub mod Owned
pub mod Steps
pub mod Found
pub mod Apart
pub mod KeepAlive
