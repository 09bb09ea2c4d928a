-- ===== src/Transport.antt =====
-- core/transport/http1: the relay of an upstream's response, and the bridge that waits for it.
pub mod Errors
pub mod Dispatch
pub mod Upstream
pub mod Bridge
pub mod Ws
pub mod Inbound
