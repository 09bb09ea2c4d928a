-- ===== src/Tests.antt =====
-- Runs of the theorems at concrete inputs.
mod Samples
mod Pipelines
mod Contexts
mod Sockets
mod Caches
mod Entries
mod Emissions
mod Transports
mod Lifecycles
mod RuleFiles
mod Tunnels
mod Leaves
mod Handshakes
