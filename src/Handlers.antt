-- ===== src/Handlers.antt =====
-- api/handlers: the HTTP endpoints.
pub mod Payment
pub mod Accounts
pub mod Paths
pub mod Nodes
pub mod Chaos
pub mod Routing
pub mod Countries
