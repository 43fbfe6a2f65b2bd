-- ===== src/Redis.antt =====
-- The Redis server that storage/redis/ talks to is not part of the repository, so it is a parameter:
-- a type of databases with the commands that circuit_breaker.go and rate_limiter.go send, and, as
-- named laws, what Redis documents of them. `Model.antt` meets the laws.
mod Defs
pub mod Model
unfoldable pub use Defs.*
