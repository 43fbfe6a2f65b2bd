-- ===== src/Router.antt =====
-- engine/router: the mesh graph and the graph of countries, and their routers.
pub mod Search
pub mod Yen
pub mod Mesh
pub mod Country
mod Tests
