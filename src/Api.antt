-- ===== src/Api.antt =====
-- internal/api/server.go: the HTTP interface.
pub mod Http
pub mod Auth
pub mod Validate
pub mod Middleware
pub mod Decode
pub mod Handlers
pub mod Mux
pub mod Routes
pub mod Keeps
pub mod Safety
pub mod Answered
pub mod Fixtures
mod Tests
