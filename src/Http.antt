-- ===== src/Http.antt =====
-- backend/internal/httpapi: the attempts and accounts of users, CSRF tokens, routes and handlers.
pub mod Limiter
pub mod Auth
pub mod Csrf
pub mod Routes
pub mod Handlers
