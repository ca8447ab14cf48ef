-- ===== src/Engine.antt =====
-- backend/internal/recommendation/engine.go: which article the till suggests to add to a cart.
pub mod Cart
pub mod Score
pub mod Recommend
pub mod Signals
pub mod Choice
