-- ===== src/Pons.antt =====
-- The protocol package, internal/pons.
pub mod Curve
pub mod Client
pub mod Events
pub mod Snipe
pub mod Transport
pub mod Watch
mod Tests
