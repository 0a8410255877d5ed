-- ===== src/Mm.antt =====
-- The market-making package, internal/ponsmm.
pub mod Monitor
pub mod Wallets
pub mod Sweep
pub mod Decide
pub mod SnipeExempt
pub mod Stats
pub mod Target
pub mod Sale
pub mod Buying
pub mod Approvals
pub mod Bundle
pub mod Launch
pub mod Config
pub mod Engine
mod Tests
