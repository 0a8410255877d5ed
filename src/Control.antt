-- ===== src/Control.antt =====
-- The control package, internal/control.
pub mod Store
pub mod Locks
pub mod Service
pub mod Admin
pub mod Funding
pub mod Validation
mod Tests
