-- ===== src/Mm/Tests.antt =====
-- The theorems on the market maker at concrete inputs.
mod Market
mod Orders
mod Machine
mod Launch
mod Launching
