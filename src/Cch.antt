-- ===== src/Cch.antt =====
-- The cross-chain hub (fiber/src/cch).
pub mod Orders
