-- ===== src/Payments.antt =====
-- The payments that the network actor sends (fiber/src/fiber/network.rs).
pub mod Request
pub mod State
pub mod Failure
pub mod Send
pub mod Remove
pub mod Restart
pub mod Bounded
pub mod Steps
