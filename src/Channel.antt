-- ===== src/Channel.antt =====
-- The channel actor's state and what it does with TLCs: fiber/src/fiber/channel.rs.
pub mod Flags
pub mod Error
pub mod State
pub mod Checks
pub mod Settle
pub mod Parameters
pub mod Messages
pub mod Amounts
pub mod Solvency
pub mod Acceptance
pub mod Settlement
pub mod Repeats
