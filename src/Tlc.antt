-- ===== src/Tlc.antt =====
-- The TLC (time locked contract) state of a channel: fiber/src/fiber/channel.rs, from
-- `CommitmentNumbers` to `TlcState`.
pub mod Commitment
pub mod Id
pub mod Info
pub mod Kind
pub mod Pending
pub mod State
