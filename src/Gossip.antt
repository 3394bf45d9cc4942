-- ===== src/Gossip.antt =====
-- The gossip protocol (fiber/src/fiber/gossip.rs and the gossip messages of fiber/src/fiber/types.rs).
pub mod Message
pub mod Cursor
pub mod Store
pub mod Verify
pub mod Prune
pub mod Insert
pub mod Query
