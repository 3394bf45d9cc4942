-- ===== src/Tests.antt =====
-- Test data, runs and applications of the theorems at concrete inputs.
mod Gossip
mod Verification
mod Routes
mod Sends
mod Tlcs
mod Channels
mod Payments
mod Orders
mod Parameters
