-- ===== src/History.antt =====
-- The payment history: fiber/src/fiber/history.rs, and the error codes that it reads, of
-- fiber/src/fiber/types.rs. A public key and an out point are the numbers that their bytes spell; the
-- wall clock is an argument `now`, the same for all readings within one call.
pub mod ErrorCode
pub mod Internal
pub mod Fail
pub mod Pairs
