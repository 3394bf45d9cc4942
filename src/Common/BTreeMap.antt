-- ===== src/Common/BTreeMap.antt =====
-- `BTreeMap` as an association list in strictly rising order of its keys: what the code relies on
-- of the standard library's map (`insert`, `remove`, `contains_key`, `collect`, iteration in order).
mod Keys
mod Laws
mod Sorted
mod Weigh
pub use Defs.*
pub use Keys.*
pub use Laws.*
pub use Weigh.*
pub use Sorted.*
mod Defs
