-- ===== src/Common/Bytes.antt =====
-- Byte strings: lists of numbers below 256, big-endian integers in them and their order.
mod Order
pub mod Integers
pub use Order.*
use Prim.Native.Nat.{ℕ, zero, suc, ◌+◌, ◌*◌, ◌/◌, ◌%◌, ◌^◌}
use mathlib.Core.List.{List, [], ◌∷◌}

-- The last `w` bytes of a number, the most significant first: `to_be_bytes` for `w` bytes.
abbrev pub be_bytes : ℕ → ℕ → List ℕ
be_bytes zero n = []
be_bytes (suc w) n = n / 256 ^ w % 256 ∷ be_bytes w n

-- `from_be_bytes`, with the value of the bytes before.
abbrev pub from_be_bytes : ℕ → List ℕ → ℕ
from_be_bytes n [] = n
from_be_bytes n (b ∷ ys) = from_be_bytes (n * 256 + b) ys
