-- ===== src/Common/BTreeMap/Keys.antt =====
-- Keys that are numbers, in their order: they stand for keys of which the code uses only the order
-- or the equality.
use Prim.Native.Nat.{ℕ, compare, Ordering}
use mathlib.Core.Path.{◌≡◌}
use native.Mathlib.Omega.{arith}
use ai_ckb_backend.Common.BTreeMap.Defs.{Ord}

pub compare_refl : (a : ℕ) → compare a a ≡ Ordering.eq
compare_refl a = ground arith

pub compare_eq : (a b : ℕ) → compare a b ≡ Ordering.eq → a ≡ b
compare_eq a b h = ground arith

pub compare_gt : (a b : ℕ) → compare a b ≡ Ordering.gt → compare b a ≡ Ordering.lt
compare_gt a b h = ground arith

pub compare_trans :
    (a b c : ℕ) → compare a b ≡ Ordering.lt → compare b c ≡ Ordering.lt → compare a c ≡ Ordering.lt
compare_trans a b c h k = ground arith

instance abbrev pub Key_ord : Ord ℕ
Key_ord = record {
  cmp = compare;
  cmp_refl = compare_refl;
  cmp_eq = compare_eq;
  cmp_gt = compare_gt;
  cmp_trans = compare_trans;
}
