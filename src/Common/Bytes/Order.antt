-- ===== src/Common/Bytes/Order.antt =====
-- The order of byte strings, byte by byte, a prefix first.
use Prim.Native.Nat.{ℕ, compare, Ordering}
use mathlib.Core.Path.{◌≡◌, refl}
use mathlib.Core.List.{List, [], ◌∷◌}
use native.Mathlib.Omega.{arith}
use ai_ckb_backend.Common.BTreeMap.{Ord}

abbrev pub cmp_bytes : List ℕ → List ℕ → Ordering
cmp_bytes [] [] = Ordering.eq
cmp_bytes [] (b ∷ ys) = Ordering.lt
cmp_bytes (a ∷ xs) [] = Ordering.gt
cmp_bytes (a ∷ xs) (b ∷ ys) = elim (compare a b) [
  | Ordering.lt ↦ Ordering.lt
  | Ordering.eq ↦ cmp_bytes xs ys
  | Ordering.gt ↦ Ordering.gt
]

pub cmp_bytes-same : (a : List ℕ) → cmp_bytes a a ≡ Ordering.eq
cmp_bytes-same [] = refl
cmp_bytes-same (a ∷ xs) = ground (arith, cmp_bytes-same xs)

pub cmp_bytes_eq : (a b : List ℕ) → cmp_bytes a b ≡ Ordering.eq → a ≡ b
cmp_bytes_eq [] [] h = refl
cmp_bytes_eq [] (b ∷ ys) h = ground arith
cmp_bytes_eq (a ∷ xs) [] h = ground arith
cmp_bytes_eq (a ∷ xs) (b ∷ ys) h = ground (arith, cmp_bytes_eq xs ys)

pub cmp_bytes_gt : (a b : List ℕ) → cmp_bytes a b ≡ Ordering.gt → cmp_bytes b a ≡ Ordering.lt
cmp_bytes_gt [] [] h = ground arith
cmp_bytes_gt [] (b ∷ ys) h = ground arith
cmp_bytes_gt (a ∷ xs) [] h = refl
cmp_bytes_gt (a ∷ xs) (b ∷ ys) h = ground (arith, cmp_bytes_gt xs ys)

pub cmp_bytes_chain :
    (a b c : List ℕ)
    → cmp_bytes a b ≡ Ordering.lt
    → cmp_bytes b c ≡ Ordering.lt
    → cmp_bytes a c ≡ Ordering.lt
cmp_bytes_chain [] [] c h k = ground arith
cmp_bytes_chain [] (b ∷ ys) [] h k = ground arith
cmp_bytes_chain [] (b ∷ ys) (c ∷ zs) h k = refl
cmp_bytes_chain (a ∷ xs) [] c h k = ground arith
cmp_bytes_chain (a ∷ xs) (b ∷ ys) [] h k = ground arith
cmp_bytes_chain (a ∷ xs) (b ∷ ys) (c ∷ zs) h k = ground (arith, cmp_bytes_chain xs ys zs)

instance abbrev pub Bytes_ord : Ord (List ℕ)
Bytes_ord = record {
  cmp = cmp_bytes;
  cmp_refl = cmp_bytes-same;
  cmp_eq = cmp_bytes_eq;
  cmp_gt = cmp_bytes_gt;
  cmp_trans = cmp_bytes_chain;
}
