-- ===== src/Tlc/Id.antt =====
-- `TLCId` of fiber/src/fiber/channel.rs, with its derived order and equality. The number is a `u64`.
use Prim.Native.Nat.{compare, Ordering}
use ai_ckb_backend.Common.{ℕ, ◌≡◌, ◌↔◌, Bool, true, false, not, ◌==◌, arith}
use ai_ckb_backend.Common.BTreeMap.{Ord}

pub data TlcId : Type 0 where
  offered received : ℕ → TlcId

-- `From<TLCId> for u64`.
abbrev pub to_u64 : TlcId → ℕ
to_u64 (offered n) = n
to_u64 (received n) = n

abbrev pub is_offered : TlcId → Bool
is_offered (offered n) = true
is_offered (received n) = false

abbrev pub is_received : TlcId → Bool
is_received i = not (is_offered i)

unfoldable pub flip : TlcId → TlcId
flip (offered n) = received n
flip (received n) = offered n

-- The derived `PartialEq`.
abbrev pub same : TlcId → TlcId → Bool
same (offered n) (offered m) = n == m
same (received n) (received m) = n == m
same _ _ = false

pub same_iff : (a b : TlcId) → (same a b ≡ true) ↔ (a ≡ b)
same_iff a b = ground arith

-- The derived `Ord`: the variants in the order of their declaration, then their numbers.
abbrev pub cmp : TlcId → TlcId → Ordering
cmp (offered n) (offered m) = compare n m
cmp (offered n) (received m) = Ordering.lt
cmp (received n) (offered m) = Ordering.gt
cmp (received n) (received m) = compare n m

pub cmp_refl : (a : TlcId) → cmp a a ≡ Ordering.eq
cmp_refl (offered n) = ground arith
cmp_refl (received n) = ground arith

pub cmp_eq : (a b : TlcId) → cmp a b ≡ Ordering.eq → a ≡ b
cmp_eq a b h = ground arith

pub cmp_gt : (a b : TlcId) → cmp a b ≡ Ordering.gt → cmp b a ≡ Ordering.lt
cmp_gt a b h = ground arith

pub cmp_trans :
    (a b c : TlcId) → cmp a b ≡ Ordering.lt → cmp b c ≡ Ordering.lt → cmp a c ≡ Ordering.lt
cmp_trans a b c h k = ground arith

instance abbrev pub TlcId_ord : Ord TlcId
TlcId_ord = record {
  cmp = cmp;
  cmp_refl = cmp_refl;
  cmp_eq = cmp_eq;
  cmp_gt = cmp_gt;
  cmp_trans = cmp_trans;
}
