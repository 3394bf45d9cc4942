-- ===== src/Common/Bytes/Integers.antt =====
-- Big-endian integers: their length, reading them back, and their order among byte strings.
use Prim.Native.Nat.{Ordering, compare}
use mathlib.Core.List.{◌++◌}
use native.Mathlib.Nat.{
  mod-lt, mod-eq_of_lt, add-mul-mod_self_right, mul-le-mul_right, div-add-mod', pow-succ',
  one-le-pow,
}
use ai_ckb_backend.Common.{
  ℕ, ap, ◌∙◌, zero, suc, ◌+◌, ◌*◌, ◌/◌, ◌%◌, ◌^◌, ◌<◌, ◌≡◌, refl, sym, List, arith, length, ◌⊎◌,
  inl, inr,
}
use ai_ckb_backend.Common.Bytes.{be_bytes, from_be_bytes, cmp_bytes}

pub length-be_bytes : (w n : ℕ) → length (be_bytes w n) ≡ w
length-be_bytes zero n = refl
length-be_bytes (suc w) n = ground (arith, length-be_bytes w n)

-- A number below `256 * p` from its parts.
parts_lt : (p d r : ℕ) → d < 256 → r < p → d * p + r < 256 * p
parts_lt p d r h k = omega (arith, mul-le-mul_right {m = d} {n = 255} p (omega arith))

spread : (p k d r : ℕ) → (k * 256 + d) * p + r ≡ d * p + r + k * (256 * p)
spread p k d r = omega arith

-- The most significant of `w + 1` digits.
digit_parts : (p n : ℕ) → 0 < p → n % (256 * p) ≡ n / p % 256 * p + n % p
digit_parts p n h =
    let whole : n ≡ n / p % 256 * p + n % p + n / p / 256 * (256 * p) =
      sym (div-add-mod' n p)
      ∙ ap (λ q. q * p + n % p) (sym (div-add-mod' (n / p) 256))
      ∙ spread p (n / p / 256) (n / p % 256) (n % p) in
    let low : n / p % 256 * p + n % p < 256 * p =
      parts_lt p (n / p % 256) (n % p) (omega arith) (mod-lt n h) in
    ap (λ m. m % (256 * p)) whole
    ∙ add-mul-mod_self_right (n / p % 256 * p + n % p) (n / p / 256) (256 * p)
    ∙ mod-eq_of_lt low

power_digit : (w n : ℕ) → n % 256 ^ suc w ≡ n / 256 ^ w % 256 * 256 ^ w + n % 256 ^ w
power_digit w n =
    ap (λ m. n % m) (pow-succ' 256 w) ∙ digit_parts (256 ^ w) n (one-le-pow w 256 (omega arith))

gather : (m p d r : ℕ) → (m * 256 + d) * p + r ≡ m * (256 * p) + (d * p + r)
gather m p d r = omega arith

pub from_be_bytes-be_bytes :
    (w n m : ℕ) → from_be_bytes m (be_bytes w n) ≡ m * 256 ^ w + n % 256 ^ w
from_be_bytes-be_bytes zero n m = omega arith
from_be_bytes-be_bytes (suc w) n m =
    from_be_bytes-be_bytes w n (m * 256 + n / 256 ^ w % 256)
    ∙ rw (power_digit w n, pow-succ' 256 w) (gather m (256 ^ w) (n / 256 ^ w % 256) (n % 256 ^ w))

compare-cases :
    (a b : ℕ)
    → ((compare a b ≡ Ordering.lt) × (a < b))
      ⊎ (((compare a b ≡ Ordering.eq) × (a ≡ b)) ⊎ ((compare a b ≡ Ordering.gt) × (b < a)))
compare-cases a b = ground arith

pub cmp_bytes-be_bytes :
    (w a b : ℕ) (rest more : List ℕ)
    → a % 256 ^ w < b % 256 ^ w
    → cmp_bytes (be_bytes w a ++ rest) (be_bytes w b ++ more) ≡ Ordering.lt
cmp_bytes-be_bytes zero a b rest more h = absurd (omega arith)
cmp_bytes-be_bytes (suc w) a b rest more h =
    let below : a / 256 ^ w % 256 * 256 ^ w + a % 256 ^ w
        < b / 256 ^ w % 256 * 256 ^ w + b % 256 ^ w =
      omega (arith, power_digit w a, power_digit w b) in
    elim (compare-cases (a / 256 ^ w % 256) (b / 256 ^ w % 256)) [
      | inl (c, l) ↦ rw (c, cmp_bytes)
      | inr (inl (c, e)) ↦
          rw (c, cmp_bytes)
            (cmp_bytes-be_bytes w a b rest more (omega (arith, ap (λ d. d * 256 ^ w) e)))
      | inr (inr (c, g)) ↦ absurd (
          omega (
            arith,
            mul-le-mul_right {m = suc (b / 256 ^ w % 256)} {n = a / 256 ^ w % 256} (256 ^ w) g,
            mod-lt b {m = 256 ^ w} (one-le-pow w 256 (omega arith)),
          ))
    ]
