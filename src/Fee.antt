-- ===== src/Fee.antt =====
-- `calculate_tlc_forward_fee` of fiber/src/fiber/fee.rs: the fee for forwarding a TLC.
use ai_ckb_backend.Common.{
  ℕ, ◌+◌, ◌*◌, ◌/◌, ◌%◌, ◌≤◌, ◌<◌, ◌≡◌, refl, ◌⊎◌, inl, inr, arith, if◌then◌else◌, ltb, Bool-cases,
  ltb→lt,
}
use ai_ckb_backend.Common.Outcome.{Outcome, ok, err, u128_mod, ◌>>=◌}

-- The text of the error is left out.
abbrev pub Fee : Type 0
Fee = Outcome (Unit {0}) ℕ

-- `checked_mul` of u128.
abbrev pub checked_mul : ℕ → ℕ → Fee
checked_mul a b = if ltb (a * b) u128_mod then ok (a * b) else err tt

-- The fee is at most 2^128 / 10^6 + 1, so that `base_fee + 1` does not overflow.
unfoldable pub round_up : ℕ → Fee
round_up fee =
    let base_fee = fee / 1000000 in
    let remainder = fee % 1000000 in if ltb 0 remainder then ok (base_fee + 1) else ok base_fee

unfoldable pub calculate_tlc_forward_fee : ℕ → ℕ → Fee
unfolding round_up
calculate_tlc_forward_fee amount fee_proportational_millionths = do
  fee ← checked_mul fee_proportational_millionths amount
  round_up fee

round_up_lem :
    (p : ℕ)
    → (fee : ℕ) × (round_up p ≡ ok fee)
      × (p ≤ fee * 1000000)
      × ((g : ℕ) → p ≤ g * 1000000 → fee ≤ g)
unfolding round_up
round_up_lem p = elim (Bool-cases (ltb 0 (p % 1000000))) [
  | inl e ↦
      let more = ltb→lt 0 (p % 1000000) e in
      (p / 1000000 + 1, rw e refl, omega arith, λ g h. omega arith)
  | inr e ↦ (p / 1000000, rw e refl, ground arith, λ g h. omega arith)
]

-- The forwarding fee is an error exactly if the product of the amount and the rate does not fit in 128
-- bits; otherwise it is the least number of units whose millionfold covers that product.
pub calculate_tlc_forward_fee_least :
    (amount rate : ℕ)
    → ((u128_mod ≤ rate * amount) × (calculate_tlc_forward_fee amount rate ≡ err tt))
      ⊎ ((rate * amount < u128_mod)
          × ((fee : ℕ) × (calculate_tlc_forward_fee amount rate ≡ ok fee)
              × (rate * amount ≤ fee * 1000000)
              × ((g : ℕ) → rate * amount ≤ g * 1000000 → fee ≤ g)))
unfolding calculate_tlc_forward_fee
calculate_tlc_forward_fee_least amount rate = elim (Bool-cases (ltb (rate * amount) u128_mod)) [
  | inl e ↦
      let (fee, r, b, m) = round_up_lem (rate * amount) in
      inr (ltb→lt (rate * amount) u128_mod e, (fee, rw e r, b, m))
  | inr e ↦ inl (ground arith, rw e refl)
]
