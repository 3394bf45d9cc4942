-- ===== src/Common/Outcome.antt =====
-- What a call gives back: a value, an error value, or a panic (fiber/Cargo.toml sets
-- `panic = "abort"` and `overflow-checks = true`, so that an overflow ends the process).
use Prim.Native.Nat.{ℕ, ◌+◌, ◌-◌, ◌^◌}
use mathlib.Core.Path.{◌≡◌, refl}
use mathlib.Core.Bool.{Bool, true, false}
use ai_ckb_backend.Common.Tests.{ltb, leb, if◌then◌else◌}

pub data Outcome {ℓ κ} (E : Type ℓ) (A : Type κ) : Type (ℓ ⊔ κ) where
  ok : A → Outcome E A
  err : E → Outcome E A
  panic : Outcome E A

module _ {ℓ κ μ} {E : Type ℓ} {A : Type κ} {B : Type μ} where
  infixl 5 ◌>>=◌
  -- `?`: the next call runs only after a value.
  abbrev pub ◌>>=◌ : Outcome E A → (A → Outcome E B) → Outcome E B
  panic >>= next = panic
  err why >>= next = err why
  ok value >>= next = next value

module _ {ℓ κ} {E : Type ℓ} {B : Type κ} where
  infixl 5 ◌>>◌
  abbrev pub ◌>>◌ : Outcome E (Unit {0}) → Outcome E B → Outcome E B
  check >> rest = check >>= λ done. rest

-- An early `return Err(e)` when the test holds.
abbrev pub fail_if {ℓ} : {E : Type ℓ} → Bool → E → Outcome E (Unit {0})
fail_if true e = err e
fail_if false e = ok tt

-- `assert!` and the arithmetic that is checked: the test has to hold.
abbrev pub assert {ℓ} : {E : Type ℓ} → Bool → Outcome E (Unit {0})
assert true = ok tt
assert false = panic

abbrev pub u64_mod : ℕ
u64_mod = 2 ^ 64

abbrev pub u128_mod : ℕ
u128_mod = 2 ^ 128

module _ {ℓ} {E : Type ℓ} where
  abbrev pub add_u64 : ℕ → ℕ → Outcome E ℕ
  add_u64 a b = if ltb (a + b) u64_mod then ok (a + b) else panic

  abbrev pub add_u128 : ℕ → ℕ → Outcome E ℕ
  add_u128 a b = if ltb (a + b) u128_mod then ok (a + b) else panic

  abbrev pub sub_u128 : ℕ → ℕ → Outcome E ℕ
  sub_u128 a b = if leb b a then ok (a - b) else panic

module _ {ℓ κ μ} {E : Type ℓ} {A : Type κ} {B : Type μ} where
  -- What a chain of two calls that gave a value went through.
  abbrev pub Passed : Outcome E A → (A → Outcome E B) → B → Type (ℓ ⊔ κ ⊔ μ)
  Passed first next result = (value : A) × (first ≡ ok value) × (next value ≡ ok result)

  pub >>=-Passed :
      (first : Outcome E A) (next : A → Outcome E B) {result : B}
      → (first >>= next) ≡ ok result
      → Passed first next result
  >>=-Passed panic next gone = cc
  >>=-Passed (err why) next gone = cc
  >>=-Passed (ok v) next gone = (v, refl, gone)

pub ok_same {ℓ κ} :
    {E : Type ℓ} {A : Type κ} {a b : A} → ◌≡◌ {A = Outcome E A} (ok a) (ok b) → a ≡ b
ok_same h = cc
