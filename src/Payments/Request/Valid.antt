-- ===== src/Payments/Request/Valid.antt =====
-- What a payment request that is accepted satisfies (`SendPaymentData::new` of
-- fiber/src/fiber/network.rs).
use mathlib.Core.Path.{subst}
use ai_ckb_backend.Common.{
  ℕ, ◌-◌, ◌≤◌, ◌<◌, ◌≡◌, refl, sym, Bool, true, false, Option, some, none, ◌==◌, arith, ==_iff,
  Bool-cases, inl, inr,
}
use ai_ckb_backend.Common.Outcome.{ok, fail_if, >>=-Passed, ok_same, u64_mod}
use ai_ckb_backend.Tlc.Info.{Hash256}
use ai_ckb_backend.Graph.Session.{SendPaymentData}
use ai_ckb_backend.Payments.Request.{
  Invoice, SendPaymentCommand, Field, RequestError, validate_field, missing_is_none, of_invoice,
  is_keysend, expired, check_final_delta, check_limit, check_amount, parse, hash_and_preimage,
  check_terms, data_of, delta_of, limit_of, invoice_is_expired, new_request, min_tlc_expiry_delta,
  max_payment_tlc_expiry_limit, target_field, amount_field, udt_field,
}

-- The value is the one that is given, and the one of the invoice, where these are there; one is.
abbrev pub IsGiven : Option ℕ → Option ℕ → ℕ → Type 0
IsGiven none none v = ⊥
IsGiven (some f) none v = f ≡ v
IsGiven none (some i) v = i ≡ v
IsGiven (some f) (some i) v = (f ≡ v) × (i ≡ v)

abbrev pub IsGivenOrNone : Option ℕ → Option ℕ → Option ℕ → Type 0
IsGivenOrNone f i (some v) = IsGiven f i v
IsGivenOrNone f i none = (f ≡ none) × (i ≡ none)

pub record IsAccepted (c : SendPaymentCommand) (invoice : Option Invoice) (d : SendPaymentData)
    : Type 0 where
  pub unexpired : expired invoice ≡ false
  pub target : IsGiven c.target_pubkey (of_invoice invoice (λ i. i.payee_pub_key)) d.target_pubkey
  pub amount : IsGiven c.amount (of_invoice invoice (λ i. i.amount)) d.amount
  pub udt :
      IsGivenOrNone c.udt_type_script
        (of_invoice invoice (λ i. i.udt_type_script))
        d.udt_type_script
  pub delta :
      (min_tlc_expiry_delta ≤ d.final_tlc_expiry_delta)
      × (d.final_tlc_expiry_delta ≤ d.tlc_expiry_limit)
  pub limit : d.tlc_expiry_limit ≤ max_payment_tlc_expiry_limit
  pub ckb_amount : d.udt_type_script ≡ none → d.amount < u64_mod - 1

validate_field-IsGiven :
    (f i : Option ℕ) (name : Field) (v : ℕ) → validate_field f i name ≡ ok v → IsGiven f i v
unfolding validate_field
validate_field-IsGiven none none name v h = absurd (ground (arith, h))
validate_field-IsGiven (some f) none name v h = ok_same h
validate_field-IsGiven none (some i) name v h = ok_same h
validate_field-IsGiven (some f) (some i) name v h = ground (arith, h)

udt-IsGivenOrNone :
    (f i : Option ℕ) (v : Option ℕ)
    → missing_is_none (validate_field f i udt_field) ≡ ok v
    → IsGivenOrNone f i v
unfolding validate_field
udt-IsGivenOrNone none none v h = subst (IsGivenOrNone none none) (ok_same h) (refl, refl)
udt-IsGivenOrNone (some f) none v h = subst (IsGivenOrNone (some f) none) (ok_same h) refl
udt-IsGivenOrNone none (some i) v h = subst (IsGivenOrNone none (some i)) (ok_same h) refl
udt-IsGivenOrNone (some f) (some i) v h = elim (Bool-cases (f == i)) [
  | inl e ↦
      subst (IsGivenOrNone (some f) (some i)) (ok_same (rw e at h)) (refl, sym ((==_iff f i).0 e))
  | inr e ↦ absurd (ground (arith, rw e at h))
]

check_final_delta-bounds :
    (d : ℕ) (u : Unit {0})
    → check_final_delta d ≡ ok u
    → (min_tlc_expiry_delta ≤ d) × (d ≤ max_payment_tlc_expiry_limit)
unfolding check_final_delta
check_final_delta-bounds d u h = ground (arith, h)

check_limit-bounds :
    (limit d : ℕ) (u : Unit {0})
    → check_limit limit d ≡ ok u
    → (d ≤ limit) × (limit ≤ max_payment_tlc_expiry_limit)
unfolding check_limit
check_limit-bounds limit d u h = ground (arith, h)

check_amount-bounds :
    (udt : Option ℕ) (amount : ℕ) (u : Unit {0})
    → check_amount udt amount ≡ ok u
    → udt ≡ none
    → amount < u64_mod - 1
unfolding check_amount
check_amount-bounds udt amount u h e = ground (arith, h, e)

fail_if-passes : (b : Bool) (e : RequestError) (u : Unit {0}) → fail_if b e ≡ ok u → b ≡ false
fail_if-passes true e u h = absurd (ground (arith, h))
fail_if-passes false e u h = refl

module _ (parse_invoice : ℕ → Option Invoice) (blake2b_256 : Hash256 → Hash256) where
  check_terms-data :
      (random : Hash256) (c : SendPaymentCommand) (invoice : Option Invoice) (target amount : ℕ)
      (udt : Option ℕ) (d : SendPaymentData)
      → check_terms parse_invoice blake2b_256 random c invoice target amount udt ≡ ok d
      → (hash : Hash256 × Option Hash256) × (data_of parse_invoice blake2b_256 c invoice target
            amount udt hash
          ≡ d)
        × ((min_tlc_expiry_delta ≤ delta_of parse_invoice blake2b_256 c invoice)
            × (delta_of parse_invoice blake2b_256 c invoice ≤ limit_of parse_invoice blake2b_256 c))
        × (limit_of parse_invoice blake2b_256 c ≤ max_payment_tlc_expiry_limit)
        × (udt ≡ none → amount < u64_mod - 1)
  unfolding check_terms
  check_terms-data random c invoice target amount udt d h =
      let delta : ℕ = delta_of parse_invoice blake2b_256 c invoice in
      let limit : ℕ = limit_of parse_invoice blake2b_256 c in
      let (u2, f, h6) = >>=-Passed (check_final_delta delta) _ h in
      let (u3, l, h7) = >>=-Passed (check_limit limit delta) _ h6 in
      let (hash, g, h8) =
        >>=-Passed
          (hash_and_preimage parse_invoice blake2b_256 random (is_keysend c.keysend) c invoice) _
          h7 in
      let (u4, m, h9) = >>=-Passed (check_amount udt amount) _ h8 in
      (
        hash,
        ok_same h9,
        ((check_final_delta-bounds delta u2 f).0, (check_limit-bounds limit delta u3 l).0),
        (check_limit-bounds limit delta u3 l).1,
        check_amount-bounds udt amount u4 m,
      )

  -- A payment request that is accepted: its invoice parses and has not expired; the target and the
  -- amount are those of the command and of the invoice, where these give them, and one of them does;
  -- so is the UDT script, which both may leave out; the final expiry delta and the expiry limit are in
  -- order between the smallest and the largest that are allowed, and an amount of CKB is below 2^64 - 1.
  pub new_request-IsAccepted :
      (random : Hash256) (c : SendPaymentCommand) (d : SendPaymentData)
      → new_request parse_invoice blake2b_256 random c ≡ ok d
      → (invoice : Option Invoice) × (parse parse_invoice blake2b_256 c.invoice ≡ ok invoice)
        × IsAccepted c invoice d
  unfolding new_request
  new_request-IsAccepted random c d h =
      let (invoice, p, h1) = >>=-Passed (parse parse_invoice blake2b_256 c.invoice) _ h in
      let (u1, x, h2) = >>=-Passed (fail_if (expired invoice) invoice_is_expired) _ h1 in
      let (target, t, h3) =
        >>=-Passed
          (validate_field c.target_pubkey (of_invoice invoice (λ i. i.payee_pub_key)) target_field)
          _ h2 in
      let (amount, a, h4) =
        >>=-Passed (validate_field c.amount (of_invoice invoice (λ i. i.amount)) amount_field) _
          h3 in
      let (udt, s, h5) =
        >>=-Passed
          (missing_is_none (
            validate_field c.udt_type_script (of_invoice invoice (λ i. i.udt_type_script))
              udt_field))
          _ h4 in
      let (hash, same, delta, limit, ckb) =
        check_terms-data random c invoice target amount udt d h5 in
      (
        invoice,
        p,
        subst (IsAccepted c invoice) same (record {
          unexpired = fail_if-passes (expired invoice) invoice_is_expired u1 x;
          target =
              validate_field-IsGiven c.target_pubkey (of_invoice invoice (λ i. i.payee_pub_key))
                target_field target t;
          amount =
              validate_field-IsGiven c.amount (of_invoice invoice (λ i. i.amount)) amount_field
                amount a;
          udt =
              udt-IsGivenOrNone c.udt_type_script (of_invoice invoice (λ i. i.udt_type_script)) udt
                s;
          delta = delta;
          limit = limit;
          ckb_amount = ckb;
        }),
      )
