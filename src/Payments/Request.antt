-- ===== src/Payments/Request.antt =====
-- `SendPaymentCommand` and `SendPaymentData::new` of fiber/src/fiber/network.rs. What the code reads of
-- a parsed invoice is a record; `parse_invoice` and the hash of the preimage are other crates'.
pub mod Valid
use ai_ckb_backend.Common.{
  ℕ, ◌-◌, ◌^◌, Bool, true, false, not, ◌&&◌, ◌||◌, Option, some, none, if◌then◌else◌, ltb, leb,
  ◌==◌, is_some, is_none,
}
use ai_ckb_backend.Common.Outcome.{Outcome, ok, err, panic, fail_if, ◌>>=◌, ◌>>◌, u64_mod}
use ai_ckb_backend.Tlc.Info.{Hash256, HashAlgorithm}
use ai_ckb_backend.Graph.Session.{SendPaymentData}

pub record Invoice : Type 0 where
  pub expired : Bool  -- `is_expired()` at the time of the call
  pub payee_pub_key : Option ℕ
  pub amount : Option ℕ
  pub udt_type_script : Option ℕ
  pub final_tlc_minimum_expiry_delta : Option ℕ
  pub payment_hash : Hash256
  pub hash_algorithm : Option HashAlgorithm

pub record SendPaymentCommand : Type 0 where
  pub target_pubkey : Option ℕ
  pub amount : Option ℕ
  pub payment_hash : Option Hash256
  pub invoice : Option ℕ
  pub final_tlc_expiry_delta : Option ℕ
  pub tlc_expiry_limit : Option ℕ
  pub timeout : Option ℕ
  pub max_fee_amount : Option ℕ
  pub max_parts : Option ℕ
  pub keysend : Option Bool
  pub udt_type_script : Option ℕ
  pub allow_self_payment : Bool
  pub dry_run : Bool

pub data Field : Type 0 where
  target_field amount_field udt_field hash_field : Field

pub data RequestError : Type 0 where
  invoice_is_invalid invoice_is_expired : RequestError
  does_not_match is_missing : Field → RequestError
  invalid_final_tlc_expiry_delta tlc_expiry_limit_too_small tlc_expiry_limit_too_large :
      RequestError
  keysend_with_invoice keysend_with_payment_hash : RequestError
  amount_too_large : ℕ → RequestError

-- The constants of fiber/src/fiber/config.rs, in milliseconds.
abbrev pub default_tlc_expiry_delta : ℕ
default_tlc_expiry_delta = 86400000

abbrev pub min_tlc_expiry_delta : ℕ
min_tlc_expiry_delta = 900000

abbrev pub max_payment_tlc_expiry_limit : ℕ
max_payment_tlc_expiry_limit = 1209600000

abbrev pub Checked : Type 0 → Type 0
Checked A = Outcome RequestError A

abbrev pub or : Option ℕ → ℕ → ℕ
or none d = d
or (some n) d = n

unfoldable pub validate_field : Option ℕ → Option ℕ → Field → Checked ℕ
validate_field (some f) (some i) name = if f == i then ok f else err (does_not_match name)
validate_field (some f) none name = ok f
validate_field none (some i) name = ok i
validate_field none none name = err (is_missing name)

-- The script may be missing.
abbrev pub missing_is_none : Checked ℕ → Checked (Option ℕ)
missing_is_none (ok s) = ok (some s)
missing_is_none (err (is_missing udt_field)) = ok none
missing_is_none (err e) = err e
missing_is_none panic = panic

-- The fields of the invoice, where there is one.
abbrev pub of_invoice : Option Invoice → (Invoice → Option ℕ) → Option ℕ
of_invoice none field = none
of_invoice (some i) field = field i

abbrev pub or_invoice : Option ℕ → Option ℕ → Option ℕ
or_invoice (some n) other = some n
or_invoice none other = other

abbrev pub is_keysend : Option Bool → Bool
is_keysend none = false
is_keysend (some k) = k

abbrev pub expired : Option Invoice → Bool
expired none = false
expired (some i) = i.expired

unfoldable pub check_final_delta : ℕ → Checked (Unit {0})
check_final_delta delta =
    fail_if (ltb delta min_tlc_expiry_delta || ltb max_payment_tlc_expiry_limit delta)
      invalid_final_tlc_expiry_delta

unfoldable pub check_limit : ℕ → ℕ → Checked (Unit {0})
check_limit limit delta = do
  fail_if (ltb limit delta || ltb limit min_tlc_expiry_delta) tlc_expiry_limit_too_small
  fail_if (ltb max_payment_tlc_expiry_limit limit) tlc_expiry_limit_too_large

unfoldable pub check_amount : Option ℕ → ℕ → Checked (Unit {0})
check_amount udt amount =
    fail_if (is_none udt && leb (u64_mod - 1) amount) (amount_too_large amount)

module _ (parse_invoice : ℕ → Option Invoice) (blake2b_256 : Hash256 → Hash256) where
  abbrev pub parse : Option ℕ → Checked (Option Invoice)
  parse none = ok none
  parse (some text) = elim (parse_invoice text) [
    | none ↦ err invoice_is_invalid
    | some i ↦ ok (some i)
  ]

  -- The hash and the preimage; `random` is the preimage that a keysend payment draws.
  unfoldable pub hash_and_preimage :
      Hash256 → Bool → SendPaymentCommand → Option Invoice → Checked (Hash256 × Option Hash256)
  unfolding validate_field
  hash_and_preimage random false c invoice = do
    hash ← validate_field c.payment_hash (of_invoice invoice (λ i. some i.payment_hash)) hash_field
    ok (hash, none)
  hash_and_preimage random true c invoice = do
    fail_if (is_some invoice) keysend_with_invoice
    fail_if (is_some c.payment_hash) keysend_with_payment_hash
    ok (blake2b_256 random, some random)

  abbrev pub delta_of : SendPaymentCommand → Option Invoice → ℕ
  delta_of c invoice =
      or
        (or_invoice c.final_tlc_expiry_delta
          (of_invoice invoice (λ i. i.final_tlc_minimum_expiry_delta)))
        default_tlc_expiry_delta

  abbrev pub limit_of : SendPaymentCommand → ℕ
  limit_of c = or c.tlc_expiry_limit max_payment_tlc_expiry_limit

  abbrev pub data_of :
      SendPaymentCommand
      → Option Invoice
      → ℕ
      → ℕ
      → Option ℕ
      → Hash256 × Option Hash256
      → SendPaymentData
  data_of c invoice target amount udt hash = record {
    target_pubkey = target;
    amount = amount;
    payment_hash = hash.0;
    invoice = c.invoice;
    final_tlc_expiry_delta = delta_of c invoice;
    tlc_expiry_limit = limit_of c;
    timeout = c.timeout;
    max_fee_amount = c.max_fee_amount;
    max_parts = c.max_parts;
    keysend = is_keysend c.keysend;
    udt_type_script = udt;
    preimage = hash.1;
    allow_self_payment = c.allow_self_payment;
    dry_run = c.dry_run;
  }

  -- From the check of the expiry on.
  unfoldable pub check_terms :
      Hash256 → SendPaymentCommand → Option Invoice → ℕ → ℕ → Option ℕ → Checked SendPaymentData
  unfolding check_final_delta check_limit check_amount hash_and_preimage
  check_terms random c invoice target amount udt = do
    check_final_delta (delta_of c invoice)
    check_limit (limit_of c) (delta_of c invoice)
    hash ← hash_and_preimage random (is_keysend c.keysend) c invoice
    check_amount udt amount
    ok (data_of c invoice target amount udt hash)

  unfoldable pub new_request : Hash256 → SendPaymentCommand → Checked SendPaymentData
  unfolding validate_field check_terms
  new_request random c = do
    invoice ← parse c.invoice
    fail_if (expired invoice) invoice_is_expired
    target ← validate_field c.target_pubkey (of_invoice invoice (λ i. i.payee_pub_key)) target_field
    amount ← validate_field c.amount (of_invoice invoice (λ i. i.amount)) amount_field
    udt ←
        missing_is_none
          (validate_field c.udt_type_script (of_invoice invoice (λ i. i.udt_type_script)) udt_field)
    check_terms random c invoice target amount udt
