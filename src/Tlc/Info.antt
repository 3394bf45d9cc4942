-- ===== src/Tlc/Info.antt =====
-- `AddTlcInfo`, `RemoveTlcInfo` and the types of their fields (fiber/src/fiber/channel.rs,
-- fiber/src/fiber/types.rs, fiber/src/fiber/hash_algorithm.rs). A 32-byte value (`Hash256`, a shared
-- secret) is the number that its bytes spell; an onion packet is its list of bytes.
use ai_ckb_backend.Common.{
  ℕ, ◌+◌, ◌*◌, Bool, true, false, not, ◌&&◌, Option, none, some, List, [], ◌∷◌, ◌==◌, if◌then◌else◌,
}
use ai_ckb_backend.Tlc.Commitment.{CommitmentNumbers}
use ai_ckb_backend.Tlc.Id.{TlcId}
use ai_ckb_backend.Tlc.Id

abbrev pub Hash256 : Type 0
Hash256 = ℕ

pub data HashAlgorithm : Type 0 where
  ckb_hash sha256 : HashAlgorithm

-- `self.hash_algorithm as u8`, by `#[repr(u8)]`.
abbrev pub HashAlgorithm_u8 : HashAlgorithm → ℕ
HashAlgorithm_u8 ckb_hash = 0
HashAlgorithm_u8 sha256 = 1

-- `TryFrom<u8>`; `none` is `UnknownHashAlgorithmError`.
unfoldable pub HashAlgorithm_try_from : ℕ → Option HashAlgorithm
HashAlgorithm_try_from n = if n == 0 then some ckb_hash else if n == 1 then some sha256 else none

-- `RemoveTlcFulfill` holds the preimage, `TlcErrPacket` the bytes of the onion packet.
pub data RemoveTlcReason : Type 0 where
  remove_tlc_fulfill : Hash256 → RemoveTlcReason
  remove_tlc_fail : List ℕ → RemoveTlcReason

abbrev pub bytes_eq : List ℕ → List ℕ → Bool
bytes_eq [] [] = true
bytes_eq (x ∷ xs) (y ∷ ys) = x == y && bytes_eq xs ys
bytes_eq _ _ = false

-- The derived `PartialEq`.
abbrev pub same_reason : RemoveTlcReason → RemoveTlcReason → Bool
same_reason (remove_tlc_fulfill p) (remove_tlc_fulfill q) = p == q
same_reason (remove_tlc_fail p) (remove_tlc_fail q) = bytes_eq p q
same_reason _ _ = false

pub record AddTlcInfo : Type 0 where
  pub channel_id : Hash256
  pub tlc_id : TlcId
  pub amount : ℕ  -- u128
  pub payment_hash : Hash256
  pub expiry : ℕ  -- u64
  pub hash_algorithm : HashAlgorithm
  pub onion_packet : Option (List ℕ)
  pub shared_secret : ℕ
  pub created_at : CommitmentNumbers
  pub removed_at : Option (CommitmentNumbers × RemoveTlcReason)
  pub payment_preimage : Option Hash256
  pub previous_tlc : Option (Hash256 × TlcId)

abbrev pub is_offered : AddTlcInfo → Bool
is_offered t = Id.is_offered t.tlc_id

abbrev pub is_received : AddTlcInfo → Bool
is_received t = not (is_offered t)

unfoldable pub get_commitment_numbers : AddTlcInfo → CommitmentNumbers
get_commitment_numbers t = t.created_at

unfoldable pub flip_mut : AddTlcInfo → AddTlcInfo
unfolding Id.flip
flip_mut t = record t { tlc_id = Id.flip t.tlc_id }

-- `((self.hash_algorithm as u8) << 1) + offered_flag`, at most 3.
unfoldable pub get_htlc_type : AddTlcInfo → ℕ
get_htlc_type t =
    let offered_flag : ℕ = if is_offered t then 0 else 1 in
    HashAlgorithm_u8 t.hash_algorithm * 2 + offered_flag

pub record RemoveTlcInfo : Type 0 where
  pub channel_id : Hash256
  pub tlc_id : TlcId
  pub reason : RemoveTlcReason
