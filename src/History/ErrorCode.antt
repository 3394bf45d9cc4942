-- ===== src/History/ErrorCode.antt =====
-- `TlcErrorCode` and `TlcErr` of fiber/src/fiber/types.rs.
use Prim.Native.Nat.{bit_and, bit_or}
use ai_ckb_backend.Common.{ℕ, Bool, true, false, not, Option, some, none, ◌==◌, List}

pub data TlcErrorCode : Type 0 where
  temporary_node_failure permanent_node_failure required_node_feature_missing : TlcErrorCode
  invalid_onion_version invalid_onion_hmac invalid_onion_key temporary_channel_failure :
      TlcErrorCode
  permanent_channel_failure required_channel_feature_missing unknown_next_peer : TlcErrorCode
  amount_below_minimum fee_insufficient incorrect_tlc_expiry expiry_too_soon : TlcErrorCode
  incorrect_or_unknown_payment_details invoice_expired invoice_cancelled : TlcErrorCode
  final_incorrect_expiry_delta final_incorrect_tlc_amount channel_disabled : TlcErrorCode
  expiry_too_far invalid_onion_payload invalid_onion_error : TlcErrorCode

abbrev badonion : ℕ
badonion = 0x8000

abbrev perm : ℕ
perm = 0x4000

abbrev node : ℕ
node = 0x2000

abbrev update : ℕ
update = 0x1000

-- `*self as u16`
unfoldable pub code_u16 : TlcErrorCode → ℕ
code_u16 temporary_node_failure = bit_or node 2
code_u16 permanent_node_failure = bit_or (bit_or perm node) 2
code_u16 required_node_feature_missing = bit_or (bit_or perm node) 3
code_u16 invalid_onion_version = bit_or (bit_or badonion perm) 4
code_u16 invalid_onion_hmac = bit_or (bit_or badonion perm) 5
code_u16 invalid_onion_key = bit_or (bit_or badonion perm) 6
code_u16 temporary_channel_failure = bit_or update 7
code_u16 permanent_channel_failure = bit_or perm 8
code_u16 required_channel_feature_missing = bit_or perm 9
code_u16 unknown_next_peer = bit_or perm 10
code_u16 amount_below_minimum = bit_or update 11
code_u16 fee_insufficient = bit_or update 12
code_u16 incorrect_tlc_expiry = bit_or update 13
code_u16 expiry_too_soon = bit_or perm 14
code_u16 incorrect_or_unknown_payment_details = bit_or perm 15
code_u16 invoice_expired = bit_or perm 16
code_u16 invoice_cancelled = bit_or perm 17
code_u16 final_incorrect_expiry_delta = 18
code_u16 final_incorrect_tlc_amount = 19
code_u16 channel_disabled = bit_or update 20
code_u16 expiry_too_far = bit_or perm 21
code_u16 invalid_onion_payload = bit_or perm 22
code_u16 invalid_onion_error = bit_or (bit_or badonion perm) 25

unfoldable pub is_node : TlcErrorCode → Bool
unfolding code_u16
is_node c = not (bit_and (code_u16 c) node == 0)

unfoldable pub is_bad_onion : TlcErrorCode → Bool
unfolding code_u16
is_bad_onion c = not (bit_and (code_u16 c) badonion == 0)

unfoldable pub is_perm : TlcErrorCode → Bool
unfolding code_u16
is_perm c = not (bit_and (code_u16 c) perm == 0)

unfoldable pub is_update : TlcErrorCode → Bool
unfolding code_u16
is_update c = not (bit_and (code_u16 c) update == 0)

unfoldable pub payment_failed : TlcErrorCode → Bool
payment_failed incorrect_or_unknown_payment_details = true
payment_failed final_incorrect_expiry_delta = true
payment_failed final_incorrect_tlc_amount = true
payment_failed invoice_expired = true
payment_failed invoice_cancelled = true
payment_failed expiry_too_far = true
payment_failed expiry_too_soon = true
payment_failed _ = false

-- `TlcErrData`; the channel update of a failed channel is left as its bytes.
pub data TlcErrData : Type 0 where
  channel_failed : ℕ → Option (List ℕ) → ℕ → TlcErrData
  node_failed : ℕ → TlcErrData

pub record TlcErr : Type 0 where
  pub error_code : TlcErrorCode
  pub extra_data : Option TlcErrData

abbrev pub error_data_node : Option TlcErrData → Option ℕ
error_data_node (some (node_failed n)) = some n
error_data_node (some (channel_failed channel channel_update n)) = some n
error_data_node none = none

unfoldable pub error_node_id : TlcErr → Option ℕ
error_node_id e = error_data_node e.extra_data
