-- ===== src/Channel/Error.antt =====
-- `ProcessingChannelError` of fiber/src/fiber/channel.rs. The texts, and the values of the third-party
-- errors that some variants wrap, are left out.
pub data ProcessingChannelError : Type 0 where
  invalid_state repeated_processing invalid_parameter capacity_error spawn_err :
      ProcessingChannelError
  musig2_verify_error musig2_signing_error waiting_tlc_ack : ProcessingChannelError
  peeling_onion_packet_error incorrect_tlc_expiry incorrect_final_tlc_expiry :
      ProcessingChannelError
  final_incorrect_htlc_amount final_incorrect_payment_hash : ProcessingChannelError
  final_incorrect_preimage tlc_forward_fee_is_too_low final_invoice_invalid : ProcessingChannelError
  tlc_number_exceed_limit tlc_value_inflight_exceed_limit : ProcessingChannelError
  tlc_amount_is_too_low tlc_amount_exceed_limit : ProcessingChannelError
  tlc_expiry_soon tlc_expiry_too_far tlc_forwarding_error : ProcessingChannelError
