-- ===== src/Channel/Checks.antt =====
-- The checks before a TLC operation (fiber/src/fiber/channel.rs). `now` is the wall clock in
-- milliseconds and `hash` the hash functions of the third-party crates. The release build is
-- modelled: `debug_assert!` is not there.
use ai_ckb_backend.Common.{
  ℕ, ◌*◌, Bool, true, false, not, ◌&&◌, List, Option, some, none, if◌then◌else◌, ltb, leb, ◌==◌,
  any, length, is_some,
}
use ai_ckb_backend.Common.Outcome.{Outcome, ok, err, add_u64, add_u128, fail_if, ◌>>=◌, ◌>>◌}
use ai_ckb_backend.Tlc.Id.{TlcId}
use ai_ckb_backend.Tlc.Info.{
  AddTlcInfo, RemoveTlcReason, remove_tlc_fulfill, remove_tlc_fail, HashAlgorithm, is_offered,
}
use ai_ckb_backend.Tlc.State.{all_tlcs, get_tlc}
use ai_ckb_backend.Channel.Flags.{ChannelState, channel_ready, shutting_down}
use ai_ckb_backend.Channel.Error.{
  ProcessingChannelError, invalid_state, invalid_parameter, repeated_processing, waiting_tlc_ack,
  final_incorrect_preimage, tlc_number_exceed_limit, tlc_value_inflight_exceed_limit,
  tlc_amount_is_too_low, tlc_amount_exceed_limit, tlc_expiry_soon, tlc_expiry_too_far,
}
use ai_ckb_backend.Channel.State.{
  ChannelActorState, ChannelConstraints, get_all_offer_tlcs, get_all_received_tlcs, sum_amounts,
  get_offered_tlc_balance, get_received_tlc_balance,
}

abbrev pub max_payment_tlc_expiry_limit : ℕ
max_payment_tlc_expiry_limit = 14 * 24 * 60 * 60 * 1000

abbrev pub Checked : Type 0 → Type 0
Checked A = Outcome ProcessingChannelError A

unfoldable pub check_insert_tlc : AddTlcInfo → ChannelActorState → Checked (Unit {0})
check_insert_tlc tlc s = do
  fail_if (any (λ t. t.payment_hash == tlc.payment_hash) (all_tlcs s.tlc_state)) repeated_processing
  if is_offered tlc
      then (do
        sent_tlc_value ← get_offered_tlc_balance s
        total ← add_u128 sent_tlc_value tlc.amount
        fail_if (ltb s.to_local_amount total) tlc_amount_exceed_limit)
      else (do
        received_tlc_value ← get_received_tlc_balance s
        total ← add_u128 received_tlc_value tlc.amount
        fail_if (ltb s.to_remote_amount total) tlc_amount_exceed_limit)

unfoldable pub check_tlc_expiry : ℕ → ℕ → Checked (Unit {0})
check_tlc_expiry now expiry = do
  fail_if (leb expiry now) tlc_expiry_soon
  limit ← add_u64 now max_payment_tlc_expiry_limit
  fail_if (leb limit expiry) tlc_expiry_too_far

-- One side of `check_tlc_limits`: the TLCs of that side and its constraints.
unfoldable pub check_side_limits : ℕ → List AddTlcInfo → ChannelConstraints → Checked (Unit {0})
check_side_limits add_amount tlcs constraints = do
  number ← add_u64 (length tlcs) 1
  fail_if (ltb constraints.max_tlc_number_in_flight number) tlc_number_exceed_limit
  active_amount ← sum_amounts 0 tlcs
  amount ← add_u128 active_amount add_amount
  fail_if (ltb constraints.max_tlc_value_in_flight amount) tlc_value_inflight_exceed_limit

unfoldable pub check_tlc_limits : ℕ → Bool → ChannelActorState → Checked (Unit {0})
check_tlc_limits add_amount is_sent s = do
  fail_if (add_amount == 0) tlc_amount_is_too_low
  if is_sent
      then check_side_limits add_amount (get_all_offer_tlcs s) s.local_constraints
      else check_side_limits add_amount (get_all_received_tlcs s) s.remote_constraints

-- The match of `check_for_tlc_update` on the channel's state.
abbrev pub allows_tlc_update : ChannelState → Bool → Bool
allows_tlc_update channel_ready adding = true
allows_tlc_update (shutting_down f) adding = not adding
allows_tlc_update _ adding = false

abbrev pub check_added_amount : Option ℕ → Bool → ChannelActorState → Checked (Unit {0})
check_added_amount none is_sent s = ok tt
check_added_amount (some amount) is_sent s = check_tlc_limits amount is_sent s

unfoldable pub check_for_tlc_update :
    Option ℕ → Bool → Bool → ChannelActorState → Checked (Unit {0})
check_for_tlc_update add_tlc_amount is_tlc_command_message is_sent s = do
  fail_if (is_tlc_command_message && s.tlc_state.waiting_ack) waiting_tlc_ack
  fail_if (not (allows_tlc_update s.state (is_some add_tlc_amount))) invalid_state
  check_added_amount add_tlc_amount is_sent s

-- Does the reason, if it is a fulfilment, bring the preimage of the TLC's payment hash?
abbrev pub check_preimage :
    (HashAlgorithm → ℕ → ℕ) → AddTlcInfo → RemoveTlcReason → Checked (Unit {0})
check_preimage hash tlc (remove_tlc_fulfill preimage) =
    fail_if (not (tlc.payment_hash == hash tlc.hash_algorithm preimage)) final_incorrect_preimage
check_preimage hash tlc (remove_tlc_fail packet) = ok tt

unfoldable pub check_remove_tlc_with_reason :
    (HashAlgorithm → ℕ → ℕ) → TlcId → RemoveTlcReason → ChannelActorState → Checked (Unit {0})
check_remove_tlc_with_reason hash i reason s = elim (get_tlc i s.tlc_state) [
  | some tlc ↦
      fail_if (is_some tlc.removed_at) repeated_processing >> check_preimage hash tlc reason
  | none ↦ err invalid_parameter
]
