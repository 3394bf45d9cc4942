-- ===== src/Channel/State.antt =====
-- `ChannelActorState` and `ChannelConstraints` of fiber/src/fiber/channel.rs, with the fields that the
-- handling of TLCs reads or writes, and the amounts that TLCs hold.
use ai_ckb_backend.Common.{ℕ, Bool, List, [], ◌∷◌, Option, any, retain, is_none}
use ai_ckb_backend.Common.Outcome.{Outcome, ok, add_u128, ◌>>=◌}
use ai_ckb_backend.Tlc.Commitment.{CommitmentNumbers}
use ai_ckb_backend.Tlc.Info.{AddTlcInfo, Hash256, is_offered, is_received}
use ai_ckb_backend.Tlc.Id.{offered, received}
use ai_ckb_backend.Tlc.State.{
  TlcState, all_tlcs, get_tlc, get_mut_tlc, increment_offering, increment_received,
}
use ai_ckb_backend.Channel.Flags.{ChannelState}

pub record ChannelConstraints : Type 0 where
  pub max_tlc_value_in_flight : ℕ  -- u128
  pub max_tlc_number_in_flight : ℕ  -- u64

abbrev pub default_max_tlc_value_in_flight : ℕ
default_max_tlc_value_in_flight = 340282366920938463463374607431768211455

abbrev pub default_max_tlc_number_in_flight : ℕ
default_max_tlc_number_in_flight = 30

abbrev pub default_constraints : ChannelConstraints
default_constraints = record {
  max_tlc_value_in_flight = default_max_tlc_value_in_flight;
  max_tlc_number_in_flight = default_max_tlc_number_in_flight;
}

pub record ChannelActorState : Type 0 where
  pub state : ChannelState
  pub id : Hash256
  pub to_local_amount : ℕ  -- u128
  pub to_remote_amount : ℕ  -- u128
  pub funding_udt_type_script : Option ℕ
  pub local_reserved_ckb_amount : ℕ  -- u64
  pub remote_reserved_ckb_amount : ℕ  -- u64
  pub commitment_fee_rate : ℕ  -- u64
  pub commitment_delay_epoch : ℕ  -- u64
  pub funding_fee_rate : ℕ  -- u64
  pub remote_shutdown_script : Option ℕ
  pub local_shutdown_script : ℕ
  pub commitment_numbers : CommitmentNumbers
  pub local_constraints : ChannelConstraints
  pub remote_constraints : ChannelConstraints
  pub tlc_state : TlcState

abbrev pub get_all_offer_tlcs : ChannelActorState → List AddTlcInfo
get_all_offer_tlcs s = retain is_offered (all_tlcs s.tlc_state)

abbrev pub get_all_received_tlcs : ChannelActorState → List AddTlcInfo
get_all_received_tlcs s = retain is_received (all_tlcs s.tlc_state)

-- `fold(0_u128, |sum, tlc| sum + tlc.amount)` and `map(|tlc| tlc.amount).sum::<u128>()`.
unfoldable pub sum_amounts {ℓ} : {E : Type ℓ} → ℕ → List AddTlcInfo → Outcome E ℕ
sum_amounts sum [] = ok sum
sum_amounts sum (t ∷ ts) = do next ← add_u128 sum t.amount; sum_amounts next ts

unfoldable pub get_offered_tlc_balance {ℓ} : {E : Type ℓ} → ChannelActorState → Outcome E ℕ
get_offered_tlc_balance s = sum_amounts 0 (get_all_offer_tlcs s)

unfoldable pub get_received_tlc_balance {ℓ} : {E : Type ℓ} → ChannelActorState → Outcome E ℕ
get_received_tlc_balance s = sum_amounts 0 (get_all_received_tlcs s)

unfoldable pub any_tlc_pending : ChannelActorState → Bool
any_tlc_pending s = any (λ t. is_none t.removed_at) (all_tlcs s.tlc_state)

abbrev pub get_offered_tlc : ℕ → ChannelActorState → Option AddTlcInfo
get_offered_tlc n s = get_tlc (offered n) s.tlc_state

abbrev pub get_received_tlc : ℕ → ChannelActorState → Option AddTlcInfo
get_received_tlc n s = get_tlc (received n) s.tlc_state

unfoldable pub set_received_tlc_preimage :
    ℕ → Option Hash256 → ChannelActorState → ChannelActorState
set_received_tlc_preimage n preimage s = record s {
  tlc_state = get_mut_tlc (received n) (λ t. record t { payment_preimage = preimage }) s.tlc_state;
}

unfoldable pub increment_next_offered_tlc_id {ℓ} :
    {E : Type ℓ} → ChannelActorState → Outcome E ChannelActorState
increment_next_offered_tlc_id s = do
  t ← increment_offering s.tlc_state
  ok (record s { tlc_state = t })

unfoldable pub increment_next_received_tlc_id {ℓ} :
    {E : Type ℓ} → ChannelActorState → Outcome E ChannelActorState
increment_next_received_tlc_id s = do
  t ← increment_received s.tlc_state
  ok (record s { tlc_state = t })
