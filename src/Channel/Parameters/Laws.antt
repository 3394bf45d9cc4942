-- ===== src/Channel/Parameters/Laws.antt =====
-- When the parameters of a channel are accepted (fiber/src/fiber/channel.rs).
use ai_ckb_backend.Common.{
  ℕ, ◌+◌, ◌*◌, ◌-◌, ◌≤◌, ◌<◌, ◌≡◌, refl, ◌↔◌, true, false, Option, some, none, arith,
}
use ai_ckb_backend.Common.Outcome.{ok, u64_mod}
use ai_ckb_backend.Channel.State.{ChannelActorState}
use ai_ckb_backend.Channel.Parameters.{
  Chain, udt_data_len, occupied_capacity, get_remote_shutdown_script, calculate_commitment_tx_fee,
  calculate_shutdown_tx_fee, check_reserved, check_accept_channel_parameters,
  check_open_channel_parameters, check_commitment_delay_epoch, check_shutdown_fee_rate,
  available_max_fee, default_fee_rate, default_commitment_fee_rate, min_commitment_delay_epochs,
  max_commitment_delay_epochs, sys_max_tlc_number_in_flight, max_tlc_number_in_flight,
}

remote_script :
    (s : ChannelActorState) {script : ℕ}
    → s.remote_shutdown_script ≡ some script
    → get_remote_shutdown_script s ≡ ok script
remote_script s {script} e = ground arith

module _ (chain : Chain) where
  occupied :
      (script : ℕ) (udt : Option ℕ) {capacity : ℕ}
      → chain.cell_capacity script udt (udt_data_len udt) ≡ some capacity
      → occupied_capacity chain script udt ≡ ok capacity
  occupied script udt {capacity} e = rw (e, occupied_capacity) refl

  -- If the peer's shutdown script is known, its cell has a capacity, and twice the commitment fee fits in
  -- 64 bits, then the peer's parameters are accepted exactly if it allows itself 125 TLCs at most and
  -- reserves the capacity of its cell and twice the commitment fee.
  pub check_accept_channel_parameters_iff :
      (s : ChannelActorState) (script capacity : ℕ)
      → s.remote_shutdown_script ≡ some script
      → chain.cell_capacity script s.funding_udt_type_script
          (udt_data_len s.funding_udt_type_script)
        ≡ some capacity
      → calculate_commitment_tx_fee chain s.commitment_fee_rate s.funding_udt_type_script * 2
        < u64_mod
      → (check_accept_channel_parameters chain s ≡ ok tt) ↔ (
          (s.remote_constraints.max_tlc_number_in_flight ≤ max_tlc_number_in_flight)
          × (capacity
                + calculate_commitment_tx_fee chain s.commitment_fee_rate s.funding_udt_type_script
                  * 2
              ≤ s.remote_reserved_ckb_amount))
  unfolding check_accept_channel_parameters check_reserved
  check_accept_channel_parameters_iff s script capacity e c b =
      rw (remote_script s e, occupied script s.funding_udt_type_script c) (ground arith)

  -- If our cell has a capacity and twice the commitment fee fits in 64 bits, then our parameters are
  -- accepted exactly if we reserve the capacity of our cell and twice the commitment fee, both fee rates
  -- are at least 1000, the delay is a well-formed epoch that is not below the least nor above the
  -- greatest one, and we allow ourselves 253 TLCs at most.
  pub check_open_channel_parameters_iff :
      (s : ChannelActorState) (capacity : ℕ)
      → chain.cell_capacity s.local_shutdown_script s.funding_udt_type_script
          (udt_data_len s.funding_udt_type_script)
        ≡ some capacity
      → calculate_commitment_tx_fee chain s.commitment_fee_rate s.funding_udt_type_script * 2
        < u64_mod
      → (check_open_channel_parameters chain s ≡ ok tt) ↔ (
          (capacity
              + calculate_commitment_tx_fee chain s.commitment_fee_rate s.funding_udt_type_script
                * 2
            ≤ s.local_reserved_ckb_amount)
          × (default_fee_rate ≤ s.funding_fee_rate)
          × (default_commitment_fee_rate ≤ s.commitment_fee_rate)
          × (chain.is_well_formed s.commitment_delay_epoch ≡ true)
          × (chain.epoch_lt s.commitment_delay_epoch
                (chain.epoch_number min_commitment_delay_epochs 0 1)
              ≡ false)
          × (chain.epoch_lt
                (chain.epoch_number max_commitment_delay_epochs 0 1)
                s.commitment_delay_epoch
              ≡ false)
          × (s.local_constraints.max_tlc_number_in_flight ≤ sys_max_tlc_number_in_flight))
  unfolding check_open_channel_parameters check_reserved check_commitment_delay_epoch
  check_open_channel_parameters_iff s capacity c b =
      rw (occupied s.local_shutdown_script s.funding_udt_type_script c) (ground arith)

  -- In a channel without a UDT whose funds fit in 64 bits, a shutdown fee rate is accepted exactly if it
  -- is at least the commitment fee rate and the fee is at most what our balance and our reserve
  -- leave beside the capacity of the closing cell.
  pub check_shutdown_fee_rate_iff :
      (s : ChannelActorState) (fee_rate close_script remote capacity : ℕ)
      → s.funding_udt_type_script ≡ none
      → s.remote_shutdown_script ≡ some remote
      → chain.cell_capacity close_script none 0 ≡ some capacity
      → s.to_local_amount + s.local_reserved_ckb_amount < u64_mod
      → (check_shutdown_fee_rate chain fee_rate close_script s ≡ ok tt) ↔ (
          (s.commitment_fee_rate ≤ fee_rate)
          × (calculate_shutdown_tx_fee chain fee_rate none remote close_script
              ≤ s.to_local_amount + s.local_reserved_ckb_amount - capacity))
  unfolding check_shutdown_fee_rate available_max_fee
  check_shutdown_fee_rate_iff s fee_rate close_script remote capacity u e c b =
      let cell : occupied_capacity chain close_script s.funding_udt_type_script ≡ ok capacity =
        rw u (occupied close_script none {capacity = capacity} c) in
      rw (remote_script s e, cell) (ground arith)
