-- ===== src/Tests/Parameters.antt =====
-- Applications of the theorems about the parameters of a channel (fiber/src/fiber/channel.rs).
use ai_ckb_backend.Common.{◌+◌, ◌-◌, ◌*◌, ◌≤◌, ◌≡◌, refl, ◌↔◌, true, false, some, none, arith, ltb}
use ai_ckb_backend.Common.Outcome.{ok}
use ai_ckb_backend.Channel.Parameters.{
  Chain, calculate_commitment_tx_fee, calculate_shutdown_tx_fee, check_accept_channel_parameters,
  check_open_channel_parameters, check_shutdown_fee_rate, default_fee_rate,
  default_commitment_fee_rate, min_commitment_delay_epochs, max_commitment_delay_epochs,
  sys_max_tlc_number_in_flight, max_tlc_number_in_flight,
}
use ai_ckb_backend.Channel.Parameters.Laws.{
  check_accept_channel_parameters_iff, check_open_channel_parameters_iff,
  check_shutdown_fee_rate_iff,
}
use ai_ckb_backend.Tests.Channels.{idle}

-- A stand-in for the ckb crates: a capacity of 61 CKB, fixed sizes, and epochs that are whole numbers.
abbrev chain : Chain
chain = record {
  cell_capacity = λ lock type_script len. some 6100000000;
  commitment_tx_size = λ udt. 500;
  shutdown_tx_size = λ udt a b. 600;
  fee = λ rate size. rate * size;
  is_well_formed = λ epoch. true;
  epoch_number = λ number index len. number;
  epoch_lt = ltb;
}

check_accept_channel_parameters_iff_example :
    (check_accept_channel_parameters chain idle ≡ ok tt) ↔ (
      (idle.remote_constraints.max_tlc_number_in_flight ≤ max_tlc_number_in_flight)
      × (6100000000
            + calculate_commitment_tx_fee chain idle.commitment_fee_rate
                idle.funding_udt_type_script
              * 2
          ≤ idle.remote_reserved_ckb_amount))
check_accept_channel_parameters_iff_example =
    check_accept_channel_parameters_iff chain idle 5 6100000000 refl refl (omega arith)

check_open_channel_parameters_iff_example : (check_open_channel_parameters chain idle ≡ ok tt) ↔ (
    (6100000000
        + calculate_commitment_tx_fee chain idle.commitment_fee_rate idle.funding_udt_type_script
          * 2
      ≤ idle.local_reserved_ckb_amount)
    × (default_fee_rate ≤ idle.funding_fee_rate)
    × (default_commitment_fee_rate ≤ idle.commitment_fee_rate)
    × (chain.is_well_formed idle.commitment_delay_epoch ≡ true)
    × (chain.epoch_lt idle.commitment_delay_epoch
          (chain.epoch_number min_commitment_delay_epochs 0 1)
        ≡ false)
    × (chain.epoch_lt
          (chain.epoch_number max_commitment_delay_epochs 0 1)
          idle.commitment_delay_epoch
        ≡ false)
    × (idle.local_constraints.max_tlc_number_in_flight ≤ sys_max_tlc_number_in_flight))
check_open_channel_parameters_iff_example =
    check_open_channel_parameters_iff chain idle 6100000000 refl (omega arith)

check_shutdown_fee_rate_iff_example : (check_shutdown_fee_rate chain 1000 4 idle ≡ ok tt) ↔ (
    (idle.commitment_fee_rate ≤ 1000)
    × (calculate_shutdown_tx_fee chain 1000 none 5 4
        ≤ idle.to_local_amount + idle.local_reserved_ckb_amount - 6100000000))
check_shutdown_fee_rate_iff_example =
    check_shutdown_fee_rate_iff chain idle 1000 4 5 6100000000 refl refl refl (omega arith)
