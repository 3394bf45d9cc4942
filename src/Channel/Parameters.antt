-- ===== src/Channel/Parameters.antt =====
-- The checks of the parameters of a channel (fiber/src/fiber/channel.rs, and the fees of
-- fiber/src/fiber/fee.rs). What the ckb crates compute is a parameter: the capacity that a cell with a
-- lock script, a type script and a number of bytes of data occupies, the sizes of transactions, the fee
-- of a size at a rate, and the epochs with their comparison.
pub mod Laws
use ai_ckb_backend.Common.{
  ℕ, ◌+◌, ◌-◌, ◌*◌, ◌%◌, ◌^◌, Bool, true, false, not, Option, some, none, if◌then◌else◌, ltb,
  is_some, is_none,
}
use ai_ckb_backend.Common.Outcome.{Outcome, ok, err, panic, add_u64, u64_mod, fail_if, ◌>>=◌, ◌>>◌}
use ai_ckb_backend.Channel.Error.{ProcessingChannelError, invalid_parameter, capacity_error}
use ai_ckb_backend.Channel.State.{ChannelActorState, ChannelConstraints}
use ai_ckb_backend.Channel.Checks.{Checked}

-- The third-party functions.
pub record Chain : Type 0 where
  -- `CellOutput::occupied_capacity` for a lock script, a type script and the length of the data.
  pub cell_capacity : ℕ → Option ℕ → ℕ → Option ℕ
  -- `serialized_size_in_block` of the mock transactions.
  pub commitment_tx_size : Option ℕ → ℕ
  pub shutdown_tx_size : Option ℕ → ℕ → ℕ → ℕ
  -- `FeeRate::fee`, of a rate and a size.
  pub fee : ℕ → ℕ → ℕ
  -- `EpochNumberWithFraction`: `is_well_formed`, `new`, and `<`.
  pub is_well_formed : ℕ → Bool
  pub epoch_number : ℕ → ℕ → ℕ → ℕ
  pub epoch_lt : ℕ → ℕ → Bool

abbrev pub default_fee_rate : ℕ
default_fee_rate = 1000

abbrev pub default_commitment_fee_rate : ℕ
default_commitment_fee_rate = 1000

abbrev pub min_commitment_delay_epochs : ℕ
min_commitment_delay_epochs = 1

abbrev pub max_commitment_delay_epochs : ℕ
max_commitment_delay_epochs = 84

abbrev pub sys_max_tlc_number_in_flight : ℕ
sys_max_tlc_number_in_flight = 253

abbrev pub max_tlc_number_in_flight : ℕ
max_tlc_number_in_flight = 125

abbrev pub udt_data_len : Option ℕ → ℕ
udt_data_len udt_type_script = if is_some udt_type_script then 16 else 0

abbrev pub get_remote_shutdown_script : ChannelActorState → Checked ℕ
get_remote_shutdown_script s = elim s.remote_shutdown_script [
  | some script ↦ ok script
  | none ↦ panic
]

abbrev pub mul_u64 : ℕ → ℕ → Checked ℕ
mul_u64 a b = if ltb (a * b) u64_mod then ok (a * b) else panic

module _ (chain : Chain) where
  abbrev pub occupied_capacity : ℕ → Option ℕ → Checked ℕ
  occupied_capacity shutdown_script udt_type_script =
      elim (chain.cell_capacity shutdown_script udt_type_script (udt_data_len udt_type_script)) [
        | some capacity ↦ ok capacity
        | none ↦ err capacity_error
      ]

  abbrev pub calculate_commitment_tx_fee : ℕ → Option ℕ → ℕ
  calculate_commitment_tx_fee fee_rate udt_type_script =
      chain.fee fee_rate (chain.commitment_tx_size udt_type_script)

  abbrev pub calculate_shutdown_tx_fee : ℕ → Option ℕ → ℕ → ℕ → ℕ
  calculate_shutdown_tx_fee fee_rate udt_type_script script_a script_b =
      chain.fee fee_rate (chain.shutdown_tx_size udt_type_script script_a script_b)

  -- The subtraction is `reserved - occupied_capacity`, behind the comparison of the two.
  unfoldable pub check_reserved : ℕ → ℕ → ℕ → Checked (Unit {0})
  check_reserved reserved occupied commitment_fee = do
    let reserved_fee = reserved - occupied
    twice ← mul_u64 commitment_fee 2
    fail_if (ltb reserved_fee twice) invalid_parameter

  unfoldable pub check_commitment_delay_epoch : ℕ → Checked (Unit {0})
  check_commitment_delay_epoch epoch = do
    fail_if (not (chain.is_well_formed epoch)) invalid_parameter
    fail_if (chain.epoch_lt epoch (chain.epoch_number min_commitment_delay_epochs 0 1))
        invalid_parameter
    fail_if (chain.epoch_lt (chain.epoch_number max_commitment_delay_epochs 0 1) epoch)
        invalid_parameter

  unfoldable pub check_open_channel_parameters : ChannelActorState → Checked (Unit {0})
  unfolding check_reserved check_commitment_delay_epoch
  check_open_channel_parameters s = do
    occupied ← occupied_capacity s.local_shutdown_script s.funding_udt_type_script
    fail_if (ltb s.local_reserved_ckb_amount occupied) invalid_parameter
    fail_if (ltb s.funding_fee_rate default_fee_rate) invalid_parameter
    fail_if (ltb s.commitment_fee_rate default_commitment_fee_rate) invalid_parameter
    check_reserved s.local_reserved_ckb_amount occupied
        (calculate_commitment_tx_fee s.commitment_fee_rate s.funding_udt_type_script)
    check_commitment_delay_epoch s.commitment_delay_epoch
    fail_if (ltb sys_max_tlc_number_in_flight s.local_constraints.max_tlc_number_in_flight)
        invalid_parameter

  unfoldable pub check_accept_channel_parameters : ChannelActorState → Checked (Unit {0})
  unfolding check_reserved
  check_accept_channel_parameters s = do
    fail_if (ltb max_tlc_number_in_flight s.remote_constraints.max_tlc_number_in_flight)
        invalid_parameter
    script ← get_remote_shutdown_script s
    occupied ← occupied_capacity script s.funding_udt_type_script
    fail_if (ltb s.remote_reserved_ckb_amount occupied) invalid_parameter
    check_reserved s.remote_reserved_ckb_amount occupied
        (calculate_commitment_tx_fee s.commitment_fee_rate s.funding_udt_type_script)

  -- `to_local_amount as u64` keeps the low 64 bits.
  unfoldable pub available_max_fee : ℕ → ChannelActorState → Checked ℕ
  available_max_fee occupied s =
      if is_none s.funding_udt_type_script
      then (do
        funds ← add_u64 (s.to_local_amount % u64_mod) s.local_reserved_ckb_amount
        ok (funds - occupied))
      else ok (s.local_reserved_ckb_amount - occupied)

  unfoldable pub check_shutdown_fee_rate : ℕ → ℕ → ChannelActorState → Checked (Unit {0})
  unfolding available_max_fee
  check_shutdown_fee_rate fee_rate close_script s = do
    fail_if (ltb fee_rate s.commitment_fee_rate) invalid_parameter
    remote ← get_remote_shutdown_script s
    let fee = calculate_shutdown_tx_fee fee_rate s.funding_udt_type_script remote close_script
    occupied ← occupied_capacity close_script s.funding_udt_type_script
    available ← available_max_fee occupied s
    fail_if (ltb available fee) invalid_parameter
