-- ===== src/Channel/Settle.antt =====
-- `remove_tlc_with_reason` of fiber/src/fiber/channel.rs: the balance moves when a TLC is fulfilled.
use ai_ckb_backend.Common.{ℕ, ◌&&◌, Option, some, none, if◌then◌else◌}
use ai_ckb_backend.Common.Outcome.{ok, err, panic, add_u128, sub_u128, ◌>>=◌, ◌>>◌}
use ai_ckb_backend.Tlc.Commitment.{CommitmentNumbers}
use ai_ckb_backend.Tlc.Commitment
use ai_ckb_backend.Tlc.Id.{TlcId}
use ai_ckb_backend.Tlc.Info.{
  AddTlcInfo, RemoveTlcReason, remove_tlc_fulfill, remove_tlc_fail, HashAlgorithm, is_offered,
  same_reason,
}
use ai_ckb_backend.Tlc.State.{get_tlc, apply_remove_tlc}
use ai_ckb_backend.Channel.Error.{repeated_processing, invalid_parameter}
use ai_ckb_backend.Channel.State.{ChannelActorState}
use ai_ckb_backend.Channel.Checks.{Checked, check_preimage}

-- The balances after a fulfilment, in the order of the source's two assignments.
unfoldable pub moved_balances : AddTlcInfo → ChannelActorState → Checked ChannelActorState
moved_balances current s =
    if is_offered current
    then (do
      local ← sub_u128 s.to_local_amount current.amount
      remote ← add_u128 s.to_remote_amount current.amount
      ok (record s { to_local_amount = local; to_remote_amount = remote }))
    else (do
      local ← add_u128 s.to_local_amount current.amount
      remote ← sub_u128 s.to_remote_amount current.amount
      ok (record s { to_local_amount = local; to_remote_amount = remote }))

abbrev pub update_balance :
    (HashAlgorithm → ℕ → ℕ)
    → AddTlcInfo
    → RemoveTlcReason
    → ChannelActorState
    → Checked ChannelActorState
update_balance hash current (remove_tlc_fulfill preimage) s = do
  check_preimage hash current (remove_tlc_fulfill preimage)
  moved_balances current s
update_balance hash current (remove_tlc_fail packet) s = ok s

-- The match on `current.removed_at`.
abbrev pub settle :
    (HashAlgorithm → ℕ → ℕ)
    → AddTlcInfo
    → Option (CommitmentNumbers × RemoveTlcReason)
    → TlcId
    → RemoveTlcReason
    → ChannelActorState
    → Checked (AddTlcInfo × ChannelActorState)
settle hash current (some (removed_at, removed_for)) i reason s =
    if same_reason removed_for reason && Commitment.same s.commitment_numbers removed_at
    then err repeated_processing
    else err invalid_parameter
settle hash current none i reason s = do
  moved ← update_balance hash current reason s
  tlc_state ← apply_remove_tlc i s.commitment_numbers reason s.tlc_state
  ok (current, record moved { tlc_state = tlc_state })

-- `expect("TLC exists")` panics when there is no such TLC.
unfoldable pub remove_tlc_with_reason :
    (HashAlgorithm → ℕ → ℕ)
    → TlcId
    → RemoveTlcReason
    → ChannelActorState
    → Checked (AddTlcInfo × ChannelActorState)
remove_tlc_with_reason hash i reason s = elim (get_tlc i s.tlc_state) [
  | some current ↦ settle hash current current.removed_at i reason s
  | none ↦ panic
]
