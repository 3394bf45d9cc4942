-- ===== src/Tests/Channels.antt =====
-- Runs of the channel's handlers (fiber/src/fiber/channel.rs) on a small channel.
use ai_ckb_backend.Common.{ℕ, ◌≡◌, ◌≢◌, refl, false, List, [], ◌∷◌, some, none, arith}
use ai_ckb_backend.Common.Outcome.{ok, panic}
use ai_ckb_backend.Tlc.Id.{TlcId, offered, received}
use ai_ckb_backend.Tlc.Info.{AddTlcInfo, remove_tlc_fulfill, HashAlgorithm, ckb_hash}
use ai_ckb_backend.Tlc.Kind.{TlcKind, add_tlc, remove_tlc}
use ai_ckb_backend.Tlc.Pending.{PendingTlcs, push, increment_next_tlc_id}
use ai_ckb_backend.Tlc.State.{all_tlcs, get_tlc, add_remote_tlc, increment_received}
use ai_ckb_backend.Tlc.State.Remove.{active}
use ai_ckb_backend.Channel.Flags.{channel_ready}
use ai_ckb_backend.Channel.State.{
  ChannelActorState, default_constraints, get_received_tlc_balance, sum_amounts,
  increment_next_received_tlc_id,
}
use ai_ckb_backend.Channel.Checks.{
  check_insert_tlc, check_tlc_limits, check_side_limits, check_for_tlc_update,
  check_remove_tlc_with_reason,
}
use ai_ckb_backend.Channel.Settle.{remove_tlc_with_reason}
use ai_ckb_backend.Channel.Messages.{
  AddTlc, RemoveTlc, create_inbounding_tlc, handle_add_tlc_peer_message,
  handle_remove_tlc_peer_message, removal_info,
}
use ai_ckb_backend.Channel.Amounts.{total}
use ai_ckb_backend.Channel.Solvency.{IsSolvent, handle_add_tlc_peer_message-IsSolvent}
use ai_ckb_backend.Channel.Acceptance.{handle_remove_tlc_peer_message_accepts}
use ai_ckb_backend.Channel.Settlement.{Settled, remove_tlc_with_reason-Settled}
use ai_ckb_backend.Channel.Repeats.{
  handle_add_tlc_peer_message_same_id, handle_remove_tlc_peer_message_twice,
}

-- A stand-in for the hash functions.
abbrev hash : HashAlgorithm → ℕ → ℕ
hash algorithm preimage = preimage

abbrev pub pending : List TlcKind → ℕ → PendingTlcs
pending tlcs next = record { tlcs = tlcs; committed_index = 0; next_tlc_id = next }

abbrev pub with_tlcs : List TlcKind → ℕ → List TlcKind → ℕ → ChannelActorState
with_tlcs ours n theirs m = record {
  state = channel_ready;
  id = 7;
  to_local_amount = 1000;
  to_remote_amount = 500;
  funding_udt_type_script = none;
  local_reserved_ckb_amount = 9900000000;
  remote_reserved_ckb_amount = 9900000000;
  commitment_fee_rate = 1000;
  commitment_delay_epoch = 6;
  funding_fee_rate = 1000;
  remote_shutdown_script = some 5;
  local_shutdown_script = 4;
  commitment_numbers = record { local = 1; remote = 1 };
  local_constraints = default_constraints;
  remote_constraints = default_constraints;
  tlc_state = record {
    local_pending_tlcs = pending ours n;
    remote_pending_tlcs = pending theirs m;
    retryable_remove_tlcs = [];
    waiting_ack = false;
  };
}

abbrev pub idle : ChannelActorState
idle = with_tlcs [] 0 [] 0

idle-IsSolvent : IsSolvent idle
unfolding total
idle-IsSolvent = record {
  valid = record {
    local_valid = record { index_le = omega arith; distinct = tt };
    remote_valid = record { index_le = omega arith; distinct = tt };
    offered_copies = λ n b h. absurd (ground arith);
    received_copies = λ n a h. absurd (ground arith);
  };
  offered_le = omega arith;
  received_le = omega arith;
  bounded = omega arith;
}

abbrev message : AddTlc
message = record {
  channel_id = 7;
  tlc_id = 0;
  amount = 100;
  payment_hash = 1;
  expiry = 5000;
  hash_algorithm = ckb_hash;
  onion_packet = none;
}

abbrev entered : AddTlcInfo
entered = record {
  channel_id = 7;
  tlc_id = received 0;
  amount = 100;
  payment_hash = 1;
  expiry = 5000;
  hash_algorithm = ckb_hash;
  onion_packet = none;
  shared_secret = 0;
  created_at = record { local = 1; remote = 1 };
  removed_at = none;
  payment_preimage = none;
  previous_tlc = none;
}

abbrev waiting : ChannelActorState
waiting = with_tlcs [] 0 (add_tlc entered ∷ []) 1

message_runs : handle_add_tlc_peer_message message idle ≡ ok waiting
unfolding handle_add_tlc_peer_message check_for_tlc_update check_tlc_limits check_side_limits
    sum_amounts check_insert_tlc get_received_tlc_balance all_tlcs add_remote_tlc push
    increment_next_received_tlc_id increment_received increment_next_tlc_id
message_runs = refl

handle_add_tlc_peer_message-IsSolvent_example :
    IsSolvent waiting
    × (waiting.to_local_amount ≡ idle.to_local_amount)
    × (waiting.to_remote_amount ≡ idle.to_remote_amount)
    × (active (received 0) waiting.tlc_state ≡ some (create_inbounding_tlc message idle))
    × ((j : TlcId) → j ≢ received 0 → active j waiting.tlc_state ≡ active j idle.tlc_state)
handle_add_tlc_peer_message-IsSolvent_example =
    handle_add_tlc_peer_message-IsSolvent message idle waiting idle-IsSolvent message_runs

waiting-IsSolvent : IsSolvent waiting
waiting-IsSolvent =
    (handle_add_tlc_peer_message-IsSolvent message idle waiting idle-IsSolvent message_runs).0

remove_tlc_with_reason-Settled_example :
    (t : ChannelActorState) × (remove_tlc_with_reason hash
        (received 0)
        (remove_tlc_fulfill 1)
        waiting
      ≡ ok (entered, t))
    × Settled (received 0) entered (remove_tlc_fulfill 1) waiting t
unfolding get_tlc
remove_tlc_with_reason-Settled_example =
    remove_tlc_with_reason-Settled hash (received 0) (remove_tlc_fulfill 1) entered waiting
      waiting-IsSolvent refl refl refl

-- The same id, another payment hash.
abbrev message_again : AddTlc
message_again = record message { payment_hash = 2 }

handle_add_tlc_peer_message_same_id_example :
    handle_add_tlc_peer_message message_again waiting ≡ panic
unfolding check_for_tlc_update check_tlc_limits check_side_limits sum_amounts check_insert_tlc
    get_received_tlc_balance all_tlcs create_inbounding_tlc
handle_add_tlc_peer_message_same_id_example =
    handle_add_tlc_peer_message_same_id message message_again idle waiting message_runs refl refl
      refl

abbrev sent : AddTlcInfo
sent = record entered { tlc_id = offered 0 }

abbrev sending : ChannelActorState
sending = with_tlcs (add_tlc sent ∷ []) 1 [] 0

abbrev removal : RemoveTlc
removal = record { channel_id = 7; tlc_id = 0; reason = remove_tlc_fulfill 1 }

abbrev removing : ChannelActorState
removing = with_tlcs (add_tlc sent ∷ []) 1 (remove_tlc (removal_info removal) ∷ []) 0

removal_runs : handle_remove_tlc_peer_message hash removal sending ≡ ok removing
unfolding handle_remove_tlc_peer_message check_for_tlc_update check_remove_tlc_with_reason get_tlc
    add_remote_tlc push
removal_runs = refl

handle_remove_tlc_peer_message_twice_example :
    handle_remove_tlc_peer_message hash removal removing ≡ panic
handle_remove_tlc_peer_message_twice_example =
    handle_remove_tlc_peer_message_twice hash removal sending removing removal_runs

sending-IsSolvent : IsSolvent sending
unfolding total
sending-IsSolvent = record {
  valid = record {
    local_valid = record { index_le = omega arith; distinct = (refl, tt) };
    remote_valid = record { index_le = omega arith; distinct = tt };
    offered_copies = λ n b h. absurd (ground arith);
    received_copies = λ n a h. absurd (ground arith);
  };
  offered_le = omega arith;
  received_le = omega arith;
  bounded = omega arith;
}

handle_remove_tlc_peer_message_accepts_example :
    (t : ChannelActorState) × (handle_remove_tlc_peer_message hash removal sending ≡ ok t)
    × IsSolvent t
    × (t.to_local_amount ≡ sending.to_local_amount)
    × (t.to_remote_amount ≡ sending.to_remote_amount)
    × ((j : TlcId) → active j t.tlc_state ≡ active j sending.tlc_state)
unfolding get_tlc
handle_remove_tlc_peer_message_accepts_example =
    handle_remove_tlc_peer_message_accepts hash removal sent sending sending-IsSolvent refl refl
      refl refl refl
