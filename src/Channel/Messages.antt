-- ===== src/Channel/Messages.antt =====
-- The handlers of the peer's `AddTlc` and `RemoveTlc` messages, and the making of the TLCs
-- (fiber/src/fiber/channel.rs; the messages are types of fiber/src/fiber/types.rs).
use mathlib.Core.Option
use ai_ckb_backend.Common.{ℕ, false, List, Option, some, none, is_none}
use ai_ckb_backend.Common.Outcome.{ok, assert, ◌>>=◌, ◌>>◌}
use ai_ckb_backend.Tlc.Id.{TlcId, offered, received}
use ai_ckb_backend.Tlc.Info.{AddTlcInfo, RemoveTlcInfo, RemoveTlcReason, HashAlgorithm, Hash256}
use ai_ckb_backend.Tlc.Kind.{add_tlc, remove_tlc}
use ai_ckb_backend.Tlc.State.{add_remote_tlc, get_next_offering}
use ai_ckb_backend.Channel.State.{
  ChannelActorState, get_offered_tlc, increment_next_received_tlc_id,
}
use ai_ckb_backend.Channel.Checks.{
  Checked, check_for_tlc_update, check_insert_tlc, check_remove_tlc_with_reason,
}

pub record AddTlc : Type 0 where
  pub channel_id : Hash256
  pub tlc_id : ℕ  -- u64
  pub amount : ℕ  -- u128
  pub payment_hash : Hash256
  pub expiry : ℕ  -- u64
  pub hash_algorithm : HashAlgorithm
  pub onion_packet : Option (List ℕ)

pub record RemoveTlc : Type 0 where
  pub channel_id : Hash256
  pub tlc_id : ℕ  -- u64
  pub reason : RemoveTlcReason

pub record AddTlcCommand : Type 0 where
  pub amount : ℕ  -- u128
  pub payment_hash : Hash256
  pub expiry : ℕ  -- u64
  pub hash_algorithm : HashAlgorithm
  pub onion_packet : Option (List ℕ)
  pub shared_secret : ℕ
  pub previous_tlc : Option (Hash256 × ℕ)

-- 32 zero bytes.
abbrev pub no_shared_secret : ℕ
no_shared_secret = 0

abbrev pub as_received : Hash256 × ℕ → Hash256 × TlcId
as_received (channel, n) = (channel, received n)

unfoldable pub create_outbounding_tlc : AddTlcCommand → ChannelActorState → Checked AddTlcInfo
create_outbounding_tlc command s = do
  let n = get_next_offering s.tlc_state
  assert (is_none (get_offered_tlc n s))
  ok (record {
    channel_id = s.id;
    tlc_id = offered n;
    amount = command.amount;
    payment_hash = command.payment_hash;
    expiry = command.expiry;
    hash_algorithm = command.hash_algorithm;
    onion_packet = command.onion_packet;
    shared_secret = command.shared_secret;
    created_at = s.commitment_numbers;
    removed_at = none;
    payment_preimage = none;
    previous_tlc = Option.map as_received command.previous_tlc;
  })

unfoldable pub create_inbounding_tlc : AddTlc → ChannelActorState → AddTlcInfo
create_inbounding_tlc message s = record {
  channel_id = s.id;
  tlc_id = received message.tlc_id;
  amount = message.amount;
  payment_hash = message.payment_hash;
  expiry = message.expiry;
  hash_algorithm = message.hash_algorithm;
  onion_packet = message.onion_packet;
  shared_secret = no_shared_secret;
  created_at = s.commitment_numbers;
  removed_at = none;
  payment_preimage = none;
  previous_tlc = none;
}

unfoldable pub handle_add_tlc_peer_message : AddTlc → ChannelActorState → Checked ChannelActorState
unfolding create_inbounding_tlc
handle_add_tlc_peer_message message s = do
  check_for_tlc_update (some message.amount) false false s
  let tlc_info = create_inbounding_tlc message s
  check_insert_tlc tlc_info s
  tlc_state ← add_remote_tlc (add_tlc tlc_info) s.tlc_state
  increment_next_received_tlc_id (record s { tlc_state = tlc_state })

abbrev pub removal_info : RemoveTlc → RemoveTlcInfo
removal_info message = record {
  channel_id = message.channel_id;
  tlc_id = offered message.tlc_id;
  reason = message.reason;
}

unfoldable pub handle_remove_tlc_peer_message :
    (HashAlgorithm → ℕ → ℕ) → RemoveTlc → ChannelActorState → Checked ChannelActorState
handle_remove_tlc_peer_message hash message s = do
  check_for_tlc_update none false false s
  check_remove_tlc_with_reason hash (offered message.tlc_id) message.reason s
  tlc_state ← add_remote_tlc (remove_tlc (removal_info message)) s.tlc_state
  ok (record s { tlc_state = tlc_state })
