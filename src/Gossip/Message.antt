-- ===== src/Gossip/Message.antt =====
-- The gossip messages of fiber/src/fiber/types.rs: announcements of channels and nodes, and updates of
-- channels. Keys, outpoints, scripts, names, addresses, configurations and signatures are numbers.
use Prim.Native.Nat.{bit_and}
use ai_ckb_backend.Common.{ℕ, Bool, not, List, Option, some, none, if◌then◌else◌, ◌==◌}
use ai_ckb_backend.Tlc.Info.{Hash256}

pub record NodeAnnouncement : Type 0 where
  pub signature : Option ℕ
  pub features : ℕ  -- u64
  pub timestamp : ℕ  -- u64
  pub node_id : ℕ
  pub alias : ℕ
  pub addresses : List ℕ
  pub chain_hash : Hash256
  pub auto_accept_min_ckb_funding_amount : ℕ  -- u64
  pub udt_cfg_infos : ℕ

pub record ChannelAnnouncement : Type 0 where
  pub node1_signature : Option ℕ
  pub node2_signature : Option ℕ
  pub ckb_signature : Option ℕ
  pub features : ℕ  -- u64
  pub chain_hash : Hash256
  pub channel_outpoint : ℕ
  pub node1_id : ℕ
  pub node2_id : ℕ
  pub ckb_key : ℕ
  pub capacity : ℕ  -- u128
  pub udt_type_script : Option ℕ

pub record ChannelUpdate : Type 0 where
  pub signature : Option ℕ
  pub chain_hash : Hash256
  pub channel_outpoint : ℕ
  pub timestamp : ℕ  -- u64
  pub message_flags : ℕ  -- u32
  pub channel_flags : ℕ  -- u32
  pub tlc_expiry_delta : ℕ  -- u64
  pub tlc_minimum_value : ℕ  -- u128
  pub tlc_fee_proportional_millionths : ℕ  -- u128

-- `MESSAGE_OF_NODE2_FLAG` and `CHANNEL_DISABLED_FLAG` of fiber/src/fiber/channel.rs.
abbrev pub message_of_node2_flag : ℕ
message_of_node2_flag = 1

abbrev pub channel_disabled_flag : ℕ
channel_disabled_flag = 1

unfoldable pub is_update_of_node_2 : ChannelUpdate → Bool
is_update_of_node_2 u = bit_and u.message_flags message_of_node2_flag == message_of_node2_flag

unfoldable pub is_update_of_node_1 : ChannelUpdate → Bool
is_update_of_node_1 u = not (is_update_of_node_2 u)

unfoldable pub is_disabled : ChannelUpdate → Bool
is_disabled u = bit_and u.channel_flags channel_disabled_flag == channel_disabled_flag

pub data BroadcastMessage : Type 0 where
  node_announcement : NodeAnnouncement → BroadcastMessage
  channel_announcement : ChannelAnnouncement → BroadcastMessage
  channel_update : ChannelUpdate → BroadcastMessage

pub data BroadcastMessageWithTimestamp : Type 0 where
  node_announcement : NodeAnnouncement → BroadcastMessageWithTimestamp
  channel_announcement : ℕ → ChannelAnnouncement → BroadcastMessageWithTimestamp
  channel_update : ChannelUpdate → BroadcastMessageWithTimestamp

pub data BroadcastMessageId : Type 0 where
  channel_announcement channel_update node_announcement : ℕ → BroadcastMessageId

pub record Cursor : Type 0 where
  pub timestamp : ℕ  -- u64
  pub message_id : BroadcastMessageId

unfoldable pub chain_hash : BroadcastMessageWithTimestamp → Hash256
chain_hash (BroadcastMessageWithTimestamp.node_announcement n) = n.chain_hash
chain_hash (BroadcastMessageWithTimestamp.channel_announcement t c) = c.chain_hash
chain_hash (BroadcastMessageWithTimestamp.channel_update u) = u.chain_hash

unfoldable pub timestamp : BroadcastMessageWithTimestamp → ℕ
timestamp (BroadcastMessageWithTimestamp.node_announcement n) = n.timestamp
timestamp (BroadcastMessageWithTimestamp.channel_announcement t c) = t
timestamp (BroadcastMessageWithTimestamp.channel_update u) = u.timestamp

unfoldable pub message_id : BroadcastMessageWithTimestamp → BroadcastMessageId
message_id (BroadcastMessageWithTimestamp.node_announcement n) =
    BroadcastMessageId.node_announcement n.node_id
message_id (BroadcastMessageWithTimestamp.channel_announcement t c) =
    BroadcastMessageId.channel_announcement c.channel_outpoint
message_id (BroadcastMessageWithTimestamp.channel_update u) =
    BroadcastMessageId.channel_update u.channel_outpoint

unfoldable pub cursor : BroadcastMessageWithTimestamp → Cursor
cursor (BroadcastMessageWithTimestamp.node_announcement n) = record {
  timestamp = n.timestamp;
  message_id = BroadcastMessageId.node_announcement n.node_id;
}
cursor (BroadcastMessageWithTimestamp.channel_announcement t c) = record {
  timestamp = t;
  message_id = BroadcastMessageId.channel_announcement c.channel_outpoint;
}
cursor (BroadcastMessageWithTimestamp.channel_update u) = record {
  timestamp = u.timestamp;
  message_id = BroadcastMessageId.channel_update u.channel_outpoint;
}

-- `BroadcastMessage::cursor`: an announcement of a channel carries no time of its own.
unfoldable pub own_cursor : BroadcastMessage → Option Cursor
own_cursor (BroadcastMessage.channel_announcement c) = none
own_cursor (BroadcastMessage.channel_update u) = some (record {
  timestamp = u.timestamp;
  message_id = BroadcastMessageId.channel_update u.channel_outpoint;
})
own_cursor (BroadcastMessage.node_announcement n) = some (record {
  timestamp = n.timestamp;
  message_id = BroadcastMessageId.node_announcement n.node_id;
})

-- `From<BroadcastMessageWithTimestamp> for BroadcastMessage`.
unfoldable pub without_timestamp : BroadcastMessageWithTimestamp → BroadcastMessage
without_timestamp (BroadcastMessageWithTimestamp.node_announcement n) =
    BroadcastMessage.node_announcement n
without_timestamp (BroadcastMessageWithTimestamp.channel_announcement t c) =
    BroadcastMessage.channel_announcement c
without_timestamp (BroadcastMessageWithTimestamp.channel_update u) =
    BroadcastMessage.channel_update u

-- `From<(BroadcastMessage, u64)>`; its `debug_assert_eq!` is not compiled into a release.
unfoldable pub with_timestamp : BroadcastMessage → ℕ → BroadcastMessageWithTimestamp
with_timestamp (BroadcastMessage.node_announcement n) t =
    BroadcastMessageWithTimestamp.node_announcement n
with_timestamp (BroadcastMessage.channel_announcement c) t =
    BroadcastMessageWithTimestamp.channel_announcement t c
with_timestamp (BroadcastMessage.channel_update u) t =
    BroadcastMessageWithTimestamp.channel_update u

pub data BroadcastMessageQueryFlags : Type 0 where
  channel_announcement channel_update_of_node1 channel_update_of_node2 : BroadcastMessageQueryFlags
  node_announcement_node1 node_announcement_node2 : BroadcastMessageQueryFlags

unfoldable pub query_flags_u8 : BroadcastMessageQueryFlags → ℕ
query_flags_u8 BroadcastMessageQueryFlags.channel_announcement = 0
query_flags_u8 channel_update_of_node1 = 1
query_flags_u8 channel_update_of_node2 = 2
query_flags_u8 node_announcement_node1 = 4
query_flags_u8 node_announcement_node2 = 8

unfoldable pub query_flags_try_from : ℕ → Option BroadcastMessageQueryFlags
query_flags_try_from n =
    if n == 0
    then some BroadcastMessageQueryFlags.channel_announcement
    else (if n == 1
        then some channel_update_of_node1
        else (if n == 2
            then some channel_update_of_node2
            else (if n == 4
                then some node_announcement_node1
                else (if n == 8 then some node_announcement_node2 else none))))
