-- ===== src/Graph/State.antt =====
-- `NetworkGraph` of fiber/src/fiber/graph.rs: what it takes from gossip messages, what a failed
-- payment turns off, and the channels into a node. The hash maps are maps in order of their keys;
-- `announcement_of` is `get_latest_channel_announcement` of the store.
pub mod Marked
pub mod Failed
pub mod Advances
pub mod Messages
use Prim.Native.Nat.{Ordering, compare}
use ai_ckb_backend.Common.{
  ℕ, ◌%◌, ◌^◌, Bool, true, false, not, ◌&&◌, ◌||◌, List, [], ◌∷◌, Option, some, none, if◌then◌else◌,
  ltb, ◌==◌,
}
use ai_ckb_backend.Common.BTreeMap.{Key_ord, get, insert}
use ai_ckb_backend.Common.Outcome.{Outcome, ok, err, panic, ◌>>=◌, ◌>>◌, u64_mod}
use ai_ckb_backend.Tlc.Info.{Hash256}
use ai_ckb_backend.History.Pairs.{PaymentHistory, add_node_channel_map}
use ai_ckb_backend.Gossip.Message.{
  NodeAnnouncement, ChannelAnnouncement, ChannelUpdate, BroadcastMessageWithTimestamp,
  BroadcastMessageId, Cursor, is_disabled, is_update_of_node_1, chain_hash, cursor,
}
use ai_ckb_backend.Gossip.Cursor.{Crates, Parsed, CursorError, cmp_cursor}
use ai_ckb_backend.Graph.Info.{ChannelInfo, ChannelUpdateInfo, NodeInfo, channel_last_update_time}

pub record NetworkGraph : Type 0 where
  pub source : ℕ
  pub channels : List (ℕ × ChannelInfo)
  pub nodes : List (ℕ × NodeInfo)
  pub latest_cursor : Cursor
  pub history : PaymentHistory

-- `ChannelUpdateInfo::from`; the fee rate is cut to 64 bits.
unfoldable pub update_info_from : ChannelUpdate → ChannelUpdateInfo
unfolding is_disabled
update_info_from u = record {
  timestamp = u.timestamp;
  enabled = not (is_disabled u);
  tlc_expiry_delta = u.tlc_expiry_delta;
  tlc_minimum_value = u.tlc_minimum_value;
  fee_rate = u.tlc_fee_proportional_millionths % u64_mod;
}

unfoldable pub channel_info_from : ℕ → ChannelAnnouncement → ChannelInfo
channel_info_from t c = record {
  channel_outpoint = c.channel_outpoint;
  timestamp = t;
  features = c.features;
  node1 = c.node1_id;
  node2 = c.node2_id;
  capacity = c.capacity;
  udt_type_script = c.udt_type_script;
  update_of_node1 = none;
  update_of_node2 = none;
}

unfoldable pub node_info_from : NodeAnnouncement → NodeInfo
node_info_from n = record {
  node_id = n.node_id;
  timestamp = n.timestamp;
  features = n.features;
  alias = n.alias;
  addresses = n.addresses;
  auto_accept_min_ckb_funding_amount = n.auto_accept_min_ckb_funding_amount;
  udt_cfg_infos = n.udt_cfg_infos;
}

abbrev pub disable : Option ChannelUpdateInfo → Option ChannelUpdateInfo
disable none = none
disable (some info) = some (record info { enabled = false })

abbrev pub disable_both : ChannelInfo → ChannelInfo
disable_both c = record c {
  update_of_node1 = disable c.update_of_node1;
  update_of_node2 = disable c.update_of_node2;
}

unfoldable pub mark_channel_failed : ℕ → NetworkGraph → NetworkGraph
mark_channel_failed outpoint g = elim (get outpoint g.channels) [
  | none ↦ g
  | some c ↦ record g { channels = insert outpoint (disable_both c) g.channels }
]

-- The round of `mark_node_failed` for a channel; `get_mut_channels_by_peer` picks the channels of the
-- node.
abbrev pub disable_from : ℕ → ChannelInfo → ChannelInfo
disable_from node c =
    if c.node1 == node || c.node2 == node
    then (if c.node1 == node
        then record c { update_of_node2 = disable c.update_of_node2 }
        else record c { update_of_node1 = disable c.update_of_node1 })
    else c

abbrev pub disable_all_from : ℕ → List (ℕ × ChannelInfo) → List (ℕ × ChannelInfo)
disable_all_from node [] = []
disable_all_from node ((o, c) ∷ cs) = (o, disable_from node c) ∷ disable_all_from node cs

unfoldable pub mark_node_failed : ℕ → NetworkGraph → NetworkGraph
mark_node_failed node g = record g { channels = disable_all_from node g.channels }

-- An element of `get_node_inbounds`.
pub record Inbound : Type 0 where
  pub from : ℕ
  pub to : ℕ
  pub channel : ChannelInfo
  pub update : ChannelUpdateInfo

-- The test of `filter_map` at one of the two nodes.
abbrev pub inbound_at : ℕ → ℕ → ℕ → ChannelInfo → Option ChannelUpdateInfo → Option Inbound
inbound_at node from to c none = none
inbound_at node from to c (some info) =
    if info.enabled && to == node
    then some (record { from = from; to = to; channel = c; update = info })
    else none

abbrev pub or_else : Option Inbound → Option Inbound → Option Inbound
or_else (some i) other = some i
or_else none other = other

abbrev pub inbound : ℕ → ChannelInfo → Option Inbound
inbound node c =
    or_else (inbound_at node c.node1 c.node2 c c.update_of_node2)
      (inbound_at node c.node2 c.node1 c c.update_of_node1)

-- `Option<u64>` in its order.
abbrev pub cmp_time : Option ℕ → Option ℕ → Ordering
cmp_time none none = Ordering.eq
cmp_time none (some b) = Ordering.lt
cmp_time (some a) none = Ordering.gt
cmp_time (some a) (some b) = compare a b

-- The larger capacity first, then the later update.
unfoldable pub cmp_inbound : Inbound → Inbound → Ordering
unfolding channel_last_update_time
cmp_inbound a b = elim (compare b.channel.capacity a.channel.capacity) [
  | Ordering.lt ↦ Ordering.lt
  | Ordering.eq ↦ cmp_time (channel_last_update_time b.channel) (channel_last_update_time a.channel)
  | Ordering.gt ↦ Ordering.gt
]

-- `sort_by`, which is stable: an insertion sort.
abbrev pub insert_inbound : Inbound → List Inbound → List Inbound
insert_inbound a [] = a ∷ []
insert_inbound a (b ∷ bs) = elim (cmp_inbound a b) [
  | Ordering.gt ↦ b ∷ insert_inbound a bs
  | _ ↦ a ∷ b ∷ bs
]

abbrev pub add_inbound : Option Inbound → List Inbound → List Inbound
add_inbound none is = is
add_inbound (some i) is = insert_inbound i is

abbrev pub inbounds_of : ℕ → List (ℕ × ChannelInfo) → List Inbound
inbounds_of node [] = []
inbounds_of node ((o, c) ∷ cs) = add_inbound (inbound node c) (inbounds_of node cs)

unfoldable pub get_node_inbounds : ℕ → NetworkGraph → List Inbound
get_node_inbounds node g = inbounds_of node g.channels

unfoldable pub process_channel_announcement :
    ℕ → ChannelAnnouncement → NetworkGraph → NetworkGraph × Option Cursor
unfolding channel_info_from
process_channel_announcement t c g = elim (get c.channel_outpoint g.channels) [
  | some channel ↦ (g, none)
  | none ↦
      let info = channel_info_from t c in
      (
        record g {
          history =
              add_node_channel_map info.node2 info.channel_outpoint
                (add_node_channel_map info.node1 info.channel_outpoint g.history);
          channels = insert info.channel_outpoint info g.channels;
        },
        some (record {
          timestamp = t;
          message_id = BroadcastMessageId.channel_announcement c.channel_outpoint;
        }),
      )
]

-- `get(..).timestamp > time`, where there is something.
abbrev pub is_newer : Option ℕ → ℕ → Bool
is_newer none time = false
is_newer (some old) time = ltb time old

abbrev pub update_time : Option ChannelUpdateInfo → Option ℕ
update_time none = none
update_time (some info) = some info.timestamp

abbrev pub update_slot : ChannelUpdate → ChannelInfo → Option ChannelUpdateInfo
update_slot u c = if is_update_of_node_1 u then c.update_of_node1 else c.update_of_node2

abbrev pub put_update : ChannelUpdate → ChannelInfo → ChannelInfo
put_update u c =
    if is_update_of_node_1 u
    then record c { update_of_node1 = some (update_info_from u) }
    else record c { update_of_node2 = some (update_info_from u) }

unfoldable pub process_node_announcement :
    NodeAnnouncement → NetworkGraph → NetworkGraph × Option Cursor
unfolding node_info_from
process_node_announcement n g =
    let info = node_info_from n in
    elim (get info.node_id g.nodes) [
      | some old ↦ if ltb info.timestamp old.timestamp then (g, none) else (
        record g { nodes = insert info.node_id info g.nodes },
        some (record {
          timestamp = info.timestamp;
          message_id = BroadcastMessageId.node_announcement info.node_id;
        }),
      )
      | none ↦ (
        record g { nodes = insert info.node_id info g.nodes },
        some (record {
          timestamp = info.timestamp;
          message_id = BroadcastMessageId.node_announcement info.node_id;
        }),
      )
    ]

module _ (announcement_of : ℕ → Option (ℕ × ChannelAnnouncement)) where
  abbrev pub load_announced : Option (ℕ × ChannelAnnouncement) → NetworkGraph → NetworkGraph
  load_announced none g = g
  load_announced (some (t, c)) g = (process_channel_announcement t c g).0

  -- `load_channel_info_mut`: the graph with the channel, if the store has it.
  unfoldable pub load_channel : ℕ → NetworkGraph → NetworkGraph
  load_channel outpoint g = elim (get outpoint g.channels) [
    | some c ↦ g
    | none ↦ load_announced (announcement_of outpoint) g
  ]

  abbrev pub update_channel :
      ChannelUpdate → Option ChannelInfo → NetworkGraph → NetworkGraph × Option Cursor
  update_channel u none g = (g, none)
  update_channel u (some c) g =
      if is_newer (update_time (update_slot u c)) u.timestamp then (g, none) else (
        record g { channels = insert u.channel_outpoint (put_update u c) g.channels },
        some (record {
          timestamp = u.timestamp;
          message_id = BroadcastMessageId.channel_update u.channel_outpoint;
        }),
      )

  unfoldable pub process_channel_update :
      ChannelUpdate → NetworkGraph → NetworkGraph × Option Cursor
  process_channel_update u g =
      let loaded = load_channel u.channel_outpoint g in
      update_channel u (get u.channel_outpoint loaded.channels) loaded

  unfoldable pub process_message : BroadcastMessageWithTimestamp → NetworkGraph → NetworkGraph
  process_message (BroadcastMessageWithTimestamp.channel_announcement t c) g =
      (process_channel_announcement t c g).0
  process_message (BroadcastMessageWithTimestamp.channel_update u) g =
      (process_channel_update u g).0
  process_message (BroadcastMessageWithTimestamp.node_announcement n) g =
      (process_node_announcement n g).0

  module _ (crates : Crates) (own_chain : Hash256) where
    abbrev pub is_gt : Ordering → Bool
    is_gt Ordering.gt = true
    is_gt _ = false

    unfoldable pub update_lastest_cursor : Cursor → NetworkGraph → Parsed NetworkGraph
    update_lastest_cursor c g = do
      o ← cmp_cursor crates c g.latest_cursor
      ok (if is_gt o then record g { latest_cursor = c } else g)

    abbrev pub process_own : BroadcastMessageWithTimestamp → NetworkGraph → NetworkGraph
    process_own m g = if chain_hash m == own_chain then process_message m g else g

    abbrev pub process_all : List BroadcastMessageWithTimestamp → NetworkGraph → Parsed NetworkGraph
    process_all [] g = ok g
    process_all (m ∷ ms) g = do
      seen ← update_lastest_cursor (cursor m) g
      process_all ms (process_own m seen)

    unfoldable pub update_for_messages :
        List BroadcastMessageWithTimestamp → NetworkGraph → Parsed (NetworkGraph × Bool)
    update_for_messages [] g = ok (g, false)
    update_for_messages (m ∷ ms) g = do g' ← process_all (m ∷ ms) g; ok (g', true)
