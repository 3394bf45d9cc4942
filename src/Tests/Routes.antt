-- ===== src/Tests/Routes.antt =====
-- Runs of the routes and of the network graph (fiber/src/fiber/graph.rs) on three nodes in a row.
use ai_ckb_backend.Common.{
  ℕ, ◌-◌, ◌≤◌, ◌≡◌, refl, true, List, [], ◌∷◌, Option, some, none, arith, drop,
}
use ai_ckb_backend.Common.BTreeMap.{Key_ord, get}
use ai_ckb_backend.Common.Outcome.{ok}
use ai_ckb_backend.Tlc.Info.{Hash256, ckb_hash}
use ai_ckb_backend.History.Pairs.{PaymentHistory}
use ai_ckb_backend.Gossip.Message.{
  BroadcastMessageWithTimestamp, ChannelUpdate, ChannelAnnouncement, BroadcastMessageId, cursor,
  chain_hash, is_update_of_node_1, is_update_of_node_2,
}
use ai_ckb_backend.Gossip.Cursor.{cmp_cursor, cursor_to_bytes, message_id_to_bytes}
use ai_ckb_backend.Graph.Info.{ChannelInfo, ChannelUpdateInfo, get_update_info_with}
use ai_ckb_backend.Graph.Route.{
  PathEdge, PaymentHopData, Payment, build_route_hops, amount_at, last_hop,
}
use ai_ckb_backend.Graph.Route.Forwards.{Forwards}
use ai_ckb_backend.Graph.Route.Total.{doubled, build_route_hops_total}
use ai_ckb_backend.Graph.Session.{session_route, first_amount, route_fee, pubkeys}
use ai_ckb_backend.Graph.Session.Laws.{targets, session_route-Forwards}
use ai_ckb_backend.Graph.State.{
  NetworkGraph, mark_node_failed, get_node_inbounds, update_for_messages, update_lastest_cursor,
  process_message, process_channel_update, load_channel, update_info_from,
}
use ai_ckb_backend.Graph.State.Marked.{NodeFailed}
use ai_ckb_backend.Graph.State.Failed.{AllInbounds, IsNotFrom, mark_node_failed_avoids}
use ai_ckb_backend.Graph.State.Advances.{Advances}
use ai_ckb_backend.Graph.State.Messages.{update_for_messages-Advances}
use ai_ckb_backend.Tests.Gossip.{byte_crates, update_of_side}

abbrev pub info : ℕ → ChannelUpdateInfo
info fee_rate = record {
  timestamp = 5;
  enabled = true;
  tlc_expiry_delta = 1000;
  tlc_minimum_value = 0;
  fee_rate = fee_rate;
}

abbrev pub channel : ℕ → ℕ → ℕ → ChannelInfo
channel outpoint node1 node2 = record {
  channel_outpoint = outpoint;
  timestamp = 4;
  features = 0;
  node1 = node1;
  node2 = node2;
  capacity = 1000000;
  udt_type_script = none;
  update_of_node1 = some (info 2000);
  update_of_node2 = some (info 1000);
}

-- Channels 11 and 12 lead from node 1 to node 2 and from node 2 to node 3.
abbrev pub channels : List (ℕ × ChannelInfo)
channels = (11, channel 11 1 2) ∷ (12, channel 12 2 3) ∷ []

abbrev pub channel_of : ℕ → Option ChannelInfo
channel_of o = get o channels

abbrev pub hash_of : ℕ → Hash256
hash_of o = o

abbrev edge_to : ℕ → ℕ → PathEdge
edge_to target outpoint = record { target = target; channel_outpoint = outpoint }

abbrev payment : Payment
payment = record { amount = 10000; expiry = 500; preimage = none; hash_algorithm = ckb_hash }

build_route_hops_total_example :
    (total : ℕ) × (hops : List PaymentHopData) × (build_route_hops channel_of hash_of
        (edge_to 2 11 ∷ edge_to 3 12 ∷ [])
        payment
      ≡ ok hops)
    × Forwards channel_of hash_of payment (edge_to 2 11 ∷ edge_to 3 12 ∷ []) hops
    × (amount_at channel_of hash_of 0 hops ≡ ok total)
    × (total ≤ doubled (edge_to 3 12 ∷ []) payment.amount)
unfolding get_update_info_with
build_route_hops_total_example =
    build_route_hops_total channel_of hash_of 1000 (edge_to 2 11) (edge_to 3 12 ∷ []) payment
      (refl, (refl, tt)) ((info 1000, refl, omega arith, omega arith), tt) (omega arith)
      (omega arith)

abbrev hop : PaymentHopData
hop = record {
  amount = 10000;
  expiry = 500;
  payment_preimage = none;
  hash_algorithm = ckb_hash;
  funding_tx_hash = 12;
  next_hop = some 3;
}

abbrev hops : List PaymentHopData
hops = hop ∷ last_hop channel_of hash_of payment ∷ []

session_route-Forwards_example :
    (route_fee (session_route (λ h i. h) 2 3 hops)
      ≡ ok (first_amount (session_route (λ h i. h) 2 3 hops) - 10000))
    × (10000 ≤ first_amount (session_route (λ h i. h) 2 3 hops))
    × (pubkeys (drop 1 (session_route (λ h i. h) 2 3 hops)) ≡ targets (edge_to 3 12 ∷ []))
session_route-Forwards_example =
    session_route-Forwards channel_of hash_of (λ h i. h) payment 2 3 (edge_to 3 12 ∷ []) hops
      (refl, refl, refl, (refl, refl), refl)

abbrev pub history : PaymentHistory
history = record {
  inner = [];
  nodes_to_channel_map = [];
  min_fail_relax_interval = 60000;
  source = 1;
  store = [];
}

abbrev pub graph : NetworkGraph
graph = record {
  source = 1;
  channels = channels;
  nodes = [];
  latest_cursor = record { timestamp = 0; message_id = BroadcastMessageId.channel_announcement 0 };
  history = history;
}

mark_node_failed_avoids_example :
    AllInbounds (IsNotFrom 2) (get_node_inbounds 3 (mark_node_failed 2 graph))
    × NodeFailed 2 graph (mark_node_failed 2 graph)
mark_node_failed_avoids_example = mark_node_failed_avoids 2 3 graph (λ e. absurd (omega (arith, e)))

abbrev pub none_announced : ℕ → Option (ℕ × ChannelAnnouncement)
none_announced o = none

abbrev newer : ChannelUpdate
newer = record (update_of_side 0 9) { channel_outpoint = 11 }

abbrev with_newer : NetworkGraph
with_newer = record graph {
  channels =
      (
        11,
        record (channel 11 1 2) { update_of_node1 = some (record (info 2000) { timestamp = 9 }) },
      )
      ∷ (12, channel 12 2 3)
      ∷ [];
  latest_cursor = record { timestamp = 9; message_id = BroadcastMessageId.channel_update 11 };
}

newer_arrives :
    update_for_messages none_announced byte_crates 9
      (BroadcastMessageWithTimestamp.channel_update newer ∷ [])
      graph
    ≡ ok (with_newer, true)
unfolding update_for_messages update_lastest_cursor cmp_cursor cursor_to_bytes message_id_to_bytes
    cursor chain_hash process_message process_channel_update load_channel is_update_of_node_1
    is_update_of_node_2 update_info_from
newer_arrives = refl

update_for_messages-Advances_example : Advances graph with_newer
update_for_messages-Advances_example =
    update_for_messages-Advances none_announced byte_crates 9
      (BroadcastMessageWithTimestamp.channel_update newer ∷ []) graph with_newer true newer_arrives
