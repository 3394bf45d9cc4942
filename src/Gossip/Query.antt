-- ===== src/Gossip/Query.antt =====
-- The queries for gossip messages (`query_broadcast_messages` of fiber/src/fiber/gossip.rs).
use Prim.Native.Nat.{◌+◌, ◌%◌, ◌^◌}
use ai_ckb_backend.Common.{ℕ, Bool, true, false, List, [], ◌∷◌, Option, some, none}
use ai_ckb_backend.Common.Outcome.{ok, ◌>>=◌}
use ai_ckb_backend.Gossip.Message.{
  ChannelAnnouncement, BroadcastMessageWithTimestamp, BroadcastMessageQueryFlags,
  channel_update_of_node1, channel_update_of_node2, node_announcement_node1,
  node_announcement_node2,
}
use ai_ckb_backend.Gossip.Cursor.{Crates, Parsed}
use ai_ckb_backend.Gossip.Store.{
  Database, and_then, get_latest_channel_announcement, get_latest_channel_update,
  get_latest_node_announcement,
}
use ai_ckb_backend.Gossip.Insert.{as_announcement, as_update, as_node}

pub record BroadcastMessageQuery : Type 0 where
  pub channel_outpoint : ℕ
  pub flags : BroadcastMessageQueryFlags

-- What is found, and the positions of what is not.
abbrev pub Answer : Type 0
Answer = List BroadcastMessageWithTimestamp × List ℕ

-- The position is cut off to a u16.
abbrev pub add_answer : ℕ → Option BroadcastMessageWithTimestamp → Answer → Answer
add_answer index (some m) answer = (m ∷ answer.0, answer.1)
add_answer index none answer = (answer.0, index % 2 ^ 16 ∷ answer.1)

module _ (crates : Crates) where
  abbrev pub end_of :
      (ChannelAnnouncement → ℕ) → ℕ → Database → Parsed (Option BroadcastMessageWithTimestamp)
  end_of node outpoint db = do
    announcement ← get_latest_channel_announcement crates outpoint db
    and_then announcement
        (λ a. do found ← get_latest_node_announcement crates (node a.1) db; ok (as_node found))

  abbrev pub update_at : Bool → ℕ → Database → Parsed (Option BroadcastMessageWithTimestamp)
  update_at is_node1 outpoint db = do
    found ← get_latest_channel_update crates outpoint is_node1 db
    ok (as_update found)

  abbrev pub query_at :
      BroadcastMessageQueryFlags → ℕ → Database → Parsed (Option BroadcastMessageWithTimestamp)
  query_at BroadcastMessageQueryFlags.channel_announcement outpoint db = do
    found ← get_latest_channel_announcement crates outpoint db
    ok (as_announcement found)
  query_at channel_update_of_node1 outpoint db = update_at true outpoint db
  query_at channel_update_of_node2 outpoint db = update_at false outpoint db
  query_at node_announcement_node1 outpoint db = end_of (λ c. c.node1_id) outpoint db
  query_at node_announcement_node2 outpoint db = end_of (λ c. c.node2_id) outpoint db

  unfoldable pub query_broadcast_message :
      BroadcastMessageQuery → Database → Parsed (Option BroadcastMessageWithTimestamp)
  query_broadcast_message q db = query_at q.flags q.channel_outpoint db

  -- The loop, from the position of its first query.
  unfoldable pub query_from : ℕ → List BroadcastMessageQuery → Database → Parsed Answer
  unfolding query_broadcast_message
  query_from index [] db = ok ([], [])
  query_from index (q ∷ queries) db = do
    found ← query_broadcast_message q db
    rest ← query_from (index + 1) queries db
    ok (add_answer index found rest)

  unfoldable pub query_broadcast_messages : List BroadcastMessageQuery → Database → Parsed Answer
  unfolding query_from
  query_broadcast_messages queries db = query_from 0 queries db
