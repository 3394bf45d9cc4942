-- ===== src/Gossip/Insert.antt =====
-- The messages that come in before they are verified (`insert_message_to_be_saved_list` of
-- fiber/src/fiber/gossip.rs). The time and the blocks of the chain are parameters.
use ai_ckb_backend.Common.{
  ℕ, Bool, false, ◌&&◌, List, [], ◌∷◌, Option, some, none, if◌then◌else◌, ltb, ◌==◌,
}
use ai_ckb_backend.Common.Outcome.{Outcome, ok, err, panic, fail_if, add_u64, ◌>>=◌, ◌>>◌}
use ai_ckb_backend.Gossip.Message.{
  NodeAnnouncement, ChannelAnnouncement, ChannelUpdate, BroadcastMessage,
  BroadcastMessageWithTimestamp, Cursor, cursor, timestamp, own_cursor, without_timestamp,
  is_update_of_node_1,
}
use ai_ckb_backend.Gossip.Cursor.{Parsed, cmp_cursor}
use ai_ckb_backend.Gossip.Store.{
  Database, get_latest_channel_announcement, get_latest_channel_update,
  get_latest_node_announcement,
}
use ai_ckb_backend.Gossip.Verify.{Host, same_channel, same_update, same_node}
use ai_ckb_backend.Gossip.Prune.{Pending, is_gt}

-- `GossipMessageProcessingError`.
pub data InsertError : Type 0 where
  message_too_new : ℕ → ℕ → InsertError
  processing_error : InsertError
  newer_message_saved : BroadcastMessageWithTimestamp → InsertError

abbrev pub Inserted : Type 0 → Type 0
Inserted A = Outcome InsertError A

-- A read of the store; what does not parse there is a panic.
abbrev pub read : {A : Type 0} → Parsed A → Inserted A
read (ok a) = ok a
read (err e) = panic
read panic = panic

-- In milliseconds.
abbrev pub timestamp_drift : ℕ
timestamp_drift = 60000

abbrev pub as_announcement : Option (ℕ × ChannelAnnouncement) → Option BroadcastMessageWithTimestamp
as_announcement (some (t, c)) = some (BroadcastMessageWithTimestamp.channel_announcement t c)
as_announcement none = none

abbrev pub as_update : Option ChannelUpdate → Option BroadcastMessageWithTimestamp
as_update (some u) = some (BroadcastMessageWithTimestamp.channel_update u)
as_update none = none

abbrev pub as_node : Option NodeAnnouncement → Option BroadcastMessageWithTimestamp
as_node (some n) = some (BroadcastMessageWithTimestamp.node_announcement n)
as_node none = none

unfoldable pub same_message : BroadcastMessage → BroadcastMessage → Bool
unfolding same_channel same_update same_node
same_message (BroadcastMessage.channel_announcement a) (BroadcastMessage.channel_announcement b) =
    same_channel a b
same_message (BroadcastMessage.channel_update a) (BroadcastMessage.channel_update b) =
    same_update a b
same_message (BroadcastMessage.node_announcement a) (BroadcastMessage.node_announcement b) =
    same_node a b
same_message _ _ = false

unfoldable pub same_timed : BroadcastMessageWithTimestamp → BroadcastMessageWithTimestamp → Bool
unfolding same_message without_timestamp timestamp
same_timed a b =
    timestamp a == timestamp b && same_message (without_timestamp a) (without_timestamp b)

-- The insertion into the set: a message that is there already is not there twice.
abbrev pub insert_waiting :
    BroadcastMessageWithTimestamp
    → List BroadcastMessageWithTimestamp
    → List BroadcastMessageWithTimestamp
insert_waiting m [] = m ∷ []
insert_waiting m (other ∷ ms) =
    let rest = insert_waiting m ms in if same_timed m other then other ∷ ms else other ∷ rest

-- `block_timestamp` is the time of the block with the transaction of a channel, where the chain
-- gives it.
module _ (host : Host) (block_timestamp : ℕ → Option ℕ) where
  unfoldable pub get_existing_broadcast_message :
      BroadcastMessage → Database → Inserted (Option BroadcastMessageWithTimestamp)
  get_existing_broadcast_message (BroadcastMessage.channel_announcement c) db = do
    found ← read (get_latest_channel_announcement host.crates c.channel_outpoint db)
    ok (as_announcement found)
  get_existing_broadcast_message (BroadcastMessage.channel_update u) db = do
    found ←
        read (get_latest_channel_update host.crates u.channel_outpoint (is_update_of_node_1 u) db)
    ok (as_update found)
  get_existing_broadcast_message (BroadcastMessage.node_announcement n) db = do
    found ← read (get_latest_node_announcement host.crates n.node_id db)
    ok (as_node found)

  -- A message with a cursor above that of the saved one replaces it.
  abbrev pub not_above :
      Option Cursor
      → Option BroadcastMessageWithTimestamp
      → Inserted (Option BroadcastMessageWithTimestamp)
  not_above c none = ok none
  not_above none (some existing) = ok (some existing)
  not_above (some c) (some existing) = do
    o ← read (cmp_cursor host.crates c (cursor existing))
    ok (if is_gt host o then none else some existing)

  unfoldable pub get_existing_newer_broadcast_message :
      BroadcastMessage → Database → Inserted (Option BroadcastMessageWithTimestamp)
  unfolding get_existing_broadcast_message
  get_existing_newer_broadcast_message m db = do
    existing ← get_existing_broadcast_message m db
    not_above (own_cursor m) existing

  abbrev pub time_or_error : Option ℕ → Inserted ℕ
  time_or_error (some t) = ok t
  time_or_error none = err processing_error

  -- `get_channel_timestamp`: of the saved announcement, or else of the block of the transaction.
  unfoldable pub get_channel_timestamp : ℕ → Database → Inserted ℕ
  get_channel_timestamp outpoint db = do
    saved ← read (get_latest_channel_announcement host.crates outpoint db)
    elim saved [
      | some (t, c) ↦ ok t
      | none ↦ elim (host.channel_tx outpoint) [
        | some outputs ↦ time_or_error (block_timestamp outpoint)
        | none ↦ err processing_error
      ]
    ]

  unfoldable pub get_broadcast_message_with_timestamp :
      BroadcastMessage → Database → Inserted BroadcastMessageWithTimestamp
  unfolding get_channel_timestamp
  get_broadcast_message_with_timestamp (BroadcastMessage.channel_announcement c) db = do
    t ← get_channel_timestamp c.channel_outpoint db
    ok (BroadcastMessageWithTimestamp.channel_announcement t c)
  get_broadcast_message_with_timestamp (BroadcastMessage.channel_update u) db =
      ok (BroadcastMessageWithTimestamp.channel_update u)
  get_broadcast_message_with_timestamp (BroadcastMessage.node_announcement n) db =
      ok (BroadcastMessageWithTimestamp.node_announcement n)

  abbrev pub insert_timed :
      ℕ
      → Pending
      → BroadcastMessageWithTimestamp
      → Inserted (Pending × BroadcastMessageWithTimestamp)
  insert_timed now p m = do
    limit ← add_u64 now timestamp_drift
    fail_if (ltb limit (timestamp m)) (message_too_new (timestamp m) limit)
    ok (record p { messages_to_be_saved = insert_waiting m p.messages_to_be_saved }, m)

  abbrev pub insert_unless_newer :
      ℕ
      → BroadcastMessage
      → Pending
      → Option BroadcastMessageWithTimestamp
      → Inserted (Pending × BroadcastMessageWithTimestamp)
  insert_unless_newer now m p (some existing) =
      if same_message (without_timestamp existing) m
      then ok (p, existing)
      else err (newer_message_saved existing)
  insert_unless_newer now m p none = do
    timed ← get_broadcast_message_with_timestamp m p.store
    insert_timed now p timed

  unfoldable pub insert_message_to_be_saved_list :
      ℕ → BroadcastMessage → Pending → Inserted (Pending × BroadcastMessageWithTimestamp)
  unfolding get_existing_newer_broadcast_message get_broadcast_message_with_timestamp
  insert_message_to_be_saved_list now m p = do
    existing ← get_existing_newer_broadcast_message m p.store
    insert_unless_newer now m p existing
