-- ===== src/Gossip/Store.antt =====
-- The gossip messages in the store (`GossipMessageStore for Store` of fiber/src/store/store.rs, with the
-- default methods of the trait in fiber/src/fiber/gossip.rs). The database is a map from byte keys in
-- their order; a value is the one that the serialization crate reads back.
pub mod Latest
pub mod Ends
use ai_ckb_backend.Common.{
  ℕ, zero, suc, ◌+◌, Bool, true, false, not, List, [], ◌∷◌, ◌++◌, Option, some, none, if◌then◌else◌,
  ltb, leb, ◌==◌, length, take, drop,
}
use ai_ckb_backend.Common.BTreeMap.{get, insert, remove}
use ai_ckb_backend.Common.Bytes.{Bytes_ord, be_bytes, from_be_bytes}
use ai_ckb_backend.Common.Outcome.{Outcome, ok, err, panic, assert, ◌>>=◌, ◌>>◌}
use ai_ckb_backend.Gossip.Message.{
  NodeAnnouncement, ChannelAnnouncement, ChannelUpdate, BroadcastMessage,
  BroadcastMessageWithTimestamp, BroadcastMessageId, Cursor, BroadcastMessageQueryFlags,
  channel_update_of_node1, channel_update_of_node2, node_announcement_node1,
  node_announcement_node2, is_update_of_node_1, with_timestamp,
}
use ai_ckb_backend.Gossip.Cursor.{
  Crates, Parsed, message_id_to_bytes, cursor_to_bytes, cursor_from_bytes, zeros,
}

pub data Value : Type 0 where
  message : BroadcastMessage → Value
  timestamps : List ℕ → Value
  -- What stands under the other prefixes.
  other : Value

abbrev pub Database : Type 0
Database = List (List ℕ × Value)

-- The prefixes of fiber/src/store/schema.rs.
abbrev pub broadcast_message_prefix : ℕ
broadcast_message_prefix = 96

abbrev pub broadcast_message_timestamp_prefix : ℕ
broadcast_message_timestamp_prefix = 97

-- The value of a timestamp key: 8 bytes for a node, 24 for a channel.
abbrev pub stamps_of : ℕ → Option Value → Parsed (Option (List ℕ))
stamps_of size none = ok none
stamps_of size (some (timestamps v)) = if length v == size then ok (some v) else panic
stamps_of size (some (message m)) = panic
stamps_of size (some other) = panic

-- The 8 bytes at the offset.
abbrev pub stamp_at : ℕ → Option (List ℕ) → Option ℕ
stamp_at offset none = none
stamp_at offset (some v) = some (from_be_bytes 0 (take 8 (drop offset v)))

abbrev pub or_zeros : Option (List ℕ) → List ℕ
or_zeros none = zeros 24
or_zeros (some v) = v

-- `timestamps[offset..offset + 8].copy_from_slice(..)`.
abbrev pub with_stamp : ℕ → ℕ → List ℕ → List ℕ
with_stamp offset t v = take offset v ++ (be_bytes 8 t ++ drop (offset + 8) v)

abbrev pub update_offset : Bool → ℕ
update_offset true = 8
update_offset false = 16

-- The message under a cursor's key.
abbrev pub message_of : ℕ → Option Value → Parsed (Option BroadcastMessageWithTimestamp)
message_of t none = ok none
message_of t (some (message m)) = ok (some (with_timestamp m t))
message_of t (some (timestamps v)) = panic
message_of t (some other) = panic

abbrev pub as_channel_update : Option BroadcastMessageWithTimestamp → Parsed (Option ChannelUpdate)
as_channel_update none = ok none
as_channel_update (some (BroadcastMessageWithTimestamp.channel_update u)) = ok (some u)
as_channel_update (some _) = panic

abbrev pub as_node_announcement :
    Option BroadcastMessageWithTimestamp → Parsed (Option NodeAnnouncement)
as_node_announcement none = ok none
as_node_announcement (some (BroadcastMessageWithTimestamp.node_announcement n)) = ok (some n)
as_node_announcement (some _) = panic

abbrev pub as_channel_announcement :
    ℕ → Option BroadcastMessageWithTimestamp → Parsed (Option (ℕ × ChannelAnnouncement))
as_channel_announcement t none = ok none
as_channel_announcement t (some (BroadcastMessageWithTimestamp.channel_announcement t' c)) =
    ok (some (t, c))
as_channel_announcement t (some _) = panic

-- `and_then` on what is found.
abbrev pub and_then : {A B : Type 0} → Option A → (A → Parsed (Option B)) → Parsed (Option B)
and_then none next = ok none
and_then (some a) next = next a

abbrev pub starts_with : ℕ → List ℕ → Bool
starts_with prefix [] = false
starts_with prefix (b ∷ bytes) = b == prefix

-- From the last key backwards while the prefix holds, and of these keys the last: `IteratorMode::End`,
-- `take_while` and `last`. `found` is what the keys above have given.
abbrev pub last_of_prefix : ℕ → Database → Option (List ℕ) × Bool
last_of_prefix prefix [] = (none, true)
last_of_prefix prefix ((k, v) ∷ db) =
    let (found, going) = last_of_prefix prefix db in
    if going
    then (if starts_with prefix k then (some k, true) else (found, false))
    else (found, false)

module _ (crates : Crates) where
  abbrev pub message_key : Cursor → Parsed (List ℕ)
  message_key c = do bytes ← cursor_to_bytes crates c; ok (broadcast_message_prefix ∷ bytes)

  abbrev pub timestamp_key : BroadcastMessageId → Parsed (List ℕ)
  timestamp_key id = do
    bytes ← message_id_to_bytes crates id
    ok (broadcast_message_timestamp_prefix ∷ bytes)

  unfoldable pub get_broadcast_message_with_cursor :
      Cursor → Database → Parsed (Option BroadcastMessageWithTimestamp)
  get_broadcast_message_with_cursor c db = do
    key ← message_key c
    message_of c.timestamp (get key db)

  unfoldable pub get_latest_broadcast_message_cursor : Database → Parsed (Option Cursor)
  get_latest_broadcast_message_cursor db =
      and_then (last_of_prefix broadcast_message_prefix db).0
        (λ key. cursor_from_bytes crates (drop 1 key) >>= λ c. ok (some c))

  unfoldable pub get_latest_channel_announcement_timestamp : ℕ → Database → Parsed (Option ℕ)
  get_latest_channel_announcement_timestamp outpoint db = do
    key ← timestamp_key (BroadcastMessageId.channel_announcement outpoint)
    v ← stamps_of 24 (get key db)
    ok (stamp_at 0 v)

  unfoldable pub get_latest_channel_update_timestamp : ℕ → Bool → Database → Parsed (Option ℕ)
  get_latest_channel_update_timestamp outpoint is_node1 db = do
    key ← timestamp_key (BroadcastMessageId.channel_update outpoint)
    v ← stamps_of 24 (get key db)
    ok (stamp_at (update_offset is_node1) v)

  unfoldable pub get_latest_node_announcement_timestamp : ℕ → Database → Parsed (Option ℕ)
  get_latest_node_announcement_timestamp node db = do
    key ← timestamp_key (BroadcastMessageId.node_announcement node)
    v ← stamps_of 8 (get key db)
    ok (stamp_at 0 v)

  unfoldable pub get_latest_channel_announcement :
      ℕ → Database → Parsed (Option (ℕ × ChannelAnnouncement))
  get_latest_channel_announcement outpoint db = do
    t ← get_latest_channel_announcement_timestamp outpoint db
    and_then t (λ t.
        get_broadcast_message_with_cursor
          (record { timestamp = t; message_id = BroadcastMessageId.channel_announcement outpoint })
          db
        >>= as_channel_announcement t)

  unfoldable pub get_latest_channel_update : ℕ → Bool → Database → Parsed (Option ChannelUpdate)
  get_latest_channel_update outpoint is_node1 db = do
    t ← get_latest_channel_update_timestamp outpoint is_node1 db
    and_then t (λ t.
        get_broadcast_message_with_cursor
          (record { timestamp = t; message_id = BroadcastMessageId.channel_update outpoint }) db
        >>= as_channel_update)

  unfoldable pub get_latest_node_announcement : ℕ → Database → Parsed (Option NodeAnnouncement)
  get_latest_node_announcement node db = do
    t ← get_latest_node_announcement_timestamp node db
    and_then t (λ t.
        get_broadcast_message_with_cursor
          (record { timestamp = t; message_id = BroadcastMessageId.node_announcement node }) db
        >>= as_node_announcement)

  -- `update_channel_timestamp`. A batch reads the database as it was; here the writes of a batch are
  -- done in order, and no later read of it meets one.
  unfoldable pub update_channel_timestamp : BroadcastMessageId → ℕ → ℕ → Database → Parsed Database
  update_channel_timestamp id offset t db = do
    key ← timestamp_key id
    v ← stamps_of 24 (get key db)
    ok (insert key (timestamps (with_stamp offset t (or_zeros v))) db)

  abbrev pub put_message : Cursor → BroadcastMessage → Database → Parsed Database
  put_message c m db = do key ← message_key c; ok (insert key (message m) db)

  abbrev pub write_announcement : ℕ → ChannelAnnouncement → Database → Parsed Database
  write_announcement t c db = do
    let id = BroadcastMessageId.channel_announcement c.channel_outpoint
    stamped ← update_channel_timestamp id 0 t db
    put_message (record { timestamp = t; message_id = id })
        (BroadcastMessage.channel_announcement c) stamped

  unfoldable pub save_channel_announcement : ℕ → ChannelAnnouncement → Database → Parsed Database
  unfolding get_latest_channel_announcement_timestamp update_channel_timestamp
  save_channel_announcement t c db = do
    old ← get_latest_channel_announcement_timestamp c.channel_outpoint db
    elim old [ some t' ↦ ok db | none ↦ write_announcement t c db ]

  abbrev pub write_update : ChannelUpdate → Database → Parsed Database
  write_update u db = do
    let id = BroadcastMessageId.channel_update u.channel_outpoint
    stamped ← update_channel_timestamp id (update_offset (is_update_of_node_1 u)) u.timestamp db
    put_message (record { timestamp = u.timestamp; message_id = id })
        (BroadcastMessage.channel_update u) stamped

  abbrev pub replace_update : Option ℕ → ChannelUpdate → Database → Parsed Database
  replace_update none u db = write_update u db
  replace_update (some old) u db = if leb u.timestamp old then ok db else (do
    key ← message_key (record {
      timestamp = old;
      message_id = BroadcastMessageId.channel_update u.channel_outpoint;
    })
    write_update u (remove key db))

  unfoldable pub save_channel_update : ChannelUpdate → Database → Parsed Database
  unfolding get_latest_channel_update_timestamp update_channel_timestamp
  save_channel_update u db = do
    old ← get_latest_channel_update_timestamp u.channel_outpoint (is_update_of_node_1 u) db
    replace_update old u db

  abbrev pub write_node : NodeAnnouncement → Database → Parsed Database
  write_node n db = do
    let id = BroadcastMessageId.node_announcement n.node_id
    key ← timestamp_key id
    put_message (record { timestamp = n.timestamp; message_id = id })
        (BroadcastMessage.node_announcement n) (insert key (timestamps (be_bytes 8 n.timestamp)) db)

  abbrev pub replace_node : Option ℕ → NodeAnnouncement → Database → Parsed Database
  replace_node none n db = write_node n db
  replace_node (some old) n db = if leb n.timestamp old then ok db else (do
    key ←
        message_key
          (record { timestamp = old; message_id = BroadcastMessageId.node_announcement n.node_id })
    write_node n (remove key db))

  unfoldable pub save_node_announcement : NodeAnnouncement → Database → Parsed Database
  unfolding get_latest_node_announcement_timestamp
  save_node_announcement n db = do
    old ← get_latest_node_announcement_timestamp n.node_id db
    replace_node old n db
