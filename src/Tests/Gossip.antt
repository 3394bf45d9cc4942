-- ===== src/Tests/Gossip.antt =====
-- Runs of the gossip messages, their cursors and their store (fiber/src/fiber/types.rs and
-- fiber/src/store/store.rs), with crates that write an identifier as equal bytes.
use Prim.Native.Nat.{Ordering, compare}
use ai_ckb_backend.Common.{
  ℕ, zero, suc, ◌≡◌, refl, true, false, List, [], ◌∷◌, Option, some, none, arith, length,
}
use ai_ckb_backend.Common.Bytes.{Bytes_ord, be_bytes}
use ai_ckb_backend.Common.Outcome.{ok, ◌>>=◌}
use ai_ckb_backend.Gossip.Message.{
  ChannelUpdate, Cursor, channel_announcement, channel_update, node_announcement,
  is_update_of_node_1, is_update_of_node_2, with_timestamp,
}
use ai_ckb_backend.Gossip.Cursor.{
  Crates, cursor_to_bytes, cursor_from_bytes, cmp_cursor, cursor_default, cmp_message_id,
  message_id_from_bytes, message_id_of_type, message_id_to_bytes,
}
use ai_ckb_backend.Gossip.Cursor.Laws.{cursor_from_bytes-cursor_to_bytes, cmp_cursor_earlier}
use ai_ckb_backend.Gossip.Store.{
  Database, timestamps, save_channel_update, get_latest_channel_update,
  get_latest_channel_update_timestamp, get_latest_broadcast_message_cursor, other,
  get_broadcast_message_with_cursor,
}
use ai_ckb_backend.Gossip.Store.Latest.{save_channel_update-latest}
use ai_ckb_backend.Gossip.Store.Ends.{get_latest_broadcast_message_cursor-none}

abbrev pub copies : ℕ → ℕ → List ℕ
copies zero n = []
copies (suc k) n = n ∷ copies k n

abbrev pub first : List ℕ → Option ℕ
first [] = none
first (b ∷ bytes) = some b

abbrev pub byte_crates : Crates
byte_crates = record {
  outpoint_bytes = copies 36;
  outpoint_from = first;
  outpoint_cmp = compare;
  outpoint_default = 0;
  pubkey_bytes = copies 33;
  pubkey_from = first;
  pubkey_cmp = compare;
}

abbrev cursor_at : ℕ → Cursor
cursor_at t = record { timestamp = t; message_id = node_announcement 7 }

cursor_from_bytes-cursor_to_bytes_example :
    (bytes : List ℕ) × (cursor_to_bytes byte_crates (cursor_at 1700) ≡ ok bytes)
    × (length bytes ≡ 45)
    × (cursor_from_bytes byte_crates bytes ≡ ok (cursor_at 1700))
cursor_from_bytes-cursor_to_bytes_example =
    cursor_from_bytes-cursor_to_bytes byte_crates (cursor_at 1700) (omega arith) (refl, refl)

cmp_cursor_earlier_example : cmp_cursor byte_crates (cursor_at 255) (cursor_at 256) ≡ ok Ordering.lt
cmp_cursor_earlier_example =
    cmp_cursor_earlier byte_crates (cursor_at 255) (cursor_at 256) (omega arith) (omega arith)
      (refl, refl) (refl, refl)

-- The default cursor is the one of an announcement at time 0.
default_cursor :
    cursor_default byte_crates ≡ ok (record { timestamp = 0; message_id = channel_announcement 0 })
unfolding cursor_default cursor_from_bytes message_id_from_bytes message_id_of_type
default_cursor = refl

-- An update of a channel is below its announcement.
update_below_announcement :
    cmp_message_id byte_crates (channel_update 3) (channel_announcement 3) ≡ Ordering.lt
unfolding cmp_message_id
update_below_announcement = refl

abbrev pub update_of_side : ℕ → ℕ → ChannelUpdate
update_of_side side t = record {
  signature = some 1;
  chain_hash = 9;
  channel_outpoint = 3;
  timestamp = t;
  message_flags = side;
  channel_flags = 0;
  tlc_expiry_delta = 1000;
  tlc_minimum_value = 0;
  tlc_fee_proportional_millionths = 2000;
}

save_channel_update-latest_example :
    (db' : Database) × (save_channel_update byte_crates (update_of_side 0 1700) [] ≡ ok db')
    × (get_latest_channel_update byte_crates 3 (is_update_of_node_1 (update_of_side 0 1700)) db'
        ≡ ok (some (update_of_side 0 1700)))
unfolding get_latest_channel_update_timestamp message_id_to_bytes
save_channel_update-latest_example =
    save_channel_update-latest byte_crates (update_of_side 0 1700) [] none tt (omega arith)
      (refl, refl) refl tt

-- Two updates of the two sides at the same time: the later one is found for both sides.
same_time :
    (save_channel_update byte_crates (update_of_side 0 1700) []
      >>= save_channel_update byte_crates (update_of_side 1 1700)
      >>= get_latest_channel_update byte_crates 3 true)
    ≡ ok (some (update_of_side 1 1700))
unfolding save_channel_update get_latest_channel_update message_id_to_bytes cursor_to_bytes
    is_update_of_node_1 is_update_of_node_2 get_broadcast_message_with_cursor with_timestamp
same_time = refl

-- And the next update of one side takes the update of the other away.
same_time_lost :
    (save_channel_update byte_crates (update_of_side 0 1700) []
      >>= save_channel_update byte_crates (update_of_side 1 1700)
      >>= save_channel_update byte_crates (update_of_side 0 1800)
      >>= get_latest_channel_update byte_crates 3 false)
    ≡ ok none
unfolding save_channel_update get_latest_channel_update message_id_to_bytes cursor_to_bytes
    is_update_of_node_1 is_update_of_node_2 get_broadcast_message_with_cursor with_timestamp
same_time_lost = refl

get_latest_broadcast_message_cursor-none_example :
    get_latest_broadcast_message_cursor byte_crates
      ((96 ∷ be_bytes 8 5, other) ∷ (97 ∷ 1 ∷ [], timestamps []) ∷ (192 ∷ [], other) ∷ [])
    ≡ ok none
get_latest_broadcast_message_cursor-none_example =
    get_latest_broadcast_message_cursor-none byte_crates (1 ∷ []) (timestamps [])
      ((96 ∷ be_bytes 8 5, other) ∷ (97 ∷ 1 ∷ [], timestamps []) ∷ (192 ∷ [], other) ∷ [])
      ((refl, (refl, tt)), ((refl, tt), (tt, tt))) refl
