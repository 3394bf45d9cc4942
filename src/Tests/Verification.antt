-- ===== src/Tests/Verification.antt =====
-- Runs of the verification of gossip messages (fiber/src/fiber/gossip.rs), on a chain with one
-- transaction, where a signature is good when it is the key.
use ai_ckb_backend.Common.{ℕ, ◌≡◌, refl, false, [], ◌∷◌, some, none, ◌==◌}
use ai_ckb_backend.Common.Outcome.{◌>>=◌, ok, err}
use ai_ckb_backend.Gossip.Message.{
  NodeAnnouncement, BroadcastMessage, BroadcastMessageQueryFlags, ChannelAnnouncement, Cursor,
  timestamp, BroadcastMessageId, cursor, with_timestamp, is_update_of_node_1, is_update_of_node_2,
  channel_announcement, channel_update,
}
use ai_ckb_backend.Gossip.Cursor.{cmp_cursor, message_id_to_bytes, cursor_to_bytes}
use ai_ckb_backend.Gossip.Store.{
  Database, get_latest_channel_update, get_latest_channel_update_timestamp,
  get_latest_node_announcement, get_latest_node_announcement_timestamp, save_channel_update,
  save_channel_announcement, get_latest_channel_announcement,
  get_latest_channel_announcement_timestamp, get_broadcast_message_with_cursor,
}
use ai_ckb_backend.Gossip.Verify.{
  Host, Verified, verify_and_save, verify_node_announcement, capacity_mismatched, mismatched,
  invalid_signature,
}
use ai_ckb_backend.Gossip.Verify.Authentic.{IsTakenIn, verify_and_save-IsTakenIn}
use ai_ckb_backend.Gossip.Verify.Tampered.{verify_node_announcement-udt}
use ai_ckb_backend.Gossip.Prune.{Pending, Saved, prune_messages_to_be_saved}
use ai_ckb_backend.Gossip.Prune.Waiting.{IsWaitingPart, prune_messages_to_be_saved-IsWaitingPart}
use ai_ckb_backend.Gossip.Insert.{same_timed, insert_message_to_be_saved_list, message_too_new}
use ai_ckb_backend.Gossip.Query.{query_broadcast_messages}
use ai_ckb_backend.Tests.Gossip.{byte_crates, update_of_side}

abbrev chain : Host
chain = record {
  crates = byte_crates;
  hash_channel = λ c. c.channel_outpoint;
  hash_update = λ u. u.timestamp;
  hash_node = λ n. n.timestamp;
  udt_whitelist = 4;
  verify = λ s k d. s == k;
  verify_schnorr = λ s k d. s == k;
  pubkey_hash = λ k. k ∷ [];
  channel_tx = λ o. some (record { lock_args = 8 ∷ []; capacity = 500 } ∷ []);
}

abbrev announced : ChannelAnnouncement
announced = record {
  node1_signature = some 1;
  node2_signature = some 2;
  ckb_signature = some 8;
  features = 0;
  chain_hash = 9;
  channel_outpoint = 3;
  node1_id = 1;
  node2_id = 2;
  ckb_key = 8;
  capacity = 500;
  udt_type_script = none;
}

abbrev node : NodeAnnouncement
node = record {
  signature = some 7;
  features = 0;
  timestamp = 1700;
  node_id = 7;
  alias = 0;
  addresses = [];
  chain_hash = 9;
  auto_accept_min_ckb_funding_amount = 0;
  udt_cfg_infos = 4;
}

abbrev saved_or_empty : Verified Database → Database
saved_or_empty (ok db) = db
saved_or_empty _ = []

abbrev with_channel : Database
unfolding verify_and_save
with_channel = saved_or_empty (verify_and_save chain (channel_announcement 1600 announced) [])

verify_and_save-IsTakenIn_example :
    IsTakenIn chain (channel_announcement 1600 announced) [] with_channel
unfolding verify_and_save save_channel_announcement get_latest_channel_announcement
    message_id_to_bytes cursor_to_bytes
verify_and_save-IsTakenIn_example =
    verify_and_save-IsTakenIn chain (channel_announcement 1600 announced) [] with_channel refl

-- An announcement with another capacity than that of the transaction is refused.
too_large :
    verify_and_save chain (channel_announcement 1600 (record announced { capacity = 501 })) []
    ≡ err capacity_mismatched
unfolding verify_and_save get_latest_channel_announcement get_latest_channel_announcement_timestamp
    message_id_to_bytes
too_large = refl

-- The same announcement again leaves the store as it is, and another one of the channel is refused.
taken_again :
    verify_and_save chain (channel_announcement 1700 announced) with_channel ≡ ok with_channel
unfolding verify_and_save get_latest_channel_announcement get_latest_channel_announcement_timestamp
    message_id_to_bytes save_channel_announcement cursor_to_bytes get_broadcast_message_with_cursor
    with_timestamp
taken_again = refl

other_refused :
    verify_and_save chain
      (channel_announcement 1600 (record announced { features = 1 }))
      with_channel
    ≡ err mismatched
unfolding verify_and_save get_latest_channel_announcement get_latest_channel_announcement_timestamp
    message_id_to_bytes save_channel_announcement cursor_to_bytes get_broadcast_message_with_cursor
    with_timestamp
other_refused = refl

verify_node_announcement-udt_example :
    verify_node_announcement chain (record node { udt_cfg_infos = 99 }) []
    ≡ verify_node_announcement chain node []
unfolding get_broadcast_message_with_cursor message_id_to_bytes cursor_to_bytes
verify_node_announcement-udt_example = verify_node_announcement-udt chain node 99 [] refl

-- The signature is over the configuration of the node that verifies: one with another configuration
-- refuses what the first takes in.
abbrev strict : ℕ → Host
strict whitelist = record chain {
  hash_node = λ n. n.udt_cfg_infos;
  udt_whitelist = whitelist;
  verify = λ s k d. s == d;
}

accepted_there : verify_node_announcement (strict 7) node [] ≡ ok false
unfolding verify_node_announcement get_broadcast_message_with_cursor message_id_to_bytes
    cursor_to_bytes
accepted_there = refl

refused_here : verify_node_announcement (strict 8) node [] ≡ err invalid_signature
unfolding verify_node_announcement get_broadcast_message_with_cursor message_id_to_bytes
    cursor_to_bytes
refused_here = refl

abbrev cursor_zero : Cursor
cursor_zero = record { timestamp = 0; message_id = BroadcastMessageId.channel_announcement 0 }

-- An update and the announcement that it waits for arrive together.
abbrev both : Pending
both = record {
  store = [];
  last_cursor = cursor_zero;
  messages_to_be_saved =
      channel_update (update_of_side 0 1700) ∷ channel_announcement 1600 announced ∷ [];
}

abbrev round_or : Verified (Saved chain) → Saved chain
round_or (ok r) = r
round_or _ = (both, [])

abbrev one_round : Saved chain
unfolding prune_messages_to_be_saved
one_round = round_or (prune_messages_to_be_saved chain both)

one_round_waiting : one_round.0.messages_to_be_saved ≡ channel_update (update_of_side 0 1700) ∷ []
unfolding prune_messages_to_be_saved get_latest_channel_announcement
    get_latest_channel_announcement_timestamp save_channel_announcement message_id_to_bytes
    cursor_to_bytes verify_and_save cmp_cursor cursor
one_round_waiting = refl

abbrev two_rounds : Saved chain
unfolding prune_messages_to_be_saved
two_rounds = round_or (prune_messages_to_be_saved chain one_round.0)

two_rounds_waiting : two_rounds.0.messages_to_be_saved ≡ []
unfolding prune_messages_to_be_saved get_latest_channel_announcement
    get_latest_channel_announcement_timestamp save_channel_announcement message_id_to_bytes
    cursor_to_bytes verify_and_save cmp_cursor cursor get_broadcast_message_with_cursor
    with_timestamp is_update_of_node_1 is_update_of_node_2 save_channel_update
two_rounds_waiting = refl

prune_messages_to_be_saved-IsWaitingPart_example :
    IsWaitingPart chain [] both.messages_to_be_saved one_round.0.messages_to_be_saved
unfolding prune_messages_to_be_saved get_latest_channel_announcement
    get_latest_channel_announcement_timestamp save_channel_announcement message_id_to_bytes
    cursor_to_bytes verify_and_save cmp_cursor cursor
prune_messages_to_be_saved-IsWaitingPart_example =
    prune_messages_to_be_saved-IsWaitingPart chain both one_round refl

-- An announcement of a channel comes in with the time of its block, and waits once.
comes_in_once :
    (insert_message_to_be_saved_list chain
        (λ o. some 1600)
        1650
        (BroadcastMessage.channel_announcement announced)
        (record both { messages_to_be_saved = [] })
      >>= λ r.
          insert_message_to_be_saved_list chain
            (λ o. some 1600)
            1650
            (BroadcastMessage.channel_announcement announced)
            r.0)
    ≡ ok (
      record both { messages_to_be_saved = channel_announcement 1600 announced ∷ [] },
      channel_announcement 1600 announced,
    )
unfolding insert_message_to_be_saved_list get_latest_channel_announcement
    get_latest_channel_announcement_timestamp message_id_to_bytes timestamp same_timed
comes_in_once = refl

-- A message of more than a minute ahead is refused.
too_new :
    insert_message_to_be_saved_list chain
      (λ o. none)
      0
      (BroadcastMessage.channel_update (update_of_side 0 60001))
      both
    ≡ err (message_too_new 60001 60000)
unfolding insert_message_to_be_saved_list get_latest_channel_announcement
    get_latest_channel_announcement_timestamp message_id_to_bytes get_latest_channel_update
    get_latest_channel_update_timestamp timestamp
too_new = refl

-- The announcement is found, and the updates of the channel are missing.
queried :
    query_broadcast_messages byte_crates
      (record { channel_outpoint = 3; flags = BroadcastMessageQueryFlags.channel_update_of_node1 }
        ∷ record { channel_outpoint = 3; flags = BroadcastMessageQueryFlags.channel_announcement }
        ∷ record {
          channel_outpoint = 3;
          flags = BroadcastMessageQueryFlags.node_announcement_node2;
        }
        ∷ [])
      with_channel
    ≡ ok (channel_announcement 1600 announced ∷ [], 0 ∷ 2 ∷ [])
unfolding query_broadcast_messages get_latest_channel_update get_latest_channel_update_timestamp
    message_id_to_bytes with_channel get_latest_channel_announcement
    get_latest_channel_announcement_timestamp save_channel_announcement cursor_to_bytes
    get_broadcast_message_with_cursor with_timestamp get_latest_node_announcement
    get_latest_node_announcement_timestamp
queried = refl
