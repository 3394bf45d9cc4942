-- ===== src/Gossip/Prune.antt =====
-- The messages that wait for their dependencies (`ExtendedGossipMessageStoreState` of
-- fiber/src/fiber/gossip.rs). The hash set of the messages is a list.
pub mod Waiting
use Prim.Native.Nat.{Ordering, compare}
use ai_ckb_backend.Common.{
  ℕ, Bool, true, false, not, List, [], ◌∷◌, ◌++◌, Option, some, none, if◌then◌else◌, ltb, ◌==◌,
  is_some,
}
use ai_ckb_backend.Common.Outcome.{Outcome, ok, err, panic, ◌>>=◌, ◌>>◌}
use ai_ckb_backend.Gossip.Message.{
  NodeAnnouncement, ChannelAnnouncement, ChannelUpdate, BroadcastMessageWithTimestamp, Cursor,
  message_id, timestamp, cursor,
}
use ai_ckb_backend.Gossip.Cursor.{Crates, cmp_message_id, cmp_cursor}
use ai_ckb_backend.Gossip.Store.{Database, get_latest_channel_announcement}
use ai_ckb_backend.Gossip.Verify.{Host, Verified, GossipError, stored, verify_and_save}

pub record Pending : Type 0 where
  pub store : Database
  pub last_cursor : Cursor
  pub messages_to_be_saved : List BroadcastMessageWithTimestamp

-- The announcement of the channel among the messages.
abbrev pub announcement_in :
    ℕ → List BroadcastMessageWithTimestamp → Option (ℕ × ChannelAnnouncement)
announcement_in outpoint [] = none
announcement_in outpoint (BroadcastMessageWithTimestamp.channel_announcement t c ∷ ms) =
    if c.channel_outpoint == outpoint then some (t, c) else announcement_in outpoint ms
announcement_in outpoint (BroadcastMessageWithTimestamp.channel_update u ∷ ms) =
    announcement_in outpoint ms
announcement_in outpoint (BroadcastMessageWithTimestamp.node_announcement n ∷ ms) =
    announcement_in outpoint ms

abbrev pub or_in_memory :
    Option (ℕ × ChannelAnnouncement)
    → Option (ℕ × ChannelAnnouncement)
    → Option (ℕ × ChannelAnnouncement)
or_in_memory (some a) other = some a
or_in_memory none other = other

module _ (host : Host) where
  unfoldable pub get_channel_announcement :
      ℕ → Pending → Verified (Option (ℕ × ChannelAnnouncement))
  get_channel_announcement outpoint p = do
    saved ← stored (get_latest_channel_announcement host.crates outpoint p.store)
    ok (or_in_memory saved (announcement_in outpoint p.messages_to_be_saved))

  unfoldable pub has_dependencies_available :
      BroadcastMessageWithTimestamp → Pending → Verified Bool
  unfolding get_channel_announcement
  has_dependencies_available (BroadcastMessageWithTimestamp.channel_update u) p = do
    announcement ← get_channel_announcement u.channel_outpoint p
    ok (is_some announcement)
  has_dependencies_available (BroadcastMessageWithTimestamp.channel_announcement t c) p = ok true
  has_dependencies_available (BroadcastMessageWithTimestamp.node_announcement n) p = ok true

  abbrev pub Parts : Type 0
  Parts = List BroadcastMessageWithTimestamp × List BroadcastMessageWithTimestamp

  -- `partition`: the complete messages and the others.
  unfoldable pub partition : List BroadcastMessageWithTimestamp → Pending → Verified Parts
  unfolding has_dependencies_available
  partition [] p = ok ([], [])
  partition (m ∷ ms) p = do
    complete ← has_dependencies_available m p
    parts ← partition ms p
    ok (if complete then (m ∷ parts.0, parts.1) else (parts.0, m ∷ parts.1))

  -- `Ord for BroadcastMessageWithTimestamp`.
  unfoldable pub cmp_message :
      BroadcastMessageWithTimestamp → BroadcastMessageWithTimestamp → Ordering
  unfolding message_id timestamp
  cmp_message a b = elim (cmp_message_id host.crates (message_id a) (message_id b)) [
    | Ordering.lt ↦ Ordering.lt
    | Ordering.eq ↦ compare (timestamp a) (timestamp b)
    | Ordering.gt ↦ Ordering.gt
  ]

  abbrev pub insert_message :
      BroadcastMessageWithTimestamp
      → List BroadcastMessageWithTimestamp
      → List BroadcastMessageWithTimestamp
  insert_message a [] = a ∷ []
  insert_message a (b ∷ ms) = elim (cmp_message a b) [
    | Ordering.gt ↦ b ∷ insert_message a ms
    | _ ↦ a ∷ b ∷ ms
  ]

  abbrev pub sort_messages : List BroadcastMessageWithTimestamp → List BroadcastMessageWithTimestamp
  sort_messages [] = []
  sort_messages (m ∷ ms) = insert_message m (sort_messages ms)

  abbrev pub is_gt : Ordering → Bool
  is_gt Ordering.gt = true
  is_gt _ = false

  unfoldable pub update_last_cursor : Cursor → Pending → Verified Pending
  update_last_cursor c p = do
    o ← stored (cmp_cursor host.crates c p.last_cursor)
    ok (if is_gt o then record p { last_cursor = c } else p)

  abbrev pub Saved : Type 0
  Saved = Pending × List BroadcastMessageWithTimestamp

  -- The loop: a message that is refused is dropped.
  unfoldable pub save_all : List BroadcastMessageWithTimestamp → Pending → Verified Saved
  unfolding update_last_cursor
  save_all [] p = ok (p, [])
  save_all (m ∷ ms) p = elim (verify_and_save host m p.store) [
    | ok db ↦ do
      seen ← update_last_cursor (cursor m) (record p { store = db })
      rest ← save_all ms seen
      ok (rest.0, m ∷ rest.1)
    | err e ↦ save_all ms p
    | panic ↦ panic
  ]

  -- `take` leaves no message behind while the partition asks for dependencies.
  unfoldable pub prune_messages_to_be_saved : Pending → Verified Saved
  unfolding partition save_all cmp_message
  prune_messages_to_be_saved p = do
    let taken = record p { messages_to_be_saved = [] }
    parts ← partition p.messages_to_be_saved taken
    save_all (sort_messages parts.0) (record taken { messages_to_be_saved = parts.1 })
