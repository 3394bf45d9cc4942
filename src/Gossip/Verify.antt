-- ===== src/Gossip/Verify.antt =====
-- The verification of gossip messages before they are stored (fiber/src/fiber/gossip.rs), and what the
-- signatures cover (`message_to_sign` of fiber/src/fiber/types.rs). The hash, the signatures and the
-- transactions of the chain are other crates' and the chain's.
pub mod Same
pub mod Signed
pub mod Authentic
pub mod Tampered
use ai_ckb_backend.Common.{
  ℕ, Bool, true, false, not, ◌&&◌, ◌||◌, List, [], ◌∷◌, Option, some, none, if◌then◌else◌, ltb,
  ◌==◌, is_none,
}
use ai_ckb_backend.Common.Outcome.{Outcome, ok, err, panic, fail_if, ◌>>=◌, ◌>>◌}
use ai_ckb_backend.Gossip.Message.{
  NodeAnnouncement, ChannelAnnouncement, ChannelUpdate, BroadcastMessageWithTimestamp,
  BroadcastMessageId, Cursor, is_update_of_node_1,
}
use ai_ckb_backend.Gossip.Cursor.{Crates, Parsed}
use ai_ckb_backend.Gossip.Store.{
  Database, get_broadcast_message_with_cursor, get_latest_channel_announcement,
  save_channel_announcement, save_channel_update, save_node_announcement,
}

-- The first output of a transaction.
pub record Output : Type 0 where
  pub lock_args : List ℕ
  pub capacity : ℕ  -- u64

pub record Host : Type 0 where
  pub crates : Crates
  -- `deterministically_hash`
  pub hash_channel : ChannelAnnouncement → ℕ
  pub hash_update : ChannelUpdate → ℕ
  pub hash_node : NodeAnnouncement → ℕ
  -- `get_udt_whitelist()`: the configuration of this node.
  pub udt_whitelist : ℕ
  -- A signature, a key and a digest.
  pub verify : ℕ → ℕ → ℕ → Bool
  pub verify_schnorr : ℕ → ℕ → ℕ → Bool
  -- The first 20 bytes of the hash of a key.
  pub pubkey_hash : ℕ → List ℕ
  -- `get_channel_tx`: the outputs of the committed transaction, where it is found.
  pub channel_tx : ℕ → Option (List Output)

pub data GossipError : Type 0 where
  mismatched channel_with_itself signatures_missing invalid_signature announcement_not_found :
      GossipError
  tx_not_found no_output pubkey_hash_mismatched capacity_mismatched : GossipError

abbrev pub Verified : Type 0 → Type 0
Verified A = Outcome GossipError A

-- A read of the store; what does not parse there is a panic.
abbrev pub stored : {A : Type 0} → Parsed A → Verified A
stored (ok a) = ok a
stored (err e) = panic
stored panic = panic

abbrev pub same_option : Option ℕ → Option ℕ → Bool
same_option none none = true
same_option (some a) (some b) = a == b
same_option _ _ = false

abbrev pub same_list : List ℕ → List ℕ → Bool
same_list [] [] = true
same_list (a ∷ rest) (b ∷ others) = a == b && same_list rest others
same_list _ _ = false

unfoldable pub same_channel : ChannelAnnouncement → ChannelAnnouncement → Bool
same_channel a b =
    same_option a.node1_signature b.node1_signature
    && (same_option a.node2_signature b.node2_signature
        && (same_option a.ckb_signature b.ckb_signature
            && (a.features == b.features
                && (a.chain_hash == b.chain_hash
                    && (a.channel_outpoint == b.channel_outpoint
                        && (a.node1_id == b.node1_id
                            && (a.node2_id == b.node2_id
                                && (a.ckb_key == b.ckb_key
                                    && (a.capacity == b.capacity
                                        && same_option a.udt_type_script b.udt_type_script)))))))))

unfoldable pub same_update : ChannelUpdate → ChannelUpdate → Bool
same_update a b =
    same_option a.signature b.signature
    && (a.chain_hash == b.chain_hash
        && (a.channel_outpoint == b.channel_outpoint
            && (a.timestamp == b.timestamp
                && (a.message_flags == b.message_flags
                    && (a.channel_flags == b.channel_flags
                        && (a.tlc_expiry_delta == b.tlc_expiry_delta
                            && (a.tlc_minimum_value == b.tlc_minimum_value
                                && a.tlc_fee_proportional_millionths
                                  == b.tlc_fee_proportional_millionths)))))))

unfoldable pub same_node : NodeAnnouncement → NodeAnnouncement → Bool
same_node a b =
    same_option a.signature b.signature
    && (a.features == b.features
        && (a.timestamp == b.timestamp
            && (a.node_id == b.node_id
                && (a.alias == b.alias
                    && (same_list a.addresses b.addresses
                        && (a.chain_hash == b.chain_hash
                            && (a.auto_accept_min_ckb_funding_amount
                                  == b.auto_accept_min_ckb_funding_amount
                                && a.udt_cfg_infos == b.udt_cfg_infos)))))))

-- What stands in the store already: the same message, or another one.
abbrev pub known : Bool → Verified Bool
known true = ok true
known false = err mismatched

module _ (host : Host) where
  unfoldable pub channel_digest : ChannelAnnouncement → ℕ
  channel_digest c =
      host.hash_channel
        (record c { node1_signature = none; node2_signature = none; ckb_signature = none })

  unfoldable pub update_digest : ChannelUpdate → ℕ
  update_digest u = host.hash_update (record u { signature = none })

  unfoldable pub node_digest : NodeAnnouncement → ℕ
  node_digest n = host.hash_node (record n { signature = none; udt_cfg_infos = host.udt_whitelist })

  abbrev pub check_output : ChannelAnnouncement → List Output → Verified (Unit {0})
  check_output c [] = err no_output
  check_output c (o ∷ outputs) = do
    fail_if (not (same_list o.lock_args (host.pubkey_hash c.ckb_key))) pubkey_hash_mismatched
    fail_if (is_none c.udt_type_script && ltb o.capacity c.capacity) capacity_mismatched

  abbrev pub check_tx : ChannelAnnouncement → Option (List Output) → Verified (Unit {0})
  check_tx c none = err tx_not_found
  check_tx c (some outputs) = check_output c outputs

  abbrev pub check_signatures : ChannelAnnouncement → Option ℕ → Option ℕ → Option ℕ → Verified Bool
  check_signatures c (some s1) (some s2) (some s3) = do
    fail_if (not (host.verify s1 c.node1_id (channel_digest c))) invalid_signature
    fail_if (not (host.verify s2 c.node2_id (channel_digest c))) invalid_signature
    check_tx c (host.channel_tx c.channel_outpoint)
    fail_if (not (host.verify_schnorr s3 c.ckb_key (channel_digest c))) invalid_signature
    ok false
  check_signatures c _ _ _ = err signatures_missing

  abbrev pub check_channel : ChannelAnnouncement → Option (ℕ × ChannelAnnouncement) → Verified Bool
  check_channel c (some (t, existing)) = known (same_channel existing c)
  check_channel c none = do
    fail_if (c.node1_id == c.node2_id) channel_with_itself
    check_signatures c c.node1_signature c.node2_signature c.ckb_signature

  unfoldable pub verify_channel_announcement : ChannelAnnouncement → Database → Verified Bool
  unfolding same_channel channel_digest
  verify_channel_announcement c db = do
    existing ← stored (get_latest_channel_announcement host.crates c.channel_outpoint db)
    check_channel c existing

  abbrev pub side_key : ChannelUpdate → ChannelAnnouncement → ℕ
  side_key u c = if is_update_of_node_1 u then c.node1_id else c.node2_id

  abbrev pub check_side : ChannelUpdate → ℕ → Option (ℕ × ChannelAnnouncement) → Verified Bool
  check_side u s none = err announcement_not_found
  check_side u s (some (t, c)) = do
    fail_if (not (host.verify s (side_key u c) (update_digest u))) invalid_signature
    ok false

  abbrev pub check_unknown_update : ChannelUpdate → Option ℕ → Database → Verified Bool
  check_unknown_update u none db = err signatures_missing
  check_unknown_update u (some s) db = do
    announcement ← stored (get_latest_channel_announcement host.crates u.channel_outpoint db)
    check_side u s announcement

  -- Another kind of message under the cursor is passed over.
  abbrev pub check_update :
      ChannelUpdate → Option BroadcastMessageWithTimestamp → Database → Verified Bool
  check_update u (some (BroadcastMessageWithTimestamp.channel_update existing)) db =
      known (same_update existing u)
  check_update u _ db = check_unknown_update u u.signature db

  unfoldable pub verify_channel_update : ChannelUpdate → Database → Verified Bool
  unfolding same_update update_digest
  verify_channel_update u db = do
    existing ← stored (
        get_broadcast_message_with_cursor host.crates
          (record {
            timestamp = u.timestamp;
            message_id = BroadcastMessageId.channel_update u.channel_outpoint;
          })
          db)
    check_update u existing db

  abbrev pub check_node_signature : NodeAnnouncement → Option ℕ → Verified Bool
  check_node_signature n none = err invalid_signature
  check_node_signature n (some s) =
      if host.verify s n.node_id (node_digest n) then ok false else err invalid_signature

  abbrev pub check_node : NodeAnnouncement → Option BroadcastMessageWithTimestamp → Verified Bool
  check_node n (some (BroadcastMessageWithTimestamp.node_announcement existing)) =
      known (same_node existing n)
  check_node n _ = check_node_signature n n.signature

  unfoldable pub verify_node_announcement : NodeAnnouncement → Database → Verified Bool
  unfolding same_node node_digest
  verify_node_announcement n db = do
    existing ← stored (
        get_broadcast_message_with_cursor host.crates
          (record {
            timestamp = n.timestamp;
            message_id = BroadcastMessageId.node_announcement n.node_id;
          })
          db)
    check_node n existing

  unfoldable pub verify_and_save : BroadcastMessageWithTimestamp → Database → Verified Database
  unfolding verify_channel_announcement verify_channel_update verify_node_announcement
  verify_and_save (BroadcastMessageWithTimestamp.channel_announcement t c) db = do
    saved ← verify_channel_announcement c db
    if saved then ok db else stored (save_channel_announcement host.crates t c db)
  verify_and_save (BroadcastMessageWithTimestamp.channel_update u) db = do
    saved ← verify_channel_update u db
    if saved then ok db else stored (save_channel_update host.crates u db)
  verify_and_save (BroadcastMessageWithTimestamp.node_announcement n) db = do
    saved ← verify_node_announcement n db
    if saved then ok db else stored (save_node_announcement host.crates n db)
