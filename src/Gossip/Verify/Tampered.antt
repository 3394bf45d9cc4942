-- ===== src/Gossip/Verify/Tampered.antt =====
-- What the signature of a node announcement covers (`message_to_sign` of fiber/src/fiber/types.rs).
use ai_ckb_backend.Common.{ℕ, ◌≡◌, refl, none}
use ai_ckb_backend.Common.Outcome.{ok}
use ai_ckb_backend.Gossip.Message.{NodeAnnouncement, BroadcastMessageId}
use ai_ckb_backend.Gossip.Store.{Database, get_broadcast_message_with_cursor}
use ai_ckb_backend.Gossip.Verify.{Host, verify_node_announcement, node_digest}

-- A node announcement of a node and a time of which the store has none is verified in the same way
-- whatever configuration of UDTs it carries: its signature does not cover the configuration.
pub verify_node_announcement-udt :
    (host : Host) (n : NodeAnnouncement) (udt : ℕ) (db : Database)
    → get_broadcast_message_with_cursor host.crates
        (record {
          timestamp = n.timestamp;
          message_id = BroadcastMessageId.node_announcement n.node_id;
        })
        db
      ≡ ok none
    → verify_node_announcement host (record n { udt_cfg_infos = udt }) db
      ≡ verify_node_announcement host n db
unfolding verify_node_announcement node_digest
verify_node_announcement-udt host n udt db e = rw e refl
