-- ===== src/Gossip/Verify/Signed.antt =====
-- What an authentic gossip message is, and the announcements of channels that are checked for it
-- (`verify_channel_announcement` of fiber/src/fiber/gossip.rs).
use ai_ckb_backend.Common.{
  ℕ, ◌≤◌, ◌≡◌, refl, ap, Bool, true, false, not, List, [], ◌∷◌, Option, some, none, ◌==◌, arith,
}
use ai_ckb_backend.Common.Outcome.{ok, fail_if, >>=-Passed}
use ai_ckb_backend.Gossip.Message.{ChannelAnnouncement, BroadcastMessageWithTimestamp, cursor}
use ai_ckb_backend.Gossip.Cursor.{Parsed}
use ai_ckb_backend.Gossip.Store.{
  Database, get_latest_channel_announcement, get_broadcast_message_with_cursor,
  save_channel_announcement, save_channel_update, save_node_announcement,
}
use ai_ckb_backend.Gossip.Verify.Same.{same_channel_lem}
use ai_ckb_backend.Gossip.Verify.{
  Host, Output, GossipError, known, same_list, same_channel, channel_digest, update_digest,
  node_digest, check_tx, check_signatures, check_channel, side_key, pubkey_hash_mismatched,
  invalid_signature, channel_with_itself,
}

module _ (host : Host) where
  -- The transaction's first output locks the channel's key and holds the capacity that is announced.
  pub record IsFunded (c : ChannelAnnouncement) : Type 0 where
    pub output : Output
    pub outputs : List Output
    pub found : host.channel_tx c.channel_outpoint ≡ some (output ∷ outputs)
    pub locked : same_list output.lock_args (host.pubkey_hash c.ckb_key) ≡ true
    pub covered : c.udt_type_script ≡ none → c.capacity ≤ output.capacity

  pub record IsAuthenticChannel (c : ChannelAnnouncement) : Type 0 where
    pub ends : (c.node1_id == c.node2_id) ≡ false
    pub signed1 :
        (s : ℕ) × (c.node1_signature ≡ some s)
        × (host.verify s c.node1_id (channel_digest host c) ≡ true)
    pub signed2 :
        (s : ℕ) × (c.node2_signature ≡ some s)
        × (host.verify s c.node2_id (channel_digest host c) ≡ true)
    pub signed3 :
        (s : ℕ) × (c.ckb_signature ≡ some s)
        × (host.verify_schnorr s c.ckb_key (channel_digest host c) ≡ true)
    pub funded : IsFunded c

  -- The channel is announced in the store, and the node of the update's side has signed.
  abbrev pub IsAuthentic : BroadcastMessageWithTimestamp → Database → Type 0
  IsAuthentic (BroadcastMessageWithTimestamp.channel_announcement t c) db = IsAuthenticChannel c
  IsAuthentic (BroadcastMessageWithTimestamp.channel_update u) db =
      (s : ℕ) × (t : ℕ) × (c : ChannelAnnouncement) × (u.signature ≡ some s)
      × (get_latest_channel_announcement host.crates u.channel_outpoint db ≡ ok (some (t, c)))
      × (host.verify s (side_key host u c) (update_digest host u) ≡ true)
  IsAuthentic (BroadcastMessageWithTimestamp.node_announcement n) db =
      (s : ℕ) × (n.signature ≡ some s) × (host.verify s n.node_id (node_digest host n) ≡ true)

  -- The message itself is in the store: an announcement of a channel with the time that it was saved
  -- with.
  abbrev pub StandsIn : BroadcastMessageWithTimestamp → Database → Type 0
  StandsIn (BroadcastMessageWithTimestamp.channel_announcement t c) db =
      (saved_at : ℕ) × (get_latest_channel_announcement host.crates c.channel_outpoint db
        ≡ ok (some (saved_at, c)))
  StandsIn (BroadcastMessageWithTimestamp.channel_update u) db =
      get_broadcast_message_with_cursor host.crates
        (cursor (BroadcastMessageWithTimestamp.channel_update u)) db
      ≡ ok (some (BroadcastMessageWithTimestamp.channel_update u))
  StandsIn (BroadcastMessageWithTimestamp.node_announcement n) db =
      get_broadcast_message_with_cursor host.crates
        (cursor (BroadcastMessageWithTimestamp.node_announcement n)) db
      ≡ ok (some (BroadcastMessageWithTimestamp.node_announcement n))

  -- The store after the save of the message.
  abbrev pub save : BroadcastMessageWithTimestamp → Database → Parsed Database
  save (BroadcastMessageWithTimestamp.channel_announcement t c) db =
      save_channel_announcement host.crates t c db
  save (BroadcastMessageWithTimestamp.channel_update u) db = save_channel_update host.crates u db
  save (BroadcastMessageWithTimestamp.node_announcement n) db =
      save_node_announcement host.crates n db

  pub passes : (b : Bool) (e : GossipError) (u : Unit {0}) → fail_if (not b) e ≡ ok u → b ≡ true
  passes b e u h = ground (arith, h)

  pub differs : (b : Bool) (e : GossipError) (u : Unit {0}) → fail_if b e ≡ ok u → b ≡ false
  differs b e u h = ground (arith, h)

  check_tx-IsFunded :
      (c : ChannelAnnouncement) (tx : Option (List Output)) (u : Unit {0})
      → host.channel_tx c.channel_outpoint ≡ tx
      → check_tx host c tx ≡ ok u
      → IsFunded c
  check_tx-IsFunded c none u f h = absurd (ground (arith, h))
  check_tx-IsFunded c (some []) u f h = absurd (ground (arith, h))
  check_tx-IsFunded c (some (o ∷ os)) u f h =
      let (v, p, q) =
        >>=-Passed
          (fail_if (not (same_list o.lock_args (host.pubkey_hash c.ckb_key)))
            pubkey_hash_mismatched)
          _ h in
      record {
        output = o;
        outputs = os;
        found = f;
        locked =
            passes (same_list o.lock_args (host.pubkey_hash c.ckb_key)) pubkey_hash_mismatched v p;
        covered = λ e. ground (arith, e, q);
      }

  check_signatures-IsAuthenticChannel :
      (c : ChannelAnnouncement) (o1 o2 o3 : Option ℕ)
      → c.node1_signature ≡ o1
      → c.node2_signature ≡ o2
      → c.ckb_signature ≡ o3
      → (c.node1_id == c.node2_id) ≡ false
      → check_signatures host c o1 o2 o3 ≡ ok false
      → IsAuthenticChannel c
  check_signatures-IsAuthenticChannel c none o2 o3 e1 e2 e3 d h = absurd (ground (arith, h))
  check_signatures-IsAuthenticChannel c (some s1) none o3 e1 e2 e3 d h = absurd (ground (arith, h))
  check_signatures-IsAuthenticChannel c (some s1) (some s2) none e1 e2 e3 d h =
      absurd (ground (arith, h))
  check_signatures-IsAuthenticChannel c (some s1) (some s2) (some s3) e1 e2 e3 d h =
      let (u1, p1, h1) =
        >>=-Passed
          (fail_if (not (host.verify s1 c.node1_id (channel_digest host c))) invalid_signature) _
          h in
      let (u2, p2, h2) =
        >>=-Passed
          (fail_if (not (host.verify s2 c.node2_id (channel_digest host c))) invalid_signature) _
          h1 in
      let (u3, p3, h3) = >>=-Passed (check_tx host c (host.channel_tx c.channel_outpoint)) _ h2 in
      let (u4, p4, h4) =
        >>=-Passed
          (fail_if (not (host.verify_schnorr s3 c.ckb_key (channel_digest host c)))
            invalid_signature)
          _ h3 in
      record {
        ends = d;
        signed1 = (
          s1,
          e1,
          passes (host.verify s1 c.node1_id (channel_digest host c)) invalid_signature u1 p1,
        );
        signed2 = (
          s2,
          e2,
          passes (host.verify s2 c.node2_id (channel_digest host c)) invalid_signature u2 p2,
        );
        signed3 = (
          s3,
          e3,
          passes (host.verify_schnorr s3 c.ckb_key (channel_digest host c)) invalid_signature u4 p4,
        );
        funded = check_tx-IsFunded c (host.channel_tx c.channel_outpoint) u3 refl p3;
      }

  pub known_true : (b : Bool) → known b ≡ ok false → ⊥
  known_true true h = ground (arith, h)
  known_true false h = ground (arith, h)

  pub check_channel-IsAuthenticChannel :
      (c : ChannelAnnouncement) (o : Option (ℕ × ChannelAnnouncement))
      → check_channel host c o ≡ ok false
      → IsAuthenticChannel c
  check_channel-IsAuthenticChannel c (some (t, existing)) h =
      absurd (known_true (same_channel existing c) h)
  check_channel-IsAuthenticChannel c none h =
      let (u, p, q) = >>=-Passed (fail_if (c.node1_id == c.node2_id) channel_with_itself) _ h in
      check_signatures-IsAuthenticChannel c c.node1_signature c.node2_signature c.ckb_signature refl
        refl refl (differs (c.node1_id == c.node2_id) channel_with_itself u p) q

  check_signatures-not_saved :
      (c : ChannelAnnouncement) (o1 o2 o3 : Option ℕ)
      → check_signatures host c o1 o2 o3 ≡ ok true
      → ⊥
  check_signatures-not_saved c none o2 o3 h = absurd (ground (arith, h))
  check_signatures-not_saved c (some s1) none o3 h = absurd (ground (arith, h))
  check_signatures-not_saved c (some s1) (some s2) none h = absurd (ground (arith, h))
  check_signatures-not_saved c (some s1) (some s2) (some s3) h =
      let (_, _, h1) =
        >>=-Passed
          (fail_if (not (host.verify s1 c.node1_id (channel_digest host c))) invalid_signature) _
          h in
      let (_, _, h2) =
        >>=-Passed
          (fail_if (not (host.verify s2 c.node2_id (channel_digest host c))) invalid_signature) _
          h1 in
      let (_, _, h3) = >>=-Passed (check_tx host c (host.channel_tx c.channel_outpoint)) _ h2 in
      let (_, _, h4) =
        >>=-Passed
          (fail_if (not (host.verify_schnorr s3 c.ckb_key (channel_digest host c)))
            invalid_signature)
          _ h3 in
      ground (arith, h4)

  pub known_same : (b : Bool) → known b ≡ ok true → b ≡ true
  known_same true h = refl
  known_same false h = absurd (ground (arith, h))

  pub check_channel-saved :
      (c : ChannelAnnouncement) (o : Option (ℕ × ChannelAnnouncement))
      → check_channel host c o ≡ ok true
      → (saved_at : ℕ) × (o ≡ some (saved_at, c))
  check_channel-saved c (some (t, existing)) h = (
    t,
    ap (λ x. some (t, x)) (same_channel_lem existing c (known_same (same_channel existing c) h)),
  )
  check_channel-saved c none h =
      let (u, p, q) = >>=-Passed (fail_if (c.node1_id == c.node2_id) channel_with_itself) _ h in
      absurd (check_signatures-not_saved c c.node1_signature c.node2_signature c.ckb_signature q)
