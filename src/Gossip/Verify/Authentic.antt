-- ===== src/Gossip/Verify/Authentic.antt =====
-- What a gossip message that is saved has been checked for (`verify_and_save_broadcast_message` of
-- fiber/src/fiber/gossip.rs).
use ai_ckb_backend.Common.{
  ℕ, ◌≡◌, refl, sym, ap, ◌∙◌, Bool, true, false, not, Option, some, none, if◌then◌else◌, arith, ◌⊎◌,
  inl, inr,
}
use ai_ckb_backend.Common.Outcome.{ok, err, panic, fail_if, >>=-Passed, ok_same}
use ai_ckb_backend.Gossip.Message.{
  NodeAnnouncement, ChannelAnnouncement, ChannelUpdate, BroadcastMessageWithTimestamp, cursor,
}
use ai_ckb_backend.Gossip.Cursor.{Parsed}
use ai_ckb_backend.Gossip.Store.{
  Database, get_broadcast_message_with_cursor, get_latest_channel_announcement,
}
use ai_ckb_backend.Gossip.Verify.{
  Host, stored, same_update, same_node, update_digest, verify_channel_announcement, side_key,
  check_side, check_unknown_update, check_update, verify_channel_update, check_node_signature,
  check_node, verify_node_announcement, verify_and_save, invalid_signature,
}
use ai_ckb_backend.Gossip.Verify.Same.{same_update_lem, same_node_lem}
use ai_ckb_backend.Gossip.Verify.Signed.{
  IsAuthentic, passes, known_true, known_same, check_channel-IsAuthenticChannel,
  check_channel-saved, StandsIn, save,
}

module _ (host : Host) where
  stored_ok : {A : Type 0} (p : Parsed A) {a : A} → stored p ≡ ok a → p ≡ ok a
  stored_ok (ok a) h = ap ok (ok_same h)
  stored_ok (err e) h = absurd (ground (arith, h))
  stored_ok panic h = absurd (ground (arith, h))

  unknown_update-IsAuthentic :
      (u : ChannelUpdate) (o : Option ℕ) (db : Database)
      → u.signature ≡ o
      → check_unknown_update host u o db ≡ ok false
      → IsAuthentic host (BroadcastMessageWithTimestamp.channel_update u) db
  unknown_update-IsAuthentic u none db e h = absurd (ground (arith, h))
  unknown_update-IsAuthentic u (some s) db e h =
      let (announcement, p, q) =
        >>=-Passed (stored (get_latest_channel_announcement host.crates u.channel_outpoint db)) _
          h in
      on_announcement announcement
        (stored_ok (get_latest_channel_announcement host.crates u.channel_outpoint db) p) q
    where
      on_announcement :
          (a : Option (ℕ × ChannelAnnouncement))
          → get_latest_channel_announcement host.crates u.channel_outpoint db ≡ ok a
          → check_side host u s a ≡ ok false
          → IsAuthentic host (BroadcastMessageWithTimestamp.channel_update u) db
      on_announcement none p q = absurd (ground (arith, q))
      on_announcement (some (t, c)) p q =
          let (v, x, y) =
            >>=-Passed
              (fail_if (not (host.verify s (side_key host u c) (update_digest host u)))
                invalid_signature)
              _ q in
          (
            s,
            t,
            c,
            e,
            p,
            passes host (host.verify s (side_key host u c) (update_digest host u)) invalid_signature
                v x,
          )

  check_update-IsAuthentic :
      (u : ChannelUpdate) (o : Option BroadcastMessageWithTimestamp) (db : Database)
      → check_update host u o db ≡ ok false
      → IsAuthentic host (BroadcastMessageWithTimestamp.channel_update u) db
  check_update-IsAuthentic u none db h = unknown_update-IsAuthentic u u.signature db refl h
  check_update-IsAuthentic u (some (BroadcastMessageWithTimestamp.channel_update existing)) db h =
      absurd (known_true host (same_update existing u) h)
  check_update-IsAuthentic u (some (BroadcastMessageWithTimestamp.channel_announcement t c)) db h =
      unknown_update-IsAuthentic u u.signature db refl h
  check_update-IsAuthentic u (some (BroadcastMessageWithTimestamp.node_announcement n)) db h =
      unknown_update-IsAuthentic u u.signature db refl h

  node_signature-IsAuthentic :
      (n : NodeAnnouncement) (o : Option ℕ) (db : Database)
      → n.signature ≡ o
      → check_node_signature host n o ≡ ok false
      → IsAuthentic host (BroadcastMessageWithTimestamp.node_announcement n) db
  node_signature-IsAuthentic n none db e h = absurd (ground (arith, h))
  node_signature-IsAuthentic n (some s) db e h = (s, e, ground (arith, h))

  check_node-IsAuthentic :
      (n : NodeAnnouncement) (o : Option BroadcastMessageWithTimestamp) (db : Database)
      → check_node host n o ≡ ok false
      → IsAuthentic host (BroadcastMessageWithTimestamp.node_announcement n) db
  check_node-IsAuthentic n none db h = node_signature-IsAuthentic n n.signature db refl h
  check_node-IsAuthentic n (some (BroadcastMessageWithTimestamp.node_announcement existing)) db h =
      absurd (known_true host (same_node existing n) h)
  check_node-IsAuthentic n (some (BroadcastMessageWithTimestamp.channel_update u)) db h =
      node_signature-IsAuthentic n n.signature db refl h
  check_node-IsAuthentic n (some (BroadcastMessageWithTimestamp.channel_announcement t c)) db h =
      node_signature-IsAuthentic n n.signature db refl h

  unknown_update-not_saved :
      (u : ChannelUpdate) (o : Option ℕ) (db : Database)
      → check_unknown_update host u o db ≡ ok true
      → ⊥
  unknown_update-not_saved u none db h = ground (arith, h)
  unknown_update-not_saved u (some s) db h =
      let (announcement, _, q) =
        >>=-Passed (stored (get_latest_channel_announcement host.crates u.channel_outpoint db)) _
          h in
      not_saved announcement q
    where
      not_saved : (a : Option (ℕ × ChannelAnnouncement)) → check_side host u s a ≡ ok true → ⊥
      not_saved none q = ground (arith, q)
      not_saved (some (t, c)) q = ground (arith, q)

  check_update-saved :
      (u : ChannelUpdate) (o : Option BroadcastMessageWithTimestamp) (db : Database)
      → check_update host u o db ≡ ok true
      → o ≡ some (BroadcastMessageWithTimestamp.channel_update u)
  check_update-saved u (some (BroadcastMessageWithTimestamp.channel_update existing)) db h =
      ap (λ x. some (BroadcastMessageWithTimestamp.channel_update x))
        (same_update_lem existing u (known_same host (same_update existing u) h))
  check_update-saved u none db h = absurd (unknown_update-not_saved u u.signature db h)
  check_update-saved u (some (BroadcastMessageWithTimestamp.channel_announcement t c)) db h =
      absurd (unknown_update-not_saved u u.signature db h)
  check_update-saved u (some (BroadcastMessageWithTimestamp.node_announcement n)) db h =
      absurd (unknown_update-not_saved u u.signature db h)

  node_signature-not_saved :
      (n : NodeAnnouncement) (o : Option ℕ) → check_node_signature host n o ≡ ok true → ⊥
  node_signature-not_saved n none h = ground (arith, h)
  node_signature-not_saved n (some s) h = ground (arith, h)

  check_node-saved :
      (n : NodeAnnouncement) (o : Option BroadcastMessageWithTimestamp)
      → check_node host n o ≡ ok true
      → o ≡ some (BroadcastMessageWithTimestamp.node_announcement n)
  check_node-saved n (some (BroadcastMessageWithTimestamp.node_announcement existing)) h =
      ap (λ x. some (BroadcastMessageWithTimestamp.node_announcement x))
        (same_node_lem existing n (known_same host (same_node existing n) h))
  check_node-saved n none h = absurd (node_signature-not_saved n n.signature h)
  check_node-saved n (some (BroadcastMessageWithTimestamp.channel_update u)) h =
      absurd (node_signature-not_saved n n.signature h)
  check_node-saved n (some (BroadcastMessageWithTimestamp.channel_announcement t c)) h =
      absurd (node_signature-not_saved n n.signature h)

  -- It stands in the store, which stays; or it is authentic and is saved.
  abbrev pub IsTakenIn : BroadcastMessageWithTimestamp → Database → Database → Type 0
  IsTakenIn m db db' =
      ((db' ≡ db) × StandsIn host m db) ⊎ (IsAuthentic host m db × (save host m db ≡ ok db'))

  -- The test whether the message is saved already.
  saved_or :
      (saved : Bool) (m : BroadcastMessageWithTimestamp) (db db' : Database)
      → (saved ≡ true → StandsIn host m db)
      → (saved ≡ false → IsAuthentic host m db)
      → (if saved then ok db else stored (save host m db)) ≡ ok db'
      → IsTakenIn m db db'
  saved_or true m db db' s a h = inl (sym (ok_same h), s refl)
  saved_or false m db db' s a h = inr (a refl, stored_ok (save host m db) h)

  -- A message that is taken in either stands in the store already, the same in every field, and
  -- leaves the store as it is; or it is saved and is authentic: an announcement of a channel between
  -- two nodes is signed by both and by the channel's key, which the first output of the committed
  -- transaction locks, with the capacity of a channel of CKB in it; an update of a channel that the
  -- store has announced is signed by the node of its side; and an announcement of a node is signed by
  -- it.
  pub verify_and_save-IsTakenIn :
      (m : BroadcastMessageWithTimestamp) (db db' : Database)
      → verify_and_save host m db ≡ ok db'
      → IsTakenIn m db db'
  unfolding verify_and_save verify_channel_announcement verify_channel_update
      verify_node_announcement cursor
  verify_and_save-IsTakenIn (BroadcastMessageWithTimestamp.channel_announcement t c) db db' h =
      let (saved, v, w) = >>=-Passed (verify_channel_announcement host c db) _ h in
      let read = get_latest_channel_announcement host.crates c.channel_outpoint db in
      let (o, found, x) = >>=-Passed (stored read) _ v in
      saved_or saved (BroadcastMessageWithTimestamp.channel_announcement t c) db db'
        (λ f.
          let (saved_at, e) = check_channel-saved host c o (x ∙ ap ok f) in
          (saved_at, stored_ok read found ∙ ap ok e))
        (λ f. check_channel-IsAuthenticChannel host c o (x ∙ ap ok f)) w
  verify_and_save-IsTakenIn (BroadcastMessageWithTimestamp.channel_update u) db db' h =
      let m = BroadcastMessageWithTimestamp.channel_update u in
      let (saved, v, w) = >>=-Passed (verify_channel_update host u db) _ h in
      let read = get_broadcast_message_with_cursor host.crates (cursor m) db in
      let (o, found, x) = >>=-Passed (stored read) _ v in
      saved_or saved m db db'
        (λ f. stored_ok read found ∙ ap ok (check_update-saved u o db (x ∙ ap ok f)))
        (λ f. check_update-IsAuthentic u o db (x ∙ ap ok f)) w
  verify_and_save-IsTakenIn (BroadcastMessageWithTimestamp.node_announcement n) db db' h =
      let m = BroadcastMessageWithTimestamp.node_announcement n in
      let (saved, v, w) = >>=-Passed (verify_node_announcement host n db) _ h in
      let read = get_broadcast_message_with_cursor host.crates (cursor m) db in
      let (o, found, x) = >>=-Passed (stored read) _ v in
      saved_or saved m db db'
        (λ f. stored_ok read found ∙ ap ok (check_node-saved n o (x ∙ ap ok f)))
        (λ f. check_node-IsAuthentic n o db (x ∙ ap ok f)) w
