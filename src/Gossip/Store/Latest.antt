-- ===== src/Gossip/Store/Latest.antt =====
-- A channel update that is saved is the latest of its side (fiber/src/store/store.rs), and what an
-- update of the other side with the same timestamp does to it.
use native.Mathlib.Omega.{arith}
use mathlib.Core.Path.{subst}
use ai_ckb_backend.Common.{
  ℕ, zero, suc, ◌+◌, ◌<◌, ◌≤◌, ◌≡◌, refl, ap, ◌∙◌, Bool, true, false, List, [], ◌∷◌, ◌++◌, Option,
  some, none, leb, length, take, drop, length-append, ◌==◌, ==_iff, Bool-cases, inl, inr,
}
use ai_ckb_backend.Common.BTreeMap.{get, insert, remove, get-insert, get-remove, IsSorted, key_eq}
use ai_ckb_backend.Common.Bytes.{Bytes_ord, be_bytes, from_be_bytes, cmp_bytes-same}
use ai_ckb_backend.Common.Bytes.Integers.{length-be_bytes, from_be_bytes-be_bytes}
use ai_ckb_backend.Common.Outcome.{ok, >>=-Passed, ok_same, u64_mod}
use ai_ckb_backend.Gossip.Message.{
  ChannelUpdate, BroadcastMessage, BroadcastMessageId, Cursor, is_update_of_node_1, with_timestamp,
}
use ai_ckb_backend.Gossip.Cursor.{Crates, message_id_to_bytes, cursor_to_bytes}
use ai_ckb_backend.Gossip.Cursor.Laws.{
  take-prefix, drop-prefix, IsEncodable, cursor_from_bytes-cursor_to_bytes,
  message_id_to_bytes_total,
}
use ai_ckb_backend.Gossip.Store.{
  Database, Value, message, timestamps, stamps_of, with_stamp, or_zeros, update_offset,
  get_broadcast_message_with_cursor, get_latest_channel_update_timestamp, get_latest_channel_update,
  update_channel_timestamp, write_update, replace_update, other, save_channel_update,
}

same_bytes : (k : List ℕ) → key_eq k k ≡ true
same_bytes k = rw (cmp_bytes-same k) refl

length-take : (n : ℕ) (xs : List ℕ) → n ≤ length xs → length (take n xs) ≡ n
length-take zero xs h = refl
length-take (suc n) [] h = absurd (omega arith)
length-take (suc n) (x ∷ xs) h = ap suc (length-take n xs (omega arith))

length-drop : (n : ℕ) (xs : List ℕ) → n ≤ length xs → length (drop n xs) + n ≡ length xs
length-drop zero xs h = omega arith
length-drop (suc n) [] h = absurd (omega arith)
length-drop (suc n) (x ∷ xs) h = omega (arith, length-drop n xs (omega arith))

-- The stamp that has been written is read.
stamp_at-with_stamp :
    (offset t : ℕ) (v : List ℕ)
    → t < u64_mod
    → offset + 8 ≤ length v
    → (length (with_stamp offset t v) ≡ length v)
      × (from_be_bytes 0 (take 8 (drop offset (with_stamp offset t v))) ≡ t)
stamp_at-with_stamp offset t v h l =
    let before : List ℕ = take offset v in
    let after : List ℕ = drop (offset + 8) v in
    let front : length before ≡ offset = length-take offset v (omega arith) in
    (
      omega (
        arith,
        length-append before (be_bytes 8 t ++ after),
        length-append (be_bytes 8 t) after,
        length-be_bytes 8 t,
        front,
        length-drop (offset + 8) v l,
      ),
      ap (λ bytes. from_be_bytes 0 (take 8 bytes))
            (drop-prefix offset before (be_bytes 8 t ++ after) front)
          ∙ ap (λ bytes. from_be_bytes 0 bytes)
              (take-prefix 8 (be_bytes 8 t) after (length-be_bytes 8 t))
          ∙ from_be_bytes-be_bytes 8 t 0
          ∙ omega arith,
    )

stamps-length :
    (o : Option Value) (old : Option (List ℕ))
    → stamps_of 24 o ≡ ok old
    → length (or_zeros old) ≡ 24
stamps-length none old h =
    subst (λ (x : Option (List ℕ)). length (or_zeros x) ≡ 24) (ok_same h) refl
stamps-length (some (timestamps v)) old h = elim (Bool-cases (length v == 24)) [
  | inl l ↦
      subst (λ (x : Option (List ℕ)). length (or_zeros x) ≡ 24) (ok_same (rw l at h))
        ((==_iff (length v) 24).0 l)
  | inr l ↦ absurd (ground (arith, rw l at h))
]
stamps-length (some (message m)) old h = absurd (ground (arith, h))
stamps-length (some other) old h = absurd (ground (arith, h))

module _ (crates : Crates) where
  abbrev cursor_of : ChannelUpdate → Cursor
  cursor_of u = record {
    timestamp = u.timestamp;
    message_id = BroadcastMessageId.channel_update u.channel_outpoint;
  }

  -- After the writes, the update is found: both keys hold what was put there.
  write_update-latest :
      (u : ChannelUpdate) (db : Database) (v : List ℕ) (id bytes : List ℕ)
      → u.timestamp < u64_mod
      → message_id_to_bytes crates (BroadcastMessageId.channel_update u.channel_outpoint) ≡ ok id
      → cursor_to_bytes crates (cursor_of u) ≡ ok bytes
      → length v ≡ 24
      → (old : Option (List ℕ)) → stamps_of 24 (get (97 ∷ id) db) ≡ ok old
      → or_zeros old ≡ v
      → (db' : Database) × (write_update crates u db ≡ ok db')
        × (get (96 ∷ bytes) db' ≡ some (message (BroadcastMessage.channel_update u)))
        × (get (97 ∷ id) db'
            ≡ some (timestamps (with_stamp (update_offset (is_update_of_node_1 u)) u.timestamp v)))
  unfolding update_channel_timestamp
  write_update-latest u db v id bytes t i c l old s z =
      let stamped : Database =
        insert (97 ∷ id)
          (timestamps (with_stamp (update_offset (is_update_of_node_1 u)) u.timestamp v)) db in
      (
        insert (96 ∷ bytes) (message (BroadcastMessage.channel_update u)) stamped,
        rw (i, s, z, c) refl,
        get-insert (96 ∷ bytes) (96 ∷ bytes) _ stamped ∙ rw (same_bytes (96 ∷ bytes)) refl,
        get-insert (97 ∷ id) (96 ∷ bytes) _ stamped
            ∙ get-insert (97 ∷ id) (97 ∷ id) _ db
            ∙ rw (same_bytes (97 ∷ id)) refl,
      )

  -- What reading the update of a side finds.
  reads :
      (o : ℕ) (side : Bool) (t : ℕ) (db : Database) (id bytes v : List ℕ) (u : ChannelUpdate)
      → message_id_to_bytes crates (BroadcastMessageId.channel_update o) ≡ ok id
      → cursor_to_bytes crates
          (record { timestamp = t; message_id = BroadcastMessageId.channel_update o })
        ≡ ok bytes
      → get (97 ∷ id) db ≡ some (timestamps v)
      → length v ≡ 24
      → from_be_bytes 0 (take 8 (drop (update_offset side) v)) ≡ t
      → get (96 ∷ bytes) db ≡ some (message (BroadcastMessage.channel_update u))
      → get_latest_channel_update crates o side db ≡ ok (some u)
  unfolding get_latest_channel_update get_latest_channel_update_timestamp
      get_broadcast_message_with_cursor with_timestamp
  reads o side t db id bytes v u i c g l s m = rw (i, g, l, s, c, m) refl

  offset_fits : (side : Bool) → update_offset side + 8 ≤ 24
  offset_fits true = omega arith
  offset_fits false = omega arith

  write_update-found :
      (u : ChannelUpdate) (db : Database) (id : List ℕ) (old : Option (List ℕ))
      → u.timestamp < u64_mod
      → IsEncodable crates (BroadcastMessageId.channel_update u.channel_outpoint)
      → message_id_to_bytes crates (BroadcastMessageId.channel_update u.channel_outpoint) ≡ ok id
      → stamps_of 24 (get (97 ∷ id) db) ≡ ok old
      → (db' : Database) × (write_update crates u db ≡ ok db')
        × (get_latest_channel_update crates u.channel_outpoint (is_update_of_node_1 u) db'
            ≡ ok (some u))
  write_update-found u db id old t e i s =
      let (bytes, c, _, _) = cursor_from_bytes-cursor_to_bytes crates (cursor_of u) t e in
      let side : Bool = is_update_of_node_1 u in
      let l : length (or_zeros old) ≡ 24 = stamps-length (get (97 ∷ id) db) old s in
      let (k, r) =
        stamp_at-with_stamp (update_offset side) u.timestamp (or_zeros old) t
          (omega (arith, offset_fits side, l)) in
      let (db', w, m, g) = write_update-latest u db (or_zeros old) id bytes t i c l old s refl in
      (db', w, reads u.channel_outpoint side u.timestamp db' id bytes _ u i c g (k ∙ l) r m)

  -- The recorded time is an earlier one.
  abbrev pub IsBefore : Option ℕ → ℕ → Type 0
  IsBefore none t = Unit
  IsBefore (some old) t = old < t

  old_bytes :
      (c : Cursor) (id : List ℕ)
      → message_id_to_bytes crates c.message_id ≡ ok id
      → cursor_to_bytes crates c ≡ ok (be_bytes 8 c.timestamp ++ id)
  unfolding cursor_to_bytes
  old_bytes c id i = rw i refl

  replace_update-found :
      (recorded : Option ℕ) (u : ChannelUpdate) (db : Database) (id : List ℕ)
      (old : Option (List ℕ))
      → IsSorted db
      → u.timestamp < u64_mod
      → IsEncodable crates (BroadcastMessageId.channel_update u.channel_outpoint)
      → message_id_to_bytes crates (BroadcastMessageId.channel_update u.channel_outpoint) ≡ ok id
      → stamps_of 24 (get (97 ∷ id) db) ≡ ok old
      → IsBefore recorded u.timestamp
      → (db' : Database) × (replace_update crates recorded u db ≡ ok db')
        × (get_latest_channel_update crates u.channel_outpoint (is_update_of_node_1 u) db'
            ≡ ok (some u))
  replace_update-found none u db id old sorted t e i s b = write_update-found u db id old t e i s
  replace_update-found (some o) u db id old sorted t e i s b =
      let key : List ℕ = 96 ∷ be_bytes 8 o ++ id in
      let late : leb u.timestamp o ≡ false = ground (arith, b) in
      let (db', w, g) =
        write_update-found u (remove key db) id old t e i
          (ap (stamps_of 24) (get-remove (97 ∷ id) key db sorted) ∙ s) in
      (
        db',
        rw
            (
              late,
              old_bytes
                  (record {
                    timestamp = o;
                    message_id = BroadcastMessageId.channel_update u.channel_outpoint;
                  })
                  id i,
            )
            w,
        g,
      )

  -- A channel update later than the one that is recorded for its side is saved, and is then the latest
  -- update of that side; for a time below 2^64, an outpoint that the crates encode and a database in
  -- order whose record of the channel can be read.
  pub save_channel_update-latest :
      (u : ChannelUpdate) (db : Database) (recorded : Option ℕ)
      → IsSorted db
      → u.timestamp < u64_mod
      → IsEncodable crates (BroadcastMessageId.channel_update u.channel_outpoint)
      → get_latest_channel_update_timestamp crates u.channel_outpoint (is_update_of_node_1 u) db
        ≡ ok recorded
      → IsBefore recorded u.timestamp
      → (db' : Database) × (save_channel_update crates u db ≡ ok db')
        × (get_latest_channel_update crates u.channel_outpoint (is_update_of_node_1 u) db'
            ≡ ok (some u))
  unfolding save_channel_update get_latest_channel_update_timestamp
  save_channel_update-latest u db recorded sorted t e r b =
      let (id, i, _, _) =
        message_id_to_bytes_total crates (BroadcastMessageId.channel_update u.channel_outpoint) e in
      let (old, s, q) = >>=-Passed (stamps_of 24 (get (97 ∷ id) db)) _ (rw i at r) in
      let (db', w, g) = replace_update-found recorded u db id old sorted t e i s b in
      (db', rw (i, s, ok_same q) w, g)
