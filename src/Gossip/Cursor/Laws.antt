-- ===== src/Gossip/Cursor/Laws.antt =====
-- The bytes of a cursor (fiber/src/fiber/types.rs) read back, and the order of the cursors by time.
use Prim.Native.Nat.{Ordering}
use ai_ckb_backend.Common.{
  ℕ, zero, suc, ◌+◌, ◌<◌, ◌≡◌, refl, sym, ap, ◌∙◌, List, ◌∷◌, ◌++◌, some, length, take, drop, arith,
  length-append, take-append_le, take-length, drop-append_le, drop-length,
}
use ai_ckb_backend.Common.Bytes.{be_bytes, from_be_bytes}
use ai_ckb_backend.Common.Bytes.Integers.{
  length-be_bytes, from_be_bytes-be_bytes, cmp_bytes-be_bytes,
}
use ai_ckb_backend.Common.Outcome.{ok, u64_mod}
use ai_ckb_backend.Gossip.Message.{
  Cursor, BroadcastMessageId, channel_announcement, channel_update, node_announcement,
}
use ai_ckb_backend.Gossip.Cursor.{
  Crates, message_id_to_bytes, message_id_of_type, message_id_from_bytes, cursor_to_bytes,
  cursor_from_bytes, cmp_cursor, zeros,
}

pub take-prefix : (n : ℕ) (xs ys : List ℕ) → length xs ≡ n → take n (xs ++ ys) ≡ xs
take-prefix n xs ys h =
    take-append_le n xs ys (omega arith) ∙ ap (λ k. take k xs) (sym h) ∙ take-length xs

pub drop-prefix : (n : ℕ) (xs ys : List ℕ) → length xs ≡ n → drop n (xs ++ ys) ≡ ys
drop-prefix n xs ys h =
    drop-append_le n xs ys (omega arith)
    ∙ ap (λ k. drop k xs ++ ys) (sym h)
    ∙ ap (λ zs. zs ++ ys) (drop-length xs)

length-zeros : (n : ℕ) → length (zeros n) ≡ n
length-zeros zero = refl
length-zeros (suc n) = ap suc (length-zeros n)

module _ (crates : Crates) where
  -- The crates' encoding of this identifier: its length, and that it reads back.
  abbrev pub IsEncodable : BroadcastMessageId → Type 0
  IsEncodable (channel_announcement o) =
      (length (crates.outpoint_bytes o) ≡ 36)
      × (crates.outpoint_from (crates.outpoint_bytes o) ≡ some o)
  IsEncodable (channel_update o) =
      (length (crates.outpoint_bytes o) ≡ 36)
      × (crates.outpoint_from (crates.outpoint_bytes o) ≡ some o)
  IsEncodable (node_announcement n) =
      (length (crates.pubkey_bytes n) ≡ 33) × (crates.pubkey_from (crates.pubkey_bytes n) ≡ some n)

  pub message_id_to_bytes_total :
      (m : BroadcastMessageId)
      → IsEncodable m
      → (bytes : List ℕ) × (message_id_to_bytes crates m ≡ ok bytes)
        × (length bytes ≡ 37)
        × (message_id_from_bytes crates bytes ≡ ok m)
  unfolding message_id_to_bytes message_id_from_bytes message_id_of_type
  message_id_to_bytes_total (channel_announcement o) (l, r) =
      (0 ∷ crates.outpoint_bytes o, rw l refl, rw l refl, rw (l, r) refl)
  message_id_to_bytes_total (channel_update o) (l, r) =
      (1 ∷ crates.outpoint_bytes o, rw l refl, rw l refl, rw (l, r) refl)
  message_id_to_bytes_total (node_announcement n) (l, r) =
      let pad : length (crates.pubkey_bytes n ++ zeros 3) ≡ 36 =
        length-append (crates.pubkey_bytes n) (zeros 3) ∙ ap (λ k. k + 3) l in
      (
        2 ∷ crates.pubkey_bytes n ++ zeros 3,
        rw l refl,
        ap suc pad,
        rw (pad, take-prefix 33 (crates.pubkey_bytes n) (zeros 3) l, r) refl,
      )

  cursor_from_parts :
      (time id : List ℕ) (m : BroadcastMessageId)
      → length time ≡ 8
      → length id ≡ 37
      → message_id_from_bytes crates id ≡ ok m
      → (length (time ++ id) ≡ 45)
        × (cursor_from_bytes crates (time ++ id)
            ≡ ok (record { timestamp = from_be_bytes 0 time; message_id = m }))
  unfolding cursor_from_bytes
  cursor_from_parts time id m t l r =
      let size : length (time ++ id) ≡ 45 = omega (arith, length-append time id) in
      (size, rw (size, take-prefix 8 time id t, drop-prefix 8 time id t, r) refl)

  -- For a time below 2^64 and an identifier that the crates encode: a cursor has 45 bytes, and they
  -- read back as the same cursor.
  pub cursor_from_bytes-cursor_to_bytes :
      (c : Cursor)
      → c.timestamp < u64_mod
      → IsEncodable c.message_id
      → (bytes : List ℕ) × (cursor_to_bytes crates c ≡ ok bytes)
        × (length bytes ≡ 45)
        × (cursor_from_bytes crates bytes ≡ ok c)
  unfolding cursor_to_bytes
  cursor_from_bytes-cursor_to_bytes c t e =
      let (id, w, l, r) = message_id_to_bytes_total c.message_id e in
      let (size, read) =
        cursor_from_parts (be_bytes 8 c.timestamp) id c.message_id (length-be_bytes 8 c.timestamp) l
          r in
      let back : from_be_bytes 0 (be_bytes 8 c.timestamp) ≡ c.timestamp =
        from_be_bytes-be_bytes 8 c.timestamp 0 ∙ omega arith in
      (
        be_bytes 8 c.timestamp ++ id,
        rw w refl,
        size,
        read ∙ ap (λ n. ok (record c { timestamp = n })) back,
      )

  -- For times below 2^64 and identifiers that the crates encode: the earlier cursor is below the later
  -- one, whatever the messages are.
  pub cmp_cursor_earlier :
      (c d : Cursor)
      → c.timestamp < d.timestamp
      → d.timestamp < u64_mod
      → IsEncodable c.message_id
      → IsEncodable d.message_id
      → cmp_cursor crates c d ≡ ok Ordering.lt
  unfolding cmp_cursor cursor_to_bytes
  cmp_cursor_earlier c d l t e f =
      let (a, v, _, _) = message_id_to_bytes_total c.message_id e in
      let (b, w, _, _) = message_id_to_bytes_total d.message_id f in
      rw (v, w) (ap ok (cmp_bytes-be_bytes 8 c.timestamp d.timestamp a b (omega arith)))
