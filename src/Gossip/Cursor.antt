-- ===== src/Gossip/Cursor.antt =====
-- `Cursor` and `BroadcastMessageID` of fiber/src/fiber/types.rs: their bytes and their orders. The
-- bytes and the order of an outpoint and of a public key are those of other crates.
pub mod Laws
use Prim.Native.Nat.{compare, Ordering}
use ai_ckb_backend.Common.{
  ℕ, zero, suc, ◌+◌, ◌-◌, ◌^◌, ◌<◌, ◌≡◌, Bool, true, false, List, [], ◌∷◌, ◌++◌, Option, some, none,
  if◌then◌else◌, ltb, ◌==◌, length, take, drop,
}
use ai_ckb_backend.Common.Bytes.{be_bytes, from_be_bytes, cmp_bytes}
use ai_ckb_backend.Common.Outcome.{Outcome, ok, err, panic, ◌>>=◌, u64_mod}
use ai_ckb_backend.Gossip.Message.{
  Cursor, BroadcastMessageId, channel_announcement, channel_update, node_announcement,
}

-- What the code calls of the crates of outpoints and keys.
pub record Crates : Type 0 where
  pub outpoint_bytes : ℕ → List ℕ
  pub outpoint_from : List ℕ → Option ℕ
  pub outpoint_cmp : ℕ → ℕ → Ordering
  pub outpoint_default : ℕ
  pub pubkey_bytes : ℕ → List ℕ
  pub pubkey_from : List ℕ → Option ℕ
  pub pubkey_cmp : ℕ → ℕ → Ordering

pub data CursorError : Type 0 where
  invalid_message_id_size invalid_cursor_size invalid_message_id_type : ℕ → CursorError
  invalid_outpoint invalid_pubkey : CursorError

abbrev pub Parsed : Type 0 → Type 0
Parsed A = Outcome CursorError A

abbrev pub message_id_size : ℕ
message_id_size = 1 + 36

abbrev pub cursor_size : ℕ
cursor_size = 8 + message_id_size

-- `serialization_len` of a public key.
abbrev pub pubkey_len : ℕ
pubkey_len = 33

abbrev pub zeros : ℕ → List ℕ
zeros zero = []
zeros (suc n) = 0 ∷ zeros n

-- `copy_from_slice` to a slice of `n` bytes: another length panics.
abbrev copied : ℕ → List ℕ → Parsed (List ℕ)
copied n bytes = if length bytes == n then ok bytes else panic

abbrev expect_some : CursorError → Option ℕ → Parsed ℕ
expect_some e (some x) = ok x
expect_some e none = err e

-- `bytes[0]`.
abbrev first_byte : List ℕ → Parsed ℕ
first_byte [] = panic
first_byte (b ∷ rest) = ok b

module _ (crates : Crates) where
  unfoldable pub message_id_to_bytes : BroadcastMessageId → Parsed (List ℕ)
  message_id_to_bytes (channel_announcement o) = do
    bytes ← copied 36 (crates.outpoint_bytes o)
    ok (0 ∷ bytes)
  message_id_to_bytes (channel_update o) = do
    bytes ← copied 36 (crates.outpoint_bytes o)
    ok (1 ∷ bytes)
  message_id_to_bytes (node_announcement n) =
      let bytes = crates.pubkey_bytes n in
      if ltb 36 (length bytes) then panic else ok (2 ∷ bytes ++ zeros (36 - length bytes))

  -- The message of type `t`, from the bytes behind the type.
  unfoldable pub message_id_of_type : ℕ → List ℕ → Parsed BroadcastMessageId
  message_id_of_type t bytes =
      if t == 0
      then (do
        o ← expect_some invalid_outpoint (crates.outpoint_from bytes)
        ok (channel_announcement o))
      else (if t == 1
          then (do
            o ← expect_some invalid_outpoint (crates.outpoint_from bytes)
            ok (channel_update o))
          else (if t == 2
              then (do
                n ← expect_some invalid_pubkey (crates.pubkey_from (take pubkey_len bytes))
                ok (node_announcement n))
              else err (invalid_message_id_type t)))

  unfoldable pub message_id_from_bytes : List ℕ → Parsed BroadcastMessageId
  message_id_from_bytes bytes =
      if length bytes == message_id_size
      then (do t ← first_byte bytes; message_id_of_type t (drop 1 bytes))
      else err (invalid_message_id_size (length bytes))

  unfoldable pub cursor_to_bytes : Cursor → Parsed (List ℕ)
  cursor_to_bytes c = do
    bytes ← message_id_to_bytes c.message_id
    ok (be_bytes 8 c.timestamp ++ bytes)

  unfoldable pub cursor_from_bytes : List ℕ → Parsed Cursor
  cursor_from_bytes bytes =
      if length bytes == cursor_size
      then (do
        id ← message_id_from_bytes (drop 8 bytes)
        ok (record { timestamp = from_be_bytes 0 (take 8 bytes); message_id = id }))
      else err (invalid_cursor_size (length bytes))

  unfoldable pub cmp_cursor : Cursor → Cursor → Parsed Ordering
  cmp_cursor c d = do a ← cursor_to_bytes c; b ← cursor_to_bytes d; ok (cmp_bytes a b)

  unfoldable pub cmp_message_id : BroadcastMessageId → BroadcastMessageId → Ordering
  cmp_message_id (channel_announcement a) (channel_announcement b) = crates.outpoint_cmp a b
  cmp_message_id (channel_update a) (channel_update b) = crates.outpoint_cmp a b
  cmp_message_id (node_announcement a) (node_announcement b) = crates.pubkey_cmp a b
  cmp_message_id (channel_update a) (channel_announcement b) = Ordering.lt
  cmp_message_id (channel_update a) (node_announcement b) = Ordering.lt
  cmp_message_id (node_announcement a) (channel_announcement b) = Ordering.gt
  cmp_message_id (node_announcement a) (channel_update b) = Ordering.gt
  cmp_message_id (channel_announcement a) (node_announcement b) = Ordering.lt
  cmp_message_id (channel_announcement a) (channel_update b) = Ordering.gt

  -- `Cursor::default()`: 45 zero bytes, parsed.
  unfoldable pub cursor_default : Parsed Cursor
  cursor_default = cursor_from_bytes (zeros cursor_size)

  -- `duration` in milliseconds.
  unfoldable pub go_back_for_some_time : ℕ → Cursor → Parsed Cursor
  go_back_for_some_time duration c =
      if ltb duration c.timestamp
      then ok (record c { timestamp = c.timestamp - duration })
      else cursor_default

  unfoldable pub cursor_max : Cursor
  cursor_max = record {
    timestamp = u64_mod - 1;
    message_id = channel_announcement crates.outpoint_default;
  }

  unfoldable pub is_max : Cursor → Bool
  is_max c = c.timestamp == u64_mod - 1
