-- ===== src/Gossip/Store/Ends.antt =====
-- `get_latest_broadcast_message_cursor` of fiber/src/store/store.rs, which walks back from the last key
-- of the whole database.
use Prim.Native.Nat.{Ordering}
use mathlib.Core.Path.{subst}
use ai_ckb_backend.Common.{
  ℕ, ◌≡◌, refl, sym, ap, false, List, [], ◌∷◌, some, none, arith, Bool-cases, inl, inr,
}
use ai_ckb_backend.Common.BTreeMap.{get, IsSorted, Above, Ordering-cases}
use ai_ckb_backend.Common.Bytes.{Bytes_ord, cmp_bytes, cmp_bytes_eq}
use ai_ckb_backend.Common.Outcome.{ok}
use ai_ckb_backend.Gossip.Cursor.{Crates}
use ai_ckb_backend.Gossip.Store.{
  Database, Value, last_of_prefix, starts_with, get_latest_broadcast_message_cursor,
}

above_starts : (rest k : List ℕ) → cmp_bytes (97 ∷ rest) k ≡ Ordering.lt → starts_with 96 k ≡ false
above_starts rest [] h = refl
above_starts rest (b ∷ k) h = ground (arith, h)

Above-none :
    (rest : List ℕ) (db : Database) → Above (97 ∷ rest) db → (last_of_prefix 96 db).0 ≡ none
Above-none rest [] a = refl
Above-none rest ((k, v) ∷ db) (l, a) = elim (Bool-cases (last_of_prefix 96 db).1) [
  | inl g ↦ rw (g, above_starts rest k l) (Above-none rest db a)
  | inr g ↦ rw g (Above-none rest db a)
]

stops :
    (rest : List ℕ) (v : Value) (db : Database)
    → IsSorted db
    → get (97 ∷ rest) db ≡ some v
    → last_of_prefix 96 db ≡ (none, false)
stops rest v [] s h = absurd (ground (arith, h))
stops rest v ((k, w) ∷ db) (a, s) h = elim (Ordering-cases (cmp_bytes (97 ∷ rest) k)) [
  | inl c ↦ rw (stops rest v db s (rw (c, get) at h)) refl
  | inr (inl c) ↦
      let same : 97 ∷ rest ≡ k = cmp_bytes_eq (97 ∷ rest) k c in
      let off : starts_with 96 k ≡ false = ap (starts_with 96) (sym same) in
      let empty : (last_of_prefix 96 db).0 ≡ none =
        Above-none rest db (subst (λ x. Above x db) (sym same) a) in
      elim (Bool-cases (last_of_prefix 96 db).1) [
        | inl g ↦ rw (g, off, empty) refl
        | inr g ↦ rw (g, empty) refl
      ]
  | inr (inr c) ↦ rw (stops rest v db s (rw (c, get) at h)) refl
]

-- Once the database has a timestamp of a gossip message, which every save writes, the latest cursor of
-- the gossip messages is reported as missing, whatever messages are stored.
pub get_latest_broadcast_message_cursor-none :
    (crates : Crates) (rest : List ℕ) (v : Value) (db : Database)
    → IsSorted db
    → get (97 ∷ rest) db ≡ some v
    → get_latest_broadcast_message_cursor crates db ≡ ok none
unfolding get_latest_broadcast_message_cursor
get_latest_broadcast_message_cursor-none crates rest v db s h = rw (stops rest v db s h) refl
