-- ===== src/Tlc/Kind.antt =====
-- `TlcKind` of fiber/src/fiber/channel.rs: an operation on a TLC, as it waits in a pending list.
use ai_ckb_backend.Common.{ℕ, ◌≡◌, Bool, true, false, not, Option, none, some, arith}
use ai_ckb_backend.Tlc.Id.{TlcId, to_u64}
use ai_ckb_backend.Tlc.Id
use ai_ckb_backend.Tlc.Info.{AddTlcInfo, RemoveTlcInfo}

pub data TlcKind : Type 0 where
  add_tlc : AddTlcInfo → TlcKind
  remove_tlc : RemoveTlcInfo → TlcKind

abbrev pub tlc_id : TlcKind → TlcId
tlc_id (add_tlc info) = info.tlc_id
tlc_id (remove_tlc info) = info.tlc_id

unfoldable pub tlc_id_u64 : TlcKind → ℕ
tlc_id_u64 (add_tlc info) = to_u64 info.tlc_id
tlc_id_u64 (remove_tlc info) = to_u64 info.tlc_id

unfoldable pub is_offered : TlcKind → Bool
is_offered t = Id.is_offered (tlc_id t)

unfoldable pub is_received : TlcKind → Bool
unfolding is_offered
is_received t = not (is_offered t)

-- The match of `PendingTlcs::is_tlc_present`: two operations of one kind on one TLC.
abbrev pub same_operation : TlcKind → TlcKind → Bool
same_operation (add_tlc a) (add_tlc b) = Id.same a.tlc_id b.tlc_id
same_operation (remove_tlc a) (remove_tlc b) = Id.same a.tlc_id b.tlc_id
same_operation _ _ = false

pub same_operation_comm : (a b : TlcKind) → same_operation a b ≡ same_operation b a
same_operation_comm a b = ground arith

pub same_operation_refl : (a : TlcKind) → same_operation a a ≡ true
same_operation_refl a = ground arith

pub same_operation_trans :
    (a b c : TlcKind)
    → same_operation a b ≡ true
    → same_operation b c ≡ true
    → same_operation a c ≡ true
same_operation_trans a b c h k = ground arith

-- The closure of `get` and `get_mut`: the addition of the TLC that has this id.
abbrev pub add_with_id : TlcId → TlcKind → Option AddTlcInfo
add_with_id i (add_tlc info) = elim (Id.same info.tlc_id i) [ true ↦ some info | false ↦ none ]
add_with_id i (remove_tlc info) = none
