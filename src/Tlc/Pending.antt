-- ===== src/Tlc/Pending.antt =====
-- `PendingTlcs` of fiber/src/fiber/channel.rs: the operations on TLCs of one side, the committed ones
-- first. A slice that is out of range and a failed `assert!` are `panic`.
pub mod Distinct
pub mod Valid
pub mod Commit
use ai_ckb_backend.Common.{
  ℕ, ◌+◌, Bool, true, false, not, List, [], ◌∷◌, ◌++◌, Option, some, none, if◌then◌else◌, ◌==◌, leb,
  is_none, length, take, drop, any, retain, find_map,
}
use ai_ckb_backend.Common.Outcome.{Outcome, ok, panic, add_u64, assert, ◌>>=◌, ◌>>◌}
use ai_ckb_backend.Tlc.Id.{TlcId}
use ai_ckb_backend.Tlc.Id
use ai_ckb_backend.Tlc.Info.{AddTlcInfo}
use ai_ckb_backend.Tlc.Kind.{TlcKind, add_tlc, remove_tlc, same_operation, add_with_id}

pub record PendingTlcs : Type 0 where
  pub tlcs : List TlcKind
  pub committed_index : ℕ
  pub next_tlc_id : ℕ  -- u64

unfoldable pub new : PendingTlcs
new = record { tlcs = []; committed_index = 0; next_tlc_id = 0 }

unfoldable pub increment_next_tlc_id {ℓ} : {E : Type ℓ} → PendingTlcs → Outcome E PendingTlcs
increment_next_tlc_id p = do next ← add_u64 p.next_tlc_id 1; ok (record p { next_tlc_id = next })

unfoldable pub add_tlc_operation : TlcKind → PendingTlcs → PendingTlcs
add_tlc_operation t p = record p { tlcs = p.tlcs ++ t ∷ [] }

-- `&self.tlcs[self.committed_index..]`
abbrev pub get_staging_tlcs {ℓ} : {E : Type ℓ} → PendingTlcs → Outcome E (List TlcKind)
get_staging_tlcs p =
    if leb p.committed_index (length p.tlcs) then ok (drop p.committed_index p.tlcs) else panic

-- `&self.tlcs[..self.committed_index]`
abbrev pub get_committed_tlcs {ℓ} : {E : Type ℓ} → PendingTlcs → Outcome E (List TlcKind)
get_committed_tlcs p =
    if leb p.committed_index (length p.tlcs) then ok (take p.committed_index p.tlcs) else panic

abbrev pub present : TlcKind → List TlcKind → Bool
present t ts = any (λ s. same_operation s t) ts

abbrev pub is_tlc_present : TlcKind → PendingTlcs → Bool
is_tlc_present t p = present t p.tlcs

unfoldable pub push {ℓ} : {E : Type ℓ} → TlcKind → PendingTlcs → Outcome E PendingTlcs
push t p = do assert (not (is_tlc_present t p)); ok (record p { tlcs = p.tlcs ++ t ∷ [] })

-- The loop of `commit_tlcs`.
unfoldable pub push_absent : List TlcKind → List TlcKind → List TlcKind
push_absent [] ts = ts
push_absent (c ∷ cs) ts = push_absent cs (if present c ts then ts else ts ++ c ∷ [])

-- The operations that were staging, and the new state, in which all are committed.
unfoldable pub commit_tlcs {ℓ} :
    {E : Type ℓ} → List TlcKind → PendingTlcs → Outcome E (List TlcKind × PendingTlcs)
commit_tlcs committed p = do
  staging ← get_staging_tlcs p
  let tlcs = push_absent committed p.tlcs
  ok (staging, record p { tlcs = tlcs; committed_index = length tlcs })

-- `get_mut`, with what the caller does to the TLC through the reference.
abbrev pub update_first : TlcId → (AddTlcInfo → AddTlcInfo) → List TlcKind → List TlcKind
update_first i f [] = []
update_first i f (add_tlc info ∷ ts) = elim (Id.same info.tlc_id i) [
  | true ↦ add_tlc (f info) ∷ ts
  | false ↦ add_tlc info ∷ update_first i f ts
]
update_first i f (remove_tlc info ∷ ts) = remove_tlc info ∷ update_first i f ts

unfoldable pub get_mut : TlcId → (AddTlcInfo → AddTlcInfo) → PendingTlcs → PendingTlcs
get_mut i f p = record p { tlcs = update_first i f p.tlcs }

-- The closure of `drop_remove_tlc`.
abbrev pub is_not_removal_of : TlcId → TlcKind → Bool
is_not_removal_of i (add_tlc info) = true
is_not_removal_of i (remove_tlc info) = not (Id.same info.tlc_id i)

unfoldable pub drop_remove_tlc : TlcId → PendingTlcs → PendingTlcs
drop_remove_tlc i p =
    let tlcs = retain (is_not_removal_of i) p.tlcs in
    record p { tlcs = tlcs; committed_index = length tlcs }

-- The closure of `shrink_removed_tlc`.
abbrev pub is_not_removed : TlcKind → Bool
is_not_removed (add_tlc info) = is_none info.removed_at
is_not_removed (remove_tlc info) = true

unfoldable pub shrink_removed_tlc {ℓ} : {E : Type ℓ} → PendingTlcs → Outcome E PendingTlcs
shrink_removed_tlc p = do
  assert (p.committed_index == length p.tlcs)
  committed ← get_committed_tlcs p
  let new_committed_index = length (retain is_not_removed committed)
  ok (record p { tlcs = retain is_not_removed p.tlcs; committed_index = new_committed_index })

-- `find_map` by `add_with_id`: what `TlcState::get` looks for in a list.
abbrev pub find_add : TlcId → List TlcKind → Option AddTlcInfo
find_add i ts = find_map (add_with_id i) ts
