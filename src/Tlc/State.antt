-- ===== src/Tlc/State.antt =====
-- `TlcState` of fiber/src/fiber/channel.rs: the pending lists of both sides, and what is computed
-- from the two. `removed_at` keeps the numbers and the reason of a removal.
pub mod Active
pub mod Unify
pub mod Remove
pub mod Add
pub mod Commit
use ai_ckb_backend.Common.{
  ℕ, ◌+◌, Bool, true, false, not, ◌&&◌, List, [], ◌∷◌, ◌++◌, Option, some, none, if◌then◌else◌,
  ◌==◌, is_none, is_some, retain,
}
use ai_ckb_backend.Common.BTreeMap.{get, insert, remove, values, collect_into, contains_key}
use ai_ckb_backend.Common.Outcome.{Outcome, ok, panic, ◌>>=◌}
use ai_ckb_backend.Tlc.Commitment.{CommitmentNumbers}
use ai_ckb_backend.Tlc.Id.{TlcId, offered, received, TlcId_ord}
use ai_ckb_backend.Tlc.Id
use ai_ckb_backend.Tlc.Info.{AddTlcInfo, RemoveTlcReason, same_reason, Hash256}
use ai_ckb_backend.Tlc.Kind.{TlcKind, add_tlc, remove_tlc, tlc_id}
use ai_ckb_backend.Tlc.Pending.{
  PendingTlcs, push, get_staging_tlcs, get_committed_tlcs, commit_tlcs, get_mut, drop_remove_tlc,
  shrink_removed_tlc, find_add, increment_next_tlc_id,
}
use ai_ckb_backend.Tlc.Pending

pub data RetryableRemoveTlc : Type 0 where
  remove_tlc_later : TlcId → RemoveTlcReason → RetryableRemoveTlc
  relay_remove_tlc : Hash256 → ℕ → RemoveTlcReason → RetryableRemoveTlc

-- The derived `PartialEq`.
abbrev pub same_retryable : RetryableRemoveTlc → RetryableRemoveTlc → Bool
same_retryable (remove_tlc_later i r) (remove_tlc_later j s) = Id.same i j && same_reason r s
same_retryable (relay_remove_tlc c i r) (relay_remove_tlc d j s) =
    c == d && (i == j && same_reason r s)
same_retryable _ _ = false

pub record TlcState : Type 0 where
  pub local_pending_tlcs : PendingTlcs
  pub remote_pending_tlcs : PendingTlcs
  pub retryable_remove_tlcs : List RetryableRemoveTlc
  pub waiting_ack : Bool

-- The derived `Default`.
unfoldable pub new : TlcState
unfolding Pending.new
new = record {
  local_pending_tlcs = Pending.new;
  remote_pending_tlcs = Pending.new;
  retryable_remove_tlcs = [];
  waiting_ack = false;
}

abbrev pub get_next_offering : TlcState → ℕ
get_next_offering s = s.local_pending_tlcs.next_tlc_id

abbrev pub get_next_received : TlcState → ℕ
get_next_received s = s.remote_pending_tlcs.next_tlc_id

unfoldable pub increment_offering {ℓ} : {E : Type ℓ} → TlcState → Outcome E TlcState
increment_offering s = do
  p ← increment_next_tlc_id s.local_pending_tlcs
  ok (record s { local_pending_tlcs = p })

unfoldable pub increment_received {ℓ} : {E : Type ℓ} → TlcState → Outcome E TlcState
increment_received s = do
  p ← increment_next_tlc_id s.remote_pending_tlcs
  ok (record s { remote_pending_tlcs = p })

unfoldable pub set_waiting_ack : Bool → TlcState → TlcState
set_waiting_ack b s = record s { waiting_ack = b }

unfoldable pub set_tlc_pending_remove : TlcId → RemoveTlcReason → TlcState → TlcState
set_tlc_pending_remove i r s = record s {
  retryable_remove_tlcs = s.retryable_remove_tlcs ++ remove_tlc_later i r ∷ [];
}

unfoldable pub insert_relay_tlc_remove : Hash256 → ℕ → RemoveTlcReason → TlcState → TlcState
insert_relay_tlc_remove c i r s = record s {
  retryable_remove_tlcs = s.retryable_remove_tlcs ++ relay_remove_tlc c i r ∷ [];
}

unfoldable pub remove_pending_remove_tlc : RetryableRemoveTlc → TlcState → TlcState
remove_pending_remove_tlc x s = record s {
  retryable_remove_tlcs = retain (λ r. not (same_retryable r x)) s.retryable_remove_tlcs;
}

-- The list in which `get` looks for the id.
abbrev pub side : TlcId → TlcState → PendingTlcs
side (offered n) s = s.local_pending_tlcs
side (received n) s = s.remote_pending_tlcs

unfoldable pub get_tlc : TlcId → TlcState → Option AddTlcInfo
get_tlc i s = find_add i (side i s).tlcs

-- `get_mut`, with what the caller does to the TLC through the reference.
unfoldable pub get_mut_tlc : TlcId → (AddTlcInfo → AddTlcInfo) → TlcState → TlcState
unfolding get_mut
get_mut_tlc (offered n) f s = record s {
  local_pending_tlcs = get_mut (offered n) f s.local_pending_tlcs;
}
get_mut_tlc (received n) f s = record s {
  remote_pending_tlcs = get_mut (received n) f s.remote_pending_tlcs;
}

unfoldable pub add_local_tlc {ℓ} : {E : Type ℓ} → TlcKind → TlcState → Outcome E TlcState
add_local_tlc t s = do p ← push t s.local_pending_tlcs; ok (record s { local_pending_tlcs = p })

unfoldable pub add_remote_tlc {ℓ} : {E : Type ℓ} → TlcKind → TlcState → Outcome E TlcState
add_remote_tlc t s = do p ← push t s.remote_pending_tlcs; ok (record s { remote_pending_tlcs = p })

-- The three loops of `unify_tlcs`; the first meets `unreachable!` at a removal.
unfoldable pub unify_committed {ℓ} :
    {E : Type ℓ} → List TlcKind → List (TlcId × TlcKind) → Outcome E (List (TlcId × TlcKind))
unify_committed [] m = ok m
unify_committed (add_tlc info ∷ ts) m =
    unify_committed ts (if is_none info.removed_at then insert info.tlc_id (add_tlc info) m else m)
unify_committed (remove_tlc info ∷ ts) m = panic

unfoldable pub unify_staging :
    List TlcKind → List (TlcId × TlcKind) → List TlcKind → List (TlcId × TlcKind) × List TlcKind
unify_staging [] m removals = (m, removals)
unify_staging (add_tlc info ∷ ts) m removals =
    unify_staging ts (if contains_key info.tlc_id m then m else insert info.tlc_id (add_tlc info) m)
      removals
unify_staging (remove_tlc info ∷ ts) m removals =
    unify_staging ts m (removals ++ remove_tlc info ∷ [])

unfoldable pub unify_removals : List TlcKind → List (TlcId × TlcKind) → List (TlcId × TlcKind)
unify_removals [] m = m
unify_removals (t ∷ ts) m = unify_removals ts (remove (tlc_id t) m)

-- The map that `unify_tlcs` builds.
unfoldable pub unify_map {ℓ} :
    {E : Type ℓ} → List TlcKind → List TlcKind → Outcome E (List (TlcId × TlcKind))
unify_map staging committed = do
  adds ← unify_committed committed []
  let result = unify_staging staging adds []
  ok (unify_removals result.1 result.0)

unfoldable pub unify_tlcs {ℓ} :
    {E : Type ℓ} → List TlcKind → List TlcKind → Outcome E (List TlcKind)
unfolding unify_map
unify_tlcs staging committed = do m ← unify_map staging committed; ok (values m)

unfoldable pub get_tlcs_for_local {ℓ} : {E : Type ℓ} → TlcState → Outcome E (List TlcKind)
unfolding unify_tlcs
get_tlcs_for_local s = do
  staging ← get_staging_tlcs s.local_pending_tlcs
  ours ← get_committed_tlcs s.local_pending_tlcs
  theirs ← get_committed_tlcs s.remote_pending_tlcs
  unify_tlcs staging (ours ++ theirs)

unfoldable pub get_tlcs_for_remote {ℓ} : {E : Type ℓ} → TlcState → Outcome E (List TlcKind)
unfolding unify_tlcs
get_tlcs_for_remote s = do
  staging ← get_staging_tlcs s.remote_pending_tlcs
  theirs ← get_committed_tlcs s.remote_pending_tlcs
  ours ← get_committed_tlcs s.local_pending_tlcs
  unify_tlcs staging (theirs ++ ours)

unfoldable pub get_tlcs_with {ℓ} : {E : Type ℓ} → Bool → TlcState → Outcome E (List TlcKind)
unfolding get_tlcs_for_local get_tlcs_for_remote
get_tlcs_with local_commitment s =
    if local_commitment then get_tlcs_for_local s else get_tlcs_for_remote s

unfoldable pub commit_local_tlcs {ℓ} : {E : Type ℓ} → TlcState → Outcome E (List TlcKind × TlcState)
commit_local_tlcs s = do
  theirs ← get_committed_tlcs s.remote_pending_tlcs
  (staging, p) ← commit_tlcs theirs s.local_pending_tlcs
  ok (staging, record s { local_pending_tlcs = p })

unfoldable pub commit_remote_tlcs {ℓ} :
    {E : Type ℓ} → TlcState → Outcome E (List TlcKind × TlcState)
commit_remote_tlcs s = do
  ours ← get_committed_tlcs s.local_pending_tlcs
  (staging, p) ← commit_tlcs ours s.remote_pending_tlcs
  ok (staging, record s { remote_pending_tlcs = p })

-- The closure of `filter_add_tlcs`, over a whole list.
abbrev pub active_entries : List TlcKind → List (TlcId × AddTlcInfo)
active_entries [] = []
active_entries (add_tlc info ∷ ts) =
    if is_some info.removed_at then active_entries ts else (info.tlc_id, info) ∷ active_entries ts
active_entries (remove_tlc info ∷ ts) = active_entries ts

unfoldable pub filter_add_tlcs : List TlcKind → List AddTlcInfo
filter_add_tlcs ts = values (collect_into [] (active_entries ts))

unfoldable pub all_commited_tlcs {ℓ} : {E : Type ℓ} → TlcState → Outcome E (List AddTlcInfo)
unfolding filter_add_tlcs
all_commited_tlcs s = do
  ours ← get_committed_tlcs s.local_pending_tlcs
  theirs ← get_committed_tlcs s.remote_pending_tlcs
  ok (filter_add_tlcs (ours ++ theirs))

unfoldable pub all_tlcs : TlcState → List AddTlcInfo
unfolding filter_add_tlcs
all_tlcs s = filter_add_tlcs (s.local_pending_tlcs.tlcs ++ s.remote_pending_tlcs.tlcs)

abbrev pub set_removed : CommitmentNumbers → RemoveTlcReason → AddTlcInfo → AddTlcInfo
set_removed n r info = record info { removed_at = some (n, r) }

unfoldable pub mark_tlc_remove : TlcId → CommitmentNumbers → RemoveTlcReason → TlcState → TlcState
unfolding drop_remove_tlc get_mut
mark_tlc_remove i n r s = record s {
  local_pending_tlcs = get_mut i (set_removed n r) (drop_remove_tlc i s.local_pending_tlcs);
  remote_pending_tlcs = get_mut i (set_removed n r) (drop_remove_tlc i s.remote_pending_tlcs);
}

unfoldable pub apply_remove_tlc {ℓ} :
    {E : Type ℓ} → TlcId → CommitmentNumbers → RemoveTlcReason → TlcState → Outcome E TlcState
unfolding mark_tlc_remove
apply_remove_tlc i n r s =
    let marked = mark_tlc_remove i n r s in
    if Id.is_offered i
    then (do
      p ← shrink_removed_tlc marked.local_pending_tlcs
      ok (record marked { local_pending_tlcs = p }))
    else (do
      p ← shrink_removed_tlc marked.remote_pending_tlcs
      ok (record marked { remote_pending_tlcs = p }))
