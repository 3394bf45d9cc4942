-- ===== src/Tests/Tlcs.antt =====
-- Runs of the TLC state (fiber/src/fiber/channel.rs) on small lists.
use ai_ckb_backend.Common.{
  ℕ, ◌≡◌, refl, true, false, ◌||◌, List, [], ◌∷◌, ◌++◌, none, arith, length, drop, if◌then◌else◌,
  any,
}
use ai_ckb_backend.Common.BTreeMap.{get, values, IsSorted}
use ai_ckb_backend.Common.Outcome.{ok, panic, ◌>>=◌}
use ai_ckb_backend.Tlc.Id.{TlcId, TlcId_ord, offered, received, same}
use ai_ckb_backend.Tlc.Info.{AddTlcInfo, RemoveTlcInfo, remove_tlc_fulfill, ckb_hash}
use ai_ckb_backend.Tlc.Kind.{TlcKind, add_tlc, remove_tlc, same_operation}
use ai_ckb_backend.Tlc.Pending.{
  PendingTlcs, is_tlc_present, get_staging_tlcs, get_committed_tlcs, push, commit_tlcs,
}
use ai_ckb_backend.Tlc.Pending.Valid.{push-fresh}
use ai_ckb_backend.Tlc.Pending.Valid
use ai_ckb_backend.Tlc.Pending.Commit.{commit_tlcs_total}
use ai_ckb_backend.Tlc.State.{
  TlcState, commit_local_tlcs, commit_remote_tlcs, unify_tlcs, unify_committed, unify_staging,
  unify_removals, add_local_tlc, add_remote_tlc, apply_remove_tlc,
}
use ai_ckb_backend.Tlc.State.Active.{or_else, active_as}
use ai_ckb_backend.Tlc.State.Unify.{unified, unify_tlcs_lem, is_removal}
use ai_ckb_backend.Tlc.State.Remove.{active, apply_remove_tlc_total}
use ai_ckb_backend.Tlc.State.Remove
use ai_ckb_backend.Tlc.State.Commit.{commit_tlcs_of_both_lem}
use ai_ckb_backend.Tlc.State.Add.{add_local_tlc_lem, add_remote_tlc_lem}

abbrev tlc : TlcId → ℕ → ℕ → AddTlcInfo
tlc i amount payment_hash = record {
  channel_id = 7;
  tlc_id = i;
  amount = amount;
  payment_hash = payment_hash;
  expiry = 1000;
  hash_algorithm = ckb_hash;
  onion_packet = none;
  shared_secret = 0;
  created_at = record { local = 1; remote = 1 };
  removed_at = none;
  payment_preimage = none;
  previous_tlc = none;
}

abbrev ours : TlcKind
ours = add_tlc (tlc (offered 0) 100 1)

abbrev theirs : TlcKind
theirs = add_tlc (tlc (received 0) 40 2)

abbrev removal : RemoveTlcInfo
removal = record { channel_id = 7; tlc_id = offered 0; reason = remove_tlc_fulfill 5 }

abbrev one_tlc : PendingTlcs
one_tlc = record { tlcs = ours ∷ []; committed_index = 1; next_tlc_id = 1 }

one_tlc-IsValid : Valid.IsValid one_tlc
one_tlc-IsValid = record { index_le = omega arith; distinct = (refl, tt) }

push-fresh_example :
    (is_tlc_present theirs one_tlc ≡ true → push {E = ℕ} theirs one_tlc ≡ panic)
    × (is_tlc_present theirs one_tlc ≡ false
        → (q : PendingTlcs) × (push {E = ℕ} theirs one_tlc ≡ ok q)
          × Valid.IsValid q
          × (get_committed_tlcs {E = ℕ} q ≡ get_committed_tlcs one_tlc)
          × (get_staging_tlcs {E = ℕ} q
              ≡ (get_staging_tlcs one_tlc >>= λ s. ok (s ++ theirs ∷ []))))
push-fresh_example = push-fresh {E = ℕ} theirs one_tlc one_tlc-IsValid

commit_tlcs_total_example :
    (q : PendingTlcs) × (commit_tlcs {E = ℕ} (theirs ∷ []) one_tlc
      ≡ (get_staging_tlcs one_tlc >>= λ s. ok (s, q)))
    × (get_staging_tlcs {E = ℕ} one_tlc ≡ ok (drop one_tlc.committed_index one_tlc.tlcs))
    × Valid.IsValid q
    × ((extra : List TlcKind) × (q.tlcs ≡ one_tlc.tlcs ++ extra))
    × ((t : TlcKind)
        → is_tlc_present t q
          ≡ (is_tlc_present t one_tlc || any (λ s. same_operation s t) (theirs ∷ [])))
    × (get_committed_tlcs {E = ℕ} q ≡ ok q.tlcs)
    × (commit_tlcs {E = ℕ} (theirs ∷ []) q ≡ ok ([], q))
    × (q.next_tlc_id ≡ one_tlc.next_tlc_id)
commit_tlcs_total_example = commit_tlcs_total {E = ℕ} (theirs ∷ []) one_tlc one_tlc-IsValid

abbrev no_tlcs : PendingTlcs
no_tlcs = record { tlcs = []; committed_index = 0; next_tlc_id = 0 }

abbrev one_each : TlcState
one_each = record {
  local_pending_tlcs = one_tlc;
  remote_pending_tlcs = record { tlcs = ours ∷ theirs ∷ []; committed_index = 1; next_tlc_id = 1 };
  retryable_remove_tlcs = [];
  waiting_ack = false;
}

one_each-IsValid : Remove.IsValid one_each
one_each-IsValid = record {
  local_valid = one_tlc-IsValid;
  remote_valid = record { index_le = omega arith; distinct = (refl, (refl, tt)) };
  offered_copies = λ n b h. (tlc (offered 0) 100 1, ground arith, ground arith);
  received_copies = λ n a h. absurd (ground arith);
}

apply_remove_tlc_total_example :
    (t : TlcState) × (apply_remove_tlc {E = ℕ}
        (offered 0)
        (record { local = 2; remote = 2 })
        (remove_tlc_fulfill 5)
        one_each
      ≡ ok t)
    × Remove.IsValid t
    × ((j : TlcId) → active j t ≡ (if same j (offered 0) then none else active j one_each))
    × (t.local_pending_tlcs.committed_index ≡ length t.local_pending_tlcs.tlcs)
    × (t.remote_pending_tlcs.committed_index ≡ length t.remote_pending_tlcs.tlcs)
apply_remove_tlc_total_example =
    apply_remove_tlc_total {E = ℕ} (offered 0) (record { local = 2; remote = 2 })
      (remove_tlc_fulfill 5) one_each one_each-IsValid

unify_tlcs_lem_example :
    (any is_removal (ours ∷ []) ≡ true
      → unify_tlcs {E = ℕ} (theirs ∷ remove_tlc removal ∷ []) (ours ∷ []) ≡ panic)
    × (any is_removal (ours ∷ []) ≡ false
        → (m : List (TlcId × TlcKind)) × (unify_tlcs {E = ℕ}
              (theirs ∷ remove_tlc removal ∷ [])
              (ours ∷ [])
            ≡ ok (values m))
          × IsSorted m
          × ((j : TlcId) → get j m ≡ unified j (theirs ∷ remove_tlc removal ∷ []) (ours ∷ [])))
unify_tlcs_lem_example = unify_tlcs_lem {E = ℕ} (theirs ∷ remove_tlc removal ∷ []) (ours ∷ [])

-- The removal that is staging takes the committed TLC out; the one that is staging stays.
unify_runs : unify_tlcs {E = ℕ} (theirs ∷ remove_tlc removal ∷ []) (ours ∷ []) ≡ ok (theirs ∷ [])
unfolding unify_tlcs unify_committed unify_staging unify_removals
unify_runs = refl

abbrev second_ours : AddTlcInfo
second_ours = tlc (offered 1) 30 3

add_local_tlc_lem_example :
    (is_tlc_present (add_tlc second_ours) one_tlc ≡ true
      → add_local_tlc {E = ℕ} (add_tlc second_ours) one_each ≡ panic)
    × (is_tlc_present (add_tlc second_ours) one_tlc ≡ false
        → (u : TlcState) × (add_local_tlc {E = ℕ} (add_tlc second_ours) one_each ≡ ok u)
          × Remove.IsValid u
          × ((j : TlcId)
              → active j u ≡ or_else (active_as j (add_tlc second_ours)) (active j one_each)))
add_local_tlc_lem_example = add_local_tlc_lem {E = ℕ} second_ours 1 one_each one_each-IsValid refl

abbrev second_theirs : AddTlcInfo
second_theirs = tlc (received 1) 30 3

add_remote_tlc_lem_example :
    (is_tlc_present (add_tlc second_theirs) one_each.remote_pending_tlcs ≡ true
      → add_remote_tlc {E = ℕ} (add_tlc second_theirs) one_each ≡ panic)
    × (is_tlc_present (add_tlc second_theirs) one_each.remote_pending_tlcs ≡ false
        → (u : TlcState) × (add_remote_tlc {E = ℕ} (add_tlc second_theirs) one_each ≡ ok u)
          × Remove.IsValid u
          × ((j : TlcId)
              → active j u ≡ or_else (active_as j (add_tlc second_theirs)) (active j one_each)))
add_remote_tlc_lem_example =
    add_remote_tlc_lem {E = ℕ} second_theirs 1 one_each one_each-IsValid refl

commit_tlcs_of_both_lem_example :
    ((u : TlcState) × (commit_local_tlcs {E = ℕ} one_each
        ≡ ok (drop one_each.local_pending_tlcs.committed_index one_each.local_pending_tlcs.tlcs, u))
      × Remove.IsValid u
      × ((j : TlcId) → active j u ≡ active j one_each)
      × (u.local_pending_tlcs.committed_index ≡ length u.local_pending_tlcs.tlcs)
      × (u.remote_pending_tlcs ≡ one_each.remote_pending_tlcs))
    × ((u : TlcState) × (commit_remote_tlcs {E = ℕ} one_each
          ≡ ok (
            drop one_each.remote_pending_tlcs.committed_index one_each.remote_pending_tlcs.tlcs,
            u,
          ))
        × Remove.IsValid u
        × ((j : TlcId) → active j u ≡ active j one_each)
        × (u.remote_pending_tlcs.committed_index ≡ length u.remote_pending_tlcs.tlcs)
        × (u.local_pending_tlcs ≡ one_each.local_pending_tlcs))
commit_tlcs_of_both_lem_example = commit_tlcs_of_both_lem {E = ℕ} one_each one_each-IsValid
