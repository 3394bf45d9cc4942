-- ===== src/Tlc/Pending/Commit.antt =====
-- `commit_tlcs`: what it commits, and that it can be repeated.
use mathlib.Core.List.{append_assoc, append-nil}
use ai_ckb_backend.Common.{
  ◌≡◌, refl, ◌∙◌, sym, Bool, true, ◌||◌, List, [], ◌∷◌, ◌++◌, arith, length, drop, take-length,
  drop-length, leb_refl, any-append, Bool-cases, inl, inr,
}
use ai_ckb_backend.Common.Outcome.{ok, ◌>>=◌}
use ai_ckb_backend.Tlc.Kind.{
  TlcKind, same_operation, same_operation_comm, same_operation_refl, same_operation_trans,
}
use ai_ckb_backend.Tlc.Pending.{
  PendingTlcs, present, is_tlc_present, get_staging_tlcs, get_committed_tlcs, push_absent,
  commit_tlcs,
}
use ai_ckb_backend.Tlc.Pending.Distinct.{Distinct-push_absent}
use ai_ckb_backend.Tlc.Pending.Valid.{IsValid}

or-true : (b : Bool) → (b || true) ≡ true
or-true b = ground arith

-- An operation of the same kind on the same TLC is present as well.
present_of_same :
    (s t : TlcKind) (ts : List TlcKind) → same_operation s t ≡ true → present t ts ≡ present s ts
present_of_same s t [] h = refl
present_of_same s t (r ∷ ts) h = ground (
  arith,
  present_of_same s t ts h,
  same_operation_trans r s t,
  same_operation_trans r t s,
  same_operation_comm s t,
)

present-push_absent :
    (t : TlcKind) (cs ts : List TlcKind)
    → present t (push_absent cs ts) ≡ (present t ts || present t cs)
unfolding push_absent
present-push_absent t [] ts = ground arith
present-push_absent t (c ∷ cs) ts = elim (Bool-cases (present c ts)) [
  | inl p ↦ rw p (ground (arith, present-push_absent t cs ts, present_of_same c t ts))
  | inr p ↦ rw p (
      ground (
        arith,
        present-push_absent t cs (ts ++ c ∷ []),
        any-append (λ s. same_operation s t) ts (c ∷ []),
      ))
]

push_absent-prefix :
    (cs ts : List TlcKind) → (extra : List TlcKind) × (push_absent cs ts ≡ ts ++ extra)
unfolding push_absent
push_absent-prefix [] ts = ([], sym (append-nil ts))
push_absent-prefix (c ∷ cs) ts = elim (Bool-cases (present c ts)) [
  | inl p ↦ rw p (push_absent-prefix cs ts)
  | inr p ↦ rw p (
      let (extra, e) = push_absent-prefix cs (ts ++ c ∷ []) in
      (c ∷ extra, e ∙ append_assoc ts (c ∷ []) extra))
]

push_absent-present :
    (cs ts : List TlcKind)
    → ((t : TlcKind) → present t cs ≡ true → present t ts ≡ true)
    → push_absent cs ts ≡ ts
unfolding push_absent
push_absent-present [] ts h = refl
push_absent-present (c ∷ cs) ts h =
    let here : present c ts ≡ true = h c (rw (same_operation_refl c)) in
    rw here (push_absent-present cs ts (λ t p. h t (ground arith)))

module _ {ℓ} {E : Type ℓ} where
  -- On a well-formed list `commit_tlcs` succeeds. It returns the operations that were staging; the
  -- new list is well-formed, begins with the old one, holds exactly the operations that were
  -- present or given, is committed whole, and a second call with the same argument changes nothing.
  pub commit_tlcs_total :
      (cs : List TlcKind) (p : PendingTlcs)
      → IsValid p
      → (q : PendingTlcs) × (commit_tlcs {E = E} cs p ≡ (get_staging_tlcs p >>= λ s. ok (s, q)))
        × (get_staging_tlcs {E = E} p ≡ ok (drop p.committed_index p.tlcs))
        × IsValid q
        × ((extra : List TlcKind) × (q.tlcs ≡ p.tlcs ++ extra))
        × ((t : TlcKind) → is_tlc_present t q ≡ (is_tlc_present t p || present t cs))
        × (get_committed_tlcs {E = E} q ≡ ok q.tlcs)
        × (commit_tlcs {E = E} cs q ≡ ok ([], q))
        × (q.next_tlc_id ≡ p.next_tlc_id)
  unfolding commit_tlcs
  commit_tlcs_total cs p v = (
    record p { tlcs = after; committed_index = length after },
    refl,
    ground (arith, v.index_le),
    record { index_le = omega arith; distinct = Distinct-push_absent cs p.tlcs v.distinct },
    push_absent-prefix cs p.tlcs,
    λ t. present-push_absent t cs p.tlcs,
    rw (leb_refl (length after), take-length after),
    rw (leb_refl (length after), drop-length after, again),
    refl,
  )
    where
      after : List TlcKind
      after = push_absent cs p.tlcs

      again : push_absent cs after ≡ after
      again =
          push_absent-present cs after
            (λ t h. present-push_absent t cs p.tlcs ∙ rw h (or-true (present t p.tlcs)))
