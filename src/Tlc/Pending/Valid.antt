-- ===== src/Tlc/Pending/Valid.antt =====
-- The well-formed pending lists, and `push` on them.
use ai_ckb_backend.Common.{
  ◌≤◌, ◌≡◌, true, false, [], ◌∷◌, ◌++◌, arith, length, length-append, take-append_le,
  drop-append_le,
}
use ai_ckb_backend.Common.Outcome.{ok, panic, ◌>>=◌}
use ai_ckb_backend.Tlc.Id.{TlcId}
use ai_ckb_backend.Tlc.Kind.{TlcKind}
use ai_ckb_backend.Tlc.Pending.{
  PendingTlcs, is_tlc_present, get_staging_tlcs, get_committed_tlcs, push, new, drop_remove_tlc,
  is_not_removal_of,
}
use ai_ckb_backend.Tlc.Pending.Distinct.{Distinct, Distinct-append, Distinct-retain}

-- The index lies in the list, and no operation stands twice.
pub record IsValid (p : PendingTlcs) : Type 0 where
  pub index_le : p.committed_index ≤ length p.tlcs
  pub distinct : Distinct p.tlcs

pub new-IsValid : IsValid new
unfolding new
new-IsValid = record { index_le = omega arith; distinct = tt }

pub append-IsValid :
    (t : TlcKind) (p : PendingTlcs)
    → IsValid p
    → is_tlc_present t p ≡ false
    → IsValid (record p { tlcs = p.tlcs ++ t ∷ [] })
append-IsValid t p v h = record {
  index_le = omega (arith, v.index_le, length-append p.tlcs (t ∷ []));
  distinct = Distinct-append p.tlcs t v.distinct h;
}

module _ {ℓ} {E : Type ℓ} where
  -- Pushing an operation that is present already panics. Any other is accepted: the list stays
  -- well-formed, the committed part stays what it was, and the operation is the last of the
  -- staging part.
  pub push-fresh :
      (t : TlcKind) (p : PendingTlcs)
      → IsValid p
      → (is_tlc_present t p ≡ true → push {E = E} t p ≡ panic)
        × (is_tlc_present t p ≡ false
            → (q : PendingTlcs) × (push {E = E} t p ≡ ok q)
              × IsValid q
              × (get_committed_tlcs {E = E} q ≡ get_committed_tlcs p)
              × (get_staging_tlcs {E = E} q ≡ (get_staging_tlcs p >>= λ s. ok (s ++ t ∷ []))))
  unfolding push
  push-fresh t p v = (
    λ h. rw h,
    λ h. (
      record p { tlcs = p.tlcs ++ t ∷ [] },
      rw h,
      append-IsValid t p v h,
      ground (
        arith,
        v.index_le,
        length-append p.tlcs (t ∷ []),
        take-append_le p.committed_index p.tlcs (t ∷ []),
      ),
      ground (
        arith,
        v.index_le,
        length-append p.tlcs (t ∷ []),
        drop-append_le p.committed_index p.tlcs (t ∷ []),
      ),
    ),
  )

pub drop_remove_tlc-IsValid :
    (i : TlcId) (p : PendingTlcs) → IsValid p → IsValid (drop_remove_tlc i p)
unfolding drop_remove_tlc
drop_remove_tlc-IsValid i p v = record {
  index_le = omega arith;
  distinct = Distinct-retain (is_not_removal_of i) p.tlcs v.distinct;
}
