-- ===== src/Tlc/State/Remove.antt =====
-- `mark_tlc_remove` and `apply_remove_tlc`.
use ai_ckb_backend.Common.{
  ℕ, suc, ◌≡◌, refl, ◌∙◌, sym, ap, List, [], ◌∷◌, ◌++◌, Option, some, none, arith, if◌then◌else◌,
  length, take-length, retain, leb_refl, ==_iff, Bool-cases, inl, inr,
}
use ai_ckb_backend.Common.Outcome.{ok}
use ai_ckb_backend.Tlc.Commitment.{CommitmentNumbers}
use ai_ckb_backend.Tlc.Id.{TlcId, offered, received, same}
use ai_ckb_backend.Tlc.Info.{AddTlcInfo, RemoveTlcReason}
use ai_ckb_backend.Tlc.Kind.{TlcKind, add_tlc, remove_tlc}
use ai_ckb_backend.Tlc.Pending.{
  PendingTlcs, get_mut, drop_remove_tlc, shrink_removed_tlc, update_first, is_not_removed,
  is_not_removal_of,
}
use ai_ckb_backend.Tlc.Pending.Distinct.{Distinct, Distinct-retain}
use ai_ckb_backend.Tlc.Pending.Valid
use ai_ckb_backend.Tlc.State.{TlcState, set_removed, mark_tlc_remove, apply_remove_tlc}
use ai_ckb_backend.Tlc.State.Active.{
  last_active, last_active-append, last_active-retain_removals, last_active-retain_kept,
  last_active-update_first, Distinct-update_first,
}

-- The TLC of this id that counts, in the lists of both sides chained as `all_tlcs` chains them.
abbrev pub active : TlcId → TlcState → Option AddTlcInfo
active i s = last_active i (s.local_pending_tlcs.tlcs ++ s.remote_pending_tlcs.tlcs)

-- Both lists are well-formed, and what one side's list holds of the other's TLCs is, while it
-- counts, a copy of the same amount.
pub record IsValid (s : TlcState) : Type 0 where
  pub local_valid : Valid.IsValid s.local_pending_tlcs
  pub remote_valid : Valid.IsValid s.remote_pending_tlcs
  pub offered_copies :
      (n : ℕ) (b : AddTlcInfo)
      → last_active (offered n) s.remote_pending_tlcs.tlcs ≡ some b
      → (a : AddTlcInfo) × (last_active (offered n) s.local_pending_tlcs.tlcs ≡ some a)
        × (a.amount ≡ b.amount)
  pub received_copies :
      (n : ℕ) (a : AddTlcInfo)
      → last_active (received n) s.local_pending_tlcs.tlcs ≡ some a
      → (b : AddTlcInfo) × (last_active (received n) s.remote_pending_tlcs.tlcs ≡ some b)
        × (b.amount ≡ a.amount)

length-update_first :
    (i : TlcId) (f : AddTlcInfo → AddTlcInfo) (ts : List TlcKind)
    → length (update_first i f ts) ≡ length ts
length-update_first i f [] = refl
length-update_first i f (add_tlc x ∷ ts) = ground (arith, length-update_first i f ts)
length-update_first i f (remove_tlc x ∷ ts) = ap suc (length-update_first i f ts)

-- What removing a TLC does to one list: the active TLCs but that one stay.
record Without (i : TlcId) (p q : PendingTlcs) : Type 0 where
  valid : Valid.IsValid q
  whole : q.committed_index ≡ length q.tlcs
  keeps : (j : TlcId) → last_active j q.tlcs ≡ (if same j i then none else last_active j p.tlcs)

marked-Without :
    (i : TlcId) (n : CommitmentNumbers) (r : RemoveTlcReason) (p : PendingTlcs)
    → Valid.IsValid p
    → Without i p (get_mut i (set_removed n r) (drop_remove_tlc i p))
unfolding get_mut drop_remove_tlc
marked-Without i n r p v = record {
  valid = record {
    index_le = omega (arith, same_length);
    distinct = Distinct-update_first i n r rest distinct_rest;
  };
  whole = sym same_length;
  keeps = λ j.
      last_active-update_first j i n r rest distinct_rest
      ∙ ap (λ (o : Option AddTlcInfo). if same j i then none else o)
          (last_active-retain_removals j i p.tlcs);
}
  where
    rest : List TlcKind
    rest = retain (is_not_removal_of i) p.tlcs

    distinct_rest : Distinct rest
    distinct_rest = Distinct-retain (is_not_removal_of i) p.tlcs v.distinct

    same_length : length (update_first i (set_removed n r) rest) ≡ length rest
    same_length = length-update_first i (set_removed n r) rest

shrunk-Without {ℓ} :
    {E : Type ℓ} (i : TlcId) (p q : PendingTlcs)
    → Without i p q
    → (t : PendingTlcs) × (shrink_removed_tlc {E = E} q ≡ ok t) × Without i p t
unfolding shrink_removed_tlc
shrunk-Without i p q w = (
  record q { tlcs = kept; committed_index = length kept },
  rw (
    w.whole,
    (==_iff (length q.tlcs) (length q.tlcs)).1 refl,
    leb_refl (length q.tlcs),
    take-length q.tlcs,
  ),
  record {
    valid = record {
      index_le = omega arith;
      distinct = Distinct-retain is_not_removed q.tlcs w.valid.distinct;
    };
    whole = refl;
    keeps = λ j. last_active-retain_kept j q.tlcs ∙ w.keeps j;
  },
)
  where
    kept : List TlcKind
    kept = retain is_not_removed q.tlcs

-- The same of a whole state.
record StateWithout (i : TlcId) (s t : TlcState) : Type 0 where
  local_without : Without i s.local_pending_tlcs t.local_pending_tlcs
  remote_without : Without i s.remote_pending_tlcs t.remote_pending_tlcs

mark_tlc_remove-StateWithout :
    (i : TlcId) (n : CommitmentNumbers) (r : RemoveTlcReason) (s : TlcState)
    → IsValid s
    → StateWithout i s (mark_tlc_remove i n r s)
unfolding mark_tlc_remove
mark_tlc_remove-StateWithout i n r s v = record {
  local_without = marked-Without i n r s.local_pending_tlcs v.local_valid;
  remote_without = marked-Without i n r s.remote_pending_tlcs v.remote_valid;
}

StateWithout-active :
    (i : TlcId) (s t : TlcState)
    → StateWithout i s t
    → (j : TlcId) → active j t ≡ (if same j i then none else active j s)
StateWithout-active i s t w j = ground (
  arith,
  last_active-append j s.local_pending_tlcs.tlcs s.remote_pending_tlcs.tlcs,
  last_active-append j t.local_pending_tlcs.tlcs t.remote_pending_tlcs.tlcs,
  w.local_without.keeps j,
  w.remote_without.keeps j,
)

StateWithout-offered_copies :
    (i : TlcId) (s t : TlcState)
    → StateWithout i s t
    → IsValid s
    → (n : ℕ) (b : AddTlcInfo) → last_active (offered n) t.remote_pending_tlcs.tlcs ≡ some b
    → (a : AddTlcInfo) × (last_active (offered n) t.local_pending_tlcs.tlcs ≡ some a)
      × (a.amount ≡ b.amount)
StateWithout-offered_copies i s t w v n b h = elim (Bool-cases (same (offered n) i)) [
  | inl e ↦ absurd (ground (arith, w.remote_without.keeps (offered n)))
  | inr e ↦
      let (a, p, q) = v.offered_copies n b (ground (arith, w.remote_without.keeps (offered n))) in
      (a, ground (arith, w.local_without.keeps (offered n)), q)
]

StateWithout-received_copies :
    (i : TlcId) (s t : TlcState)
    → StateWithout i s t
    → IsValid s
    → (n : ℕ) (a : AddTlcInfo) → last_active (received n) t.local_pending_tlcs.tlcs ≡ some a
    → (b : AddTlcInfo) × (last_active (received n) t.remote_pending_tlcs.tlcs ≡ some b)
      × (b.amount ≡ a.amount)
StateWithout-received_copies i s t w v n a h = elim (Bool-cases (same (received n) i)) [
  | inl e ↦ absurd (ground (arith, w.local_without.keeps (received n)))
  | inr e ↦
      let (b, p, q) = v.received_copies n a (ground (arith, w.local_without.keeps (received n))) in
      (b, ground (arith, w.remote_without.keeps (received n)), q)
]

StateWithout-IsValid : (i : TlcId) (s t : TlcState) → StateWithout i s t → IsValid s → IsValid t
StateWithout-IsValid i s t w v = record {
  local_valid = w.local_without.valid;
  remote_valid = w.remote_without.valid;
  offered_copies = StateWithout-offered_copies i s t w v;
  received_copies = StateWithout-received_copies i s t w v;
}

apply_remove_tlc-StateWithout {ℓ} :
    {E : Type ℓ} (i : TlcId) (n : CommitmentNumbers) (r : RemoveTlcReason) (s : TlcState)
    → IsValid s
    → (t : TlcState) × (apply_remove_tlc {E = E} i n r s ≡ ok t) × StateWithout i s t
unfolding apply_remove_tlc
apply_remove_tlc-StateWithout {E} (offered m) n r s v =
    let w = mark_tlc_remove-StateWithout (offered m) n r s v in
    let (p, e, without) =
      shrunk-Without {E = E} (offered m) s.local_pending_tlcs _ w.local_without in
    (
      record (mark_tlc_remove (offered m) n r s) { local_pending_tlcs = p },
      rw e,
      record { local_without = without; remote_without = w.remote_without },
    )
apply_remove_tlc-StateWithout {E} (received m) n r s v =
    let w = mark_tlc_remove-StateWithout (received m) n r s v in
    let (p, e, without) =
      shrunk-Without {E = E} (received m) s.remote_pending_tlcs _ w.remote_without in
    (
      record (mark_tlc_remove (received m) n r s) { remote_pending_tlcs = p },
      rw e,
      record { local_without = w.local_without; remote_without = without },
    )

-- On a valid state the removal of a TLC never panics. The state stays valid, exactly the removed TLC
-- leaves the TLCs that count, and both lists are committed whole.
pub apply_remove_tlc_total {ℓ} :
    {E : Type ℓ} (i : TlcId) (n : CommitmentNumbers) (r : RemoveTlcReason) (s : TlcState)
    → IsValid s
    → (t : TlcState) × (apply_remove_tlc {E = E} i n r s ≡ ok t)
      × IsValid t
      × ((j : TlcId) → active j t ≡ (if same j i then none else active j s))
      × (t.local_pending_tlcs.committed_index ≡ length t.local_pending_tlcs.tlcs)
      × (t.remote_pending_tlcs.committed_index ≡ length t.remote_pending_tlcs.tlcs)
apply_remove_tlc_total i n r s v =
    let (t, e, w) = apply_remove_tlc-StateWithout i n r s v in
    (
      t,
      e,
      StateWithout-IsValid i s t w v,
      StateWithout-active i s t w,
      w.local_without.whole,
      w.remote_without.whole,
    )
