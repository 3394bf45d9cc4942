-- ===== src/Tlc/State/Commit.antt =====
-- `commit_local_tlcs` and `commit_remote_tlcs` of fiber/src/fiber/channel.rs: committing one side's
-- operations takes over what the other side has committed.
use ai_ckb_backend.Common.{
  ℕ, ◌≡◌, refl, true, false, ◌⊎◌, inl, inr, List, [], ◌∷◌, ◌++◌, Option, some, none, arith,
  if◌then◌else◌, length, take, drop, zero, suc, Option-cases, Bool-cases,
}
use ai_ckb_backend.Common.Outcome.{ok}
use ai_ckb_backend.Tlc.Id.{TlcId, offered, received, same_iff}
use ai_ckb_backend.Tlc.Info.{AddTlcInfo}
use ai_ckb_backend.Tlc.Kind.{TlcKind, add_tlc, remove_tlc}
use ai_ckb_backend.Tlc.Pending.{PendingTlcs, present, push_absent, commit_tlcs}
use ai_ckb_backend.Tlc.Pending.Distinct.{Distinct, Distinct-push_absent}
use ai_ckb_backend.Tlc.Pending.Valid
use ai_ckb_backend.Tlc.State.{TlcState, commit_local_tlcs, commit_remote_tlcs}
use ai_ckb_backend.Tlc.State.Active.{
  or_else, active_as, last_active, last_active-append, last_active_absent,
}
use ai_ckb_backend.Tlc.State.Remove
use ai_ckb_backend.Tlc.State.Remove.{active}

active_as-present :
    (i : TlcId) (t : TlcKind) (ts : List TlcKind) {a b : AddTlcInfo}
    → active_as i t ≡ some a
    → last_active i ts ≡ some b
    → present t ts ≡ true
active_as-present i (add_tlc x) ts {a} {b} h k = elim (Bool-cases (present (add_tlc x) ts)) [
  | inl e ↦ e
  | inr e ↦ absurd (ground (arith, same_iff x.tlc_id i, last_active_absent x ts e))
]
active_as-present i (remove_tlc x) ts h k = ground arith

-- No other TLC of the id of a new active one counts in the list.
active_as-alone :
    (i : TlcId) (t : TlcKind) (ts : List TlcKind) {a : AddTlcInfo}
    → present t ts ≡ false
    → active_as i t ≡ some a
    → last_active i (t ∷ ts) ≡ some a
active_as-alone i t ts {a} d h = elim (Option-cases (last_active i ts)) [
  | inl e ↦ rw (e, h)
  | inr (b, e) ↦ let p = active_as-present i t ts {a = a} {b = b} h e in absurd (ground arith)
]

grown-keeps :
    (i : TlcId) (c : TlcKind) (ts : List TlcKind) {a : AddTlcInfo}
    → last_active i ts ≡ some a
    → last_active i (if present c ts then ts else ts ++ c ∷ []) ≡ some a
grown-keeps i c ts {a} h = elim (Bool-cases (present c ts)) [
  | inl p ↦ rw p h
  | inr p ↦
      rw (p, last_active-append i ts (c ∷ []))
        (elim (Option-cases (active_as i c)) [
          | inl e ↦ rw (e, h)
          | inr (b, e) ↦
              let q = active_as-present i c ts {a = b} {b = a} e h in absurd (ground arith)
        ])
]

grown-from :
    (i : TlcId) (c : TlcKind) (ts : List TlcKind) {a : AddTlcInfo}
    → last_active i (if present c ts then ts else ts ++ c ∷ []) ≡ some a
    → (last_active i ts ≡ some a) ⊎ (active_as i c ≡ some a)
grown-from i c ts {a} h = ground (arith, last_active-append i ts (c ∷ []))

-- An active TLC of the list stays the active one.
push_absent-keeps :
    (i : TlcId) (cs ts : List TlcKind) {a : AddTlcInfo}
    → last_active i ts ≡ some a
    → last_active i (push_absent cs ts) ≡ some a
unfolding push_absent
push_absent-keeps i [] ts h = h
push_absent-keeps i (c ∷ cs) ts {a} h =
    push_absent-keeps i cs (if present c ts then ts else ts ++ c ∷ []) {a = a}
      (grown-keeps i c ts {a = a} h)

-- An active TLC afterwards was active in the list, or in what was taken over.
push_absent-from :
    (i : TlcId) (cs ts : List TlcKind) {a : AddTlcInfo}
    → Distinct cs
    → last_active i (push_absent cs ts) ≡ some a
    → (last_active i ts ≡ some a) ⊎ (last_active i cs ≡ some a)
unfolding push_absent
push_absent-from i [] ts d h = inl h
push_absent-from i (c ∷ cs) ts {a} d h =
    elim (push_absent-from i cs (if present c ts then ts else ts ++ c ∷ []) {a = a} d.1 h) [
      | inl p ↦ elim (grown-from i c ts {a = a} p) [
        | inl q ↦ inl q
        | inr q ↦ inr (active_as-alone i c cs {a = a} d.0 q)
      ]
      | inr p ↦ inr (rw p)
    ]

-- What is active in the first part of a list without repetitions is active in the list.
take-active :
    (i : TlcId) (n : ℕ) (ts : List TlcKind) {a : AddTlcInfo}
    → Distinct ts
    → last_active i (take n ts) ≡ some a
    → last_active i ts ≡ some a
take-active i zero ts d h = absurd (ground arith)
take-active i (suc n) [] d h = absurd (ground arith)
take-active i (suc n) (t ∷ ts) {a} d h = elim (Option-cases (last_active i (take n ts))) [
  | inl e ↦ active_as-alone i t ts {a = a} d.0 (ground arith)
  | inr (b, e) ↦ let q = take-active i n ts {a = b} d.1 e in ground arith
]

-- What taking over the first operations of one list does to the other list.
record TakenOver (other mine : PendingTlcs) (mine' : PendingTlcs) : Type 0 where
  valid : Valid.IsValid mine'
  whole : mine'.committed_index ≡ length mine'.tlcs
  keeps :
      (i : TlcId) {a : AddTlcInfo}
      → last_active i mine.tlcs ≡ some a
      → last_active i mine'.tlcs ≡ some a
  from :
      (i : TlcId) {a : AddTlcInfo}
      → last_active i mine'.tlcs ≡ some a
      → (last_active i mine.tlcs ≡ some a) ⊎ (last_active i other.tlcs ≡ some a)

abbrev take_over : PendingTlcs → PendingTlcs → PendingTlcs
take_over other mine =
    let tlcs = push_absent (take other.committed_index other.tlcs) mine.tlcs in
    record mine { tlcs = tlcs; committed_index = length tlcs }

Distinct-take : (n : ℕ) (ts : List TlcKind) → Distinct ts → Distinct (take n ts)
Distinct-take zero ts d = tt
Distinct-take (suc n) [] d = tt
Distinct-take (suc n) (t ∷ ts) d = (present-take t n ts d.0, Distinct-take n ts d.1)
  where
    present-take :
        (t : TlcKind) (n : ℕ) (ts : List TlcKind)
        → present t ts ≡ false
        → present t (take n ts) ≡ false
    present-take t zero ts h = refl
    present-take t (suc n) [] h = refl
    present-take t (suc n) (s ∷ ts) h = ground (arith, present-take t n ts)

take_over-TakenOver :
    (other mine : PendingTlcs)
    → Valid.IsValid other
    → Valid.IsValid mine
    → TakenOver other mine (take_over other mine)
take_over-TakenOver other mine v w = record {
  valid = record {
    index_le = omega arith;
    distinct = Distinct-push_absent first mine.tlcs w.distinct;
  };
  whole = refl;
  keeps = λ i {a} h. push_absent-keeps i first mine.tlcs {a = a} h;
  from = λ i {a} h.
      elim (push_absent-from i first mine.tlcs {a = a}
        (Distinct-take other.committed_index other.tlcs v.distinct) h) [
          | inl p ↦ inl p
          | inr p ↦ inr (take-active i other.committed_index other.tlcs {a = a} v.distinct p)
        ];
}
  where
    first : List TlcKind
    first = take other.committed_index other.tlcs

or_else_same :
    (o m m' : Option AddTlcInfo)
    → ((a : AddTlcInfo) → m ≡ some a → m' ≡ some a)
    → ((a : AddTlcInfo) → m' ≡ some a → (m ≡ some a) ⊎ (o ≡ some a))
    → (or_else o m' ≡ or_else o m) × (or_else m' o ≡ or_else m o)
or_else_same o (some a) m' keeps from = rw (keeps a refl) (refl, refl)
or_else_same o none none keeps from = (refl, refl)
or_else_same o none (some a) keeps from = elim (from a refl) [
  | inl p ↦ absurd (ground arith)
  | inr p ↦ rw p (refl, refl)
]

same_chained_before :
    (i : TlcId) (other mine mine' : PendingTlcs)
    → TakenOver other mine mine'
    → last_active i (mine'.tlcs ++ other.tlcs) ≡ last_active i (mine.tlcs ++ other.tlcs)
same_chained_before i other mine mine' w =
    rw (last_active-append i mine'.tlcs other.tlcs, last_active-append i mine.tlcs other.tlcs)
      (or_else_same (last_active i other.tlcs) (last_active i mine.tlcs) (last_active i mine'.tlcs)
        (λ a. w.keeps i {a = a}) (λ a. w.from i {a = a})).0

same_chained_after :
    (i : TlcId) (other mine mine' : PendingTlcs)
    → TakenOver other mine mine'
    → last_active i (other.tlcs ++ mine'.tlcs) ≡ last_active i (other.tlcs ++ mine.tlcs)
same_chained_after i other mine mine' w =
    rw (last_active-append i other.tlcs mine'.tlcs, last_active-append i other.tlcs mine.tlcs)
      (or_else_same (last_active i other.tlcs) (last_active i mine.tlcs) (last_active i mine'.tlcs)
        (λ a. w.keeps i {a = a}) (λ a. w.from i {a = a})).1

module _ {ℓ} {E : Type ℓ} where
  -- In a valid state both commits succeed and hand out exactly the operations that were staging on
  -- their side. The side is committed whole, the other side stays, the state is valid, and what
  -- counts under each id is the same.
  pub commit_tlcs_of_both_lem :
      (s : TlcState)
      → Remove.IsValid s
      → ((u : TlcState) × (commit_local_tlcs {E = E} s
            ≡ ok (drop s.local_pending_tlcs.committed_index s.local_pending_tlcs.tlcs, u))
          × Remove.IsValid u
          × ((j : TlcId) → active j u ≡ active j s)
          × (u.local_pending_tlcs.committed_index ≡ length u.local_pending_tlcs.tlcs)
          × (u.remote_pending_tlcs ≡ s.remote_pending_tlcs))
        × ((u : TlcState) × (commit_remote_tlcs {E = E} s
              ≡ ok (drop s.remote_pending_tlcs.committed_index s.remote_pending_tlcs.tlcs, u))
            × Remove.IsValid u
            × ((j : TlcId) → active j u ≡ active j s)
            × (u.remote_pending_tlcs.committed_index ≡ length u.remote_pending_tlcs.tlcs)
            × (u.local_pending_tlcs ≡ s.local_pending_tlcs))
  unfolding commit_local_tlcs commit_remote_tlcs commit_tlcs
  commit_tlcs_of_both_lem s v =
      let l =
        take_over-TakenOver s.remote_pending_tlcs s.local_pending_tlcs v.remote_valid
          v.local_valid in
      let r =
        take_over-TakenOver s.local_pending_tlcs s.remote_pending_tlcs v.local_valid
          v.remote_valid in
      (
        (
          record s { local_pending_tlcs = take_over s.remote_pending_tlcs s.local_pending_tlcs },
          ground (arith, v.remote_valid.index_le, v.local_valid.index_le),
          record {
            local_valid = l.valid;
            remote_valid = v.remote_valid;
            offered_copies = λ n b h.
                let (a, p, q) = v.offered_copies n b h in (a, l.keeps (offered n) {a = a} p, q);
            received_copies = λ n a h. elim (l.from (received n) {a = a} h) [
              | inl p ↦ v.received_copies n a p
              | inr p ↦ (a, p, refl)
            ];
          },
          λ j. same_chained_before j s.remote_pending_tlcs s.local_pending_tlcs _ l,
          l.whole,
          refl,
        ),
        (
          record s { remote_pending_tlcs = take_over s.local_pending_tlcs s.remote_pending_tlcs },
          ground (arith, v.remote_valid.index_le, v.local_valid.index_le),
          record {
            local_valid = v.local_valid;
            remote_valid = r.valid;
            offered_copies = λ n b h. elim (r.from (offered n) {a = b} h) [
              | inl p ↦ v.offered_copies n b p
              | inr p ↦ (b, p, refl)
            ];
            received_copies = λ n a h.
                let (b, p, q) = v.received_copies n a h in (b, r.keeps (received n) {a = b} p, q);
          },
          λ j. same_chained_after j s.local_pending_tlcs s.remote_pending_tlcs _ r,
          r.whole,
          refl,
        ),
      )
