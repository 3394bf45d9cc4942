-- ===== src/Tlc/State/Add.antt =====
-- `add_local_tlc` and `add_remote_tlc` keep a valid state valid.
use ai_ckb_backend.Common.{
  ℕ, ◌≡◌, refl, ◌∙◌, sym, true, false, [], ◌∷◌, ◌++◌, none, arith, ◌⊎◌, Bool-cases, Option-cases,
  inl, inr,
}
use ai_ckb_backend.Common.Outcome.{ok, panic}
use ai_ckb_backend.Tlc.Id.{TlcId, offered, received, same, same_iff}
use ai_ckb_backend.Tlc.Info.{AddTlcInfo, RemoveTlcInfo}
use ai_ckb_backend.Tlc.Kind.{TlcKind, add_tlc, remove_tlc}
use ai_ckb_backend.Tlc.Pending.{PendingTlcs, push, is_tlc_present}
use ai_ckb_backend.Tlc.Pending.Valid.{append-IsValid}
use ai_ckb_backend.Tlc.Pending.Valid
use ai_ckb_backend.Tlc.State.{TlcState, add_local_tlc, add_remote_tlc}
use ai_ckb_backend.Tlc.State.Active.{
  last_active, active_as, or_else, last_active-append, last_active_absent,
}
use ai_ckb_backend.Tlc.State.Remove.{active, IsValid}

-- `push` of an operation that is not present, with the list that it gives.
record Pushed (t : TlcKind) (p q : PendingTlcs) : Type 0 where
  valid : Valid.IsValid q
  adds : (j : TlcId) → last_active j q.tlcs ≡ or_else (active_as j t) (last_active j p.tlcs)

push-Pushed {ℓ} :
    {E : Type ℓ} (t : TlcKind) (p : PendingTlcs)
    → Valid.IsValid p
    → is_tlc_present t p ≡ false
    → (q : PendingTlcs) × (push {E = E} t p ≡ ok q) × Pushed t p q
unfolding push
push-Pushed t p v h = (
  record p { tlcs = p.tlcs ++ t ∷ [] },
  rw h,
  record { valid = append-IsValid t p v h; adds = λ j. last_active-append j p.tlcs (t ∷ []) },
)

-- A state in which `t` was pushed to one list and the other list was left alone.
record Grown (t : TlcKind) (s u : TlcState) : Type 0 where
  valid : IsValid u
  adds : (j : TlcId) → active j u ≡ or_else (active_as j t) (active j s)

absent_offered :
    (n : ℕ) (x : AddTlcInfo) (s : TlcState)
    → IsValid s
    → x.tlc_id ≡ offered n
    → is_tlc_present (add_tlc x) s.local_pending_tlcs ≡ false
    → last_active (offered n) s.remote_pending_tlcs.tlcs ≡ none
absent_offered n x s v e h =
    elim (Option-cases (last_active (offered n) s.remote_pending_tlcs.tlcs)) [
      | inl p ↦ p
      | inr (b, p) ↦
          let (a, q, _) = v.offered_copies n b p in
          absurd (ground (arith, last_active_absent x s.local_pending_tlcs.tlcs h))
    ]

absent_received :
    (n : ℕ) (x : AddTlcInfo) (s : TlcState)
    → IsValid s
    → x.tlc_id ≡ received n
    → is_tlc_present (add_tlc x) s.remote_pending_tlcs ≡ false
    → last_active (received n) s.local_pending_tlcs.tlcs ≡ none
absent_received n x s v e h =
    elim (Option-cases (last_active (received n) s.local_pending_tlcs.tlcs)) [
      | inl p ↦ p
      | inr (b, p) ↦
          let (a, q, _) = v.received_copies n b p in
          absurd (ground (arith, last_active_absent x s.remote_pending_tlcs.tlcs h))
    ]

local_copies :
    (x : AddTlcInfo) (n : ℕ) (s : TlcState) (q : PendingTlcs)
    → IsValid s
    → x.tlc_id ≡ offered n
    → is_tlc_present (add_tlc x) s.local_pending_tlcs ≡ false
    → Pushed (add_tlc x) s.local_pending_tlcs q
    → IsValid (record s { local_pending_tlcs = q })
local_copies x n s q v e h w = record {
  local_valid = w.valid;
  remote_valid = v.remote_valid;
  offered_copies = λ m b p.
      let (a, f, g) = v.offered_copies m b p in
      (
        a,
        ground
            (arith, w.adds (offered m), same_iff x.tlc_id (offered m), absent_offered n x s v e h),
        g,
      );
  received_copies = λ m a p. v.received_copies m a (ground (arith, w.adds (received m)));
}

remote_copies :
    (x : AddTlcInfo) (n : ℕ) (s : TlcState) (q : PendingTlcs)
    → IsValid s
    → x.tlc_id ≡ received n
    → is_tlc_present (add_tlc x) s.remote_pending_tlcs ≡ false
    → Pushed (add_tlc x) s.remote_pending_tlcs q
    → IsValid (record s { remote_pending_tlcs = q })
remote_copies x n s q v e h w = record {
  local_valid = v.local_valid;
  remote_valid = w.valid;
  offered_copies = λ m b p. v.offered_copies m b (ground (arith, w.adds (offered m)));
  received_copies = λ m a p.
      let (b, f, g) = v.received_copies m a p in
      (
        b,
        ground (
          arith,
          w.adds (received m),
          same_iff x.tlc_id (received m),
          absent_received n x s v e h,
        ),
        g,
      );
}

pub active_absent_received :
    (n : ℕ) (x : AddTlcInfo) (s : TlcState)
    → IsValid s
    → x.tlc_id ≡ received n
    → is_tlc_present (add_tlc x) s.remote_pending_tlcs ≡ false
    → active (received n) s ≡ none
active_absent_received n x s v e h = ground (
  arith,
  last_active-append (received n) s.local_pending_tlcs.tlcs s.remote_pending_tlcs.tlcs,
  last_active_absent x s.remote_pending_tlcs.tlcs h,
  absent_received n x s v e h,
)

chained_local :
    (t : TlcKind) (s : TlcState) (q : PendingTlcs) (j : TlcId)
    → Pushed t s.local_pending_tlcs q
    → (active_as j t ≡ none) ⊎ (last_active j s.remote_pending_tlcs.tlcs ≡ none)
    → active j (record s { local_pending_tlcs = q }) ≡ or_else (active_as j t) (active j s)
chained_local t s q j w h = ground (
  arith,
  w.adds j,
  last_active-append j s.local_pending_tlcs.tlcs s.remote_pending_tlcs.tlcs,
  last_active-append j q.tlcs s.remote_pending_tlcs.tlcs,
)

chained_remote :
    (t : TlcKind) (s : TlcState) (q : PendingTlcs) (j : TlcId)
    → Pushed t s.remote_pending_tlcs q
    → active j (record s { remote_pending_tlcs = q }) ≡ or_else (active_as j t) (active j s)
chained_remote t s q j w = ground (
  arith,
  w.adds j,
  last_active-append j s.local_pending_tlcs.tlcs s.remote_pending_tlcs.tlcs,
  last_active-append j s.local_pending_tlcs.tlcs q.tlcs,
)

active_as_ne :
    (j : TlcId) (x : AddTlcInfo) → same x.tlc_id j ≡ false → active_as j (add_tlc x) ≡ none
active_as_ne j x h = ground arith

module _ {ℓ} {E : Type ℓ} where
  -- Adding an offered TLC to the local list panics when the list has its id already. Otherwise the
  -- state stays valid and what counts under an id is the new TLC, under its own id and if no removal
  -- of it is marked, and the same as before under every other id.
  pub add_local_tlc_lem :
      (x : AddTlcInfo) (n : ℕ) (s : TlcState)
      → IsValid s
      → x.tlc_id ≡ offered n
      → (is_tlc_present (add_tlc x) s.local_pending_tlcs ≡ true
          → add_local_tlc {E = E} (add_tlc x) s ≡ panic)
        × (is_tlc_present (add_tlc x) s.local_pending_tlcs ≡ false
            → (u : TlcState) × (add_local_tlc {E = E} (add_tlc x) s ≡ ok u)
              × IsValid u
              × ((j : TlcId) → active j u ≡ or_else (active_as j (add_tlc x)) (active j s)))
  unfolding add_local_tlc push
  add_local_tlc_lem x n s v e = (
    λ h. rw h,
    λ h.
        let (q, p, w) = push-Pushed {E = E} (add_tlc x) s.local_pending_tlcs v.local_valid h in
        (
          record s { local_pending_tlcs = q },
          rw p,
          local_copies x n s q v e h w,
          λ j. chained_local (add_tlc x) s q j w (elim (Bool-cases (same x.tlc_id j)) [
            | inl i ↦ inr (ground (arith, same_iff x.tlc_id j, absent_offered n x s v e h))
            | inr i ↦ inl (active_as_ne j x i)
          ]),
        ),
  )

  -- Adding a received TLC to the remote list of a valid state panics when the list has its id already.
  -- Otherwise the state stays valid and what counts under an id is the new TLC, under its own id and if
  -- no removal of it is marked, and the same as before under every other id.
  pub add_remote_tlc_lem :
      (x : AddTlcInfo) (n : ℕ) (s : TlcState)
      → IsValid s
      → x.tlc_id ≡ received n
      → (is_tlc_present (add_tlc x) s.remote_pending_tlcs ≡ true
          → add_remote_tlc {E = E} (add_tlc x) s ≡ panic)
        × (is_tlc_present (add_tlc x) s.remote_pending_tlcs ≡ false
            → (u : TlcState) × (add_remote_tlc {E = E} (add_tlc x) s ≡ ok u)
              × IsValid u
              × ((j : TlcId) → active j u ≡ or_else (active_as j (add_tlc x)) (active j s)))
  unfolding add_remote_tlc push
  add_remote_tlc_lem x n s v e = (
    λ h. rw h,
    λ h.
        let (q, p, w) = push-Pushed {E = E} (add_tlc x) s.remote_pending_tlcs v.remote_valid h in
        (
          record s { remote_pending_tlcs = q },
          rw p,
          remote_copies x n s q v e h w,
          λ j. chained_remote (add_tlc x) s q j w,
        ),
  )

  -- A removal waiting in a list changes nothing of what counts.
  pub add_removal_lem :
      (x : RemoveTlcInfo) (s : TlcState)
      → IsValid s
      → (is_tlc_present (remove_tlc x) s.local_pending_tlcs ≡ false
          → (u : TlcState) × (add_local_tlc {E = E} (remove_tlc x) s ≡ ok u)
            × IsValid u
            × ((j : TlcId) → active j u ≡ active j s))
        × (is_tlc_present (remove_tlc x) s.remote_pending_tlcs ≡ false
            → (u : TlcState) × (add_remote_tlc {E = E} (remove_tlc x) s ≡ ok u)
              × IsValid u
              × ((j : TlcId) → active j u ≡ active j s))
  unfolding add_local_tlc add_remote_tlc
  add_removal_lem x s v = (
    λ h.
        let (q, p, w) = push-Pushed {E = E} (remove_tlc x) s.local_pending_tlcs v.local_valid h in
        (
          record s { local_pending_tlcs = q },
          rw p,
          record {
            local_valid = w.valid;
            remote_valid = v.remote_valid;
            offered_copies = λ n b f. rw (w.adds (offered n)) (v.offered_copies n b f);
            received_copies = λ n a f. v.received_copies n a (sym (w.adds (received n)) ∙ f);
          },
          λ j. chained_local (remove_tlc x) s q j w (inl refl),
        ),
    λ h.
        let (q, p, w) = push-Pushed {E = E} (remove_tlc x) s.remote_pending_tlcs v.remote_valid h in
        (
          record s { remote_pending_tlcs = q },
          rw p,
          record {
            local_valid = v.local_valid;
            remote_valid = w.valid;
            offered_copies = λ n b f. v.offered_copies n b (sym (w.adds (offered n)) ∙ f);
            received_copies = λ n a f. rw (w.adds (received n)) (v.received_copies n a f);
          },
          λ j. chained_remote (remove_tlc x) s q j w,
        ),
  )
