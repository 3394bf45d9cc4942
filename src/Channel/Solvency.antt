-- ===== src/Channel/Solvency.antt =====
-- Solvency: neither side's pending TLCs exceed its balance, and the balances add up to a constant
-- (the invariant that the comment on `to_local_amount` in fiber/src/fiber/channel.rs states).
use ai_ckb_backend.Common.{
  ℕ, ◌+◌, ◌≤◌, ◌<◌, ◌≡◌, ◌≢◌, refl, ◌∙◌, true, false, some, none, arith, Bool-cases, inl, inr,
}
use ai_ckb_backend.Common.Outcome.{ok, u128_mod, ◌>>=◌, >>=-Passed}
use ai_ckb_backend.Tlc.Id.{TlcId, received, same_iff}
use ai_ckb_backend.Tlc.Info.{AddTlcInfo, is_offered, is_received}
use ai_ckb_backend.Tlc.Kind.{add_tlc}
use ai_ckb_backend.Tlc.Pending.{PendingTlcs, is_tlc_present, increment_next_tlc_id}
use ai_ckb_backend.Tlc.State.Active.{active_as, or_else}
use ai_ckb_backend.Tlc.State.{TlcState, add_remote_tlc, increment_received}
use ai_ckb_backend.Tlc.State.Remove.{active, IsValid}
use ai_ckb_backend.Tlc.State.Add.{add_remote_tlc_lem, active_absent_received}
use ai_ckb_backend.Channel.Error.{ProcessingChannelError}
use ai_ckb_backend.Channel.State.{
  ChannelActorState, get_offered_tlc_balance, get_received_tlc_balance,
  increment_next_received_tlc_id,
}
use ai_ckb_backend.Channel.Checks.{Checked, check_insert_tlc, check_for_tlc_update}
use ai_ckb_backend.Channel.Messages.{AddTlc, handle_add_tlc_peer_message, create_inbounding_tlc}
use ai_ckb_backend.Channel.Amounts.{total, sum_amounts-all_tlcs, total-inserted, total-same}

pub record IsSolvent (s : ChannelActorState) : Type 0 where
  pub valid : IsValid s.tlc_state
  pub offered_le : total is_offered s.tlc_state ≤ s.to_local_amount
  pub received_le : total is_received s.tlc_state ≤ s.to_remote_amount
  pub bounded : s.to_local_amount + s.to_remote_amount < u128_mod

-- What an accepted TLC leaves room for.
check_insert_tlc-offered :
    (x : AddTlcInfo) (s : ChannelActorState)
    → is_offered x ≡ true
    → check_insert_tlc x s ≡ ok tt
    → total is_offered s.tlc_state + x.amount ≤ s.to_local_amount
unfolding check_insert_tlc get_offered_tlc_balance
check_insert_tlc-offered x s o h =
    ground (arith, sum_amounts-all_tlcs {E = ProcessingChannelError} is_offered s.tlc_state)

check_insert_tlc-received :
    (x : AddTlcInfo) (s : ChannelActorState)
    → is_offered x ≡ false
    → check_insert_tlc x s ≡ ok tt
    → total is_received s.tlc_state + x.amount ≤ s.to_remote_amount
unfolding check_insert_tlc get_received_tlc_balance
check_insert_tlc-received x s o h =
    ground (arith, sum_amounts-all_tlcs {E = ProcessingChannelError} is_received s.tlc_state)

with_next : ChannelActorState → ChannelActorState
with_next s = record s {
  tlc_state = record tlcs {
    remote_pending_tlcs = record pending { next_tlc_id = pending.next_tlc_id + 1 };
  };
}
  where
    tlcs : TlcState
    tlcs = s.tlc_state

    pending : PendingTlcs
    pending = tlcs.remote_pending_tlcs

increment_next_received_tlc_id_lem :
    (s t : ChannelActorState)
    → increment_next_received_tlc_id {E = ProcessingChannelError} s ≡ ok t
    → t ≡ with_next s
unfolding increment_next_received_tlc_id increment_received increment_next_tlc_id with_next
increment_next_received_tlc_id_lem s t h = ground arith

with_next-IsValid : (s : ChannelActorState) → IsValid s.tlc_state → IsValid (with_next s).tlc_state
unfolding with_next
with_next-IsValid s v = record {
  local_valid = v.local_valid;
  remote_valid = record { index_le = v.remote_valid.index_le; distinct = v.remote_valid.distinct };
  offered_copies = v.offered_copies;
  received_copies = v.received_copies;
}

-- The state after the peer's TLC was inserted.
after_insert :
    (x : AddTlcInfo) (n : ℕ) (s : ChannelActorState) (u : TlcState)
    → IsSolvent s
    → x.tlc_id ≡ received n
    → x.removed_at ≡ none
    → active (received n) s.tlc_state ≡ none
    → check_insert_tlc x s ≡ ok tt
    → IsValid u
    → ((j : TlcId) → active j u ≡ or_else (active_as j (add_tlc x)) (active j s.tlc_state))
    → IsSolvent (record s { tlc_state = u })
after_insert x n s u v i r a c w g = record {
  valid = w;
  offered_le = ground (arith, v.offered_le, total-inserted is_offered x s.tlc_state u r fresh g);
  received_le = ground (
    arith,
    total-inserted is_received x s.tlc_state u r fresh g,
    check_insert_tlc-received x s (rw i refl) c,
  );
  bounded = v.bounded;
}
  where
    fresh : active x.tlc_id s.tlc_state ≡ none
    fresh = rw i a

with_next-IsSolvent : (s : ChannelActorState) → IsSolvent s → IsSolvent (with_next s)
unfolding with_next
with_next-IsSolvent s v = record {
  valid = with_next-IsValid s v.valid;
  offered_le =
      rw (total-same is_offered s.tlc_state (with_next s).tlc_state (λ j. refl)) v.offered_le;
  received_le =
      rw (total-same is_received s.tlc_state (with_next s).tlc_state (λ j. refl)) v.received_le;
  bounded = v.bounded;
}

-- The part of `handle_add_tlc_peer_message` behind the checks.
abbrev pub enter : AddTlcInfo → ChannelActorState → Checked ChannelActorState
enter x s = do
  tlc_state ← add_remote_tlc (add_tlc x) s.tlc_state
  increment_next_received_tlc_id (record s { tlc_state = tlc_state })

-- What the acceptance of the peer's TLC gives.
record Entered (x : AddTlcInfo) (s t : ChannelActorState) : Type 0 where
  solvent : IsSolvent t
  local_kept : t.to_local_amount ≡ s.to_local_amount
  remote_kept : t.to_remote_amount ≡ s.to_remote_amount
  adds :
      (j : TlcId) → active j t.tlc_state ≡ or_else (active_as j (add_tlc x)) (active j s.tlc_state)

enter-Entered :
    (x : AddTlcInfo) (n : ℕ) (s t : ChannelActorState)
    → IsSolvent s
    → x.tlc_id ≡ received n
    → x.removed_at ≡ none
    → check_insert_tlc x s ≡ ok tt
    → enter x s ≡ ok t
    → Entered x s t
unfolding with_next
enter-Entered x n s t v i r c h =
    elim (Bool-cases (is_tlc_present (add_tlc x) s.tlc_state.remote_pending_tlcs)) [
      | inl p ↦ absurd (
          ground (
            arith,
            (add_remote_tlc_lem {E = ProcessingChannelError} x n s.tlc_state v.valid i).0 p,
          ))
      | inr p ↦
          let (u, e, w, g) =
            (add_remote_tlc_lem {E = ProcessingChannelError} x n s.tlc_state v.valid i).1 p in
          let middle : ChannelActorState = record s { tlc_state = u } in
          let q : t ≡ with_next middle =
            increment_next_received_tlc_id_lem middle t (ground (arith, e)) in
          let solvent : IsSolvent middle =
            after_insert x n s u v i r (active_absent_received n x s.tlc_state v.valid i p) c w g in
          rw q (record {
            solvent = with_next-IsSolvent middle solvent;
            local_kept = refl;
            remote_kept = refl;
            adds = g;
          })
    ]

-- An `AddTlc` message that is accepted keeps a solvent channel solvent: both balances stay, and of
-- the TLCs that count only the new one changes, which waits under its id with the message's amount.
pub handle_add_tlc_peer_message-IsSolvent :
    (message : AddTlc) (s t : ChannelActorState)
    → IsSolvent s
    → handle_add_tlc_peer_message message s ≡ ok t
    → IsSolvent t
      × (t.to_local_amount ≡ s.to_local_amount)
      × (t.to_remote_amount ≡ s.to_remote_amount)
      × (active (received message.tlc_id) t.tlc_state ≡ some (create_inbounding_tlc message s))
      × ((j : TlcId) → j ≢ received message.tlc_id → active j t.tlc_state ≡ active j s.tlc_state)
unfolding handle_add_tlc_peer_message
handle_add_tlc_peer_message-IsSolvent message s t v h =
    let (_, _, h') = >>=-Passed (check_for_tlc_update (some message.amount) false false s) _ h in
    let (_, c, h'') = >>=-Passed (check_insert_tlc (create_inbounding_tlc message s) s) _ h' in
    let w = enter-Entered (create_inbounding_tlc message s) message.tlc_id s t v refl refl c h'' in
    (
      w.solvent,
      w.local_kept,
      w.remote_kept,
      w.adds (received message.tlc_id)
          ∙ ground (arith, same_iff (received message.tlc_id) (received message.tlc_id)),
      λ j ne. w.adds j ∙ ground (arith, same_iff (received message.tlc_id) j),
    )
