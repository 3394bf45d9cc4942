-- ===== src/Channel/Settlement.antt =====
-- What `remove_tlc_with_reason` does to the balances.
use ai_ckb_backend.Common.{
  ℕ, ◌+◌, ◌-◌, ◌≤◌, ◌<◌, ◌≡◌, refl, ◌∙◌, Option, some, none, arith, if◌then◌else◌, Option-cases,
  inl, inr,
}
use ai_ckb_backend.Common.Outcome.{ok, u128_mod}
use ai_ckb_backend.Tlc.Id.{TlcId, offered, received, same}
use ai_ckb_backend.Tlc.Info.{
  AddTlcInfo, RemoveTlcReason, remove_tlc_fulfill, remove_tlc_fail, HashAlgorithm, is_offered,
  is_received,
}
use ai_ckb_backend.Tlc.Commitment.{CommitmentNumbers}
use ai_ckb_backend.Tlc.State.{TlcState, get_tlc, apply_remove_tlc}
use ai_ckb_backend.Tlc.State.Active.{
  last_active, last_active-append, last_active-find_add, last_active-id, find_add-id,
}
use ai_ckb_backend.Tlc.State.Remove.{active, IsValid, apply_remove_tlc_total}
use ai_ckb_backend.Channel.Error.{ProcessingChannelError}
use ai_ckb_backend.Channel.State.{ChannelActorState}
use ai_ckb_backend.Channel.Checks.{check_preimage}
use ai_ckb_backend.Channel.Settle.{remove_tlc_with_reason, moved_balances, update_balance, settle}
use ai_ckb_backend.Channel.Amounts.{total, counted, total-removed}
use ai_ckb_backend.Channel.Solvency.{IsSolvent}

-- The TLC that counts under the id of one that `get` finds.
record Counts (i : TlcId) (current : AddTlcInfo) (s : TlcState) : Type 0 where
  entry : AddTlcInfo
  found : active i s ≡ some entry
  amount : entry.amount ≡ current.amount
  entry_id : entry.tlc_id ≡ i
  current_id : current.tlc_id ≡ i

get_tlc-Counts :
    (i : TlcId) (current : AddTlcInfo) (s : TlcState)
    → IsValid s
    → get_tlc i s ≡ some current
    → current.removed_at ≡ none
    → Counts i current s
unfolding get_tlc
get_tlc-Counts (offered n) current s v h r =
    elim (Option-cases (last_active (offered n) s.remote_pending_tlcs.tlcs)) [
      | inl e ↦ record {
        entry = current;
        found =
            last_active-append (offered n) s.local_pending_tlcs.tlcs s.remote_pending_tlcs.tlcs
            ∙ rw e here;
        amount = refl;
        entry_id = id;
        current_id = id;
      }
      | inr (b, e) ↦
          let (a, p, q) = v.offered_copies n b e in
          record {
            entry = b;
            found =
                last_active-append (offered n) s.local_pending_tlcs.tlcs s.remote_pending_tlcs.tlcs
                ∙ rw e;
            amount = ground (arith, here);
            entry_id = last_active-id (offered n) s.remote_pending_tlcs.tlcs e;
            current_id = id;
          }
    ]
  where
    here : last_active (offered n) s.local_pending_tlcs.tlcs ≡ some current
    here =
        last_active-find_add (offered n) s.local_pending_tlcs.tlcs v.local_valid.distinct h ∙ rw r

    id : current.tlc_id ≡ offered n
    id = find_add-id (offered n) s.local_pending_tlcs.tlcs h
get_tlc-Counts (received n) current s v h r = record {
  entry = current;
  found =
      last_active-append (received n) s.local_pending_tlcs.tlcs s.remote_pending_tlcs.tlcs
      ∙ rw here;
  amount = refl;
  entry_id = id;
  current_id = id;
}
  where
    here : last_active (received n) s.remote_pending_tlcs.tlcs ≡ some current
    here =
        last_active-find_add (received n) s.remote_pending_tlcs.tlcs v.remote_valid.distinct h
        ∙ rw r

    id : current.tlc_id ≡ received n
    id = find_add-id (received n) s.remote_pending_tlcs.tlcs h

-- What this side pays, and what it earns, by a removal for this reason: the amount of a fulfilled
-- TLC, offered or received.
abbrev pub paid : AddTlcInfo → RemoveTlcReason → ℕ
paid current (remove_tlc_fulfill preimage) = counted is_offered current
paid current (remove_tlc_fail packet) = 0

abbrev pub earned : AddTlcInfo → RemoveTlcReason → ℕ
earned current (remove_tlc_fulfill preimage) = counted is_received current
earned current (remove_tlc_fail packet) = 0

abbrev moved : AddTlcInfo → RemoveTlcReason → ChannelActorState → ChannelActorState
moved current reason s = record s {
  to_local_amount = s.to_local_amount + earned current reason - paid current reason;
  to_remote_amount = s.to_remote_amount + paid current reason - earned current reason;
}

update_balance_lem :
    (hash : HashAlgorithm → ℕ → ℕ) (current : AddTlcInfo) (reason : RemoveTlcReason)
    (s : ChannelActorState)
    → check_preimage hash current reason ≡ ok tt
    → paid current reason ≤ s.to_local_amount
    → earned current reason ≤ s.to_remote_amount
    → s.to_local_amount + s.to_remote_amount < u128_mod
    → update_balance hash current reason s ≡ ok (moved current reason s)
unfolding moved_balances
update_balance_lem hash current (remove_tlc_fulfill preimage) s c p e b = ground arith
update_balance_lem hash current (remove_tlc_fail packet) s c p e b = ground arith

-- What a removal makes of the channel.
pub record Settled (i : TlcId) (current : AddTlcInfo) (reason : RemoveTlcReason)
    (s t : ChannelActorState) : Type 0 where
  pub solvent : IsSolvent t
  pub local : t.to_local_amount + paid current reason ≡ s.to_local_amount + earned current reason
  pub remote : t.to_remote_amount + earned current reason ≡ s.to_remote_amount + paid current reason
  pub conserved : t.to_local_amount + t.to_remote_amount ≡ s.to_local_amount + s.to_remote_amount
  pub removes :
      (j : TlcId) → active j t.tlc_state ≡ (if same j i then none else active j s.tlc_state)

-- The parts of the totals that the removed TLC held.
record Shares (current : AddTlcInfo) (s u : TlcState) : Type 0 where
  offered_share : total is_offered s ≡ total is_offered u + counted is_offered current
  received_share : total is_received s ≡ total is_received u + counted is_received current

Counts-Shares :
    (i : TlcId) (current : AddTlcInfo) (s u : TlcState)
    → Counts i current s
    → ((j : TlcId) → active j u ≡ (if same j i then none else active j s))
    → Shares current s u
Counts-Shares i current s u k h = record {
  offered_share =
      ground (
        arith,
        total-removed is_offered i k.entry s u k.found h,
        k.amount,
        k.entry_id,
        k.current_id,
      );
  received_share = ground (
    arith,
    total-removed is_received i k.entry s u k.found h,
    k.amount,
    k.entry_id,
    k.current_id,
  );
}

-- The balances cover what is paid and earned, and the rest covers the TLCs that are left.
record Covers (current : AddTlcInfo) (reason : RemoveTlcReason) (s : ChannelActorState)
    (u : TlcState) : Type 0 where
  pays : total is_offered u + paid current reason ≤ s.to_local_amount
  earns : total is_received u + earned current reason ≤ s.to_remote_amount

Shares-Covers :
    (current : AddTlcInfo) (reason : RemoveTlcReason) (s : ChannelActorState) (u : TlcState)
    → IsSolvent s
    → Shares current s.tlc_state u
    → Covers current reason s u
Shares-Covers current (remove_tlc_fulfill preimage) s u v k = record {
  pays = omega (arith, v.offered_le, k.offered_share);
  earns = omega (arith, v.received_le, k.received_share);
}
Shares-Covers current (remove_tlc_fail packet) s u v k = record {
  pays = omega (arith, v.offered_le, k.offered_share);
  earns = omega (arith, v.received_le, k.received_share);
}

moved-Settled :
    (i : TlcId) (current : AddTlcInfo) (reason : RemoveTlcReason) (s : ChannelActorState)
    (u : TlcState)
    → IsSolvent s
    → IsValid u
    → Covers current reason s u
    → ((j : TlcId) → active j u ≡ (if same j i then none else active j s.tlc_state))
    → Settled i current reason s (record (moved current reason s) { tlc_state = u })
moved-Settled i current reason s u v w k h = record {
  solvent = record {
    valid = w;
    offered_le = omega (arith, k.pays);
    received_le = omega (arith, k.earns);
    bounded = omega (arith, k.pays, k.earns, v.bounded);
  };
  local = omega (arith, k.pays);
  remote = omega (arith, k.earns);
  conserved = omega (arith, k.pays, k.earns);
  removes = h;
}

settle_lem :
    (hash : HashAlgorithm → ℕ → ℕ) (current : AddTlcInfo)
    (removed : Option (CommitmentNumbers × RemoveTlcReason)) (i : TlcId) (reason : RemoveTlcReason)
    (s m : ChannelActorState) (u : TlcState)
    → removed ≡ none
    → update_balance hash current reason s ≡ ok m
    → apply_remove_tlc {E = ProcessingChannelError} i s.commitment_numbers reason s.tlc_state ≡ ok u
    → settle hash current removed i reason s ≡ ok (current, record m { tlc_state = u })
settle_lem hash current none i reason s m u r e f = rw (e, f)
settle_lem hash current (some x) i reason s m u r e f = absurd (ground arith)

module _ (hash : HashAlgorithm → ℕ → ℕ) where
  -- Removing a TLC that is there and not removed, for a failure or with the right preimage, never
  -- panics on a solvent channel. It returns the TLC. The channel stays solvent, the sum of the
  -- balances stays, a fulfilment moves exactly the TLC's amount from the side that offered it to the
  -- other and a failure moves nothing, and of the TLCs that count exactly this one is gone.
  pub remove_tlc_with_reason-Settled :
      (i : TlcId) (reason : RemoveTlcReason) (current : AddTlcInfo) (s : ChannelActorState)
      → IsSolvent s
      → get_tlc i s.tlc_state ≡ some current
      → current.removed_at ≡ none
      → check_preimage hash current reason ≡ ok tt
      → (t : ChannelActorState) × (remove_tlc_with_reason hash i reason s ≡ ok (current, t))
        × Settled i current reason s t
  unfolding remove_tlc_with_reason
  remove_tlc_with_reason-Settled i reason current s v g r c =
      let k = get_tlc-Counts i current s.tlc_state v.valid g r in
      let (u, e, w, h, _, _) =
        apply_remove_tlc_total {E = ProcessingChannelError} i s.commitment_numbers reason
          s.tlc_state v.valid in
      let covers = Shares-Covers current reason s u v (Counts-Shares i current s.tlc_state u k h) in
      let m =
        update_balance_lem hash current reason s c (omega (arith, covers.pays))
          (omega (arith, covers.earns)) v.bounded in
      (
        record (moved current reason s) { tlc_state = u },
        rw (g, remove_tlc_with_reason)
            (settle_lem hash current current.removed_at i reason s (moved current reason s) u r m
              e),
        moved-Settled i current reason s u v w covers h,
      )
