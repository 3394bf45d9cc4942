-- ===== src/Channel/Acceptance.antt =====
-- When the handlers of the peer's `AddTlc` and `RemoveTlc` (fiber/src/fiber/channel.rs) accept a
-- message.
use ai_ckb_backend.Common.{ℕ, ◌≡◌, refl, true, false, some, none}
use ai_ckb_backend.Common.Outcome.{ok}
use ai_ckb_backend.Tlc.Id.{TlcId, offered}
use ai_ckb_backend.Tlc.Info.{AddTlcInfo, HashAlgorithm, is_offered, is_received}
use ai_ckb_backend.Tlc.Kind.{remove_tlc}
use ai_ckb_backend.Tlc.Pending.{is_tlc_present}
use ai_ckb_backend.Tlc.State.{get_tlc}
use ai_ckb_backend.Tlc.State.Add.{add_removal_lem}
use ai_ckb_backend.Tlc.State.Remove.{active}
use ai_ckb_backend.Channel.Error.{ProcessingChannelError}
use ai_ckb_backend.Channel.State.{ChannelActorState}
use ai_ckb_backend.Channel.Checks.{
  check_for_tlc_update, check_preimage, check_remove_tlc_with_reason, allows_tlc_update,
}
use ai_ckb_backend.Channel.Messages.{RemoveTlc, removal_info, handle_remove_tlc_peer_message}
use ai_ckb_backend.Channel.Amounts.{total-same}
use ai_ckb_backend.Channel.Solvency.{IsSolvent}

-- In a solvent channel whose state allows it, a `RemoveTlc` message is accepted if our TLC of its id is
-- there, carries no removal, the reason brings the right preimage if it is a fulfilment, and no
-- removal of the TLC waits in the list. The balances stay, the channel is solvent, and no TLC stops
-- counting yet.
pub handle_remove_tlc_peer_message_accepts :
    (hash : HashAlgorithm → ℕ → ℕ) (message : RemoveTlc) (tlc : AddTlcInfo) (s : ChannelActorState)
    → IsSolvent s
    → allows_tlc_update s.state false ≡ true
    → get_tlc (offered message.tlc_id) s.tlc_state ≡ some tlc
    → tlc.removed_at ≡ none
    → check_preimage hash tlc message.reason ≡ ok tt
    → is_tlc_present (remove_tlc (removal_info message)) s.tlc_state.remote_pending_tlcs ≡ false
    → (t : ChannelActorState) × (handle_remove_tlc_peer_message hash message s ≡ ok t)
      × IsSolvent t
      × (t.to_local_amount ≡ s.to_local_amount)
      × (t.to_remote_amount ≡ s.to_remote_amount)
      × ((j : TlcId) → active j t.tlc_state ≡ active j s.tlc_state)
unfolding handle_remove_tlc_peer_message check_for_tlc_update check_remove_tlc_with_reason
handle_remove_tlc_peer_message_accepts hash message tlc s v r g o c f =
    let (u, e, w, k) =
      (add_removal_lem {E = ProcessingChannelError} (removal_info message) s.tlc_state v.valid).1
        f in
    (
      record s { tlc_state = u },
      rw (r, g, check_remove_tlc_with_reason, o, c, e) refl,
      record {
        valid = w;
        offered_le = rw (total-same is_offered s.tlc_state u k) v.offered_le;
        received_le = rw (total-same is_received s.tlc_state u k) v.received_le;
        bounded = v.bounded;
      },
      refl,
      refl,
      k,
    )
