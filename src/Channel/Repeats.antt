-- ===== src/Channel/Repeats.antt =====
-- Peer messages that come twice before the commitment is signed: the handlers' checks let them
-- through, and the `assert!` of `PendingTlcs::push` ends the process.
use ai_ckb_backend.Common.{
  ℕ, ◌≡◌, refl, ◌∙◌, true, false, [], ◌∷◌, ◌++◌, some, none, arith, any-append,
}
use ai_ckb_backend.Common.Outcome.{ok, panic, >>=-Passed}
use ai_ckb_backend.Tlc.Id.{offered}
use ai_ckb_backend.Tlc.Info.{HashAlgorithm}
use ai_ckb_backend.Tlc.Kind.{TlcKind, add_tlc, remove_tlc, same_operation, same_operation_refl}
use ai_ckb_backend.Tlc.Pending.{push, increment_next_tlc_id}
use ai_ckb_backend.Tlc.State.{TlcState, add_remote_tlc, increment_received, get_tlc}
use ai_ckb_backend.Channel.Error.{ProcessingChannelError}
use ai_ckb_backend.Channel.State.{ChannelActorState, increment_next_received_tlc_id}
use ai_ckb_backend.Channel.Checks.{
  check_insert_tlc, check_for_tlc_update, check_remove_tlc_with_reason,
}
use ai_ckb_backend.Channel.Messages.{
  AddTlc, RemoveTlc, handle_add_tlc_peer_message, handle_remove_tlc_peer_message,
  create_inbounding_tlc, removal_info,
}

-- What is pushed is the last of the remote list.
add_remote_tlc-last :
    (t : TlcKind) (s u : TlcState)
    → add_remote_tlc {E = ProcessingChannelError} t s ≡ ok u
    → u.remote_pending_tlcs.tlcs ≡ s.remote_pending_tlcs.tlcs ++ t ∷ []
unfolding add_remote_tlc push
add_remote_tlc-last t s u h = ground arith

add_remote_tlc-again :
    (t r : TlcKind) (s u : TlcState)
    → same_operation t r ≡ true
    → u.remote_pending_tlcs.tlcs ≡ s.remote_pending_tlcs.tlcs ++ t ∷ []
    → add_remote_tlc {E = ProcessingChannelError} r u ≡ panic
unfolding add_remote_tlc push
add_remote_tlc-again t r s u e h =
    ground (arith, any-append (λ x. same_operation x r) s.remote_pending_tlcs.tlcs (t ∷ []))

increment_keeps_list :
    (s t : ChannelActorState)
    → increment_next_received_tlc_id {E = ProcessingChannelError} s ≡ ok t
    → t.tlc_state.remote_pending_tlcs.tlcs ≡ s.tlc_state.remote_pending_tlcs.tlcs
unfolding increment_next_received_tlc_id increment_received increment_next_tlc_id
increment_keeps_list s t h = ground arith

-- After an accepted `AddTlc`, one with the same TLC id that passes the checks (as one with another
-- payment hash and an amount within the limits does) panics: no check looks at the id.
pub handle_add_tlc_peer_message_same_id :
    (first second : AddTlc) (s t : ChannelActorState)
    → handle_add_tlc_peer_message first s ≡ ok t
    → second.tlc_id ≡ first.tlc_id
    → check_for_tlc_update (some second.amount) false false t ≡ ok tt
    → check_insert_tlc (create_inbounding_tlc second t) t ≡ ok tt
    → handle_add_tlc_peer_message second t ≡ panic
unfolding handle_add_tlc_peer_message
handle_add_tlc_peer_message_same_id first second s t h i c d =
    let (_, _, h') = >>=-Passed (check_for_tlc_update (some first.amount) false false s) _ h in
    let (_, _, h'') = >>=-Passed (check_insert_tlc (create_inbounding_tlc first s) s) _ h' in
    let (u, e, k) =
      >>=-Passed (add_remote_tlc (add_tlc (create_inbounding_tlc first s)) s.tlc_state) _ h'' in
    rw (c, d)
      (rw (
        add_remote_tlc-again (add_tlc (create_inbounding_tlc first s))
          (add_tlc (create_inbounding_tlc second t)) s.tlc_state t.tlc_state (ground arith)
          (increment_keeps_list (record s { tlc_state = u }) t k
            ∙ add_remote_tlc-last _ s.tlc_state u e)))

add_remote_tlc-local :
    (t : TlcKind) (s u : TlcState)
    → add_remote_tlc {E = ProcessingChannelError} t s ≡ ok u
    → u.local_pending_tlcs ≡ s.local_pending_tlcs
unfolding add_remote_tlc push
add_remote_tlc-local t s u h = ground arith

-- The checks of a removal read the channel's state and the local list, and nothing else.
checks_again :
    (hash : HashAlgorithm → ℕ → ℕ) (message : RemoveTlc) (s : ChannelActorState) (u : TlcState)
    → u.local_pending_tlcs ≡ s.tlc_state.local_pending_tlcs
    → (check_for_tlc_update none false false (record s { tlc_state = u })
        ≡ check_for_tlc_update none false false s)
      × (check_remove_tlc_with_reason hash
            (offered message.tlc_id)
            message.reason
            (record s { tlc_state = u })
          ≡ check_remove_tlc_with_reason hash (offered message.tlc_id) message.reason s)
unfolding check_for_tlc_update check_remove_tlc_with_reason get_tlc
checks_again hash message s u e = (refl, rw e)

-- An accepted `RemoveTlc` message that comes a second time panics: the checks look only at the
-- removals that were applied.
pub handle_remove_tlc_peer_message_twice :
    (hash : HashAlgorithm → ℕ → ℕ) (message : RemoveTlc) (s t : ChannelActorState)
    → handle_remove_tlc_peer_message hash message s ≡ ok t
    → handle_remove_tlc_peer_message hash message t ≡ panic
unfolding handle_remove_tlc_peer_message
handle_remove_tlc_peer_message_twice hash message s t h =
    let (_, c, h') = >>=-Passed (check_for_tlc_update none false false s) _ h in
    let (_, d, h'') =
      >>=-Passed (check_remove_tlc_with_reason hash (offered message.tlc_id) message.reason s) _
        h' in
    let (u, e, k) =
      >>=-Passed (add_remote_tlc (remove_tlc (removal_info message)) s.tlc_state) _ h'' in
    let again = checks_again hash message s u (add_remote_tlc-local _ s.tlc_state u e) in
    let x : TlcKind = remove_tlc (removal_info message) in
    let q : t ≡ record s { tlc_state = u } = ground arith in
    rw q (
      rw (again.0 ∙ c, again.1 ∙ d)
        (rw (
          add_remote_tlc-again x x s.tlc_state u (same_operation_refl x)
            (add_remote_tlc-last x s.tlc_state u e))))
