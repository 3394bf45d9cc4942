-- ===== src/Payments/Steps.antt =====
-- The payments as a state machine (fiber/src/fiber/network.rs): the commands and events as steps, what
-- is reached from a network, and the bound on the attempts there.
use mathlib.Core.Path.{subst}
use ai_ckb_backend.Common.{
  ℕ, ◌≡◌, refl, sym, ◌∙◌, Bool, true, false, List, ◌∷◌, ◌++◌, Option, some, none, arith, inl, inr,
  Bool-cases, Option-cases,
}
use ai_ckb_backend.Common.BTreeMap.{Key_ord, get}
use ai_ckb_backend.Common.Outcome.{ok, err, panic, >>=-Passed, ok_same}
use ai_ckb_backend.Tlc.Info.{Hash256}
use ai_ckb_backend.History.ErrorCode.{TlcErr}
use ai_ckb_backend.Graph.Route.{PaymentHopData}
use ai_ckb_backend.Graph.Session.{
  PaymentSession, SendPaymentData, new_session, set_success_status, set_status, remote_failed,
  PaymentSessionStatus, created, inflight, success, failed,
}
use ai_ckb_backend.Payments.Request.{SendPaymentCommand, Checked, new_request}
use ai_ckb_backend.Payments.State.{
  Network, Attempt, Reply, done, rejected, insert_payment_session, get_payment_session,
  update_graph_with_tlc_fail, record_fail,
}
use ai_ckb_backend.Payments.Failure.{
  update_graph_with_tlc_fail-KeepsSessions, record_fail-KeepsSessions, record_success-sessions,
}
use ai_ckb_backend.Payments.Send.{
  Host, Response, build_payment_route, try_payment_session, retry_send_payment, send_request,
  on_send_payment, start_session, start_over, send_as, send_checked, respond, dry_run_response,
  response_from, is_failed,
}
use ai_ckb_backend.Payments.Remove.{
  RemoveTlcReason, remove_tlc_fulfill, remove_tlc_fail, error_or_default, on_session, on_tlc_fail,
  on_reason, on_remove_tlc_event,
}
use ai_ckb_backend.Payments.Bounded.{
  IsBounded, AllBounded, insert-AllBounded, fail-AllBounded, build_payment_route-AllBounded,
  try_payment_session-AllBounded,
}

module _ (host : Host) where
  -- A command, a delayed retry that is delivered, or the end of a payment TLC, with any answers.
  pub data Step : Network → Network → Type 0 where
    sent :
        {n n' : Network} (a : Attempt) (random : Hash256) (command : SendPaymentCommand)
        (reply : Reply Response)
        → on_send_payment host a random command n ≡ ok (n', reply)
        → Step n n'
    retried :
        {n n' : Network} (a : Attempt) (hash : Hash256) (before after : List Hash256)
        → n.retries ≡ before ++ (hash ∷ after)
        → retry_send_payment host a hash (record n { retries = before ++ after }) ≡ ok n'
        → Step n n'
    removed :
        {n n' : Network} (a : Attempt) (hash : Hash256) (reason : RemoveTlcReason)
        → on_remove_tlc_event host a hash reason n ≡ ok n'
        → Step n n'

  pub data Reaches : Network → Network → Type 0 where
    start : {n : Network} → Reaches n n
    next : {n m k : Network} → Reaches n m → Step m k → Reaches n k

  respond-sessions :
      (r : Network × Reply PaymentSession) (t : Network × Reply Response)
      → respond host r ≡ ok t
      → t.0.sessions ≡ r.0.sessions
  respond-sessions (n, rejected e) t h =
      sym (subst (λ (x : Network × Reply Response). n.sessions ≡ x.0.sessions) (ok_same h) refl)
  respond-sessions (n, done s) t h =
      let (r, _, h1) = >>=-Passed (response_from s) _ h in
      sym (subst (λ (x : Network × Reply Response). n.sessions ≡ x.0.sessions) (ok_same h1) refl)

  start_session-AllBounded :
      (a : Attempt) (d : SendPaymentData) (n : Network) (t : Network × Reply Response)
      → AllBounded n.sessions
      → start_session host a d n ≡ ok t
      → AllBounded t.0.sessions
  unfolding new_session
  start_session-AllBounded a d n t k h =
      let stored : AllBounded (insert_payment_session (new_session a.now d 5) n).sessions =
        insert-AllBounded (new_session a.now d 5) n (omega arith) k in
      let (tried, e, h1) =
        >>=-Passed
          (try_payment_session host a d.payment_hash
            (insert_payment_session (new_session a.now d 5) n))
          _ h in
      subst AllBounded (sym (respond-sessions tried t h1))
        (try_payment_session-AllBounded host a d.payment_hash _ tried stored e)

  start_over-AllBounded :
      (a : Attempt) (d : SendPaymentData) (o : Option PaymentSession) (n : Network)
      (t : Network × Reply Response)
      → AllBounded n.sessions
      → start_over host a d o n ≡ ok t
      → AllBounded t.0.sessions
  start_over-AllBounded a d none n t k h = start_session-AllBounded a d n t k h
  start_over-AllBounded a d (some s) n t k h = elim (Bool-cases (is_failed host s.status)) [
    | inl f ↦ start_session-AllBounded a d n t k (rw f at h)
    | inr f ↦
        subst (λ (x : Network × Reply Response). AllBounded x.0.sessions) (ok_same (rw f at h)) k
  ]

  dry_run_response-sessions :
      (key : ℕ) (d : SendPaymentData) (s : PaymentSession)
      (r : Network × Reply (List PaymentHopData)) (t : Network × Reply Response)
      → dry_run_response host key d s r ≡ ok t
      → t.0.sessions ≡ r.0.sessions
  dry_run_response-sessions key d s (n, rejected e) t h =
      sym (subst (λ (x : Network × Reply Response). n.sessions ≡ x.0.sessions) (ok_same h) refl)
  dry_run_response-sessions key d s (n, done hops) t h = respond-sessions (n, done _) t h

  send_as-AllBounded :
      (dry : Bool) (a : Attempt) (d : SendPaymentData) (n : Network) (t : Network × Reply Response)
      → AllBounded n.sessions
      → send_as host dry a d n ≡ ok t
      → AllBounded t.0.sessions
  unfolding new_session
  send_as-AllBounded true a d n t k h =
      let (r, e, h1) = >>=-Passed (build_payment_route host a (new_session a.now d 0) d n) _ h in
      subst AllBounded
        (sym (dry_run_response-sessions n.public_key d (new_session a.now d 0) r t h1))
        (build_payment_route-AllBounded host a (new_session a.now d 0) d n r (omega arith) k e)
  send_as-AllBounded false a d n t k h =
      start_over-AllBounded a d (get_payment_session d.payment_hash n) n t k h

  send_checked-AllBounded :
      (a : Attempt) (c : Checked SendPaymentData) (n : Network) (t : Network × Reply Response)
      → AllBounded n.sessions
      → send_checked host a c n ≡ ok t
      → AllBounded t.0.sessions
  unfolding send_request
  send_checked-AllBounded a (ok d) n t k h = send_as-AllBounded d.dry_run a d n t k h
  send_checked-AllBounded a (err e) n t k h =
      subst (λ (x : Network × Reply Response). AllBounded x.0.sessions) (ok_same h) k
  send_checked-AllBounded a panic n t k h = absurd (ground (arith, h))

  sent-AllBounded :
      (a : Attempt) (random : Hash256) (command : SendPaymentCommand) (n : Network)
      (t : Network × Reply Response)
      → AllBounded n.sessions
      → on_send_payment host a random command n ≡ ok t
      → AllBounded t.0.sessions
  unfolding on_send_payment
  sent-AllBounded a random command n t k h =
      send_checked-AllBounded a (new_request host.parse_invoice host.blake2b_256 random command) n t
        k h

  retried-AllBounded :
      (a : Attempt) (hash : Hash256) (n n' : Network)
      → AllBounded n.sessions
      → retry_send_payment host a hash n ≡ ok n'
      → AllBounded n'.sessions
  unfolding retry_send_payment
  retried-AllBounded a hash n n' k h =
      let (tried, e, h1) = >>=-Passed (try_payment_session host a hash n) _ h in
      subst (λ (x : Network). AllBounded x.sessions) (ok_same h1)
        (try_payment_session-AllBounded host a hash n tried k e)

  on_tlc_fail-AllBounded :
      (a : Attempt) (s : PaymentSession) (e : TlcErr) (n n' : Network)
      → IsBounded s
      → AllBounded n.sessions
      → on_tlc_fail host a s e n ≡ ok n'
      → AllBounded n'.sessions
  unfolding on_tlc_fail
  on_tlc_fail-AllBounded a s e n n' b k h =
      let (marked, m, h1) = >>=-Passed (update_graph_with_tlc_fail e n) _ h in
      let (recorded, f, h2) = >>=-Passed (record_fail a.now s e marked) _ h1 in
      let kept : recorded.0.sessions ≡ n.sessions =
        (record_fail-KeepsSessions a.now s e marked recorded f).1
        ∙ (update_graph_with_tlc_fail-KeepsSessions e n marked m).1 in
      let still : AllBounded recorded.0.sessions = subst AllBounded (sym kept) k in
      elim (Bool-cases recorded.1) [
        | inl r ↦
            let (tried, g, h3) =
              >>=-Passed (try_payment_session host a s.request.payment_hash recorded.0) _
                (rw r at h2) in
            subst (λ (x : Network). AllBounded x.sessions) (ok_same h3)
              (try_payment_session-AllBounded host a s.request.payment_hash recorded.0 tried still
                g)
        | inr r ↦
            subst (λ (x : Network). AllBounded x.sessions) (ok_same (rw r at h2))
              (fail-AllBounded a.now (remote_failed e.error_code) s recorded.0 b still)
      ]

  on_reason-AllBounded :
      (a : Attempt) (s : PaymentSession) (reason : RemoveTlcReason) (n n' : Network)
      → IsBounded s
      → AllBounded n.sessions
      → on_reason host a s reason n ≡ ok n'
      → AllBounded n'.sessions
  unfolding set_success_status set_status
  on_reason-AllBounded a s remove_tlc_fulfill n n' b k h =
      subst AllBounded (sym (record_success-sessions a.now s n n' h))
        (insert-AllBounded (set_success_status a.now s) n b k)
  on_reason-AllBounded a s (remove_tlc_fail decoded) n n' b k h =
      on_tlc_fail-AllBounded a s (error_or_default decoded) n n' b k h

  on_session-AllBounded :
      (a : Attempt) (reason : RemoveTlcReason) (status : PaymentSessionStatus) (s : PaymentSession)
      (n n' : Network)
      → IsBounded s
      → AllBounded n.sessions
      → on_session host a reason status s n ≡ ok n'
      → AllBounded n'.sessions
  on_session-AllBounded a reason inflight s n n' b k h = on_reason-AllBounded a s reason n n' b k h
  on_session-AllBounded a reason created s n n' b k h =
      subst (λ (x : Network). AllBounded x.sessions) (ok_same h) k
  on_session-AllBounded a reason success s n n' b k h =
      subst (λ (x : Network). AllBounded x.sessions) (ok_same h) k
  on_session-AllBounded a reason failed s n n' b k h =
      subst (λ (x : Network). AllBounded x.sessions) (ok_same h) k

  removed-AllBounded :
      (a : Attempt) (hash : Hash256) (reason : RemoveTlcReason) (n n' : Network)
      → AllBounded n.sessions
      → on_remove_tlc_event host a hash reason n ≡ ok n'
      → AllBounded n'.sessions
  unfolding on_remove_tlc_event get_payment_session
  removed-AllBounded a hash reason n n' k h = elim (Option-cases (get hash n.sessions)) [
    | inl e ↦
        subst (λ (x : Network). AllBounded x.sessions) (ok_same (rw (e, on_remove_tlc_event) at h))
          k
    | inr (s, e) ↦
        on_session-AllBounded a reason s.status s n n' (k hash s e).0 k
          (rw (e, on_remove_tlc_event) at h)
  ]

  step-AllBounded : {n n' : Network} → Step n n' → AllBounded n.sessions → AllBounded n'.sessions
  step-AllBounded {n} {n'} (sent a random command reply h) k =
      sent-AllBounded a random command n (n', reply) k h
  step-AllBounded {n} {n'} (retried a hash before after r h) k =
      retried-AllBounded a hash (record n { retries = before ++ after }) n' k h
  step-AllBounded {n} {n'} (removed a hash reason h) k = removed-AllBounded a hash reason n n' k h

  -- If every session that is stored has at most as many tries as its limit and stands under the hash of
  -- its payment, then so does every session that is stored after any commands, delayed retries and
  -- ends of payment TLCs, whatever path finding, the first hop and the other nodes answer.
  pub Reaches-AllBounded :
      {n n' : Network} → Reaches n n' → AllBounded n.sessions → AllBounded n'.sessions
  Reaches-AllBounded start k = k
  Reaches-AllBounded (next r s) k = step-AllBounded s (Reaches-AllBounded r k)
