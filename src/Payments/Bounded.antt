-- ===== src/Payments/Bounded.antt =====
-- The number of attempts of a payment (fiber/src/fiber/network.rs): no stored session has more than its
-- limit, whatever happens, and a session stands under the hash of its payment.
use mathlib.Core.Path.{subst}
use ai_ckb_backend.Common.{
  ℕ, ◌+◌, ◌≤◌, ◌≡◌, refl, sym, ◌∙◌, true, false, List, Option, some, none, arith, inl, inr,
  Bool-cases, Option-cases,
}
use ai_ckb_backend.Common.BTreeMap.{Key_ord, get, get-insert, key_eq}
use ai_ckb_backend.Common.Outcome.{ok, >>=-Passed, ok_same}
use ai_ckb_backend.Tlc.Info.{Hash256}
use ai_ckb_backend.Graph.Route.{PaymentHopData}
use ai_ckb_backend.Graph.State.{process_all}
use ai_ckb_backend.Graph.Session.{
  PaymentSession, SendPaymentData, LastError, set_status, set_failed_status, set_inflight_status,
  can_retry, onion_not_created, first_hop_failed, no_route,
}
use ai_ckb_backend.Payments.State.{
  Network, Attempt, Reply, done, rejected, FirstHop, packet_not_created, refused, accepted,
  reply_dropped, first_hop_error, insert_payment_session, get_payment_session,
  set_payment_fail_with_error, update_graph_with_tlc_fail, record_fail, send_payment,
  invalid_parameter,
}
use ai_ckb_backend.Payments.Failure.{
  update_graph_with_tlc_fail-KeepsSessions, record_fail-KeepsSessions,
}
use ai_ckb_backend.Payments.Send.{
  Host, build_payment_route, build_route, routed, first_tx_hash, first_hop_answer,
  send_payment_onion_packet, after_attempt, attempt_on, try_session, try_payment_session,
  loaded_graph,
}

abbrev pub IsBounded : PaymentSession → Type 0
IsBounded s = s.retried_times ≤ s.try_limit

abbrev pub Sessions : Type 0
Sessions = List (Hash256 × PaymentSession)

abbrev pub AllBounded : Sessions → Type 0
AllBounded ss =
    (q : Hash256) (s : PaymentSession)
    → get q ss ≡ some s
    → IsBounded s × (s.request.payment_hash ≡ q)

key_eq-same : (a b : ℕ) → key_eq a b ≡ true → a ≡ b
key_eq-same a b h = ground arith

pub some_same : {A : Type 0} {a b : A} → some a ≡ some b → a ≡ b
some_same h = cc

pub insert-AllBounded :
    (s : PaymentSession) (n : Network)
    → IsBounded s
    → AllBounded n.sessions
    → AllBounded (insert_payment_session s n).sessions
unfolding insert_payment_session
insert-AllBounded s n b a q t e = elim (Bool-cases (key_eq q s.request.payment_hash)) [
  | inl k ↦
      let same : s ≡ t =
        some_same (sym (rw (get-insert q s.request.payment_hash s n.sessions, k) refl) ∙ e) in
      subst (λ (x : PaymentSession). IsBounded x × (x.request.payment_hash ≡ q)) same
        (b, sym (key_eq-same q s.request.payment_hash k))
  | inr k ↦ a q t (sym (rw (get-insert q s.request.payment_hash s n.sessions, k) refl) ∙ e)
]

pub fail-AllBounded :
    (now : ℕ) (error : LastError) (s : PaymentSession) (n : Network)
    → IsBounded s
    → AllBounded n.sessions
    → AllBounded (set_payment_fail_with_error now error s n).0.sessions
unfolding set_payment_fail_with_error set_failed_status set_status
fail-AllBounded now error s n b a = insert-AllBounded (set_failed_status now error s) n b a

module _ (host : Host) where
  pub build_payment_route-AllBounded :
      (a : Attempt) (s : PaymentSession) (d : SendPaymentData) (n : Network)
      (r : Network × Reply (List PaymentHopData))
      → IsBounded s
      → AllBounded n.sessions
      → build_payment_route host a s d n ≡ ok r
      → AllBounded r.0.sessions
  unfolding build_payment_route
  build_payment_route-AllBounded a s d n r b k h =
      let (hops, _, h1) = >>=-Passed (build_route host a d n.graph) _ h in routed-AllBounded hops h1
    where
      routed-AllBounded :
          (hops : Option (List PaymentHopData))
          → routed host a s n hops ≡ ok r
          → AllBounded r.0.sessions
      routed-AllBounded none h =
          subst (λ (x : Network × Reply (List PaymentHopData)). AllBounded x.0.sessions) (ok_same h)
            (fail-AllBounded a.now no_route s n b k)
      routed-AllBounded (some hops) h =
          let (hash, _, h1) = >>=-Passed (first_tx_hash hops) _ h in
          subst (λ (x : Network × Reply (List PaymentHopData)). AllBounded x.0.sessions)
            (ok_same h1) k

  first_hop_answer-AllBounded :
      (a : Attempt) (hash : Hash256) (s : PaymentSession) (n : Network) (f : FirstHop)
      (r : Network × PaymentSession × Reply PaymentSession)
      → IsBounded s
      → AllBounded n.sessions
      → first_hop_answer host a hash s n f ≡ ok r
      → AllBounded r.0.sessions
  unfolding first_hop_answer set_inflight_status set_status
  first_hop_answer-AllBounded a hash s n packet_not_created r b k h =
      subst (λ (x : Network × PaymentSession × Reply PaymentSession). AllBounded x.0.sessions)
        (ok_same h) (fail-AllBounded a.now (onion_not_created s.request.payment_hash) s n b k)
  first_hop_answer-AllBounded a hash s n (refused e) r b k h =
      let (marked, m, h1) = >>=-Passed (update_graph_with_tlc_fail e n) _ h in
      let (recorded, f, h2) = >>=-Passed (record_fail a.now s e marked) _ h1 in
      let kept : recorded.0.sessions ≡ n.sessions =
        (record_fail-KeepsSessions a.now s e marked recorded f).1
        ∙ (update_graph_with_tlc_fail-KeepsSessions e n marked m).1 in
      subst (λ (x : Network × PaymentSession × Reply PaymentSession). AllBounded x.0.sessions)
        (ok_same h2)
        (fail-AllBounded a.now (first_hop_failed e.error_code) s recorded.0 b
          (subst AllBounded (sym kept) k))
  first_hop_answer-AllBounded a hash s n (accepted tlc_id) r b k h =
      subst (λ (x : Network × PaymentSession × Reply PaymentSession). AllBounded x.0.sessions)
        (ok_same h)
        (insert-AllBounded (set_inflight_status a.now (host.outpoint_new hash 0) tlc_id s) n b k)
  first_hop_answer-AllBounded a hash s n reply_dropped r b k h = absurd (ground (arith, h))

  after_attempt-sessions :
      (hash : Hash256) (r : Network × PaymentSession × Reply PaymentSession)
      → (after_attempt host hash r).0.sessions ≡ r.0.sessions
  after_attempt-sessions hash (n, s, done sent) = refl
  after_attempt-sessions hash (n, s, rejected (first_hop_error e true)) = refl
  after_attempt-sessions hash (n, s, rejected (first_hop_error e false)) = refl
  after_attempt-sessions hash (n, s, rejected (send_payment e)) = refl
  after_attempt-sessions hash (n, s, rejected invalid_parameter) = refl

  attempt_on-AllBounded :
      (a : Attempt) (s : PaymentSession) (r : Network × Reply (List PaymentHopData))
      (t : Network × Reply PaymentSession)
      → IsBounded s
      → AllBounded r.0.sessions
      → attempt_on host a s r ≡ ok t
      → AllBounded t.0.sessions
  unfolding send_payment_onion_packet
  attempt_on-AllBounded a s (n, rejected e) t b k h =
      subst (λ (x : Network × Reply PaymentSession). AllBounded x.0.sessions) (ok_same h) k
  attempt_on-AllBounded a s (n, done hops) t b k h =
      let (sent, e, h1) = >>=-Passed (send_payment_onion_packet host a s s.request hops n) _ h in
      let (hash, _, h2) = >>=-Passed (first_tx_hash hops) _ e in
      subst (λ (x : Network × Reply PaymentSession). AllBounded x.0.sessions) (ok_same h1)
        (subst AllBounded (sym (after_attempt-sessions s.request.payment_hash sent))
          (first_hop_answer-AllBounded a hash _ n a.first_hop sent b k h2))

  try_session-AllBounded :
      (a : Attempt) (s : PaymentSession) (n : Network) (t : Network × Reply PaymentSession)
      → AllBounded n.sessions
      → try_session host a s n ≡ ok t
      → AllBounded t.0.sessions
  unfolding can_retry
  try_session-AllBounded a s n t k h = elim (Bool-cases (can_retry s)) [
    | inl c ↦
        let counted : PaymentSession = record s { retried_times = s.retried_times + 1 } in
        let b : IsBounded counted = ground arith in
        let (r, e, h1) =
          >>=-Passed (build_payment_route host a counted s.request n) _ (rw c at h) in
        attempt_on-AllBounded a counted r t b
          (build_payment_route-AllBounded a counted s.request n r b k e) h1
    | inr c ↦
        subst (λ (x : Network × Reply PaymentSession). AllBounded x.0.sessions)
          (ok_same (rw c at h)) k
  ]

  pub try_payment_session-AllBounded :
      (a : Attempt) (hash : Hash256) (n : Network) (t : Network × Reply PaymentSession)
      → AllBounded n.sessions
      → try_payment_session host a hash n ≡ ok t
      → AllBounded t.0.sessions
  unfolding try_payment_session get_payment_session
  try_payment_session-AllBounded a hash n t k h =
      let (graph, _, h1) =
        >>=-Passed
          (loaded_graph
            (process_all host.announcement_of host.crates host.own_chain a.loaded n.graph))
          _ h in
      elim (Option-cases (get hash n.sessions)) [
        | inl e ↦
            subst (λ (x : Network × Reply PaymentSession). AllBounded x.0.sessions)
              (ok_same (rw e at h1)) k
        | inr (s, e) ↦ try_session-AllBounded a s (record n { graph = graph }) t k (rw e at h1)
      ]
