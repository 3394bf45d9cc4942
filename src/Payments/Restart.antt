-- ===== src/Payments/Restart.antt =====
-- What a delayed retry and a dry run do to a payment that is under way or done
-- (fiber/src/fiber/network.rs).
use mathlib.Core.Path.{subst}
use ai_ckb_backend.Common.{ℕ, ◌+◌, ◌≡◌, refl, sym, ◌∙◌, ap, true, List, some, none, arith}
use ai_ckb_backend.Common.BTreeMap.{Key_ord, get, get-insert, key_eq}
use ai_ckb_backend.Common.Outcome.{ok}
use ai_ckb_backend.Tlc.Info.{Hash256}
use ai_ckb_backend.Graph.Route.{PaymentHopData}
use ai_ckb_backend.Graph.State.{process_all, NetworkGraph}
use ai_ckb_backend.Graph.Session.{
  PaymentSession, SendPaymentData, inflight, failed, no_route, set_inflight_status, set_status,
  set_failed_status, new_session, can_retry, session_route,
}
use ai_ckb_backend.Payments.State.{
  Network, Attempt, rejected, accepted, send_payment, insert_payment_session, get_payment_session,
  set_payment_fail_with_error,
}
use ai_ckb_backend.Payments.Send.{
  Host, build_route, build_payment_route, first_tx_hash, first_hop_answer,
  send_payment_onion_packet, try_payment_session, retry_send_payment, send_request, send_as,
}
use ai_ckb_backend.Payments.Remove.{RemoveTlcReason, on_remove_tlc_event, on_session, on_stored}

same_key : (k : ℕ) → key_eq k k ≡ true
same_key k = ground arith

get_same :
    (s : PaymentSession) (n : Network)
    → get s.request.payment_hash (insert_payment_session s n).sessions ≡ some s
unfolding insert_payment_session
get_same s n =
    get-insert s.request.payment_hash s.request.payment_hash s n.sessions
    ∙ rw (same_key s.request.payment_hash) refl

module _ (host : Host) where
  -- What the attempt meets: the graph after the gossip messages, hops of a route in it whose first has
  -- a channel, and a first hop that accepts.
  pub record GoesOut (a : Attempt) (d : SendPaymentData) (n : Network) (tlc_id : ℕ) : Type 0 where
    pub graph : NetworkGraph
    pub loads :
        process_all host.announcement_of host.crates host.own_chain a.loaded n.graph ≡ ok graph
    pub hops : List PaymentHopData
    pub routes : build_route host a d graph ≡ ok (some hops)
    pub hash : Hash256
    pub has_channel : first_tx_hash hops ≡ ok hash
    pub accepts : a.first_hop ≡ accepted tlc_id

  -- A delayed retry of a stored session that has tries left, with an attempt that goes out: the payment
  -- is sent again and its session is in flight with one more try, whatever its status was, a payment
  -- that is in flight or has succeeded included.
  pub retry_send_payment_any_status :
      (a : Attempt) (s : PaymentSession) (n : Network) (tlc_id : ℕ)
      → get s.request.payment_hash n.sessions ≡ some s
      → can_retry s ≡ true
      → GoesOut a s.request n tlc_id
      → (n' : Network) × (s' : PaymentSession) × (retry_send_payment host a s.request.payment_hash n
          ≡ ok n')
        × (get s.request.payment_hash n'.sessions ≡ some s')
        × (s'.status ≡ inflight)
        × (s'.retried_times ≡ s.retried_times + 1)
        × (s'.first_hop_tlc_id ≡ some tlc_id)
  unfolding retry_send_payment try_payment_session get_payment_session build_payment_route
      send_payment_onion_packet first_hop_answer set_inflight_status set_status
  retry_send_payment_any_status a s n tlc_id e c g =
      let sent : PaymentSession =
        set_inflight_status a.now (host.outpoint_new g.hash 0) tlc_id (record s {
          retried_times = s.retried_times + 1;
          session_key = a.session_key;
          route = session_route host.outpoint_new n.public_key s.request.target_pubkey g.hops;
        }) in
      (
        insert_payment_session sent (record n { graph = g.graph }),
        sent,
        rw (g.loads, e, c, g.routes, g.has_channel, g.has_channel, first_hop_answer, g.accepts)
            refl,
        get_same sent (record n { graph = g.graph }),
        refl,
        refl,
        refl,
      )

  ignored :
      (b : Attempt) (reason : RemoveTlcReason) (s : PaymentSession) (n : Network)
      → s.status ≡ failed
      → on_remove_tlc_event host b s.request.payment_hash reason (insert_payment_session s n)
        ≡ ok (insert_payment_session s n)
  unfolding on_remove_tlc_event get_payment_session
  ignored b reason s n f =
      ap (λ o. on_stored host b reason o (insert_payment_session s n)) (get_same s n)
      ∙ ap (λ st. on_session host b reason st s (insert_payment_session s n)) f

  -- A dry run that finds no route stores a failed session of its own in place of the session of the
  -- same payment hash, whatever that is, and the end of a payment TLC of that hash is then ignored.
  pub send_request_dry_run :
      (a : Attempt) (d : SendPaymentData) (n : Network)
      → d.dry_run ≡ true
      → build_route host a d n.graph ≡ ok none
      → (n' : Network) × (s' : PaymentSession) × (send_request host a d n
          ≡ ok (n', rejected (send_payment no_route)))
        × (get d.payment_hash n'.sessions ≡ some s')
        × (s'.status ≡ failed)
        × (s'.try_limit ≡ 0)
        × ((b : Attempt) (reason : RemoveTlcReason)
            → on_remove_tlc_event host b d.payment_hash reason n' ≡ ok n')
  unfolding send_request build_payment_route new_session set_payment_fail_with_error
      set_failed_status set_status on_remove_tlc_event get_payment_session
  send_request_dry_run a d n e r =
      let stored : PaymentSession = set_failed_status a.now no_route (new_session a.now d 0) in
      (
        insert_payment_session stored n,
        stored,
        subst
            (λ b.
              send_as host b a d n
              ≡ ok (insert_payment_session stored n, rejected (send_payment no_route)))
            (sym e) (rw r refl),
        get_same stored n,
        refl,
        refl,
        λ b reason. ignored b reason stored n refl,
      )
