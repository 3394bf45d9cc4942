-- ===== src/Payments/Send.antt =====
-- Sending a payment and what follows (fiber/src/fiber/network.rs): the attempts, the delayed retries
-- and the end of the payment TLC.
use ai_ckb_backend.Common.{
  ℕ, ◌+◌, Bool, true, false, not, ◌&&◌, List, [], ◌∷◌, ◌++◌, Option, some, none, if◌then◌else◌,
  ◌==◌,
}
use ai_ckb_backend.Common.BTreeMap.{Key_ord, get}
use ai_ckb_backend.Common.Outcome.{ok, err, panic, add_u64, ◌>>=◌}
use ai_ckb_backend.Tlc.Info.{Hash256, HashAlgorithm, ckb_hash}
use ai_ckb_backend.Gossip.Message.{ChannelAnnouncement}
use ai_ckb_backend.Gossip.Cursor.{Crates, Parsed}
use ai_ckb_backend.Graph.State.{NetworkGraph, process_all}
use ai_ckb_backend.Graph.Route.{PathEdge, PaymentHopData, build_route_hops, no_hash}
use ai_ckb_backend.Graph.Session.{
  PaymentSession, SendPaymentData, LastError, PaymentSessionStatus, failed, no_route,
  onion_not_created, first_hop_failed, tries_used_up, new_session, set_inflight_status, can_retry,
  session_route, route_fee,
}
use ai_ckb_backend.Payments.Request.{Invoice, SendPaymentCommand, Checked, new_request}
use ai_ckb_backend.Payments.State.{
  Network, FirstHop, Attempt, Reply, Run, packet_not_created, refused, accepted, reply_dropped,
  invalid_parameter, send_payment, first_hop_error, done, rejected, insert_payment_session,
  get_payment_session, set_payment_fail_with_error, update_graph_with_tlc_fail, record_fail,
}

-- What the code calls of the store, of other crates and of the invoice module.
pub record Host : Type 0 where
  pub crates : Crates
  pub own_chain : Hash256
  pub announcement_of : ℕ → Option (ℕ × ChannelAnnouncement)
  pub parse_invoice : ℕ → Option Invoice
  pub blake2b_256 : Hash256 → Hash256
  pub tx_hash : ℕ → Hash256
  pub outpoint_new : Hash256 → ℕ → ℕ

-- `SendPaymentResponse`.
pub record Response : Type 0 where
  pub payment_hash : Hash256
  pub status : PaymentSessionStatus
  pub failed_error : Option LastError
  pub created_at : ℕ
  pub last_updated_at : ℕ
  pub fee : ℕ

unfoldable pub response_from : PaymentSession → Run Response
response_from s = do
  fee ← route_fee s.route
  ok (record {
    payment_hash = s.request.payment_hash;
    status = s.status;
    failed_error = s.last_error;
    created_at = s.created_at;
    last_updated_at = s.last_updated_at;
    fee = fee;
  })

-- No cursor is refused: its bytes are always 45.
abbrev pub loaded_graph : Parsed NetworkGraph → Run NetworkGraph
loaded_graph (ok g) = ok g
loaded_graph (err e) = panic
loaded_graph panic = panic

-- The hash of the first hop, `hops[0].funding_tx_hash`, which the default is not.
abbrev pub first_tx_hash : List PaymentHopData → Run Hash256
first_tx_hash [] = panic
first_tx_hash (h ∷ hs) = if h.funding_tx_hash == no_hash then panic else ok h.funding_tx_hash

abbrev pub algorithm_or_default : Option HashAlgorithm → HashAlgorithm
algorithm_or_default none = ckb_hash
algorithm_or_default (some a) = a

abbrev pub last_error_or : LastError → Option LastError → LastError
last_error_or e none = e
last_error_or e (some last) = last

module _ (host : Host) where
  -- The parse of `build_route`, which has been tried before.
  abbrev pub invoice_algorithm : Option ℕ → Run HashAlgorithm
  invoice_algorithm none = ok ckb_hash
  invoice_algorithm (some text) = elim (host.parse_invoice text) [
    | none ↦ panic
    | some i ↦ ok (algorithm_or_default i.hash_algorithm)
  ]

  abbrev pub hops_of_path :
      Attempt
      → SendPaymentData
      → HashAlgorithm
      → List PathEdge
      → NetworkGraph
      → Run (List PaymentHopData)
  hops_of_path a d algorithm path g = do
    expiry ← add_u64 a.now d.final_tlc_expiry_delta
    build_route_hops (λ o. get o g.channels) host.tx_hash path
        (record {
          amount = d.amount;
          expiry = expiry;
          preimage = d.preimage;
          hash_algorithm = algorithm;
        })

  abbrev pub over_path :
      Attempt
      → SendPaymentData
      → HashAlgorithm
      → Option (List PathEdge)
      → NetworkGraph
      → Run (Option (List PaymentHopData))
  over_path a d algorithm none g = ok none
  over_path a d algorithm (some path) g = do
    hops ← hops_of_path a d algorithm path g
    ok (some hops)

  -- `none` is a `PathFindError`.
  unfoldable pub build_route :
      Attempt → SendPaymentData → NetworkGraph → Run (Option (List PaymentHopData))
  build_route a d g = do
    algorithm ← invoice_algorithm d.invoice
    if g.source == d.target_pubkey && not d.allow_self_payment
        then ok none
        else over_path a d algorithm a.path g

  abbrev pub routed :
      Attempt
      → PaymentSession
      → Network
      → Option (List PaymentHopData)
      → Run (Network × Reply (List PaymentHopData))
  routed a s n none =
      ok ((set_payment_fail_with_error a.now no_route s n).0, rejected (send_payment no_route))
  routed a s n (some hops) = do hash ← first_tx_hash hops; ok (n, done hops)

  unfoldable pub build_payment_route :
      Attempt
      → PaymentSession
      → SendPaymentData
      → Network
      → Run (Network × Reply (List PaymentHopData))
  unfolding build_route
  build_payment_route a s d n = do hops ← build_route a d n.graph; routed a s n hops

  -- The match on what the first hop answers. The session is a `&mut`: the caller sees it changed.
  unfoldable pub first_hop_answer :
      Attempt
      → Hash256
      → PaymentSession
      → Network
      → FirstHop
      → Run (Network × PaymentSession × Reply PaymentSession)
  first_hop_answer a hash s n packet_not_created =
      let error = onion_not_created s.request.payment_hash in
      let (n', s') = set_payment_fail_with_error a.now error s n in
      ok (n', s', rejected (send_payment error))
  first_hop_answer a hash s n (refused e) = do
    marked ← update_graph_with_tlc_fail e n
    recorded ← record_fail a.now s e marked
    let error = first_hop_failed e.error_code
    let (n', s') = set_payment_fail_with_error a.now error s recorded.0
    ok (n', s', rejected (first_hop_error error recorded.1))
  first_hop_answer a hash s n (accepted tlc_id) =
      let s' = set_inflight_status a.now (host.outpoint_new hash 0) tlc_id s in
      ok (insert_payment_session s' n, s', done s')
  first_hop_answer a hash s n reply_dropped = panic

  unfoldable pub send_payment_onion_packet :
      Attempt
      → PaymentSession
      → SendPaymentData
      → List PaymentHopData
      → Network
      → Run (Network × PaymentSession × Reply PaymentSession)
  unfolding first_hop_answer
  send_payment_onion_packet a s d hops n = do
    hash ← first_tx_hash hops
    first_hop_answer a hash
        (record s {
          session_key = a.session_key;
          route = session_route host.outpoint_new n.public_key d.target_pubkey hops;
        })
        n a.first_hop

  abbrev pub retry_later : Hash256 → Network → Network
  retry_later hash n = record n { retries = n.retries ++ (hash ∷ []) }

  -- The match of `try_payment_session` on the attempt.
  abbrev pub after_attempt :
      Hash256 → Network × PaymentSession × Reply PaymentSession → Network × Reply PaymentSession
  after_attempt hash (n, s, done sent) = (n, done sent)
  after_attempt hash (n, s, rejected (first_hop_error e true)) = (retry_later hash n, done s)
  after_attempt hash (n, s, rejected (first_hop_error e false)) = (n, rejected (send_payment e))
  after_attempt hash (n, s, rejected e) = (retry_later hash n, rejected e)

  abbrev pub attempt_on :
      Attempt
      → PaymentSession
      → Network × Reply (List PaymentHopData)
      → Run (Network × Reply PaymentSession)
  attempt_on a s (n, rejected e) = ok (n, rejected e)
  attempt_on a s (n, done hops) = do
    sent ← send_payment_onion_packet a s s.request hops n
    ok (after_attempt s.request.payment_hash sent)

  -- A session that is there. `retried_times` is below the limit, so that it does not overflow.
  abbrev pub try_session : Attempt → PaymentSession → Network → Run (Network × Reply PaymentSession)
  try_session a s n =
      if can_retry s
      then (do
        let counted = record s { retried_times = s.retried_times + 1 }
        routed ← build_payment_route a counted s.request n
        attempt_on a counted routed)
      else ok (
        n,
        rejected (
            send_payment
              (last_error_or (tries_used_up s.request.payment_hash s.retried_times) s.last_error)),
      )

  unfoldable pub try_payment_session :
      Attempt → Hash256 → Network → Run (Network × Reply PaymentSession)
  unfolding build_payment_route send_payment_onion_packet
  try_payment_session a hash n = do
    graph ←
        loaded_graph (process_all host.announcement_of host.crates host.own_chain a.loaded n.graph)
    let fresh = record n { graph = graph }
    elim (get_payment_session hash fresh) [
      | none ↦ ok (fresh, rejected invalid_parameter)
      | some s ↦ try_session a s fresh
    ]

  -- The delayed event, delivered: its result is dropped.
  unfoldable pub retry_send_payment : Attempt → Hash256 → Network → Run Network
  retry_send_payment a hash n = do tried ← try_payment_session a hash n; ok tried.0

  abbrev pub respond : Network × Reply PaymentSession → Run (Network × Reply Response)
  respond (n, rejected e) = ok (n, rejected e)
  respond (n, done s) = do r ← response_from s; ok (n, done r)

  abbrev pub dry_run_response :
      ℕ
      → SendPaymentData
      → PaymentSession
      → Network × Reply (List PaymentHopData)
      → Run (Network × Reply Response)
  dry_run_response key d s (n, rejected e) = ok (n, rejected e)
  dry_run_response key d s (n, done hops) =
      respond
        (n, done (record s { route = session_route host.outpoint_new key d.target_pubkey hops }))

  abbrev pub start_session : Attempt → SendPaymentData → Network → Run (Network × Reply Response)
  start_session a d n = do
    tried ← try_payment_session a d.payment_hash (insert_payment_session (new_session a.now d 5) n)
    respond tried

  abbrev pub is_failed : PaymentSessionStatus → Bool
  is_failed failed = true
  is_failed _ = false

  abbrev pub start_over :
      Attempt → SendPaymentData → Option PaymentSession → Network → Run (Network × Reply Response)
  start_over a d none n = start_session a d n
  start_over a d (some s) n =
      if is_failed s.status then start_session a d n else ok (n, rejected invalid_parameter)

  abbrev pub send_as : Bool → Attempt → SendPaymentData → Network → Run (Network × Reply Response)
  send_as true a d n = do
    let s = new_session a.now d 0
    routed ← build_payment_route a s d n
    dry_run_response n.public_key d s routed
  send_as false a d n = start_over a d (get_payment_session d.payment_hash n) n

  unfoldable pub send_request : Attempt → SendPaymentData → Network → Run (Network × Reply Response)
  send_request a d n = send_as d.dry_run a d n

  abbrev pub send_checked :
      Attempt → Checked SendPaymentData → Network → Run (Network × Reply Response)
  send_checked a (ok d) n = send_request a d n
  send_checked a (err e) n = ok (n, rejected invalid_parameter)
  send_checked a panic n = panic

  -- `random` is the preimage that a keysend payment draws.
  unfoldable pub on_send_payment :
      Attempt → Hash256 → SendPaymentCommand → Network → Run (Network × Reply Response)
  unfolding send_request
  on_send_payment a random command n =
      send_checked a (new_request host.parse_invoice host.blake2b_256 random command) n

  unfoldable pub on_get_payment : Hash256 → Network → Run (Reply Response)
  on_get_payment hash n = elim (get_payment_session hash n) [
    | none ↦ ok (rejected invalid_parameter)
    | some s ↦ do r ← response_from s; ok (done r)
  ]
