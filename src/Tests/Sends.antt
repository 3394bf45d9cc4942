-- ===== src/Tests/Sends.antt =====
-- Runs of the payments that a node sends (fiber/src/fiber/network.rs) over the graph of three nodes.
use ai_ckb_backend.Common.{
  ℕ, ◌+◌, ◌≡◌, refl, Bool, true, false, List, [], ◌∷◌, Option, some, none, arith,
}
use ai_ckb_backend.Common.BTreeMap.{Key_ord, get}
use ai_ckb_backend.Common.Outcome.{panic, ok}
use ai_ckb_backend.Tlc.Info.{ckb_hash}
use ai_ckb_backend.History.ErrorCode.{
  TlcErr, permanent_channel_failure, channel_disabled, channel_failed, is_update,
}
use ai_ckb_backend.Graph.Route.{PathEdge, PaymentHopData, build_route_hops, build_hops, add_hop}
use ai_ckb_backend.Graph.Info.{get_update_info_with}
use ai_ckb_backend.Fee.{calculate_tlc_forward_fee}
use ai_ckb_backend.Graph.Session.{
  PaymentSession, SendPaymentData, inflight, failed, success, no_route, can_retry,
}
use ai_ckb_backend.Payments.Request.{Invoice, SendPaymentCommand, new_request, parse}
use ai_ckb_backend.Payments.Request.Valid.{IsAccepted, new_request-IsAccepted}
use ai_ckb_backend.Payments.State.{
  Network, Attempt, rejected, accepted, send_payment, update_graph_with_tlc_fail,
}
use ai_ckb_backend.Payments.Failure.{
  Marks, the_channel, gossiped_after, update_graph_with_tlc_fail-Marks,
}
use ai_ckb_backend.Payments.Send.{Host, build_route, retry_send_payment, send_request}
use ai_ckb_backend.Payments.Remove.{RemoveTlcReason, on_remove_tlc_event}
use ai_ckb_backend.Payments.Restart.{GoesOut, retry_send_payment_any_status, send_request_dry_run}
use ai_ckb_backend.Payments.Bounded.{AllBounded}
use ai_ckb_backend.Payments.Steps.{start, next, retried, Reaches-AllBounded}
use ai_ckb_backend.Tests.Gossip.{byte_crates}
use ai_ckb_backend.Tests.Routes.{graph, none_announced, hash_of}

abbrev no_invoice : ℕ → Option Invoice
no_invoice text = none

abbrev host : Host
host = record {
  crates = byte_crates;
  own_chain = 9;
  announcement_of = none_announced;
  parse_invoice = no_invoice;
  blake2b_256 = λ h. h + 1;
  tx_hash = hash_of;
  outpoint_new = λ h i. h;
}

abbrev request : Bool → SendPaymentData
request dry_run = record {
  target_pubkey = 3;
  amount = 10000;
  payment_hash = 77;
  invoice = none;
  final_tlc_expiry_delta = 900000;
  tlc_expiry_limit = 1209600000;
  timeout = none;
  max_fee_amount = none;
  max_parts = none;
  keysend = false;
  udt_type_script = none;
  preimage = none;
  allow_self_payment = false;
  dry_run = dry_run;
}

-- A payment that has succeeded at its first try.
abbrev paid : PaymentSession
paid = record {
  request = request false;
  retried_times = 1;
  last_error = none;
  try_limit = 5;
  status = success;
  created_at = 100;
  last_updated_at = 200;
  first_hop_channel_outpoint = some 11;
  first_hop_tlc_id = some 0;
  route = [];
  session_key = 6;
}

abbrev network : Network
network = record {
  public_key = 1;
  graph = graph;
  sessions = (77, paid) ∷ [];
  retries = 77 ∷ [];
  gossiped = [];
}

abbrev edge_to : ℕ → ℕ → PathEdge
edge_to target outpoint = record { target = target; channel_outpoint = outpoint }

abbrev attempt : Attempt
attempt = record {
  now = 300;
  loaded = [];
  path = some (edge_to 2 11 ∷ edge_to 3 12 ∷ []);
  session_key = 8;
  first_hop = accepted 4;
}

abbrev no_path : Attempt
no_path = record attempt { path = none }

abbrev hop_to : ℕ → ℕ → ℕ → Option ℕ → PaymentHopData
hop_to amount expiry hash next_hop = record {
  amount = amount;
  expiry = expiry;
  payment_preimage = none;
  hash_algorithm = ckb_hash;
  funding_tx_hash = hash;
  next_hop = next_hop;
}

abbrev sent_hops : List PaymentHopData
sent_hops =
    hop_to 10010 901300 11 (some 2)
    ∷ hop_to 10000 900300 12 (some 3)
    ∷ hop_to 10000 900300 0 none
    ∷ []

sent_over : build_route host attempt (request false) graph ≡ ok (some sent_hops)
unfolding build_route build_route_hops build_hops add_hop calculate_tlc_forward_fee
    get_update_info_with
sent_over = refl

abbrev delivered : Network
delivered = record network { retries = [] }

goes_out : GoesOut host attempt (request false) delivered 4
goes_out = record {
  graph = graph;
  loads = refl;
  hops = sent_hops;
  routes = sent_over;
  hash = 11;
  has_channel = refl;
  accepts = refl;
}

retry_send_payment_any_status_example :
    (n' : Network) × (s' : PaymentSession) × (retry_send_payment host attempt 77 delivered ≡ ok n')
    × (get 77 n'.sessions ≡ some s')
    × (s'.status ≡ inflight)
    × (s'.retried_times ≡ 2)
    × (s'.first_hop_tlc_id ≡ some 4)
unfolding can_retry
retry_send_payment_any_status_example =
    retry_send_payment_any_status host attempt paid delivered 4 refl refl goes_out

no_path_found : build_route host no_path (request true) graph ≡ ok none
unfolding build_route
no_path_found = refl

send_request_dry_run_example :
    (n' : Network) × (s' : PaymentSession) × (send_request host no_path (request true) network
      ≡ ok (n', rejected (send_payment no_route)))
    × (get 77 n'.sessions ≡ some s')
    × (s'.status ≡ failed)
    × (s'.try_limit ≡ 0)
    × ((b : Attempt) (reason : RemoveTlcReason) → on_remove_tlc_event host b 77 reason n' ≡ ok n')
send_request_dry_run_example =
    send_request_dry_run host no_path (request true) network refl no_path_found

abbrev unnamed : TlcErr
unnamed = record { error_code = permanent_channel_failure; extra_data = none }

-- The process ends.
unnamed_ends : update_graph_with_tlc_fail unnamed network ≡ panic
unfolding update_graph_with_tlc_fail
unnamed_ends = refl

abbrev disabled : TlcErr
disabled = record {
  error_code = channel_disabled;
  extra_data = some (channel_failed 11 (some (5 ∷ [])) 2);
}

update_graph_with_tlc_fail-Marks_example :
    Marks
      (the_channel 11)
      (record network {
        gossiped = gossiped_after (is_update channel_disabled) disabled.extra_data network.gossiped;
      })
      (update_graph_with_tlc_fail disabled network)
update_graph_with_tlc_fail-Marks_example = update_graph_with_tlc_fail-Marks disabled network

paid-AllBounded : AllBounded network.sessions
paid-AllBounded q s e = ground (arith, e)

-- The payment that has succeeded is sent again by the retry that was delayed.
sent_again : (n' : Network) × (retry_send_payment host attempt 77 delivered ≡ ok n')
unfolding can_retry
sent_again =
    let (n', s', e, _, _, _, _) =
      retry_send_payment_any_status host attempt paid delivered 4 refl refl goes_out in
    (n', e)

Reaches-AllBounded_example : AllBounded sent_again.0.sessions
Reaches-AllBounded_example =
    Reaches-AllBounded host {n = network} {n' = sent_again.0}
      (next start (retried attempt 77 [] [] refl sent_again.1)) paid-AllBounded

abbrev command : SendPaymentCommand
command = record {
  target_pubkey = some 3;
  amount = some 10000;
  payment_hash = some 77;
  invoice = none;
  final_tlc_expiry_delta = some 900000;
  tlc_expiry_limit = none;
  timeout = none;
  max_fee_amount = none;
  max_parts = none;
  keysend = none;
  udt_type_script = none;
  allow_self_payment = false;
  dry_run = false;
}

command_accepted : new_request no_invoice (λ h. h + 1) 0 command ≡ ok (request false)
unfolding new_request
command_accepted = refl

new_request-IsAccepted_example :
    (invoice : Option Invoice) × (parse no_invoice (λ h. h + 1) none ≡ ok invoice)
    × IsAccepted command invoice (request false)
new_request-IsAccepted_example =
    new_request-IsAccepted no_invoice (λ h. h + 1) 0 command (request false) command_accepted
