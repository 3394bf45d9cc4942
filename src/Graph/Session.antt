-- ===== src/Graph/Session.antt =====
-- `SessionRoute` and `PaymentSession` of fiber/src/fiber/graph.rs.
pub mod Laws
use ai_ckb_backend.Common.{
  ℕ, ◌+◌, ◌-◌, Bool, true, false, not, List, [], ◌∷◌, Option, some, none, if◌then◌else◌, ltb, leb,
  ◌==◌, map, drop,
}
use ai_ckb_backend.Common.Outcome.{Outcome, ok, err, panic, assert, ◌>>=◌, ◌>>◌}
use ai_ckb_backend.Tlc.Info.{Hash256}
use ai_ckb_backend.History.Internal.{SessionRouteNode}
use ai_ckb_backend.History.ErrorCode.{TlcErrorCode}
use ai_ckb_backend.Graph.Route.{PaymentHopData}

pub data PaymentSessionStatus : Type 0 where
  created inflight success failed : PaymentSessionStatus

pub record SendPaymentData : Type 0 where
  pub target_pubkey : ℕ
  pub amount : ℕ  -- u128
  pub payment_hash : Hash256
  pub invoice : Option ℕ
  pub final_tlc_expiry_delta : ℕ  -- u64
  pub tlc_expiry_limit : ℕ  -- u64
  pub timeout : Option ℕ
  pub max_fee_amount : Option ℕ
  pub max_parts : Option ℕ
  pub keysend : Bool
  pub udt_type_script : Option ℕ
  pub preimage : Option Hash256
  pub allow_self_payment : Bool
  pub dry_run : Bool

-- The texts of `last_error`, by what they are made of.
pub data LastError : Type 0 where
  no_route : LastError
  onion_not_created : Hash256 → LastError
  first_hop_failed remote_failed : TlcErrorCode → LastError
  tries_used_up : Hash256 → ℕ → LastError

pub record PaymentSession : Type 0 where
  pub request : SendPaymentData
  pub retried_times : ℕ  -- u32
  pub last_error : Option LastError
  pub try_limit : ℕ  -- u32
  pub status : PaymentSessionStatus
  pub created_at : ℕ
  pub last_updated_at : ℕ
  pub first_hop_channel_outpoint : Option ℕ
  pub first_hop_tlc_id : Option ℕ
  pub route : List SessionRouteNode
  pub session_key : ℕ

unfoldable pub new_session : ℕ → SendPaymentData → ℕ → PaymentSession
new_session now request try_limit = record {
  request = request;
  retried_times = 0;
  last_error = none;
  try_limit = try_limit;
  status = created;
  created_at = now;
  last_updated_at = now;
  first_hop_channel_outpoint = none;
  first_hop_tlc_id = none;
  route = [];
  session_key = 0;
}

unfoldable pub set_status : ℕ → PaymentSessionStatus → PaymentSession → PaymentSession
set_status now status s = record s { status = status; last_updated_at = now }

unfoldable pub set_inflight_status : ℕ → ℕ → ℕ → PaymentSession → PaymentSession
unfolding set_status
set_inflight_status now channel_outpoint tlc_id s = record (set_status now inflight s) {
  first_hop_channel_outpoint = some channel_outpoint;
  first_hop_tlc_id = some tlc_id;
}

unfoldable pub set_success_status : ℕ → PaymentSession → PaymentSession
unfolding set_status
set_success_status now s = record (set_status now success s) { last_error = none }

unfoldable pub set_failed_status : ℕ → LastError → PaymentSession → PaymentSession
unfolding set_status
set_failed_status now error s = record (set_status now failed s) { last_error = some error }

unfoldable pub can_retry : PaymentSession → Bool
can_retry s = ltb s.retried_times s.try_limit

abbrev pub next_or : ℕ → Option ℕ → ℕ
next_or target none = target
next_or target (some n) = n

-- `outpoint_new` is `OutPoint::new` of the ckb crates.
module _ (outpoint_new : Hash256 → ℕ → ℕ) where
  -- The chain of the source and the next hops, zipped with the hops. Both branches of the test for the
  -- default hash give the hash.
  abbrev pub route_nodes : ℕ → ℕ → List PaymentHopData → List SessionRouteNode
  route_nodes pubkey target [] = []
  route_nodes pubkey target (h ∷ hs) =
      record {
        pubkey = pubkey;
        amount = h.amount;
        channel_outpoint = outpoint_new h.funding_tx_hash 0;
      }
      ∷ route_nodes (next_or target h.next_hop) target hs

  unfoldable pub session_route : ℕ → ℕ → List PaymentHopData → List SessionRouteNode
  session_route source target hops = route_nodes source target hops

abbrev pub first_amount : List SessionRouteNode → ℕ
first_amount [] = 0
first_amount (n ∷ ns) = n.amount

abbrev pub last_amount : List SessionRouteNode → ℕ
last_amount [] = 0
last_amount (n ∷ []) = n.amount
last_amount (n ∷ m ∷ ns) = last_amount (m ∷ ns)

unfoldable pub route_fee : List SessionRouteNode → Outcome (Unit {0}) ℕ
route_fee nodes = do
  assert (leb (last_amount nodes) (first_amount nodes))
  ok (first_amount nodes - last_amount nodes)

abbrev pub pubkeys : List SessionRouteNode → List ℕ
pubkeys [] = []
pubkeys (n ∷ ns) = n.pubkey ∷ pubkeys ns

unfoldable pub hops_public_keys : PaymentSession → List ℕ
hops_public_keys s = pubkeys (drop 1 s.route)
