-- ===== src/Payments/State.antt =====
-- The part of the network actor (fiber/src/fiber/network.rs) that sends payments: its state, and what
-- a failed attempt does to the graph and the history. What the onion crate, the first channel, path
-- finding and the store answer to a call comes with the call.
use ai_ckb_backend.Common.{
  ℕ, Bool, ◌&&◌, List, [], ◌∷◌, ◌++◌, Option, some, none, if◌then◌else◌, length,
}
use ai_ckb_backend.Common.BTreeMap.{Key_ord, get, insert}
use ai_ckb_backend.Common.Outcome.{Outcome, ok, panic, ◌>>=◌}
use ai_ckb_backend.Tlc.Info.{Hash256}
use ai_ckb_backend.History.ErrorCode.{
  TlcErrorCode, TlcErr, TlcErrData, channel_failed, node_failed, is_update, error_node_id,
  permanent_channel_failure, channel_disabled, unknown_next_peer, permanent_node_failure,
}
use ai_ckb_backend.History.Internal.{empty, succeed_range_pairs, sub_usize}
use ai_ckb_backend.History.Fail.{record_payment_fail}
use ai_ckb_backend.History.Pairs.{apply_internal_result}
use ai_ckb_backend.Gossip.Message.{BroadcastMessageWithTimestamp}
use ai_ckb_backend.Graph.State.{NetworkGraph, mark_channel_failed, mark_node_failed}
use ai_ckb_backend.Graph.Route.{PathEdge}
use ai_ckb_backend.Graph.Session.{
  PaymentSession, LastError, set_success_status, set_failed_status, can_retry,
}

pub record Network : Type 0 where
  pub public_key : ℕ
  pub graph : NetworkGraph
  pub sessions : List (Hash256 × PaymentSession)
  -- The delayed `RetrySendPayment` events.
  pub retries : List Hash256
  -- The channel updates sent on to the gossip actor, as bytes.
  pub gossiped : List (List ℕ)

-- The answer of `PeeledPaymentOnionPacket::create` and of the first channel.
pub data FirstHop : Type 0 where
  packet_not_created : FirstHop
  refused : TlcErr → FirstHop
  accepted : ℕ → FirstHop
  reply_dropped : FirstHop

-- What an attempt meets: the time, the gossip messages that the store has since, the path that
-- `find_path` gives, a random session key and the answer of the first hop.
pub record Attempt : Type 0 where
  pub now : ℕ
  pub loaded : List BroadcastMessageWithTimestamp
  pub path : Option (List PathEdge)
  pub session_key : ℕ
  pub first_hop : FirstHop

pub data SendError : Type 0 where
  invalid_parameter : SendError
  send_payment : LastError → SendError
  first_hop_error : LastError → Bool → SendError

pub data Reply (A : Type 0) : Type 0 where
  done : A → Reply A
  rejected : SendError → Reply A

abbrev pub Run : Type 0 → Type 0
Run A = Outcome (Unit {0}) A

unfoldable pub insert_payment_session : PaymentSession → Network → Network
insert_payment_session s n = record n { sessions = insert s.request.payment_hash s n.sessions }

unfoldable pub get_payment_session : Hash256 → Network → Option PaymentSession
get_payment_session hash n = get hash n.sessions

-- The session that is stored is the session that the caller goes on with.
unfoldable pub set_payment_fail_with_error :
    ℕ → LastError → PaymentSession → Network → Network × PaymentSession
unfolding insert_payment_session
set_payment_fail_with_error now error s n =
    (insert_payment_session (set_failed_status now error s) n, set_failed_status now error s)

abbrev pub error_data_outpoint : Option TlcErrData → Option ℕ
error_data_outpoint (some (channel_failed channel update node)) = some channel
error_data_outpoint (some (node_failed node)) = none
error_data_outpoint none = none

unfoldable pub error_channel_outpoint : TlcErr → Option ℕ
error_channel_outpoint e = error_data_outpoint e.extra_data

abbrev pub gossip_update : Option TlcErrData → Network → Network
gossip_update (some (channel_failed channel (some update) node)) n = record n {
  gossiped = n.gossiped ++ (update ∷ []);
}
gossip_update (some (channel_failed channel none node)) n = n
gossip_update (some (node_failed node)) n = n
gossip_update none n = n

abbrev pub channel_mark : Option ℕ → Network → Run Network
channel_mark none n = panic
channel_mark (some channel) n = ok (record n { graph = mark_channel_failed channel n.graph })

abbrev pub node_mark : Option ℕ → Network → Run Network
node_mark none n = panic
node_mark (some node) n = ok (record n { graph = mark_node_failed node n.graph })

unfoldable pub mark_failed : TlcErrorCode → TlcErr → Network → Run Network
unfolding error_channel_outpoint
mark_failed permanent_channel_failure e n = channel_mark (error_channel_outpoint e) n
mark_failed channel_disabled e n = channel_mark (error_channel_outpoint e) n
mark_failed unknown_next_peer e n = channel_mark (error_channel_outpoint e) n
mark_failed permanent_node_failure e n = node_mark (error_node_id e) n
mark_failed _ e n = ok n

unfoldable pub update_graph_with_tlc_fail : TlcErr → Network → Run Network
unfolding mark_failed
update_graph_with_tlc_fail e n =
    mark_failed e.error_code e (if is_update e.error_code then gossip_update e.extra_data n else n)

-- `NetworkGraph::record_payment_success`.
unfoldable pub record_success : ℕ → PaymentSession → Network → Run Network
unfolding insert_payment_session
record_success now s n = do
  end ← sub_usize (length s.route) 1
  result ← succeed_range_pairs now s.route 0 end empty
  history ← apply_internal_result now result n.graph.history
  ok (
      insert_payment_session (set_success_status now s)
        (record n { graph = record n.graph { history = history } }))

-- `NetworkGraph::record_payment_fail`, and whether there is to be another try.
unfoldable pub record_fail : ℕ → PaymentSession → TlcErr → Network → Run (Network × Bool)
record_fail now s e n = do
  verdict ← record_payment_fail now s.route e empty
  history ← apply_internal_result now verdict.0 n.graph.history
  ok (record n { graph = record n.graph { history = history } }, verdict.1 && can_retry s)
