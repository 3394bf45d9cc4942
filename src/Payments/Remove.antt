-- ===== src/Payments/Remove.antt =====
-- `on_remove_tlc_event` of fiber/src/fiber/network.rs: the end of the payment TLC of the first hop. The
-- decoded error is the answer of the onion crate, `none` where it decodes nothing.
use ai_ckb_backend.Common.{Option, some, none, if◌then◌else◌}
use ai_ckb_backend.Common.Outcome.{ok, ◌>>=◌}
use ai_ckb_backend.Tlc.Info.{Hash256}
use ai_ckb_backend.History.ErrorCode.{TlcErr, invalid_onion_error}
use ai_ckb_backend.Graph.Session.{PaymentSession, PaymentSessionStatus, inflight, remote_failed}
use ai_ckb_backend.Payments.State.{
  Network, Attempt, Run, get_payment_session, set_payment_fail_with_error,
  update_graph_with_tlc_fail, record_success, record_fail,
}
use ai_ckb_backend.Payments.Send.{Host, try_payment_session}

pub data RemoveTlcReason : Type 0 where
  remove_tlc_fulfill : RemoveTlcReason
  remove_tlc_fail : Option TlcErr → RemoveTlcReason

-- `TlcErr::new(InvalidOnionError)` in place of an error that does not decode.
abbrev pub error_or_default : Option TlcErr → TlcErr
error_or_default (some e) = e
error_or_default none = record { error_code = invalid_onion_error; extra_data = none }

module _ (host : Host) where
  -- The result of the other try is dropped.
  abbrev pub try_again : Attempt → PaymentSession → Network → Run Network
  try_again a s n = do tried ← try_payment_session host a s.request.payment_hash n; ok tried.0

  unfoldable pub on_tlc_fail : Attempt → PaymentSession → TlcErr → Network → Run Network
  on_tlc_fail a s e n = do
    marked ← update_graph_with_tlc_fail e n
    recorded ← record_fail a.now s e marked
    if recorded.1
        then try_again a s recorded.0
        else ok (set_payment_fail_with_error a.now (remote_failed e.error_code) s recorded.0).0

  abbrev pub on_reason : Attempt → PaymentSession → RemoveTlcReason → Network → Run Network
  on_reason a s remove_tlc_fulfill n = record_success a.now s n
  on_reason a s (remove_tlc_fail decoded) n = on_tlc_fail a s (error_or_default decoded) n

  abbrev pub on_session :
      Attempt → RemoveTlcReason → PaymentSessionStatus → PaymentSession → Network → Run Network
  on_session a reason inflight s n = on_reason a s reason n
  on_session a reason _ s n = ok n

  abbrev pub on_stored : Attempt → RemoveTlcReason → Option PaymentSession → Network → Run Network
  on_stored a reason none n = ok n
  on_stored a reason (some s) n = on_session a reason s.status s n

  unfoldable pub on_remove_tlc_event : Attempt → Hash256 → RemoveTlcReason → Network → Run Network
  unfolding on_tlc_fail
  on_remove_tlc_event a hash reason n = on_stored a reason (get_payment_session hash n) n
