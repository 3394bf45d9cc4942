-- ===== src/History/Fail.antt =====
-- `InternalResult::record_payment_fail` of fiber/src/fiber/history.rs, one definition for each branch:
-- the node that reports the error, and the error.
mod Blame
mod Final
mod Middle
pub mod Total
use Prim.Native.Nat.{compare, Ordering, max}
use ai_ckb_backend.Common.{
  ℕ, zero, suc, ◌+◌, ◌-◌, ◌≡◌, refl, Bool, true, false, not, List, [], ◌∷◌, Option, some, none,
  arith, if◌then◌else◌, ltb, leb, ◌==◌, length, any,
}
use ai_ckb_backend.Common.BTreeMap.{Ord, get, insert, Key_ord}
use ai_ckb_backend.Common.Outcome.{Outcome, ok, panic, assert, ◌>>=◌, ◌>>◌}
use ai_ckb_backend.History.ErrorCode.{
  TlcErrorCode, TlcErr, error_node_id, invalid_onion_version, invalid_onion_hmac, invalid_onion_key,
  invalid_onion_payload, incorrect_or_unknown_payment_details, invoice_expired, invoice_cancelled,
  expiry_too_far, expiry_too_soon, final_incorrect_expiry_delta, final_incorrect_tlc_amount,
  unknown_next_peer, permanent_channel_failure, fee_insufficient, incorrect_tlc_expiry,
  temporary_channel_failure,
}
use ai_ckb_backend.History.Internal.{
  InternalResult, SessionRouteNode, fail_node, fail_pair, fail_pair_balanced, fail_range_pairs,
  sub_usize, succeed_range_pairs,
}

-- The result, and whether the payment is to be tried again.
abbrev pub Verdict : Type 0
Verdict = Outcome (Unit {0}) (InternalResult × Bool)

-- The error comes from the source of the route.
unfoldable pub fail_at_source : TlcErrorCode → InternalResult → Verdict
fail_at_source invalid_onion_version r = ok (r, false)
fail_at_source invalid_onion_hmac r = ok (r, false)
fail_at_source invalid_onion_key r = ok (r, false)
fail_at_source invalid_onion_payload r = ok (r, false)
fail_at_source incorrect_or_unknown_payment_details r = ok (r, false)
fail_at_source invoice_expired r = ok (r, false)
fail_at_source invoice_cancelled r = ok (r, false)
fail_at_source expiry_too_far r = ok (r, false)
fail_at_source _ r = ok (r, true)

-- The final node blames the amount or the expiry delta that it was given.
unfoldable pub fail_final_incorrect : ℕ → List SessionRouteNode → ℕ → InternalResult → Verdict
fail_final_incorrect now nodes index r =
    if length nodes == 2
    then (do last ← sub_usize (length nodes) 1; r' ← fail_node now nodes last r; ok (r', false))
    else (do
      previous ← sub_usize index 1
      r' ← fail_pair now nodes previous r
      end ← sub_usize index 2
      r'' ← succeed_range_pairs now nodes 0 end r'
      ok (r'', true))

unfoldable pub fail_final_details : ℕ → List SessionRouteNode → InternalResult → Verdict
fail_final_details now nodes r = do
  last ← sub_usize (length nodes) 1
  r' ← succeed_range_pairs now nodes 0 last r
  ok (r', false)

unfoldable pub fail_final_other : ℕ → List SessionRouteNode → InternalResult → Verdict
fail_final_other now nodes r = do
  last ← sub_usize (length nodes) 1
  r' ← fail_node now nodes last r
  if ltb 1 (length nodes)
      then (do
        end ← sub_usize (length nodes) 2
        r'' ← succeed_range_pairs now nodes 0 end r'
        ok (r'', true))
      else ok (r', true)

-- The error comes from the last node of the route.
unfoldable pub fail_at_final :
    ℕ → List SessionRouteNode → ℕ → TlcErrorCode → InternalResult → Verdict
unfolding fail_final_incorrect fail_final_details fail_final_other
fail_at_final now nodes index final_incorrect_expiry_delta r =
    fail_final_incorrect now nodes index r
fail_at_final now nodes index final_incorrect_tlc_amount r = fail_final_incorrect now nodes index r
fail_at_final now nodes index incorrect_or_unknown_payment_details r =
    fail_final_details now nodes r
fail_at_final now nodes index invoice_expired r = fail_final_details now nodes r
fail_at_final now nodes index invoice_cancelled r = fail_final_details now nodes r
fail_at_final now nodes index expiry_too_soon r = ok (r, false)
fail_at_final now nodes index expiry_too_far r = ok (r, false)
fail_at_final now nodes index _ r = fail_final_other now nodes r

-- What the arms of the match for a node in the middle do, the result with `need_to_retry`.
unfoldable pub fail_middle_pair : ℕ → List SessionRouteNode → ℕ → InternalResult → Verdict
fail_middle_pair now nodes index r = do r' ← fail_pair now nodes index r; ok (r', true)

unfoldable pub fail_middle_payload : ℕ → List SessionRouteNode → ℕ → InternalResult → Verdict
fail_middle_payload now nodes index r = do
  r' ← fail_node now nodes index r
  if ltb 1 index
      then (do
        end ← sub_usize index 1
        r'' ← succeed_range_pairs now nodes 0 end r'
        ok (r'', true))
      else ok (r', true)

unfoldable pub fail_middle_forwarding : ℕ → List SessionRouteNode → ℕ → InternalResult → Verdict
fail_middle_forwarding now nodes index r =
    if index == 1 then (do r' ← fail_node now nodes 1 r; ok (r', false)) else (do
      previous ← sub_usize index 1
      r' ← fail_pair now nodes previous r
      if ltb 1 index
          then (do
            end ← sub_usize index 2
            r'' ← succeed_range_pairs now nodes 0 end r'
            ok (r'', false))
          else ok (r', false))

unfoldable pub fail_middle_capacity : ℕ → List SessionRouteNode → ℕ → InternalResult → Verdict
fail_middle_capacity now nodes index r = do
  r' ← fail_pair_balanced now nodes (index + 1) r
  r'' ← succeed_range_pairs now nodes 0 index r'
  ok (r'', true)

unfoldable pub fail_middle_expiry : ℕ → List SessionRouteNode → ℕ → InternalResult → Verdict
fail_middle_expiry now nodes index r =
    if index == 1
    then (do r' ← fail_node now nodes 1 r; ok (r', true))
    else (do end ← sub_usize index 1; r' ← fail_range_pairs now nodes 0 end r; ok (r', true))

unfoldable pub fail_middle_other : ℕ → List SessionRouteNode → ℕ → InternalResult → Verdict
fail_middle_other now nodes index r = do r' ← fail_node now nodes index r; ok (r', true)

unfoldable pub fail_in_middle :
    ℕ → List SessionRouteNode → ℕ → TlcErrorCode → InternalResult → Verdict
unfolding fail_middle_pair fail_middle_payload fail_middle_forwarding fail_middle_capacity
    fail_middle_expiry fail_middle_other
fail_in_middle now nodes index invalid_onion_version r = fail_middle_pair now nodes index r
fail_in_middle now nodes index invalid_onion_hmac r = fail_middle_pair now nodes index r
fail_in_middle now nodes index invalid_onion_key r = fail_middle_pair now nodes index r
fail_in_middle now nodes index invalid_onion_payload r = fail_middle_payload now nodes index r
fail_in_middle now nodes index unknown_next_peer r = fail_middle_pair now nodes (index + 1) r
fail_in_middle now nodes index permanent_channel_failure r =
    fail_middle_pair now nodes (index + 1) r
fail_in_middle now nodes index fee_insufficient r = fail_middle_forwarding now nodes index r
fail_in_middle now nodes index incorrect_tlc_expiry r = fail_middle_forwarding now nodes index r
fail_in_middle now nodes index temporary_channel_failure r = fail_middle_capacity now nodes index r
fail_in_middle now nodes index expiry_too_soon r = fail_middle_expiry now nodes index r
fail_in_middle now nodes index incorrect_or_unknown_payment_details r = ok (r, false)
fail_in_middle now nodes index invoice_expired r = ok (r, false)
fail_in_middle now nodes index invoice_cancelled r = ok (r, false)
fail_in_middle now nodes index final_incorrect_expiry_delta r = ok (r, false)
fail_in_middle now nodes index final_incorrect_tlc_amount r = ok (r, false)
fail_in_middle now nodes index _ r = fail_middle_other now nodes index r

-- `nodes.iter().position(|s| Some(s.pubkey) == error_node_id)`
abbrev pub is_node_of : Option ℕ → SessionRouteNode → Bool
is_node_of none n = false
is_node_of (some id) n = n.pubkey == id

abbrev pub shift : Option ℕ → Option ℕ
shift none = none
shift (some i) = some (suc i)

abbrev pub position : Option ℕ → List SessionRouteNode → Option ℕ
position id [] = none
position id (n ∷ ns) = if is_node_of id n then some 0 else shift (position id ns)

unfoldable pub fail_at : ℕ → List SessionRouteNode → ℕ → TlcErrorCode → InternalResult → Verdict
fail_at now nodes index code r = do
  assert (leb 2 (length nodes))
  last ← sub_usize (length nodes) 1
  if index == 0
      then fail_at_source code r
      else if index == last
      then fail_at_final now nodes index code r
      else fail_in_middle now nodes index code r

unfoldable pub record_payment_fail : ℕ → List SessionRouteNode → TlcErr → InternalResult → Verdict
unfolding fail_at
record_payment_fail now nodes tlc_err r = elim (position (error_node_id tlc_err) nodes) [
  | none ↦ ok (r, true)
  | some index ↦ fail_at now nodes index tlc_err.error_code r
]
