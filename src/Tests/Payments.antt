-- ===== src/Tests/Payments.antt =====
-- Runs of the payment history (fiber/src/fiber/history.rs) on a route of three nodes.
use ai_ckb_backend.Common.{
  ℕ, ◌+◌, ◌≡◌, refl, ◌⊎◌, Bool, true, false, List, [], ◌∷◌, some, none, arith,
}
use ai_ckb_backend.Common.BTreeMap.{get}
use ai_ckb_backend.Common.Outcome.{ok, panic, ◌>>=◌}
use ai_ckb_backend.History.ErrorCode.{TlcErrorCode, TlcErr, node_failed}
use ai_ckb_backend.History.Internal.{
  Direction, Pair, Pair_ord, SessionRouteNode, InternalResult, empty,
}
use ai_ckb_backend.History.Fail.{record_payment_fail}
use ai_ckb_backend.History.Internal.Steps.{HasChannels}
use ai_ckb_backend.History.Fail.Total.{record_payment_fail_total}
use ai_ckb_backend.History.Pairs.{
  TimedResult, PaymentHistory, apply_pair_result, apply_internal_result, is_consistent, new,
}
use ai_ckb_backend.History.Pairs.Valid.{
  IsConsistent, IsSmallerSuccess, AppliedAt, apply_pair_result_cases,
}
use ai_ckb_backend.History.Pairs.Replay.{
  apply_pair_result_replay, apply_internal_result_total, new-IsConsistent,
}

abbrev hop : ℕ → ℕ → SessionRouteNode
hop pubkey amount = record { pubkey = pubkey; amount = amount; channel_outpoint = pubkey + 100 }

abbrev route : List SessionRouteNode
route = hop 1 1002 ∷ hop 2 1001 ∷ hop 3 1000 ∷ []

-- The node in the middle has no capacity.
abbrev no_capacity : TlcErr
no_capacity = record {
  error_code = TlcErrorCode.temporary_channel_failure;
  extra_data = some (node_failed 2);
}

empty-HasChannels : HasChannels empty
unfolding empty
empty-HasChannels n e = absurd (ground arith)

record_payment_fail_total_example :
    (r' : InternalResult) × (retry : Bool) × (record_payment_fail 5 route no_capacity empty
      ≡ ok (r', retry))
    × HasChannels r'
record_payment_fail_total_example =
    record_payment_fail_total 5 route no_capacity empty (omega arith) empty-HasChannels

abbrev pair : Pair
pair = record { channel = 101; direction = Direction.forward }

abbrev known : TimedResult
known = record { fail_time = 7; fail_amount = 900; success_time = 6; success_amount = 500 }

abbrev stored : List (Pair × TimedResult)
stored = (pair, known) ∷ []

abbrev history : PaymentHistory
history = record {
  inner = stored;
  nodes_to_channel_map = [];
  min_fail_relax_interval = 60000;
  source = 1;
  store = stored;
}

stored-is_consistent : (k : Pair) (r : TimedResult) → get k stored ≡ some r → is_consistent r ≡ true
stored-is_consistent k r e = ground arith

history-IsConsistent : IsConsistent history
history-IsConsistent = record { consistent = stored-is_consistent; synced = λ k. refl }

apply_pair_result_cases_example :
    (IsSmallerSuccess pair 600 true history × (apply_pair_result pair 600 true 8 history ≡ panic))
    ⊎ ((h' : PaymentHistory) × (apply_pair_result pair 600 true 8 history ≡ ok h')
        × AppliedAt pair history h')
apply_pair_result_cases_example =
    apply_pair_result_cases pair 600 true 8 history history-IsConsistent (omega arith)

abbrev blame : InternalResult
blame = record {
  pairs = (pair, record { success = false; time = 9; amount = 400 }) ∷ [];
  nodes_to_channel_map = (2, 101 ∷ []) ∷ [];
  fail_node = some 2;
}

blame-HasChannels : HasChannels blame
blame-HasChannels n e = ground arith

apply_internal_result_total_example :
    (h' : PaymentHistory) × (apply_internal_result 10 blame history ≡ ok h') × IsConsistent h'
apply_internal_result_total_example =
    apply_internal_result_total 10 blame history history-IsConsistent (refl, omega arith, tt)
      blame-HasChannels

new-IsConsistent_example :
    IsConsistent (new 1 none stored) × ((k : Pair) → get k (new 1 none stored).inner ≡ get k stored)
new-IsConsistent_example = new-IsConsistent 1 none stored (tt, tt) stored-is_consistent

abbrev no_history : PaymentHistory
no_history = record history { inner = []; store = [] }

apply_pair_result_replay_example :
    (apply_pair_result pair 100 true 1 no_history >>= (λ h1.
      apply_pair_result pair 90 false 2 h1 >>= (λ h2. apply_pair_result pair 50 true 3 h2)))
    ≡ panic
apply_pair_result_replay_example =
    apply_pair_result_replay pair 100 90 50 1 2 3 no_history refl (omega arith) (omega arith)
      (omega arith)
