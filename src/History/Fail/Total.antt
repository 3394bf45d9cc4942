-- ===== src/History/Fail/Total.antt =====
-- `record_payment_fail` of fiber/src/fiber/history.rs, over all its branches.
use ai_ckb_backend.Common.{
  ℕ, ◌-◌, ◌<◌, ◌≡◌, Bool, true, List, [], ◌∷◌, Option, some, arith, leb, ◌==◌, length, Option-cases,
  Bool-cases, inl, inr,
}
use ai_ckb_backend.Common.Outcome.{ok}
use ai_ckb_backend.History.ErrorCode.{TlcErrorCode, TlcErr, error_node_id}
use ai_ckb_backend.History.Internal.{SessionRouteNode, InternalResult}
use ai_ckb_backend.History.Fail.{fail_at, position, record_payment_fail}
use ai_ckb_backend.History.Internal.Steps.{HasChannels}
use ai_ckb_backend.History.Fail.Blame.{Good, fail_at_source-Good, sub_usize_total}
use ai_ckb_backend.History.Fail.Final.{fail_at_final-Good}
use ai_ckb_backend.History.Fail.Middle.{fail_in_middle-Good}

position-lt :
    (id : Option ℕ) (ns : List SessionRouteNode) {i : ℕ} → position id ns ≡ some i → i < length ns
position-lt id [] h = ground arith
position-lt id (n ∷ ns) {i} h = elim (Option-cases (position id ns)) [
  | inl e ↦ ground arith
  | inr (j, e) ↦ let less = position-lt id ns {i = j} e in ground arith
]

fail_at-Good :
    (now : ℕ) (ns : List SessionRouteNode) (i : ℕ) (code : TlcErrorCode) (r : InternalResult)
    → 1 < length ns
    → i < length ns
    → HasChannels r
    → Good (fail_at now ns i code r)
unfolding fail_at
fail_at-Good now ns i code r l k h =
    let enough : leb 2 (length ns) ≡ true = ground arith in
    let last = sub_usize_total (length ns) 1 (omega arith) in
    elim (Bool-cases (i == 0)) [
      | inl first ↦ rw (enough, last, first) (fail_at_source-Good code r h)
      | inr later ↦ elim (Bool-cases (i == length ns - 1)) [
        | inl final ↦
            rw (enough, last, later, final) (fail_at_final-Good now ns i code r l (ground arith) h)
        | inr middle ↦
            rw (enough, last, later, middle)
              (fail_in_middle-Good now ns i code r (ground arith) (ground arith) h)
      ]
    ]

-- On a route of two nodes or more `record_payment_fail` never panics, whatever the error and the node
-- that reports it. If the node that was blamed before has channels in the result, then so has the
-- one that is blamed afterwards.
pub record_payment_fail_total :
    (now : ℕ) (nodes : List SessionRouteNode) (tlc_err : TlcErr) (r : InternalResult)
    → 1 < length nodes
    → HasChannels r
    → (r' : InternalResult) × (retry : Bool) × (record_payment_fail now nodes tlc_err r
        ≡ ok (r', retry))
      × HasChannels r'
unfolding record_payment_fail
record_payment_fail_total now nodes tlc_err r l h =
    elim (Option-cases (position (error_node_id tlc_err) nodes)) [
      | inl e ↦ (r, true, rw (e, record_payment_fail), h)
      | inr (i, e) ↦
          let (r', retry, s, b) =
            fail_at-Good now nodes i tlc_err.error_code r l
              (position-lt (error_node_id tlc_err) nodes e) h in
          (r', retry, rw (e, record_payment_fail) s, b)
    ]
