-- ===== src/History/Fail/Final.antt =====
-- The branch of `record_payment_fail` for an error of the final node (fiber/src/fiber/history.rs).
use ai_ckb_backend.Common.{
  ℕ, ◌+◌, ◌-◌, ◌<◌, ◌≡◌, refl, true, false, List, arith, ltb, ◌==◌, length, Bool-cases, inl, inr,
}
use ai_ckb_backend.History.ErrorCode.{TlcErrorCode}
use ai_ckb_backend.History.Internal.{SessionRouteNode, InternalResult}
use ai_ckb_backend.History.Fail.{
  fail_final_incorrect, fail_final_details, fail_final_other, fail_at_final,
}
use ai_ckb_backend.History.Internal.Steps.{
  HasChannels, Grows-trans, Grows-HasChannels, fail_pair-Steps, succeed_range_pairs-Steps,
}
use ai_ckb_backend.History.Fail.Blame.{fail_node-Blames, Good, sub_usize_total}

module _ (now : ℕ) (ns : List SessionRouteNode) where
  fail_final_incorrect-Good :
      (i : ℕ) (r : InternalResult)
      → 1 < length ns
      → i + 1 ≡ length ns
      → HasChannels r
      → Good (fail_final_incorrect now ns i r)
  unfolding fail_final_incorrect
  fail_final_incorrect-Good i r l e h = elim (Bool-cases (length ns == 2)) [
    | inl two ↦
        let (r', s, b) = fail_node-Blames now ns (length ns - 1) r l (omega arith) in
        (r', false, rw (two, sub_usize_total (length ns) 1 (omega arith), s), b)
    | inr more ↦
        let big : 2 < length ns = ground arith in
        let (r', s, g) = fail_pair-Steps now ns (i - 1) r (omega arith) in
        let (r'', s', g') = succeed_range_pairs-Steps now ns (i - 2) r' (omega arith) in
        (
          r'',
          true,
          rw (more, sub_usize_total i 1 (omega arith), s, sub_usize_total i 2 (omega arith), s'),
          Grows-HasChannels (Grows-trans g g') h,
        )
  ]

  fail_final_details-Good :
      (r : InternalResult) → 1 < length ns → HasChannels r → Good (fail_final_details now ns r)
  unfolding fail_final_details
  fail_final_details-Good r l h =
      let (r', s, g) = succeed_range_pairs-Steps now ns (length ns - 1) r (omega arith) in
      (r', false, rw (sub_usize_total (length ns) 1 (omega arith), s), Grows-HasChannels g h)

  fail_final_other-Good :
      (r : InternalResult) → 1 < length ns → HasChannels r → Good (fail_final_other now ns r)
  unfolding fail_final_other
  fail_final_other-Good r l h =
      let (r', s, b) = fail_node-Blames now ns (length ns - 1) r l (omega arith) in
      let (r'', s', g) = succeed_range_pairs-Steps now ns (length ns - 2) r' (omega arith) in
      let long : ltb 1 (length ns) ≡ true = ground arith in
      (
        r'',
        true,
        rw (
          sub_usize_total (length ns) 1 (omega arith),
          s,
          long,
          sub_usize_total (length ns) 2 (omega arith),
          s',
        ),
        Grows-HasChannels g b,
      )

  pub fail_at_final-Good :
      (i : ℕ) (code : TlcErrorCode) (r : InternalResult)
      → 1 < length ns
      → i + 1 ≡ length ns
      → HasChannels r
      → Good (fail_at_final now ns i code r)
  unfolding fail_at_final
  fail_at_final-Good i TlcErrorCode.final_incorrect_expiry_delta r l e h =
      fail_final_incorrect-Good i r l e h
  fail_at_final-Good i TlcErrorCode.final_incorrect_tlc_amount r l e h =
      fail_final_incorrect-Good i r l e h
  fail_at_final-Good i TlcErrorCode.incorrect_or_unknown_payment_details r l e h =
      fail_final_details-Good r l h
  fail_at_final-Good i TlcErrorCode.invoice_expired r l e h = fail_final_details-Good r l h
  fail_at_final-Good i TlcErrorCode.invoice_cancelled r l e h = fail_final_details-Good r l h
  fail_at_final-Good i TlcErrorCode.expiry_too_soon r l e h = (r, false, refl, h)
  fail_at_final-Good i TlcErrorCode.expiry_too_far r l e h = (r, false, refl, h)
  fail_at_final-Good i _ r l e h = fail_final_other-Good r l h
