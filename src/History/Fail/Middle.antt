-- ===== src/History/Fail/Middle.antt =====
-- The branch of `record_payment_fail` for an error of a node in the middle
-- (fiber/src/fiber/history.rs).
use ai_ckb_backend.Common.{
  ℕ, ◌+◌, ◌-◌, ◌<◌, ◌≡◌, refl, true, false, List, arith, ltb, ◌==◌, length, Bool-cases, inl, inr,
}
use ai_ckb_backend.History.ErrorCode.{TlcErrorCode}
use ai_ckb_backend.History.Internal.{SessionRouteNode, InternalResult}
use ai_ckb_backend.History.Fail.{
  fail_middle_pair, fail_middle_payload, fail_middle_forwarding, fail_middle_capacity,
  fail_middle_expiry, fail_middle_other, fail_in_middle,
}
use ai_ckb_backend.History.Internal.Steps.{
  HasChannels, Grows-trans, Grows-HasChannels, fail_pair-Steps, fail_pair_balanced-Steps,
  succeed_range_pairs-Steps, fail_range_pairs-Steps,
}
use ai_ckb_backend.History.Fail.Blame.{fail_node-Blames, Good, sub_usize_total}

module _ (now : ℕ) (ns : List SessionRouteNode) where
  fail_middle_pair-Good :
      (i : ℕ) (r : InternalResult)
      → i < length ns
      → HasChannels r
      → Good (fail_middle_pair now ns i r)
  unfolding fail_middle_pair
  fail_middle_pair-Good i r l h =
      let (r', s, g) = fail_pair-Steps now ns i r l in (r', true, rw s, Grows-HasChannels g h)

  fail_middle_payload-Good :
      (i : ℕ) (r : InternalResult)
      → 0 < i
      → i + 1 < length ns
      → Good (fail_middle_payload now ns i r)
  unfolding fail_middle_payload
  fail_middle_payload-Good i r p l =
      let (r', s, b) = fail_node-Blames now ns i r (omega arith) (omega arith) in
      elim (Bool-cases (ltb 1 i)) [
        | inl e ↦
            let (r'', s', g) = succeed_range_pairs-Steps now ns (i - 1) r' (omega arith) in
            (r'', true, rw (s, e, sub_usize_total i 1 p, s'), Grows-HasChannels g b)
        | inr e ↦ (r', true, rw (s, e), b)
      ]

  fail_middle_forwarding-Good :
      (i : ℕ) (r : InternalResult)
      → 0 < i
      → i + 1 < length ns
      → HasChannels r
      → Good (fail_middle_forwarding now ns i r)
  unfolding fail_middle_forwarding
  fail_middle_forwarding-Good i r p l h = elim (Bool-cases (i == 1)) [
    | inl e ↦
        let (r', s, b) = fail_node-Blames now ns 1 r (omega arith) (omega arith) in
        (r', false, rw (e, s), b)
    | inr e ↦
        let far : ltb 1 i ≡ true = ground arith in
        let big : 1 < i = ground arith in
        let (r', s, g) = fail_pair-Steps now ns (i - 1) r (omega arith) in
        let (r'', s', g') = succeed_range_pairs-Steps now ns (i - 2) r' (omega arith) in
        (
          r'',
          false,
          rw (e, sub_usize_total i 1 p, s, far, sub_usize_total i 2 big, s'),
          Grows-HasChannels (Grows-trans g g') h,
        )
  ]

  fail_middle_capacity-Good :
      (i : ℕ) (r : InternalResult)
      → i + 1 < length ns
      → HasChannels r
      → Good (fail_middle_capacity now ns i r)
  unfolding fail_middle_capacity
  fail_middle_capacity-Good i r l h =
      let (r', s, g) = fail_pair_balanced-Steps now ns (i + 1) r l in
      let (r'', s', g') = succeed_range_pairs-Steps now ns i r' (omega arith) in
      (r'', true, rw (s, s'), Grows-HasChannels (Grows-trans g g') h)

  fail_middle_expiry-Good :
      (i : ℕ) (r : InternalResult)
      → 0 < i
      → i + 1 < length ns
      → HasChannels r
      → Good (fail_middle_expiry now ns i r)
  unfolding fail_middle_expiry
  fail_middle_expiry-Good i r p l h = elim (Bool-cases (i == 1)) [
    | inl e ↦
        let (r', s, b) = fail_node-Blames now ns 1 r (omega arith) (omega arith) in
        (r', true, rw (e, s), b)
    | inr e ↦
        let big : 1 < i = ground arith in
        let (r', s, g) = fail_range_pairs-Steps now ns (i - 1) r (omega arith) (omega arith) in
        (r', true, rw (e, sub_usize_total i 1 p, s), Grows-HasChannels g h)
  ]

  fail_middle_other-Good :
      (i : ℕ) (r : InternalResult) → i + 1 < length ns → Good (fail_middle_other now ns i r)
  unfolding fail_middle_other
  fail_middle_other-Good i r l =
      let (r', s, b) = fail_node-Blames now ns i r (omega arith) (omega arith) in
      (r', true, rw s, b)

  pub fail_in_middle-Good :
      (i : ℕ) (code : TlcErrorCode) (r : InternalResult)
      → 0 < i
      → i + 1 < length ns
      → HasChannels r
      → Good (fail_in_middle now ns i code r)
  unfolding fail_in_middle
  fail_in_middle-Good i TlcErrorCode.invalid_onion_version r p l h =
      fail_middle_pair-Good i r (omega arith) h
  fail_in_middle-Good i TlcErrorCode.invalid_onion_hmac r p l h =
      fail_middle_pair-Good i r (omega arith) h
  fail_in_middle-Good i TlcErrorCode.invalid_onion_key r p l h =
      fail_middle_pair-Good i r (omega arith) h
  fail_in_middle-Good i TlcErrorCode.invalid_onion_payload r p l h =
      fail_middle_payload-Good i r p l
  fail_in_middle-Good i TlcErrorCode.unknown_next_peer r p l h = fail_middle_pair-Good (i + 1) r l h
  fail_in_middle-Good i TlcErrorCode.permanent_channel_failure r p l h =
      fail_middle_pair-Good (i + 1) r l h
  fail_in_middle-Good i TlcErrorCode.fee_insufficient r p l h =
      fail_middle_forwarding-Good i r p l h
  fail_in_middle-Good i TlcErrorCode.incorrect_tlc_expiry r p l h =
      fail_middle_forwarding-Good i r p l h
  fail_in_middle-Good i TlcErrorCode.temporary_channel_failure r p l h =
      fail_middle_capacity-Good i r l h
  fail_in_middle-Good i TlcErrorCode.expiry_too_soon r p l h = fail_middle_expiry-Good i r p l h
  fail_in_middle-Good i TlcErrorCode.incorrect_or_unknown_payment_details r p l h =
      (r, false, refl, h)
  fail_in_middle-Good i TlcErrorCode.invoice_expired r p l h = (r, false, refl, h)
  fail_in_middle-Good i TlcErrorCode.invoice_cancelled r p l h = (r, false, refl, h)
  fail_in_middle-Good i TlcErrorCode.final_incorrect_expiry_delta r p l h = (r, false, refl, h)
  fail_in_middle-Good i TlcErrorCode.final_incorrect_tlc_amount r p l h = (r, false, refl, h)
  fail_in_middle-Good i _ r p l h = fail_middle_other-Good i r l
