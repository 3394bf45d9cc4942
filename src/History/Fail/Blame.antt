-- ===== src/History/Fail/Blame.antt =====
-- `fail_node` and what `record_payment_fail` leaves after it (fiber/src/fiber/history.rs).
use ai_ckb_backend.Common.{
  ℕ, ◌+◌, ◌-◌, ◌≤◌, ◌<◌, ◌≡◌, refl, ◌∙◌, Bool, true, false, List, some, arith, if◌then◌else◌, ltb,
  length, Bool-cases, inl, inr,
}
use ai_ckb_backend.Common.Outcome.{ok}
use ai_ckb_backend.History.ErrorCode.{TlcErrorCode}
use ai_ckb_backend.History.Internal.{
  SessionRouteNode, InternalResult, at, Recorded, fail_pair, fail_node, sub_usize,
}
use ai_ckb_backend.History.Fail.{Verdict, fail_at_source}
use ai_ckb_backend.History.Internal.Steps.{
  HasChannels, knows, Grows, Grows-refl, Grows-trans, at_total, Steps, fail_pair_total,
  fail_pair-Steps,
}

-- A step that succeeds with channels for the blamed node.
abbrev pub Blames : Recorded → Type 0
Blames m = (r' : InternalResult) × (m ≡ ok r') × HasChannels r'

blamed : (n : ℕ) (r : InternalResult) → r.fail_node ≡ some n → knows n r ≡ true → HasChannels r
blamed n r e k m h = let same : n ≡ m = ground arith in ground arith

blames_after :
    {r s : InternalResult} (n : ℕ)
    → Grows r s
    → r.fail_node ≡ some n
    → knows n s ≡ true
    → HasChannels s
blames_after {s} n g e k = blamed n s (g.blame ∙ e) k

-- `if index + 1 < nodes.len()` at the end of `fail_node`.
next_pair-Steps :
    (now : ℕ) (ns : List SessionRouteNode) (i : ℕ) (r : InternalResult)
    → Steps (if ltb (i + 1) (length ns) then fail_pair now ns (i + 1) r else ok r) r
next_pair-Steps now ns i r = elim (Bool-cases (ltb (i + 1) (length ns))) [
  | inl e ↦ let (r', s, g) = fail_pair-Steps now ns (i + 1) r (ground arith) in (r', rw e s, g)
  | inr e ↦ (r, rw e, Grows-refl r)
]

pub fail_node-Blames :
    (now : ℕ) (ns : List SessionRouteNode) (i : ℕ) (r : InternalResult)
    → 1 < length ns
    → i < length ns
    → Blames (fail_node now ns i r)
unfolding fail_node
fail_node-Blames now ns i r l h =
    let (n, p) = at_total ns i h in
    let r0 : InternalResult = record r { fail_node = some n.pubkey } in
    elim (Bool-cases (ltb 0 i)) [
      | inl e ↦
          let (a, q) = at_total ns (i - 1) (ground arith) in
          let (r1, s, g, _, k) = fail_pair_total now ns i a n r0 (ground arith) q p in
          let (r2, s', g') = next_pair-Steps now ns i r1 in
          (r2, rw (p, e, s) s', blames_after n.pubkey (Grows-trans g g') refl (g'.keeps n.pubkey k))
      | inr e ↦
          let (b, q) = at_total ns (i + 1) (ground arith) in
          let back : at ns (i + 1 - 1) ≡ ok n =
            let same : i + 1 - 1 ≡ i = omega arith in rw same p in
          let (r1, s, g, k, _) = fail_pair_total now ns (i + 1) n b r0 (omega arith) back q in
          let more : ltb (i + 1) (length ns) ≡ true = ground arith in
          (r1, rw (p, e, more) s, blames_after n.pubkey g refl k)
    ]

abbrev pub Good : Verdict → Type 0
Good m = (r' : InternalResult) × (retry : Bool) × (m ≡ ok (r', retry)) × HasChannels r'

pub fail_at_source-Good :
    (code : TlcErrorCode) (r : InternalResult) → HasChannels r → Good (fail_at_source code r)
unfolding fail_at_source
fail_at_source-Good TlcErrorCode.invalid_onion_version r h = (r, false, refl, h)
fail_at_source-Good _ r h = (r, _, refl, h)

pub sub_usize_total : (a b : ℕ) → b ≤ a → sub_usize a b ≡ ok (a - b)
sub_usize_total a b h = ground arith
