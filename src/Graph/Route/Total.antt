-- ===== src/Graph/Route/Total.antt =====
-- `build_route` (fiber/src/fiber/graph.rs) behind `find_path` does not panic on a usable route.
use ai_ckb_backend.Common.{
  ℕ, suc, ◌+◌, ◌*◌, ◌^◌, ◌≤◌, ◌<◌, ◌≡◌, refl, ap, ltb, true, false, List, [], ◌∷◌, Option, arith,
  length, ◌==◌, inl, inr, any, ==_iff,
}
use ai_ckb_backend.Common.Outcome.{ok, u64_mod, u128_mod}
use ai_ckb_backend.Fee.{calculate_tlc_forward_fee, calculate_tlc_forward_fee_least}
use ai_ckb_backend.Tlc.Info.{Hash256}
use ai_ckb_backend.Graph.Info.{ChannelInfo, ChannelUpdateInfo}
use ai_ckb_backend.Graph.Route.{
  PathEdge, PaymentHopData, Payment, Building, update_of, hop_over, add_hop, build_hops,
  count_next_hops, amount_at, build_route_hops,
}
use ai_ckb_backend.Graph.Route.Forwards.{Forwards, length-Forwards, build_hops-Forwards}

-- The amount, doubled once for each edge after the first.
abbrev pub doubled : List PathEdge → ℕ → ℕ
doubled [] amount = amount
doubled (e ∷ es) amount = 2 * doubled es amount

-- The expiry, with the delta added once for each edge after the first.
abbrev pub delayed : ℕ → List PathEdge → ℕ → ℕ
delayed delta [] expiry = expiry
delayed delta (e ∷ es) expiry = delta + delayed delta es expiry

-- No node of `seen` and no node twice.
abbrev pub AreFresh : List ℕ → List PathEdge → Type 0
AreFresh seen [] = Unit
AreFresh seen (e ∷ es) = (any (λ n. n == e.target) seen ≡ false) × AreFresh (e.target ∷ seen) es

mul_le : (a b c : ℕ) → a ≤ b → a * c ≤ b * c
mul_le a b c h = grind arith

-- A fee of at most the whole amount.
fee_fits :
    (amount rate : ℕ)
    → amount < 2 ^ 107
    → rate ≤ 1000000
    → (fee : ℕ) × (calculate_tlc_forward_fee amount rate ≡ ok fee) × (fee ≤ amount)
fee_fits amount rate a r = elim (calculate_tlc_forward_fee_least amount rate) [
  | inl (big, e) ↦ absurd (omega (arith, mul_le rate 1000000 amount r))
  | inr (fits, (fee, e, cover, least)) ↦
      (fee, e, least amount (omega (arith, mul_le rate 1000000 amount r)))
]

module _ (channel_of : ℕ → Option ChannelInfo) (tx_hash : ℕ → Hash256) where
  -- Every edge but the last has an update whose rate is at most the whole amount, and whose delta is at
  -- most `delta`.
  abbrev pub IsUsable : ℕ → List PathEdge → Type 0
  IsUsable delta [] = Unit
  IsUsable delta (e ∷ []) = Unit
  IsUsable delta (e ∷ next ∷ es) =
      ((update : ChannelUpdateInfo) × (update_of channel_of tx_hash e ≡ ok update)
        × (update.fee_rate ≤ 1000000)
        × (update.tlc_expiry_delta ≤ delta))
      × IsUsable delta (next ∷ es)

  add_hop_runs :
      (e next : PathEdge) (p : Payment) (b : Building) (update : ChannelUpdateInfo) (fee : ℕ)
      → update_of channel_of tx_hash e ≡ ok update
      → calculate_tlc_forward_fee b.current_amount update.fee_rate ≡ ok fee
      → b.current_expiry + update.tlc_expiry_delta < u64_mod
      → b.current_amount + fee < u128_mod
      → add_hop channel_of tx_hash e next p b
        ≡ ok (record {
          current_amount = b.current_amount + fee;
          current_expiry = b.current_expiry + update.tlc_expiry_delta;
          hops_data = hop_over channel_of tx_hash next p b ∷ b.hops_data;
        })
  unfolding add_hop
  add_hop_runs e next p b update fee u f x y =
      let expiry : ltb (b.current_expiry + update.tlc_expiry_delta) u64_mod ≡ true = ground arith in
      let amount : ltb (b.current_amount + fee) u128_mod ≡ true = ground arith in
      rw (u, f, expiry, amount) refl

  build_hops_total :
      (delta : ℕ) (e : PathEdge) (es : List PathEdge) (p : Payment)
      → IsUsable delta (e ∷ es)
      → doubled es p.amount < 2 ^ 107
      → delayed delta es p.expiry < u64_mod
      → (b : Building) × (build_hops channel_of tx_hash (e ∷ es) p ≡ ok b)
        × (b.current_amount ≤ doubled es p.amount)
        × (b.current_expiry ≤ delayed delta es p.expiry)
  unfolding build_hops
  build_hops_total delta e [] p u a d = (_, refl, omega arith, omega arith)
  build_hops_total delta e (next ∷ es) p ((update, found, rate, wait), u) a d =
      let (b, r, x, y) = build_hops_total delta next es p u (omega arith) (omega arith) in
      let (fee, f, z) = fee_fits b.current_amount update.fee_rate (omega arith) rate in
      (
        record {
          current_amount = b.current_amount + fee;
          current_expiry = b.current_expiry + update.tlc_expiry_delta;
          hops_data = hop_over channel_of tx_hash next p b ∷ b.hops_data;
        },
        rw r (add_hop_runs e next p b update fee found f (omega arith) (omega arith)),
        omega arith,
        omega arith,
      )

  amount_at-Forwards :
      (p : Payment) (es : List PathEdge) (hs : List PaymentHopData)
      → Forwards channel_of tx_hash p es hs
      → amount_at channel_of tx_hash (length es) hs ≡ ok p.amount
  amount_at-Forwards p [] [] f = elim f [ ]
  amount_at-Forwards p [] (h ∷ []) f = rw f
  amount_at-Forwards p [] (h ∷ later ∷ hs) f = elim f [ ]
  amount_at-Forwards p (e ∷ es) [] f = elim f [ ]
  amount_at-Forwards p (e ∷ es) (h ∷ []) f = elim f [ ]
  amount_at-Forwards p (e ∷ es) (h ∷ later ∷ hs) (n, t, q, r, f) =
      amount_at-Forwards p es (later ∷ hs) f

  count-Forwards :
      (seen : List ℕ) (p : Payment) (es : List PathEdge) (hs : List PaymentHopData)
      → Forwards channel_of tx_hash p es hs
      → AreFresh seen es
      → count_next_hops channel_of tx_hash seen hs ≡ length es
  count-Forwards seen p [] [] f d = elim f [ ]
  count-Forwards seen p [] (h ∷ []) f d = rw f
  count-Forwards seen p [] (h ∷ later ∷ hs) f d = elim f [ ]
  count-Forwards seen p (e ∷ es) [] f d = elim f [ ]
  count-Forwards seen p (e ∷ es) (h ∷ []) f d = elim f [ ]
  count-Forwards seen p (e ∷ es) (h ∷ later ∷ hs) (n, t, q, r, f) (fresh, d) =
      rw (n, fresh, count_next_hops)
        (ap suc (count-Forwards (e.target ∷ seen) p es (later ∷ hs) f d))

  -- For a route of one edge at least, that visits no node twice and whose edges but the last have an
  -- update in the graph, with a rate of at most the whole amount and a bounded delta: if the amount,
  -- doubled for each edge after the first, is below 2^107 and the latest expiry fits in 64 bits, then
  -- the hops are built without a panic, they lead over the route in order, each with the fee and the
  -- delta of the next channel on top of what the next hop has, and all in all at most the amount
  -- doubled that often is paid.
  pub build_route_hops_total :
      (delta : ℕ) (e : PathEdge) (es : List PathEdge) (p : Payment)
      → AreFresh [] (e ∷ es)
      → IsUsable delta (e ∷ es)
      → doubled es p.amount < 2 ^ 107
      → delayed delta es p.expiry < u64_mod
      → (total : ℕ) × (hops : List PaymentHopData) × (build_route_hops channel_of tx_hash (e ∷ es) p
          ≡ ok hops)
        × Forwards channel_of tx_hash p (e ∷ es) hops
        × (amount_at channel_of tx_hash 0 hops ≡ ok total)
        × (total ≤ doubled es p.amount)
  unfolding build_route_hops
  build_route_hops_total delta e es p d u a x =
      let (b, r, y, z) = build_hops_total delta e es p u a x in
      let hops : List PaymentHopData = hop_over channel_of tx_hash e p b ∷ b.hops_data in
      let f : Forwards channel_of tx_hash p (e ∷ es) hops =
        build_hops-Forwards channel_of tx_hash e es p b r in
      let long : (length hops == length (e ∷ es) + 1) ≡ true =
        (==_iff _ _).1 (length-Forwards channel_of tx_hash p (e ∷ es) hops f) in
      let same : (p.amount == p.amount) ≡ true = (==_iff _ _).1 refl in
      let count : (count_next_hops channel_of tx_hash [] hops == length (e ∷ es)) ≡ true =
        (==_iff _ _).1 (count-Forwards [] p (e ∷ es) hops f d) in
      (
        b.current_amount,
        hops,
        rw (r, long, amount_at-Forwards p (e ∷ es) hops f, same, count) refl,
        f,
        refl,
        y,
      )
