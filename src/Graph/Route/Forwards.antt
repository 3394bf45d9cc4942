-- ===== src/Graph/Route/Forwards.antt =====
-- What the hops of a route say, described from the route alone, and that `build_route`
-- (fiber/src/fiber/graph.rs) makes such hops.
use mathlib.Core.Path.{subst}
use ai_ckb_backend.Common.{ℕ, ◌+◌, ◌≡◌, refl, sym, List, [], ◌∷◌, Option, some, none, arith, length}
use ai_ckb_backend.Common.Outcome.{Outcome, ok, >>=-Passed}
use ai_ckb_backend.Fee.{calculate_tlc_forward_fee}
use ai_ckb_backend.Tlc.Info.{Hash256}
use ai_ckb_backend.Graph.Info.{ChannelInfo, ChannelUpdateInfo}
use ai_ckb_backend.Graph.Route.{
  PathEdge, PaymentHopData, Payment, Building, expect_ok, update_of, hop_over, last_hop, add_hop,
  build_hops,
}

module _ (channel_of : ℕ → Option ChannelInfo) (tx_hash : ℕ → Hash256) where
  -- Between two hops: the earlier one carries the later one's amount and the fee of the edge's channel
  -- on it, and the later one's expiry and the delta of the channel. The last edge is free.
  abbrev pub Pays : PathEdge → List PathEdge → PaymentHopData → PaymentHopData → Type 0
  Pays e [] h later = (h.amount ≡ later.amount) × (h.expiry ≡ later.expiry)
  Pays e (next ∷ es) h later =
      (update : ChannelUpdateInfo) × (update_of channel_of tx_hash e ≡ ok update)
      × ((fee : ℕ) × (calculate_tlc_forward_fee later.amount update.fee_rate ≡ ok fee)
          × (h.amount ≡ later.amount + fee))
      × (h.expiry ≡ later.expiry + update.tlc_expiry_delta)

  -- The hops lead over the edges in order, each paid for, to one that ends the payment.
  abbrev pub Forwards : Payment → List PathEdge → List PaymentHopData → Type 0
  Forwards p [] (h ∷ []) = h ≡ last_hop channel_of tx_hash p
  Forwards p (e ∷ es) (h ∷ later ∷ hs) =
      (h.next_hop ≡ some e.target)
      × (h.funding_tx_hash ≡ tx_hash e.channel_outpoint)
      × (h.payment_preimage ≡ none)
      × Pays e es h later
      × Forwards p es (later ∷ hs)
  Forwards p es hs = ⊥

  -- The variables after a round that pays this fee and this delta.
  abbrev after_hop : PathEdge → Payment → Building → ℕ → ℕ → Building
  after_hop next p b fee delta = record {
    current_amount = b.current_amount + fee;
    current_expiry = b.current_expiry + delta;
    hops_data = hop_over channel_of tx_hash next p b ∷ b.hops_data;
  }

  expect_ok-ok : (m : Outcome (Unit {0}) ℕ) {fee : ℕ} → expect_ok m ≡ ok fee → m ≡ ok fee
  expect_ok-ok m {fee} h = ground arith

  add_hop_parts :
      (e next : PathEdge) (p : Payment) (b c : Building)
      → add_hop channel_of tx_hash e next p b ≡ ok c
      → (update : ChannelUpdateInfo) × (update_of channel_of tx_hash e ≡ ok update)
        × ((fee : ℕ) × (calculate_tlc_forward_fee b.current_amount update.fee_rate ≡ ok fee)
            × (c ≡ after_hop next p b fee update.tlc_expiry_delta))
  unfolding add_hop
  add_hop_parts e next p b c h =
      let (update, u, h1) = >>=-Passed (update_of channel_of tx_hash e) _ h in
      let (fee, f, h2) =
        >>=-Passed (expect_ok (calculate_tlc_forward_fee b.current_amount update.fee_rate)) _ h1 in
      (
        update,
        u,
        (
          fee,
          expect_ok-ok (calculate_tlc_forward_fee b.current_amount update.fee_rate) {fee = fee} f,
          ground arith,
        ),
      )

  add_hop-Forwards :
      (e next : PathEdge) (es : List PathEdge) (p : Payment) (b c : Building)
      → Forwards p (next ∷ es) (hop_over channel_of tx_hash next p b ∷ b.hops_data)
      → add_hop channel_of tx_hash e next p b ≡ ok c
      → Forwards p (e ∷ next ∷ es) (hop_over channel_of tx_hash e p c ∷ c.hops_data)
  add_hop-Forwards e next es p b c f h =
      let (update, u, (fee, q, r)) = add_hop_parts e next p b c h in
      subst
        (λ (d : Building).
          Forwards p (e ∷ next ∷ es) (hop_over channel_of tx_hash e p d ∷ d.hops_data))
        (sym r) (refl, refl, refl, (update, u, (fee, q, refl), refl), f)

  pub build_hops-Forwards :
      (e : PathEdge) (es : List PathEdge) (p : Payment) (b : Building)
      → build_hops channel_of tx_hash (e ∷ es) p ≡ ok b
      → Forwards p (e ∷ es) (hop_over channel_of tx_hash e p b ∷ b.hops_data)
  unfolding build_hops
  build_hops-Forwards e [] p b h =
      let r : b ≡ record {
        current_amount = p.amount;
        current_expiry = p.expiry;
        hops_data = last_hop channel_of tx_hash p ∷ [];
      } =
        ground arith in
      subst
        (λ (d : Building). Forwards p (e ∷ []) (hop_over channel_of tx_hash e p d ∷ d.hops_data))
        (sym r) (refl, refl, refl, (refl, refl), refl)
  build_hops-Forwards e (next ∷ es) p b h =
      let (c, q, r) = >>=-Passed (build_hops channel_of tx_hash (next ∷ es) p) _ h in
      add_hop-Forwards e next es p c b (build_hops-Forwards next es p c q) r

  pub length-Forwards :
      (p : Payment) (es : List PathEdge) (hs : List PaymentHopData)
      → Forwards p es hs
      → length hs ≡ length es + 1
  length-Forwards p [] [] f = elim f [ ]
  length-Forwards p [] (h ∷ []) f = refl
  length-Forwards p [] (h ∷ later ∷ hs) f = elim f [ ]
  length-Forwards p (e ∷ es) [] f = elim f [ ]
  length-Forwards p (e ∷ es) (h ∷ []) f = elim f [ ]
  length-Forwards p (e ∷ es) (h ∷ later ∷ hs) (n, t, q, r, f) =
      omega (arith, length-Forwards p es (later ∷ hs) f)
