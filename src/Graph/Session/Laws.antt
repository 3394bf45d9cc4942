-- ===== src/Graph/Session/Laws.antt =====
-- The session route of hops that `build_route` made (fiber/src/fiber/graph.rs): its fee and its keys.
use ai_ckb_backend.Common.{
  ℕ, ◌-◌, ◌≤◌, ◌≡◌, refl, ap, ◌∙◌, true, List, [], ◌∷◌, Option, arith, leb, drop,
}
use ai_ckb_backend.Common.Outcome.{ok}
use ai_ckb_backend.Tlc.Info.{Hash256}
use ai_ckb_backend.History.Internal.{SessionRouteNode}
use ai_ckb_backend.Graph.Info.{ChannelInfo}
use ai_ckb_backend.Graph.Route.{PathEdge, PaymentHopData, Payment}
use ai_ckb_backend.Graph.Route.Forwards.{Forwards, Pays}
use ai_ckb_backend.Graph.Session.{
  session_route, route_nodes, next_or, first_amount, last_amount, route_fee, pubkeys,
}

abbrev pub targets : List PathEdge → List ℕ
targets [] = []
targets (e ∷ es) = e.target ∷ targets es

pubkeys-drop : (ns : List SessionRouteNode) → pubkeys (drop 1 ns) ≡ drop 1 (pubkeys ns)
pubkeys-drop [] = refl
pubkeys-drop (n ∷ ns) = refl

module _ (channel_of : ℕ → Option ChannelInfo) (tx_hash : ℕ → Hash256)
    (outpoint_new : Hash256 → ℕ → ℕ) where
  Pays-le :
      (e : PathEdge) (es : List PathEdge) (h later : PaymentHopData)
      → Pays channel_of tx_hash e es h later
      → later.amount ≤ h.amount
  Pays-le e [] h later (a, x) = omega arith
  Pays-le e (next ∷ es) h later (update, u, (fee, f, a), x) = omega arith

  route_nodes-Forwards :
      (p : Payment) (source target : ℕ) (es : List PathEdge) (hs : List PaymentHopData)
      → Forwards channel_of tx_hash p es hs
      → (last_amount (route_nodes outpoint_new source target hs) ≡ p.amount)
        × (p.amount ≤ first_amount (route_nodes outpoint_new source target hs))
        × (pubkeys (route_nodes outpoint_new source target hs) ≡ source ∷ targets es)
  route_nodes-Forwards p source target [] [] f = elim f [ ]
  route_nodes-Forwards p source target [] (h ∷ []) f =
      let same : h.amount ≡ p.amount = ap (λ (x : PaymentHopData). x.amount) f in
      (same, omega arith, refl)
  route_nodes-Forwards p source target [] (h ∷ later ∷ hs) f = elim f [ ]
  route_nodes-Forwards p source target (e ∷ es) [] f = elim f [ ]
  route_nodes-Forwards p source target (e ∷ es) (h ∷ []) f = elim f [ ]
  route_nodes-Forwards p source target (e ∷ es) (h ∷ later ∷ hs) (n, t, q, r, f) =
      let (a, b, c) = route_nodes-Forwards p (next_or target h.next_hop) target es (later ∷ hs) f in
      (
        a,
        omega (arith, Pays-le e es h later r),
        ap (λ ks. source ∷ ks) (c ∙ ap (λ (o : Option ℕ). next_or target o ∷ targets es) n),
      )

  -- For hops that lead over the edges and are paid for: the assertion in the fee of the session route
  -- holds, the fee is what the first hop has above the amount that is paid, and the keys without the
  -- first are the targets of the edges in order.
  pub session_route-Forwards :
      (p : Payment) (source target : ℕ) (es : List PathEdge) (hs : List PaymentHopData)
      → Forwards channel_of tx_hash p es hs
      → (route_fee (session_route outpoint_new source target hs)
          ≡ ok (first_amount (session_route outpoint_new source target hs) - p.amount))
        × (p.amount ≤ first_amount (session_route outpoint_new source target hs))
        × (pubkeys (drop 1 (session_route outpoint_new source target hs)) ≡ targets es)
  unfolding session_route route_fee
  session_route-Forwards p source target es hs f =
      let (a, b, c) = route_nodes-Forwards p source target es hs f in
      let enough : leb (last_amount (route_nodes outpoint_new source target hs))
            (first_amount (route_nodes outpoint_new source target hs))
          ≡ true =
        ground (arith, a, b) in
      (
        rw (enough, a) refl,
        b,
        pubkeys-drop (route_nodes outpoint_new source target hs) ∙ ap (λ ks. drop 1 ks) c,
      )
