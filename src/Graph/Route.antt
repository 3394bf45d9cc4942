-- ===== src/Graph/Route.antt =====
-- The part of `build_route` of fiber/src/fiber/graph.rs behind `find_path`: the data of the hops for a
-- route that is given. `channel_of` is `get_channel`, and `tx_hash` the transaction hash in an outpoint,
-- which the ckb crates define.
pub mod Forwards
pub mod Total
use ai_ckb_backend.Common.{
  ℕ, zero, suc, ◌+◌, Bool, true, false, ◌&&◌, not, List, [], ◌∷◌, Option, some, none, if◌then◌else◌,
  ◌==◌, any, length, is_none,
}
use ai_ckb_backend.Common.Outcome.{Outcome, ok, err, panic, assert, add_u64, add_u128, ◌>>=◌, ◌>>◌}
use ai_ckb_backend.Fee.{calculate_tlc_forward_fee}
use ai_ckb_backend.Tlc.Info.{Hash256, HashAlgorithm}
use ai_ckb_backend.Graph.Info.{ChannelInfo, ChannelUpdateInfo, get_update_info_with}

pub record PathEdge : Type 0 where
  pub target : ℕ
  pub channel_outpoint : ℕ

-- `PaymentHopData` of fiber/src/fiber/types.rs.
pub record PaymentHopData : Type 0 where
  pub amount : ℕ  -- u128
  pub expiry : ℕ  -- u64
  pub payment_preimage : Option Hash256
  pub hash_algorithm : HashAlgorithm
  pub funding_tx_hash : Hash256
  pub next_hop : Option ℕ

-- What `build_route` reads of the payment: the amount, the expiry of the last hop (the time of the
-- call and `final_tlc_expiry_delta`), the preimage and the hash algorithm.
pub record Payment : Type 0 where
  pub amount : ℕ  -- u128
  pub expiry : ℕ  -- u64
  pub preimage : Option Hash256
  pub hash_algorithm : HashAlgorithm

-- The variables of the loop. `hops_data` is in the order that `reverse` gives it at the end.
pub record Building : Type 0 where
  pub current_amount : ℕ
  pub current_expiry : ℕ
  pub hops_data : List PaymentHopData

-- No result is an error here: what is not found, or does not fit, is a panic.
abbrev pub Built : Type 0 → Type 0
Built A = Outcome (Unit {0}) A

-- `expect`.
abbrev pub expect {ℓ} : {A : Type ℓ} → Option A → Outcome (Unit {0}) A
expect (some a) = ok a
expect none = panic

abbrev pub expect_ok : Outcome (Unit {0}) ℕ → Built ℕ
expect_ok (ok fee) = ok fee
expect_ok (err why) = panic
expect_ok panic = panic

-- `Hash256::default()`.
abbrev pub no_hash : Hash256
no_hash = 0

module _ (channel_of : ℕ → Option ChannelInfo) (tx_hash : ℕ → Hash256) where
  -- The update that the forwarding over an edge is paid by.
  abbrev pub update_of : PathEdge → Built ChannelUpdateInfo
  update_of e = do
    channel_info ← expect (channel_of e.channel_outpoint)
    expect (get_update_info_with e.target channel_info)

  -- The hop that tells a node to go on over the edge.
  abbrev pub hop_over : PathEdge → Payment → Building → PaymentHopData
  hop_over e p b = record {
    amount = b.current_amount;
    expiry = b.current_expiry;
    payment_preimage = none;
    hash_algorithm = p.hash_algorithm;
    funding_tx_hash = tx_hash e.channel_outpoint;
    next_hop = some e.target;
  }

  abbrev pub last_hop : Payment → PaymentHopData
  last_hop p = record {
    amount = p.amount;
    expiry = p.expiry;
    payment_preimage = p.preimage;
    hash_algorithm = p.hash_algorithm;
    funding_tx_hash = no_hash;
    next_hop = none;
  }

  -- A round of the loop that is not the first: over the edge `e`, with `next` after it.
  unfoldable pub add_hop : PathEdge → PathEdge → Payment → Building → Built Building
  add_hop e next p b = do
    channel_update ← update_of e
    fee ← expect_ok (calculate_tlc_forward_fee b.current_amount channel_update.fee_rate)
    current_expiry ← add_u64 b.current_expiry channel_update.tlc_expiry_delta
    current_amount ← add_u128 b.current_amount fee
    ok (record {
      current_amount = current_amount;
      current_expiry = current_expiry;
      hops_data = hop_over next p b ∷ b.hops_data;
    })

  -- The loop from the last edge to the first; `route[0]` panics on an empty route.
  unfoldable pub build_hops : List PathEdge → Payment → Built Building
  build_hops [] p = panic
  build_hops (e ∷ []) p =
      ok (record {
        current_amount = p.amount;
        current_expiry = p.expiry;
        hops_data = last_hop p ∷ [];
      })
  build_hops (e ∷ next ∷ es) p = do b ← build_hops (next ∷ es) p; add_hop e next p b

  -- The number of different nodes among the `next_hop`s, as the `HashSet` counts them.
  abbrev pub count_next_hops : List ℕ → List PaymentHopData → ℕ
  count_next_hops seen [] = 0
  count_next_hops seen (h ∷ hs) = elim h.next_hop [
    | none ↦ count_next_hops seen hs
    | some n ↦ elim (any (λ m. m == n) seen) [
      | true ↦ count_next_hops seen hs
      | false ↦ suc (count_next_hops (n ∷ seen) hs)
    ]
  ]

  -- `hops_data[i].amount`.
  abbrev pub amount_at : ℕ → List PaymentHopData → Built ℕ
  amount_at i [] = panic
  amount_at zero (h ∷ hs) = ok h.amount
  amount_at (suc i) (h ∷ hs) = amount_at i hs

  abbrev pub first_hop : List PathEdge → Payment → Building → List PaymentHopData
  first_hop [] p b = b.hops_data
  first_hop (e ∷ es) p b = hop_over e p b ∷ b.hops_data

  unfoldable pub build_route_hops : List PathEdge → Payment → Built (List PaymentHopData)
  unfolding build_hops
  build_route_hops route p = do
    b ← build_hops route p
    let hops_data = first_hop route p b
    assert (length hops_data == length route + 1)
    final ← amount_at (length route) hops_data
    assert (final == p.amount)
    assert (count_next_hops [] hops_data == length route)
    ok hops_data
