-- ===== src/History/Internal/Steps.antt =====
-- The steps that record a pair (`fail_pair`, `succeed_range_pairs` and the others of
-- fiber/src/fiber/history.rs): on a route with these indices they succeed and forget no node.
use Prim.Native.Nat.{max}
use ai_ckb_backend.Common.{
  ℕ, zero, suc, ◌+◌, ◌-◌, ◌≤◌, ◌<◌, ◌≡◌, refl, ◌∙◌, sym, Bool, true, false, List, [], ◌∷◌, some,
  arith, ltb, length, is_some, Bool-cases, inl, inr,
}
use ai_ckb_backend.Common.BTreeMap.{Key_ord, get, insert, get-insert}
use ai_ckb_backend.Common.Outcome.{ok}
use ai_ckb_backend.History.Internal.{
  SessionRouteNode, InternalResult, add, add_fail_pair, add_fail_pair_balanced, at, Recorded,
  fail_pair, fail_pair_balanced, succeed_rounds, succeed_range_pairs, fail_rounds, fail_range_pairs,
}

abbrev pub knows : ℕ → InternalResult → Bool
knows n r = is_some (get n r.nodes_to_channel_map)

-- The blamed node has channels.
abbrev pub HasChannels : InternalResult → Type 0
HasChannels r = (n : ℕ) → r.fail_node ≡ some n → is_some (get n r.nodes_to_channel_map) ≡ true

-- No node is forgotten, and the blame stays.
pub record Grows (r r' : InternalResult) : Type 0 where
  pub blame : r'.fail_node ≡ r.fail_node
  pub keeps : (n : ℕ) → knows n r ≡ true → knows n r' ≡ true

pub Grows-refl : (r : InternalResult) → Grows r r
Grows-refl r = record { blame = refl; keeps = λ n h. h }

pub Grows-trans : {r s t : InternalResult} → Grows r s → Grows s t → Grows r t
Grows-trans g h = record { blame = h.blame ∙ g.blame; keeps = λ n k. h.keeps n (g.keeps n k) }

pub Grows-HasChannels : {r r' : InternalResult} → Grows r r' → HasChannels r → HasChannels r'
Grows-HasChannels g h n e = g.keeps n (h n (sym g.blame ∙ e))

add-Grows :
    (a b channel time amount : ℕ) (success : Bool) (r : InternalResult)
    → Grows r (add a b channel time amount success r)
      × (knows a (add a b channel time amount success r) ≡ true)
      × (knows b (add a b channel time amount success r) ≡ true)
unfolding add
add-Grows a b channel time amount success r = (
  record {
    blame = refl;
    keeps = λ n h.
        rw
          (
            get-insert n b _ (insert a _ r.nodes_to_channel_map),
            get-insert n a _ r.nodes_to_channel_map,
          )
          (ground arith);
  },
  rw (get-insert a b _ (insert a _ r.nodes_to_channel_map), get-insert a a _ r.nodes_to_channel_map)
      (ground arith),
  rw (get-insert b b _ (insert a _ r.nodes_to_channel_map)) (ground arith),
)

pub at_total :
    (ns : List SessionRouteNode) (i : ℕ) → i < length ns → (n : SessionRouteNode) × (at ns i ≡ ok n)
at_total [] i h = absurd (omega arith)
at_total (n ∷ ns) zero h = (n, refl)
at_total (n ∷ ns) (suc i) h = at_total ns i (omega arith)

-- A step that succeeds and forgets nothing.
abbrev pub Steps : Recorded → InternalResult → Type 0
Steps m r = (r' : InternalResult) × (m ≡ ok r') × Grows r r'

add_fail_pair-Grows :
    (now a b channel : ℕ) (r : InternalResult)
    → Grows r (add_fail_pair now a b channel r)
      × (knows a (add_fail_pair now a b channel r) ≡ true)
      × (knows b (add_fail_pair now a b channel r) ≡ true)
unfolding add_fail_pair
add_fail_pair-Grows now a b channel r =
    let (g, _, _) = add-Grows a b channel now 0 false r in
    let (h, p, q) = add-Grows b a channel now 0 false (add a b channel now 0 false r) in
    (Grows-trans g h, q, p)

-- Both ends of the pair are known afterwards.
pub fail_pair_total :
    (now : ℕ) (ns : List SessionRouteNode) (i : ℕ) (a b : SessionRouteNode) (r : InternalResult)
    → 0 < i
    → at ns (i - 1) ≡ ok a
    → at ns i ≡ ok b
    → (r' : InternalResult) × (fail_pair now ns i r ≡ ok r')
      × Grows r r'
      × (knows a.pubkey r' ≡ true)
      × (knows b.pubkey r' ≡ true)
unfolding fail_pair
fail_pair_total now ns i a b r h p q =
    let (g, k, l) = add_fail_pair-Grows now a.pubkey b.pubkey a.channel_outpoint r in
    (_, ground (arith, p, q), g, k, l)

pub fail_pair-Steps :
    (now : ℕ) (ns : List SessionRouteNode) (i : ℕ) (r : InternalResult)
    → i < length ns
    → Steps (fail_pair now ns i r) r
unfolding fail_pair
fail_pair-Steps now ns i r h = elim (Bool-cases (ltb 0 i)) [
  | inl e ↦
      let (a, p) = at_total ns (i - 1) (ground arith) in
      let (b, q) = at_total ns i h in
      let (r', s, g, _, _) = fail_pair_total now ns i a b r (ground arith) p q in (r', s, g)
  | inr e ↦ (r, rw e, Grows-refl r)
]

pub fail_pair_balanced-Steps :
    (now : ℕ) (ns : List SessionRouteNode) (i : ℕ) (r : InternalResult)
    → i < length ns
    → Steps (fail_pair_balanced now ns i r) r
unfolding fail_pair_balanced add_fail_pair_balanced
fail_pair_balanced-Steps now ns i r h = elim (Bool-cases (ltb 0 i)) [
  | inl e ↦
      let (a, p) = at_total ns (i - 1) (ground arith) in
      let (b, q) = at_total ns i h in
      (_, rw (e, p, q), (add-Grows a.pubkey b.pubkey a.channel_outpoint now b.amount false r).0)
  | inr e ↦ (r, rw e, Grows-refl r)
]

succeed_rounds-Steps :
    (now : ℕ) (ns : List SessionRouteNode) (count i : ℕ) (r : InternalResult)
    → i + count < length ns
    → Steps (succeed_rounds now ns count i r) r
unfolding succeed_rounds
succeed_rounds-Steps now ns zero i r h = (r, refl, Grows-refl r)
succeed_rounds-Steps now ns (suc count) i r h =
    let (a, p) = at_total ns i (omega arith) in
    let (b, q) = at_total ns (i + 1) (omega arith) in
    let (r', s, g) =
      succeed_rounds-Steps now ns count (i + 1)
        (add a.pubkey b.pubkey a.channel_outpoint now a.amount true r) (omega arith) in
    (
      r',
      rw (p, q) s,
      Grows-trans (add-Grows a.pubkey b.pubkey a.channel_outpoint now a.amount true r).0 g,
    )

pub succeed_range_pairs-Steps :
    (now : ℕ) (ns : List SessionRouteNode) (end : ℕ) (r : InternalResult)
    → end < length ns
    → Steps (succeed_range_pairs now ns 0 end r) r
unfolding succeed_range_pairs
succeed_range_pairs-Steps now ns end r h = succeed_rounds-Steps now ns (end - 0) 0 r (omega arith)

fail_rounds-Steps :
    (now : ℕ) (ns : List SessionRouteNode) (count i : ℕ) (r : InternalResult)
    → i + count ≤ length ns
    → Steps (fail_rounds now ns count i r) r
unfolding fail_rounds
fail_rounds-Steps now ns zero i r h = (r, refl, Grows-refl r)
fail_rounds-Steps now ns (suc count) i r h =
    let (r', s, g) = fail_pair-Steps now ns i r (omega arith) in
    let (r'', s', g') = fail_rounds-Steps now ns count (i + 1) r' (omega arith) in
    (r'', rw s s', Grows-trans g g')

pub fail_range_pairs-Steps :
    (now : ℕ) (ns : List SessionRouteNode) (end : ℕ) (r : InternalResult)
    → 0 < end
    → end < length ns
    → Steps (fail_range_pairs now ns 0 end r) r
unfolding fail_range_pairs
fail_range_pairs-Steps now ns end r h k =
    fail_rounds-Steps now ns (end + 1 - max 0 1) (max 0 1) r (omega arith)
