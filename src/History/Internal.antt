-- ===== src/History/Internal.antt =====
-- `InternalResult` of fiber/src/fiber/history.rs: what one payment attempt showed of the channels on
-- its route. An index out of range and a subtraction below zero panic. The hash maps are maps in
-- order of their keys; a hash set is a list in which no element stands twice.
pub mod Steps
use Prim.Native.Nat.{compare, Ordering, max}
use ai_ckb_backend.Common.{
  ℕ, zero, suc, ◌+◌, ◌-◌, ◌≡◌, refl, Bool, true, false, not, List, [], ◌∷◌, Option, some, none,
  arith, if◌then◌else◌, ltb, leb, ◌==◌, length, any,
}
use ai_ckb_backend.Common.BTreeMap.{Ord, get, insert, Key_ord}
use ai_ckb_backend.Common.Outcome.{Outcome, ok, panic, assert, ◌>>=◌, ◌>>◌}
use ai_ckb_backend.History.ErrorCode.{
  TlcErrorCode, TlcErr, error_node_id, invalid_onion_version, invalid_onion_hmac, invalid_onion_key,
  invalid_onion_payload, incorrect_or_unknown_payment_details, invoice_expired, invoice_cancelled,
  expiry_too_far, expiry_too_soon, final_incorrect_expiry_delta, final_incorrect_tlc_amount,
  unknown_next_peer, permanent_channel_failure, fee_insufficient, incorrect_tlc_expiry,
  temporary_channel_failure,
}

pub data Direction : Type 0 where
  forward backward : Direction

-- `SessionRouteNode` of fiber/src/fiber/graph.rs.
pub record SessionRouteNode : Type 0 where
  pub pubkey : ℕ
  pub amount : ℕ  -- u128
  pub channel_outpoint : ℕ

pub record InternalPairResult : Type 0 where
  pub success : Bool
  pub time : ℕ  -- u64
  pub amount : ℕ  -- u128

-- A channel and a direction, the key of the results.
pub record Pair : Type 0 where
  pub channel : ℕ
  pub direction : Direction

abbrev pub cmp_direction : Direction → Direction → Ordering
cmp_direction forward forward = Ordering.eq
cmp_direction forward backward = Ordering.lt
cmp_direction backward forward = Ordering.gt
cmp_direction backward backward = Ordering.eq

abbrev pub cmp_pair : Pair → Pair → Ordering
cmp_pair a b = elim (compare a.channel b.channel) [
  | Ordering.lt ↦ Ordering.lt
  | Ordering.eq ↦ cmp_direction a.direction b.direction
  | Ordering.gt ↦ Ordering.gt
]

pub cmp_pair_refl : (a : Pair) → cmp_pair a a ≡ Ordering.eq
cmp_pair_refl a = ground arith

pub cmp_pair_eq : (a b : Pair) → cmp_pair a b ≡ Ordering.eq → a ≡ b
cmp_pair_eq a b h = ground arith

pub cmp_pair_gt : (a b : Pair) → cmp_pair a b ≡ Ordering.gt → cmp_pair b a ≡ Ordering.lt
cmp_pair_gt a b h = ground arith

pub cmp_pair_trans :
    (a b c : Pair)
    → cmp_pair a b ≡ Ordering.lt
    → cmp_pair b c ≡ Ordering.lt
    → cmp_pair a c ≡ Ordering.lt
cmp_pair_trans a b c h k = ground arith

instance abbrev pub Pair_ord : Ord Pair
Pair_ord = record {
  cmp = cmp_pair;
  cmp_refl = cmp_pair_refl;
  cmp_eq = cmp_pair_eq;
  cmp_gt = cmp_pair_gt;
  cmp_trans = cmp_pair_trans;
}

pub record InternalResult : Type 0 where
  pub pairs : List (Pair × InternalPairResult)
  pub nodes_to_channel_map : List (ℕ × List ℕ)
  pub fail_node : Option ℕ

-- The derived `Default`.
unfoldable pub empty : InternalResult
empty = record { pairs = []; nodes_to_channel_map = []; fail_node = none }

unfoldable pub output_direction : ℕ → ℕ → Direction × Direction
output_direction node1 node2 = if ltb node1 node2 then (forward, backward) else (backward, forward)

-- `HashSet::insert`, on the set that is there or on an empty one.
abbrev pub insert_channel : ℕ → Option (List ℕ) → List ℕ
insert_channel c none = c ∷ []
insert_channel c (some cs) = if any (λ d. d == c) cs then cs else c ∷ cs

unfoldable pub add_node_channel_map : ℕ → ℕ → InternalResult → InternalResult
add_node_channel_map node channel r = record r {
  nodes_to_channel_map =
      insert node (insert_channel channel (get node r.nodes_to_channel_map)) r.nodes_to_channel_map;
}

unfoldable pub add : ℕ → ℕ → ℕ → ℕ → ℕ → Bool → InternalResult → InternalResult
unfolding output_direction add_node_channel_map
add node_1 node_2 channel time amount success r =
    let r' = add_node_channel_map node_2 channel (add_node_channel_map node_1 channel r) in
    record r' {
      pairs =
          insert (record { channel = channel; direction = (output_direction node_1 node_2).0 })
            (record { success = success; time = time; amount = amount }) r'.pairs;
    }

unfoldable pub add_fail_pair : ℕ → ℕ → ℕ → ℕ → InternalResult → InternalResult
add_fail_pair now from target channel r =
    add target from channel now 0 false (add from target channel now 0 false r)

unfoldable pub add_fail_pair_balanced : ℕ → ℕ → ℕ → ℕ → ℕ → InternalResult → InternalResult
add_fail_pair_balanced now from target channel amount r = add from target channel now amount false r

abbrev pub Recorded : Type 0
Recorded = Outcome (Unit {0}) InternalResult

-- `nodes[index]`
abbrev pub at : List SessionRouteNode → ℕ → Outcome (Unit {0}) SessionRouteNode
at [] i = panic
at (n ∷ ns) zero = ok n
at (n ∷ ns) (suc i) = at ns i

-- `index - n` on `usize`.
abbrev pub sub_usize : ℕ → ℕ → Outcome (Unit {0}) ℕ
sub_usize a b = if leb b a then ok (a - b) else panic

unfoldable pub fail_pair : ℕ → List SessionRouteNode → ℕ → InternalResult → Recorded
fail_pair now route index r =
    if ltb 0 index
    then (do
      a ← at route (index - 1)
      b ← at route index
      ok (add_fail_pair now a.pubkey b.pubkey a.channel_outpoint r))
    else ok r

unfoldable pub fail_pair_balanced : ℕ → List SessionRouteNode → ℕ → InternalResult → Recorded
fail_pair_balanced now nodes index r =
    if ltb 0 index
    then (do
      a ← at nodes (index - 1)
      b ← at nodes index
      ok (add_fail_pair_balanced now a.pubkey b.pubkey a.channel_outpoint b.amount r))
    else ok r

unfoldable pub fail_node : ℕ → List SessionRouteNode → ℕ → InternalResult → Recorded
fail_node now nodes index r = do
  n ← at nodes index
  r' ←
      if ltb 0 index
      then fail_pair now nodes index (record r { fail_node = some n.pubkey })
      else ok (record r { fail_node = some n.pubkey })
  if ltb (index + 1) (length nodes) then fail_pair now nodes (index + 1) r' else ok r'

-- The rounds `i .. i + count` of `succeed_range_pairs`.
unfoldable pub succeed_rounds : ℕ → List SessionRouteNode → ℕ → ℕ → InternalResult → Recorded
succeed_rounds now nodes zero i r = ok r
succeed_rounds now nodes (suc count) i r = do
  a ← at nodes i
  b ← at nodes (i + 1)
  succeed_rounds now nodes count (i + 1)
      (add a.pubkey b.pubkey a.channel_outpoint now a.amount true r)

unfoldable pub succeed_range_pairs : ℕ → List SessionRouteNode → ℕ → ℕ → InternalResult → Recorded
succeed_range_pairs now nodes start end r = succeed_rounds now nodes (end - start) start r

-- The rounds `i .. i + count` of `fail_range_pairs`.
unfoldable pub fail_rounds : ℕ → List SessionRouteNode → ℕ → ℕ → InternalResult → Recorded
fail_rounds now nodes zero i r = ok r
fail_rounds now nodes (suc count) i r = do
  r' ← fail_pair now nodes i r
  fail_rounds now nodes count (i + 1) r'

unfoldable pub fail_range_pairs : ℕ → List SessionRouteNode → ℕ → ℕ → InternalResult → Recorded
fail_range_pairs now nodes start end r =
    fail_rounds now nodes (end + 1 - max start 1) (max start 1) r
