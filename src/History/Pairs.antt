-- ===== src/History/Pairs.antt =====
-- `PaymentHistory` of fiber/src/fiber/history.rs: the results by channel and direction, in memory and
-- in the store. The fields for the probabilities, which are floats, are left out.
pub mod Valid
pub mod Replay
use ai_ckb_backend.Common.{
  ℕ, ◌+◌, ◌-◌, Bool, true, false, not, ◌&&◌, ◌||◌, List, [], ◌∷◌, ◌++◌, Option, some, none,
  if◌then◌else◌, ltb, leb, ◌==◌, any,
}
use ai_ckb_backend.Common.BTreeMap.{Key_ord, get, insert}
use ai_ckb_backend.Common.Outcome.{Outcome, ok, panic, assert, add_u128, ◌>>=◌, ◌>>◌}
use ai_ckb_backend.History.Internal.{
  Direction, Pair, Pair_ord, InternalPairResult, InternalResult, insert_channel,
}

pub record TimedResult : Type 0 where
  pub fail_time : ℕ  -- u64
  pub fail_amount : ℕ  -- u128
  pub success_time : ℕ  -- u64
  pub success_amount : ℕ  -- u128

abbrev pub default_min_fail_relax_interval : ℕ
default_min_fail_relax_interval = 60000

pub record PaymentHistory : Type 0 where
  pub inner : List (Pair × TimedResult)
  pub nodes_to_channel_map : List (ℕ × List ℕ)
  pub min_fail_relax_interval : ℕ
  pub source : ℕ
  -- What `insert_payment_history_result` of the store has been given, by key.
  pub store : List (Pair × TimedResult)

unfoldable pub add_result : Pair → TimedResult → PaymentHistory → PaymentHistory
add_result k result h = record h {
  inner = insert k result h.inner;
  store = insert k result h.store;
}

-- The results of the store, entered one by one.
unfoldable pub load_results :
    List (Pair × TimedResult) → List (Pair × TimedResult) → List (Pair × TimedResult)
load_results [] inner = inner
load_results ((k, result) ∷ results) inner = load_results results (insert k result inner)

unfoldable pub load_from_store : PaymentHistory → PaymentHistory
unfolding load_results
load_from_store h = record h { inner = load_results h.store h.inner }

abbrev pub interval_or_default : Option ℕ → ℕ
interval_or_default none = default_min_fail_relax_interval
interval_or_default (some n) = n

unfoldable pub new : ℕ → Option ℕ → List (Pair × TimedResult) → PaymentHistory
unfolding load_from_store
new source min_fail_relax_interval store = load_from_store (record {
  inner = [];
  nodes_to_channel_map = [];
  min_fail_relax_interval = interval_or_default min_fail_relax_interval;
  source = source;
  store = store;
})

abbrev pub Applied : Type 0 → Type 0
Applied A = Outcome (Unit {0}) A

abbrev pub is_consistent : TimedResult → Bool
is_consistent r = r.fail_time == 0 || leb r.success_amount r.fail_amount

-- The update of a result that is there, for a success.
unfoldable pub update_success : ℕ → ℕ → TimedResult → Applied TimedResult
update_success amount time current = do
  fail_amount ← if current.fail_time == 0 then ok current.fail_amount else add_u128 amount 1
  let updated = record current {
    success_time = time;
    success_amount = if ltb current.success_amount amount then amount else current.success_amount;
    fail_amount = fail_amount;
  }
  assert (is_consistent updated)
  ok updated

-- `none` is the early `return`: a larger failure that comes too soon after another.
unfoldable pub update_failure : ℕ → ℕ → ℕ → TimedResult → Applied (Option TimedResult)
update_failure interval amount time current =
    if ltb current.fail_amount amount
      && (not (current.fail_time == 0) && ltb (time - current.fail_time) interval)
    then ok none
    else (do
      let updated = record current {
        fail_amount = amount;
        fail_time = time;
        success_amount =
            if leb amount current.success_amount then amount - 1 else current.success_amount;
      }
      assert (is_consistent updated)
      ok (some updated))

unfoldable pub first_result : ℕ → Bool → ℕ → TimedResult
first_result amount success time = record {
  fail_time = if success then 0 else time;
  fail_amount = if success then 0 else amount;
  success_time = if success then time else 0;
  success_amount = if success then amount else 0;
}

abbrev pub add_updated : Pair → PaymentHistory → Option TimedResult → PaymentHistory
add_updated k h none = h
add_updated k h (some result) = add_result k result h

abbrev pub apply_to_current :
    Pair → ℕ → Bool → ℕ → TimedResult → PaymentHistory → Applied PaymentHistory
apply_to_current k amount true time current h = do
  result ← update_success amount time current
  ok (add_result k result h)
apply_to_current k amount false time current h = do
  updated ← update_failure h.min_fail_relax_interval amount time current
  ok (add_updated k h updated)

unfoldable pub apply_pair_result : Pair → ℕ → Bool → ℕ → PaymentHistory → Applied PaymentHistory
unfolding first_result
apply_pair_result k amount success time h = elim (get k h.inner) [
  | some current ↦ apply_to_current k amount success time current h
  | none ↦ ok (add_result k (first_result amount success time) h)
]

-- The loops of `apply_internal_result`. A hash map is iterated in no certain order: here it is the
-- order of the keys.
unfoldable pub apply_pairs :
    List (Pair × InternalPairResult) → PaymentHistory → Applied PaymentHistory
apply_pairs [] h = ok h
apply_pairs ((k, r) ∷ pairs) h = do
  h' ← apply_pair_result k r.amount r.success r.time h
  apply_pairs pairs h'

unfoldable pub add_node_channel_map : ℕ → ℕ → PaymentHistory → PaymentHistory
add_node_channel_map node channel h = record h {
  nodes_to_channel_map =
      insert node (insert_channel channel (get node h.nodes_to_channel_map)) h.nodes_to_channel_map;
}

abbrev pub union : List ℕ → List ℕ → List ℕ
union [] ds = ds
union (c ∷ cs) ds = if any (λ d. d == c) ds then union cs ds else c ∷ union cs ds

abbrev pub channels_or_empty : Option (List ℕ) → List ℕ
channels_or_empty none = []
channels_or_empty (some cs) = cs

unfoldable pub extend_channels : List (ℕ × List ℕ) → List (ℕ × List ℕ) → List (ℕ × List ℕ)
extend_channels [] m = m
extend_channels ((node, channels) ∷ more) m =
    extend_channels more (insert node (union channels (channels_or_empty (get node m))) m)

unfoldable pub pairs_on : List ℕ → List (Pair × TimedResult) → List Pair
pairs_on channels [] = []
pairs_on channels ((k, r) ∷ inner) =
    if any (λ c. c == k.channel) channels
    then k ∷ pairs_on channels inner
    else pairs_on channels inner

unfoldable pub fail_pairs : ℕ → List Pair → PaymentHistory → Applied PaymentHistory
fail_pairs now [] h = ok h
fail_pairs now (k ∷ ks) h = do h' ← apply_pair_result k 0 false now h; fail_pairs now ks h'

abbrev pub apply_fail_node : ℕ → Option ℕ → PaymentHistory → Applied PaymentHistory
apply_fail_node now none h = ok h
apply_fail_node now (some node) h = elim (get node h.nodes_to_channel_map) [
  | some channels ↦ fail_pairs now (pairs_on channels h.inner) h
  | none ↦ panic
]

unfoldable pub apply_internal_result : ℕ → InternalResult → PaymentHistory → Applied PaymentHistory
apply_internal_result now result h = do
  applied ← apply_pairs result.pairs h
  apply_fail_node now result.fail_node (record applied {
    nodes_to_channel_map = extend_channels result.nodes_to_channel_map applied.nodes_to_channel_map;
  })
