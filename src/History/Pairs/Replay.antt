-- ===== src/History/Pairs/Replay.antt =====
-- Histories after several calls: what the store gives back, and the order of results that panics.
use ai_ckb_backend.Common.{
  ℕ, ◌+◌, ◌<◌, ◌≡◌, refl, true, false, List, [], ◌∷◌, Option, some, none, arith, if◌then◌else◌, inl,
  inr, Bool-cases, Option-cases, is_some, sym, ◌∙◌,
}
use ai_ckb_backend.Common.BTreeMap.{Key_ord, get, insert, get-insert, IsSorted, get-Above, key_eq}
use ai_ckb_backend.Common.Outcome.{ok, panic, u128_mod, ◌>>=◌}
use ai_ckb_backend.History.Internal.{Pair, Pair_ord, InternalPairResult, InternalResult}
use ai_ckb_backend.History.Internal.Steps.{HasChannels}
use ai_ckb_backend.History.Pairs.{
  TimedResult, PaymentHistory, Applied, add_result, load_results, load_from_store, new,
  is_consistent, apply_pair_result, apply_pairs, fail_pairs, pairs_on, apply_fail_node,
  extend_channels, union, channels_or_empty, apply_internal_result, update_failure, first_result,
}
use ai_ckb_backend.History.Pairs.Valid.{
  IsConsistent, apply_pair_result_cases, update_success_panic, failed,
}

get-add_result :
    (k : Pair) (r : TimedResult) (h : PaymentHistory) → get k (add_result k r h).inner ≡ some r
unfolding add_result
get-add_result k r h = ground (arith, get-insert k k r h.inner, Pair_ord.cmp_refl k)

failure_after_success :
    (interval s f t1 t2 : ℕ)
    → update_failure interval f t2 (first_result s true t1)
      ≡ ok (some (failed f t2 (first_result s true t1)))
unfolding update_failure first_result
failure_after_success interval s f t1 t2 = ground arith

success_amount_after :
    (s f a t1 t2 : ℕ)
    → a + 1 < s
    → a + 2 < f
    → a + 1 < (failed f t2 (first_result s true t1)).success_amount
unfolding first_result
success_amount_after s f a t1 t2 b c = ground arith

-- A success of `s`, a failure of `f`, and a success of `a` through one pair that had no result. If `a`
-- is at least two below both `s` and `f` less one, then the third call panics, on its `assert!`.
pub apply_pair_result_replay :
    (k : Pair) (s f a t1 t2 t3 : ℕ) (h : PaymentHistory)
    → get k h.inner ≡ none
    → 0 < t2
    → a + 1 < s
    → a + 2 < f
    → (apply_pair_result k s true t1 h
        >>= (λ h1. apply_pair_result k f false t2 h1 >>= (λ h2. apply_pair_result k a true t3 h2)))
      ≡ panic
unfolding apply_pair_result
apply_pair_result_replay k s f a t1 t2 t3 h e p b c =
    let r1 = first_result s true t1 in
    let h1 = add_result k r1 h in
    let h2 = add_result k (failed f t2 r1) h1 in
    let first : apply_pair_result k s true t1 h ≡ ok h1 = rw (e, apply_pair_result) refl in
    let second : apply_pair_result k f false t2 h1 ≡ ok h2 =
      rw
        (
          get-add_result k r1 h,
          apply_pair_result,
          failure_after_success h1.min_fail_relax_interval s f t1 t2,
        )
        refl in
    let third : apply_pair_result k a true t3 h2 ≡ panic =
      rw
        (
          get-add_result k (failed f t2 r1) h1,
          apply_pair_result,
          update_success_panic a t3 (failed f t2 r1) p (success_amount_after s f a t1 t2 b c),
        )
        refl in
    rw (first, second, third) refl

-- A result that is no success.
abbrev pub IsFailures : List (Pair × InternalPairResult) → Type 0
IsFailures [] = Unit
IsFailures ((k, r) ∷ pairs) = (r.success ≡ false) × (r.amount + 1 < u128_mod) × IsFailures pairs

-- A run that succeeds and keeps the history consistent.
record Kept (run : Applied PaymentHistory) : Type 0 where
  after : PaymentHistory
  runs : run ≡ ok after
  consistent : IsConsistent after

failure-Kept :
    (k : Pair) (amount time : ℕ) (h : PaymentHistory)
    → IsConsistent h
    → amount + 1 < u128_mod
    → Kept (apply_pair_result k amount false time h)
failure-Kept k amount time h v b = elim (apply_pair_result_cases k amount false time h v b) [
  | inl (smaller, e) ↦ let no : false ≡ true = smaller.succeeds in absurd (ground arith)
  | inr (h', e, a) ↦ record { after = h'; runs = e; consistent = a.consistent }
]

apply_pairs-Kept :
    (pairs : List (Pair × InternalPairResult)) (h : PaymentHistory)
    → IsConsistent h
    → IsFailures pairs
    → Kept (apply_pairs pairs h)
unfolding apply_pairs
apply_pairs-Kept [] h v f = record { after = h; runs = refl; consistent = v }
apply_pairs-Kept ((k, r) ∷ pairs) h v (e, b, f) =
    let first = failure-Kept k r.amount r.time h v b in
    let rest = apply_pairs-Kept pairs first.after first.consistent f in
    record { after = rest.after; runs = rw (e, first.runs) rest.runs; consistent = rest.consistent }

fail_pairs-Kept :
    (now : ℕ) (ks : List Pair) (h : PaymentHistory) → IsConsistent h → Kept (fail_pairs now ks h)
unfolding fail_pairs
fail_pairs-Kept now [] h v = record { after = h; runs = refl; consistent = v }
fail_pairs-Kept now (k ∷ ks) h v =
    let first = failure-Kept k 0 now h v (omega arith) in
    let rest = fail_pairs-Kept now ks first.after first.consistent in
    record { after = rest.after; runs = rw first.runs rest.runs; consistent = rest.consistent }

-- The channels of a node are there after `extend_channels` if they are on either side.
extend_channels-keeps :
    (more m : List (ℕ × List ℕ)) (n : ℕ)
    → is_some (get n m) ≡ true
    → is_some (get n (extend_channels more m)) ≡ true
unfolding extend_channels
extend_channels-keeps [] m n e = e
extend_channels-keeps ((j, cs) ∷ more) m n e =
    extend_channels-keeps more (insert j (union cs (channels_or_empty (get j m))) m) n
      (ground (arith, get-insert n j (union cs (channels_or_empty (get j m))) m))

extend_channels-adds :
    (more m : List (ℕ × List ℕ)) (n : ℕ)
    → is_some (get n more) ≡ true
    → is_some (get n (extend_channels more m)) ≡ true
unfolding extend_channels
extend_channels-adds [] m n e = absurd (ground arith)
extend_channels-adds ((j, cs) ∷ more) m n e =
    let entered = insert j (union cs (channels_or_empty (get j m))) m in
    elim (Bool-cases (key_eq n j)) [
      | inl same ↦
          extend_channels-keeps more entered n
            (ground (arith, get-insert n j (union cs (channels_or_empty (get j m))) m))
      | inr other ↦ extend_channels-adds more entered n (ground arith)
    ]

apply_fail_node-Kept :
    (now : ℕ) (blamed : Option ℕ) (h : PaymentHistory)
    → IsConsistent h
    → ((n : ℕ) → blamed ≡ some n → is_some (get n h.nodes_to_channel_map) ≡ true)
    → Kept (apply_fail_node now blamed h)
apply_fail_node-Kept now none h v c = record { after = h; runs = refl; consistent = v }
apply_fail_node-Kept now (some n) h v c = elim (Option-cases (get n h.nodes_to_channel_map)) [
  | inl e ↦ absurd (ground (arith, c n refl))
  | inr (channels, e) ↦
      let run = fail_pairs-Kept now (pairs_on channels h.inner) h v in
      record {
        after = run.after;
        runs = rw (e, apply_fail_node) run.runs;
        consistent = run.consistent;
      }
]

-- On a consistent history, a result without a success whose blamed node has channels, and whose
-- amounts are below 2^128 - 1, is applied without a panic, and the history stays consistent.
pub apply_internal_result_total :
    (now : ℕ) (result : InternalResult) (h : PaymentHistory)
    → IsConsistent h
    → IsFailures result.pairs
    → HasChannels result
    → (h' : PaymentHistory) × (apply_internal_result now result h ≡ ok h') × IsConsistent h'
unfolding apply_internal_result
apply_internal_result_total now result h v f c =
    let pairs = apply_pairs-Kept result.pairs h v f in
    let extended = record pairs.after {
      nodes_to_channel_map =
          extend_channels result.nodes_to_channel_map pairs.after.nodes_to_channel_map;
    } in
    let node =
      apply_fail_node-Kept now result.fail_node extended
        (record { consistent = pairs.consistent.consistent; synced = pairs.consistent.synced })
        (λ n e.
          extend_channels-adds result.nodes_to_channel_map pairs.after.nodes_to_channel_map n
            (c n e)) in
    (node.after, rw pairs.runs node.runs, node.consistent)

load_results-get :
    (k : Pair) (results inner : List (Pair × TimedResult))
    → IsSorted results
    → get k (load_results results inner)
      ≡ (if is_some (get k results) then get k results else get k inner)
unfolding load_results
load_results-get k [] inner s = refl
load_results-get k ((j, r) ∷ results) inner s = ground (
  arith,
  load_results-get k results (insert j r inner) s.1,
  get-insert k j r inner,
  get-Above j results s.0,
  Pair_ord.cmp_eq k j,
)

-- A history made over a store whose entries are in the order of their keys and each consistent is
-- consistent, and finds for every pair what the store has.
pub new-IsConsistent :
    (source : ℕ) (interval : Option ℕ) (store : List (Pair × TimedResult))
    → IsSorted store
    → ((k : Pair) (r : TimedResult) → get k store ≡ some r → is_consistent r ≡ true)
    → IsConsistent (new source interval store)
      × ((k : Pair) → get k (new source interval store).inner ≡ get k store)
unfolding new load_from_store
new-IsConsistent source interval store s c =
    let found : (k : Pair) → get k (load_results store []) ≡ get k store =
      λ k. ground (arith, load_results-get k store [] s) in
    (record { consistent = λ k r e. c k r (sym (found k) ∙ e); synced = λ k. sym (found k) }, found)
