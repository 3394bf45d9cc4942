-- ===== src/History/Pairs/Valid.antt =====
-- What `apply_pair_result` makes of a result, and when its `assert!` holds.
use ai_ckb_backend.Common.{
  ℕ, ◌+◌, ◌-◌, ◌≤◌, ◌<◌, ◌≡◌, ◌≢◌, refl, ◌⊎◌, Bool, true, false, some, none, arith, if◌then◌else◌,
  ltb, leb, ◌==◌, ◌&&◌, inl, inr, Bool-cases, Option-cases,
}
use ai_ckb_backend.Common.BTreeMap.{get, get-insert}
use ai_ckb_backend.Common.Outcome.{ok, panic, u128_mod}
use ai_ckb_backend.History.Internal.{Pair, Pair_ord}
use ai_ckb_backend.History.Pairs.{
  TimedResult, PaymentHistory, update_success, update_failure, first_result, add_result,
  apply_to_current, apply_pair_result, is_consistent,
}

abbrev pub succeeded : ℕ → ℕ → TimedResult → TimedResult
succeeded amount time r = record r {
  success_time = time;
  success_amount = if ltb r.success_amount amount then amount else r.success_amount;
  fail_amount = if r.fail_time == 0 then r.fail_amount else amount + 1;
}

abbrev pub failed : ℕ → ℕ → TimedResult → TimedResult
failed amount time r = record r {
  fail_amount = amount;
  fail_time = time;
  success_amount = if leb amount r.success_amount then amount - 1 else r.success_amount;
}

pub update_success_panic :
    (amount time : ℕ) (r : TimedResult)
    → 0 < r.fail_time
    → amount + 1 < r.success_amount
    → update_success amount time r ≡ panic
unfolding update_success
update_success_panic amount time r t b = ground arith

update_success_lem :
    (amount time : ℕ) (r : TimedResult)
    → amount + 1 < u128_mod
    → (r.fail_time ≡ 0) ⊎ (r.success_amount ≤ amount + 1)
    → (update_success amount time r ≡ ok (succeeded amount time r))
      × (is_consistent (succeeded amount time r) ≡ true)
unfolding update_success
update_success_lem amount time r b h = ground arith

update_failure_lem :
    (interval amount time : ℕ) (r : TimedResult)
    → (update_failure interval amount time r ≡ ok none)
      ⊎ ((update_failure interval amount time r ≡ ok (some (failed amount time r)))
          × (is_consistent (failed amount time r) ≡ true))
unfolding update_failure
update_failure_lem interval amount time r = ground arith

first_result-is_consistent :
    (amount : ℕ) (success : Bool) (time : ℕ)
    → is_consistent (first_result amount success time) ≡ true
unfolding first_result
first_result-is_consistent amount success time = ground arith

-- Every result that is held is consistent, and the store holds what is in memory.
pub record IsConsistent (h : PaymentHistory) : Type 0 where
  pub consistent : (k : Pair) (r : TimedResult) → get k h.inner ≡ some r → is_consistent r ≡ true
  pub synced : (k : Pair) → get k h.store ≡ get k h.inner

-- A history that differs from `h` under one key at most.
pub record AppliedAt (k : Pair) (h h' : PaymentHistory) : Type 0 where
  pub consistent : IsConsistent h'
  pub others : (j : Pair) → j ≢ k → get j h'.inner ≡ get j h.inner

-- A success at least two below the largest success, for a pair that has failed.
pub record IsSmallerSuccess (k : Pair) (amount : ℕ) (success : Bool) (h : PaymentHistory)
    : Type 0 where
  pub current : TimedResult
  pub found : get k h.inner ≡ some current
  pub succeeds : success ≡ true
  pub has_failed : 0 < current.fail_time
  pub smaller : amount + 1 < current.success_amount

add_result-AppliedAt :
    (k : Pair) (r : TimedResult) (h : PaymentHistory)
    → IsConsistent h
    → is_consistent r ≡ true
    → AppliedAt k h (add_result k r h)
unfolding add_result
add_result-AppliedAt k r h v c = record {
  consistent = record {
    consistent = λ j q e. ground (arith, get-insert j k r h.inner, v.consistent j q);
    synced =
        λ j. rw (get-insert j k r h.inner, get-insert j k r h.store) (ground (arith, v.synced j));
  };
  others = λ j ne. ground (arith, get-insert j k r h.inner, Pair_ord.cmp_eq j k);
}

kept-AppliedAt : (k : Pair) (h : PaymentHistory) → IsConsistent h → AppliedAt k h h
kept-AppliedAt k h v = record { consistent = v; others = λ j ne. refl }

success_cases :
    (k : Pair) (amount time : ℕ) (r : TimedResult) (h : PaymentHistory)
    → IsConsistent h
    → get k h.inner ≡ some r
    → amount + 1 < u128_mod
    → (IsSmallerSuccess k amount true h × (apply_to_current k amount true time r h ≡ panic))
      ⊎ ((h' : PaymentHistory) × (apply_to_current k amount true time r h ≡ ok h')
          × AppliedAt k h h')
success_cases k amount time r h v g b =
    elim (Bool-cases (ltb 0 r.fail_time && ltb (amount + 1) r.success_amount)) [
      | inl e ↦ inl (
        record {
          current = r;
          found = g;
          succeeds = refl;
          has_failed = ground arith;
          smaller = ground arith;
        },
        rw (update_success_panic amount time r (ground arith) (ground arith)),
      )
      | inr e ↦
          let (p, c) = update_success_lem amount time r b (ground arith) in
          inr (_, rw p, add_result-AppliedAt k (succeeded amount time r) h v c)
    ]

failure_cases :
    (k : Pair) (amount time : ℕ) (r : TimedResult) (h : PaymentHistory)
    → IsConsistent h
    → (h' : PaymentHistory) × (apply_to_current k amount false time r h ≡ ok h') × AppliedAt k h h'
failure_cases k amount time r h v =
    elim (update_failure_lem h.min_fail_relax_interval amount time r) [
      | inl p ↦ (h, rw p, kept-AppliedAt k h v)
      | inr (p, c) ↦ (_, rw p, add_result-AppliedAt k (failed amount time r) h v c)
    ]

current_cases :
    (k : Pair) (amount : ℕ) (success : Bool) (time : ℕ) (r : TimedResult) (h : PaymentHistory)
    → IsConsistent h
    → get k h.inner ≡ some r
    → amount + 1 < u128_mod
    → (IsSmallerSuccess k amount success h × (apply_to_current k amount success time r h ≡ panic))
      ⊎ ((h' : PaymentHistory) × (apply_to_current k amount success time r h ≡ ok h')
          × AppliedAt k h h')
current_cases k amount true time r h v g b = success_cases k amount time r h v g b
current_cases k amount false time r h v g b = inr (failure_cases k amount time r h v)

-- For an amount below 2^128 - 1, `apply_pair_result` on a consistent history either succeeds, and then
-- the history is consistent, in memory and in the store, and no other pair changed; or it panics, and
-- then the result is a success at least two below the largest success of a pair that has failed.
pub apply_pair_result_cases :
    (k : Pair) (amount : ℕ) (success : Bool) (time : ℕ) (h : PaymentHistory)
    → IsConsistent h
    → amount + 1 < u128_mod
    → (IsSmallerSuccess k amount success h × (apply_pair_result k amount success time h ≡ panic))
      ⊎ ((h' : PaymentHistory) × (apply_pair_result k amount success time h ≡ ok h')
          × AppliedAt k h h')
unfolding apply_pair_result
apply_pair_result_cases k amount success time h v b = elim (Option-cases (get k h.inner)) [
  | inl e ↦ inr (
    _,
    rw (e, apply_pair_result),
    add_result-AppliedAt k (first_result amount success time) h v
        (first_result-is_consistent amount success time),
  )
  | inr (r, e) ↦ rw (e, apply_pair_result) (current_cases k amount success time r h v e b)
]
