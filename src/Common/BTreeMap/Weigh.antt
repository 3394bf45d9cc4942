-- ===== src/Common/BTreeMap/Weigh.antt =====
-- The sum of a weight over the values of a map, after an insertion and after a removal.
use Prim.Native.Nat.{ℕ, ◌+◌}
use mathlib.Core.Path.{◌≡◌}
use mathlib.Core.List.{List, [], ◌∷◌}
use mathlib.Core.Logic.{inl, inr}
use mathlib.Core.Option.{none, some}
use native.Mathlib.Omega.{arith}
use ai_ckb_backend.Common.BTreeMap.Defs.{Ord, get, insert, remove}
use ai_ckb_backend.Common.BTreeMap.Sorted.{Ordering-cases}

module _ {K : Type 0} ⦃o : Ord K⦄ {V : Type 0} (w : V → ℕ) where
  abbrev pub weigh : List (K × V) → ℕ
  weigh [] = 0
  weigh ((k, v) ∷ m) = w v + weigh m

  pub weigh-insert :
      (k : K) (v : V) (m : List (K × V)) → get k m ≡ none → weigh (insert k v m) ≡ weigh m + w v
  weigh-insert k v [] h = omega arith
  weigh-insert k v ((i, x) ∷ m) h = elim (Ordering-cases (o.cmp k i)) [
    | inl l ↦ rw (l, insert) (omega arith)
    | inr (inl e) ↦ absurd (ground arith)
    | inr (inr g) ↦ rw (g, insert) (ground (arith, weigh-insert k v m))
  ]

  pub weigh-remove :
      (k : K) (m : List (K × V)) {v : V} → get k m ≡ some v → weigh m ≡ weigh (remove k m) + w v
  weigh-remove k [] h = ground arith
  weigh-remove k ((i, x) ∷ m) {v} h = elim (Ordering-cases (o.cmp k i)) [
    | inl l ↦ rw (l, remove) (ground (arith, weigh-remove k m {v = v}))
    | inr (inl e) ↦ rw (e, remove) (ground arith)
    | inr (inr g) ↦ rw (g, remove) (ground (arith, weigh-remove k m {v = v}))
  ]
