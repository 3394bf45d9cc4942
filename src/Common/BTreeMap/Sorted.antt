-- ===== src/Common/BTreeMap/Sorted.antt =====
-- The order of the keys: kept by `insert` and `remove`, and decisive for what a map holds.
use Prim.Native.Nat.{Ordering}
use mathlib.Core.Path.{◌≡◌, refl}
use mathlib.Core.List.{List, [], ◌∷◌}
use mathlib.Core.Option.{none}
use mathlib.Core.Logic.{◌⊎◌, inl, inr}
use native.Mathlib.Omega.{arith}
use ai_ckb_backend.Common.BTreeMap.Defs.{Ord, get, insert, remove}

pub Ordering-cases : (c : Ordering) → (c ≡ Ordering.lt) ⊎ ((c ≡ Ordering.eq) ⊎ (c ≡ Ordering.gt))
Ordering-cases Ordering.lt = inl refl
Ordering-cases Ordering.eq = inr (inl refl)
Ordering-cases Ordering.gt = inr (inr refl)

module _ {K : Type 0} ⦃o : Ord K⦄ {V : Type 0} where
  -- Every key is above `k`.
  abbrev pub Above : K → List (K × V) → Type 0
  Above k [] = Unit
  Above k ((j, w) ∷ m) = (o.cmp k j ≡ Ordering.lt) × Above k m

  abbrev pub IsSorted : List (K × V) → Type 0
  IsSorted [] = Unit
  IsSorted ((j, w) ∷ m) = Above j m × IsSorted m

  pub Above-trans : (j k : K) (m : List (K × V)) → o.cmp j k ≡ Ordering.lt → Above k m → Above j m
  Above-trans j k [] h a = tt
  Above-trans j k ((i, w) ∷ m) h a = (o.cmp_trans j k i h a.0, Above-trans j k m h a.1)

  Above-insert :
      (j k : K) (v : V) (m : List (K × V))
      → o.cmp j k ≡ Ordering.lt
      → Above j m
      → Above j (insert k v m)
  Above-insert j k v [] h a = (h, tt)
  Above-insert j k v ((i, w) ∷ m) h a = ground (arith, Above-insert j k v m h a.1)

  pub insert-IsSorted : (k : K) (v : V) (m : List (K × V)) → IsSorted m → IsSorted (insert k v m)
  insert-IsSorted k v [] s = (tt, tt)
  insert-IsSorted k v ((i, w) ∷ m) s = elim (Ordering-cases (o.cmp k i)) [
    | inl h ↦ rw (h, insert) ((h, Above-trans k i m h s.0), s)
    | inr (inl h) ↦ rw (h, insert) (rw (o.cmp_eq k i h) s.0, s.1)
    | inr (inr h) ↦
        rw (h, insert) (Above-insert i k v m (o.cmp_gt k i h) s.0, insert-IsSorted k v m s.1)
  ]

  Above-remove : (j k : K) (m : List (K × V)) → Above j m → Above j (remove k m)
  Above-remove j k [] a = tt
  Above-remove j k ((i, w) ∷ m) a = ground (arith, Above-remove j k m a.1)

  pub remove-IsSorted : (k : K) (m : List (K × V)) → IsSorted m → IsSorted (remove k m)
  remove-IsSorted k [] s = tt
  remove-IsSorted k ((i, w) ∷ m) s = ground (arith, Above-remove i k m s.0, remove-IsSorted k m s.1)

  pub get-Above : (k : K) (m : List (K × V)) → Above k m → get k m ≡ none
  get-Above k [] a = refl
  get-Above k ((i, w) ∷ m) a = rw (a.0, get) (get-Above k m a.1)
