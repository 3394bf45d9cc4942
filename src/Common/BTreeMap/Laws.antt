-- ===== src/Common/BTreeMap/Laws.antt =====
-- What a look-up finds after an operation, and that look-ups decide a map.
use Prim.Native.Nat.{Ordering}
use mathlib.Core.Path.{◌≡◌, refl, ap₂}
use mathlib.Core.List.{List, [], ◌∷◌}
use mathlib.Core.Option.{none, some}
use mathlib.Core.Logic.{inl, inr}
use native.Mathlib.Omega.{arith}
use ai_ckb_backend.Common.Tests.{if◌then◌else◌}
use ai_ckb_backend.Common.BTreeMap.Defs.{Ord, key_eq, get, insert, remove}
use ai_ckb_backend.Common.BTreeMap.Sorted.{Above, IsSorted, Ordering-cases, get-Above, Above-trans}

module _ {K : Type 0} ⦃o : Ord K⦄ {V : Type 0} where
  pub get-insert :
      (j k : K) (v : V) (m : List (K × V))
      → get j (insert k v m) ≡ (if key_eq j k then some v else get j m)
  get-insert j k v [] = ground arith
  get-insert j k v ((i, w) ∷ m) = elim (Ordering-cases (o.cmp k i)) [
    | inl h ↦ rw (h, insert) (ground arith)
    | inr (inl h) ↦ rw (h, insert) (rw (← o.cmp_eq k i h) (ground arith))
    | inr (inr h) ↦
        rw (h, insert)
          (ground (arith, get-insert j k v m, o.cmp_eq j k, o.cmp_eq j i, o.cmp_refl j))
  ]

  pub get-remove :
      (j k : K) (m : List (K × V))
      → IsSorted m
      → get j (remove k m) ≡ (if key_eq j k then none else get j m)
  get-remove j k [] s = ground arith
  get-remove j k ((i, w) ∷ m) s = elim (Ordering-cases (o.cmp k i)) [
    | inl h ↦
        rw (h, remove)
          (ground (arith, get-remove j k m s.1, o.cmp_eq j k, o.cmp_eq j i, o.cmp_refl j))
    | inr (inl h) ↦
        rw (h, remove)
          (let e = o.cmp_eq k i h in ground (arith, o.cmp_eq j k, o.cmp_eq j i, get-Above i m s.0))
    | inr (inr h) ↦
        rw (h, remove)
          (ground (arith, get-remove j k m s.1, o.cmp_eq j k, o.cmp_eq j i, o.cmp_refl j))
  ]

  get_first : (k : K) (v : V) (m : List (K × V)) → get k ((k, v) ∷ m) ≡ some v
  get_first k v m = rw (o.cmp_refl k, get)

  get_lower :
      (j k : K) (v : V) (m : List (K × V))
      → o.cmp j k ≡ Ordering.lt
      → Above k m
      → get j ((k, v) ∷ m) ≡ none
  get_lower j k v m h a = get-Above j ((k, v) ∷ m) (h, Above-trans j k m h a)

  get_tail :
      (j k : K) (v : V) (m : List (K × V))
      → Above k m
      → get j m ≡ (if key_eq j k then none else get j ((k, v) ∷ m))
  get_tail j k v m a = ground (arith, o.cmp_eq j k, get-Above k m a)

  -- Two maps in order that find the same values hold the same entries.
  pub ext_of_get :
      (m n : List (K × V)) → IsSorted m → IsSorted n → ((j : K) → get j m ≡ get j n) → m ≡ n
  ext_of_get [] [] s t h = refl
  ext_of_get [] ((k, v) ∷ n) s t h = ground (arith, h k, get_first k v n)
  ext_of_get ((k, v) ∷ m) [] s t h = ground (arith, h k, get_first k v m)
  ext_of_get ((k, v) ∷ m) ((i, w) ∷ n) s t h = elim (Ordering-cases (o.cmp k i)) [
    | inl l ↦ ground (arith, h k, get_first k v m, get_lower k i w n l t.0)
    | inr (inl e) ↦
        let p = o.cmp_eq k i e in
        ap₂ ◌∷◌ (ground (arith, h k, get_first k v m, get_first i w n)) (
          ext_of_get m n s.1 t.1
            (λ j. ground (arith, h j, get_tail j k v m s.0, get_tail j i w n t.0)))
    | inr (inr g) ↦ ground (arith, h i, get_first i w n, get_lower i k v m (o.cmp_gt k i g) s.0)
  ]
