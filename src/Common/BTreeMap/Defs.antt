-- ===== src/Common/BTreeMap/Defs.antt =====
-- The map and its operations, over any key type with a total order.
use Prim.Native.Nat.{Ordering}
use mathlib.Core.Path.{◌≡◌}
use mathlib.Core.Bool.{Bool, true, false}
use mathlib.Core.List.{List, [], ◌∷◌}
use mathlib.Core.Option.{Option, none, some}

-- `Ord`: the laws that the standard library asks of an implementation.
pub record Ord (K : Type 0) : Type 0 where
  pub cmp : K → K → Ordering
  pub cmp_refl : (a : K) → cmp a a ≡ Ordering.eq
  pub cmp_eq : (a b : K) → cmp a b ≡ Ordering.eq → a ≡ b
  pub cmp_gt : (a b : K) → cmp a b ≡ Ordering.gt → cmp b a ≡ Ordering.lt
  pub cmp_trans :
      (a b c : K) → cmp a b ≡ Ordering.lt → cmp b c ≡ Ordering.lt → cmp a c ≡ Ordering.lt

abbrev pub is_eq : Ordering → Bool
is_eq Ordering.eq = true
is_eq _ = false

module _ {K : Type 0} ⦃o : Ord K⦄ where
  abbrev pub key_eq : K → K → Bool
  key_eq a b = is_eq (o.cmp a b)

module _ {K : Type 0} ⦃o : Ord K⦄ {V : Type 0} where
  abbrev pub get : K → List (K × V) → Option V
  get k [] = none
  get k ((j, v) ∷ m) = elim (o.cmp k j) [ Ordering.eq ↦ some v | _ ↦ get k m ]

  abbrev pub insert : K → V → List (K × V) → List (K × V)
  insert k v [] = (k, v) ∷ []
  insert k v ((j, w) ∷ m) = elim (o.cmp k j) [
    | Ordering.lt ↦ (k, v) ∷ (j, w) ∷ m
    | Ordering.eq ↦ (k, v) ∷ m
    | Ordering.gt ↦ (j, w) ∷ insert k v m
  ]

  abbrev pub remove : K → List (K × V) → List (K × V)
  remove k [] = []
  remove k ((j, w) ∷ m) = elim (o.cmp k j) [ Ordering.eq ↦ m | _ ↦ (j, w) ∷ remove k m ]

  -- `into_iter().map(|(_, v)| v)`, in order of the keys.
  abbrev pub values : List (K × V) → List V
  values [] = []
  values ((j, w) ∷ m) = w ∷ values m

  -- `collect::<BTreeMap<_, _>>()`: a later entry replaces an earlier one.
  abbrev pub collect_into : List (K × V) → List (K × V) → List (K × V)
  collect_into m [] = m
  collect_into m ((k, v) ∷ es) = collect_into (insert k v m) es

  abbrev pub contains_key : K → List (K × V) → Bool
  contains_key k m = elim (get k m) [ some v ↦ true | none ↦ false ]
