-- ===== src/Tlc/State/Active.antt =====
-- The TLCs that count: additions with no removal marked. What `filter_add_tlcs` collects under an id
-- is the last of them in the chained lists.
use ai_ckb_backend.Common.{
  ◌≡◌, refl, ◌∙◌, sym, false, List, [], ◌∷◌, ◌++◌, Option, some, none, arith, inl, inr,
  if◌then◌else◌, is_some, Bool-cases, retain,
}
use ai_ckb_backend.Common.BTreeMap.{
  Ord, key_eq, get, insert, collect_into, IsSorted, insert-IsSorted, get-insert, ext_of_get,
}
use ai_ckb_backend.Tlc.Id.{TlcId, TlcId_ord, same, same_iff}
use ai_ckb_backend.Tlc.Commitment.{CommitmentNumbers}
use ai_ckb_backend.Tlc.Info.{AddTlcInfo, RemoveTlcReason}
use ai_ckb_backend.Tlc.Kind.{TlcKind, add_tlc, remove_tlc}
use ai_ckb_backend.Tlc.Pending.{update_first, is_not_removal_of, is_not_removed, present, find_add}
use ai_ckb_backend.Tlc.Pending.Distinct.{Distinct}
use ai_ckb_backend.Tlc.State.{active_entries, set_removed}

abbrev pub or_else {ℓ} : {A : Type ℓ} → Option A → Option A → Option A
or_else none b = b
or_else (some a) b = some a

or_else_assoc {ℓ} :
    {A : Type ℓ} (a b c : Option A) → or_else (or_else a b) c ≡ or_else a (or_else b c)
or_else_assoc a b c = ground arith

or_else-none {ℓ} : {A : Type ℓ} (a : Option A) → or_else a none ≡ a
or_else-none a = ground arith

-- The TLC itself, if it has this id and is not marked as removed.
abbrev pub active_as : TlcId → TlcKind → Option AddTlcInfo
active_as i (add_tlc info) =
    if is_some info.removed_at then none else if same info.tlc_id i then some info else none
active_as i (remove_tlc info) = none

abbrev pub last_active : TlcId → List TlcKind → Option AddTlcInfo
last_active i [] = none
last_active i (t ∷ ts) = or_else (last_active i ts) (active_as i t)

pub last_active-append :
    (i : TlcId) (xs ys : List TlcKind)
    → last_active i (xs ++ ys) ≡ or_else (last_active i ys) (last_active i xs)
last_active-append i [] ys = sym (or_else-none (last_active i ys))
last_active-append i (t ∷ xs) ys =
    rw (last_active-append i xs ys)
      (or_else_assoc (last_active i ys) (last_active i xs) (active_as i t))

abbrev pub active_map : List TlcKind → List (TlcId × AddTlcInfo)
active_map ts = collect_into [] (active_entries ts)

module _ {K : Type 0} ⦃o : Ord K⦄ {V : Type 0} where
  collect_into-IsSorted : (m es : List (K × V)) → IsSorted m → IsSorted (collect_into m es)
  collect_into-IsSorted m [] s = s
  collect_into-IsSorted m ((k, v) ∷ es) s =
      collect_into-IsSorted (insert k v m) es (insert-IsSorted k v m s)

pub active_map-IsSorted : (ts : List TlcKind) → IsSorted (active_map ts)
active_map-IsSorted ts = collect_into-IsSorted [] (active_entries ts) tt

key_eq-same : (i j : TlcId) → key_eq i j ≡ same j i
key_eq-same i j = ground arith

get-collect_into :
    (j : TlcId) (m : List (TlcId × AddTlcInfo)) (ts : List TlcKind)
    → get j (collect_into m (active_entries ts)) ≡ or_else (last_active j ts) (get j m)
get-collect_into j m [] = refl
get-collect_into j m (add_tlc info ∷ ts) = elim (Bool-cases (is_some info.removed_at)) [
  | inl r ↦ rw r (rw (or_else-none (last_active j ts)) (get-collect_into j m ts))
  | inr r ↦ rw r (
      get-collect_into j (insert info.tlc_id info m) ts
      ∙ ground (arith, get-insert j info.tlc_id info m, key_eq-same j info.tlc_id))
]
get-collect_into j m (remove_tlc info ∷ ts) =
    rw (or_else-none (last_active j ts)) (get-collect_into j m ts)

-- What the map holds under an id is the last active TLC of that id.
pub get-active_map : (j : TlcId) (ts : List TlcKind) → get j (active_map ts) ≡ last_active j ts
get-active_map j ts = get-collect_into j [] ts ∙ or_else-none (last_active j ts)

-- Lists with the same active TLCs give the same map.
pub active_map_ext :
    (xs ys : List TlcKind)
    → ((j : TlcId) → last_active j xs ≡ last_active j ys)
    → active_map xs ≡ active_map ys
active_map_ext xs ys h =
    ext_of_get (active_map xs) (active_map ys) (active_map-IsSorted xs) (active_map-IsSorted ys)
      (λ j. get-active_map j xs ∙ (h j ∙ sym (get-active_map j ys)))

pub last_active-retain_removals :
    (j i : TlcId) (ts : List TlcKind)
    → last_active j (retain (is_not_removal_of i) ts) ≡ last_active j ts
last_active-retain_removals j i [] = refl
last_active-retain_removals j i (add_tlc info ∷ ts) = rw (last_active-retain_removals j i ts)
last_active-retain_removals j i (remove_tlc info ∷ ts) =
    ground (arith, last_active-retain_removals j i ts)

pub last_active-retain_kept :
    (j : TlcId) (ts : List TlcKind) → last_active j (retain is_not_removed ts) ≡ last_active j ts
last_active-retain_kept j [] = refl
last_active-retain_kept j (add_tlc info ∷ ts) = ground (arith, last_active-retain_kept j ts)
last_active-retain_kept j (remove_tlc info ∷ ts) = ground (arith, last_active-retain_kept j ts)

-- No addition of the id, no active TLC of it.
pub last_active_absent :
    (info : AddTlcInfo) (ts : List TlcKind)
    → present (add_tlc info) ts ≡ false
    → last_active info.tlc_id ts ≡ none
last_active_absent info [] h = refl
last_active_absent info (add_tlc x ∷ ts) h = ground (arith, last_active_absent info ts)
last_active_absent info (remove_tlc x ∷ ts) h = ground (arith, last_active_absent info ts)

-- In a list without repetitions the addition that a look-up finds is the active one, unless it is
-- marked as removed.
pub last_active-find_add :
    (i : TlcId) (ts : List TlcKind) {info : AddTlcInfo}
    → Distinct ts
    → find_add i ts ≡ some info
    → last_active i ts ≡ (if is_some info.removed_at then none else some info)
last_active-find_add i [] d h = ground arith
last_active-find_add i (add_tlc x ∷ ts) {info} d h = ground (
  arith,
  same_iff x.tlc_id i,
  last_active_absent x ts d.0,
  last_active-find_add i ts {info = info} d.1,
)
last_active-find_add i (remove_tlc x ∷ ts) {info} d h =
    rw (or_else-none (last_active i ts)) (last_active-find_add i ts {info = info} d.1 h)

pub find_add-id :
    (i : TlcId) (ts : List TlcKind) {info : AddTlcInfo}
    → find_add i ts ≡ some info
    → info.tlc_id ≡ i
find_add-id i [] h = ground arith
find_add-id i (add_tlc x ∷ ts) {info} h =
    ground (arith, same_iff x.tlc_id i, find_add-id i ts {info = info})
find_add-id i (remove_tlc x ∷ ts) {info} h = find_add-id i ts {info = info} h

-- Marking a TLC as removed takes it, and it alone, out of the active ones.
pub last_active-update_first :
    (j i : TlcId) (n : CommitmentNumbers) (r : RemoveTlcReason) (ts : List TlcKind)
    → Distinct ts
    → last_active j (update_first i (set_removed n r) ts)
      ≡ (if same j i then none else last_active j ts)
last_active-update_first j i n r [] d = ground arith
last_active-update_first j i n r (add_tlc x ∷ ts) d = ground (
  arith,
  same_iff x.tlc_id i,
  same_iff x.tlc_id j,
  same_iff j i,
  last_active_absent x ts d.0,
  last_active-update_first j i n r ts d.1,
)
last_active-update_first j i n r (remove_tlc x ∷ ts) d =
    rw (last_active-update_first j i n r ts d.1) (ground arith)

present-update_first :
    (t : TlcKind) (i : TlcId) (n : CommitmentNumbers) (r : RemoveTlcReason) (ts : List TlcKind)
    → present t (update_first i (set_removed n r) ts) ≡ present t ts
present-update_first t i n r [] = refl
present-update_first t i n r (add_tlc x ∷ ts) = ground (arith, present-update_first t i n r ts)
present-update_first t i n r (remove_tlc x ∷ ts) = ground (arith, present-update_first t i n r ts)

pub Distinct-update_first :
    (i : TlcId) (n : CommitmentNumbers) (r : RemoveTlcReason) (ts : List TlcKind)
    → Distinct ts
    → Distinct (update_first i (set_removed n r) ts)
Distinct-update_first i n r [] d = tt
Distinct-update_first i n r (add_tlc x ∷ ts) d =
    ground (arith, present-update_first (add_tlc x) i n r ts, Distinct-update_first i n r ts d.1)
Distinct-update_first i n r (remove_tlc x ∷ ts) d =
    ground (arith, present-update_first (remove_tlc x) i n r ts, Distinct-update_first i n r ts d.1)

active_as-id : (i : TlcId) (t : TlcKind) {x : AddTlcInfo} → active_as i t ≡ some x → x.tlc_id ≡ i
active_as-id i (add_tlc info) h = ground (arith, same_iff info.tlc_id i)
active_as-id i (remove_tlc info) h = ground arith

pub last_active-id :
    (i : TlcId) (ts : List TlcKind) {x : AddTlcInfo} → last_active i ts ≡ some x → x.tlc_id ≡ i
last_active-id i [] h = ground arith
last_active-id i (t ∷ ts) {x} h =
    ground (arith, active_as-id i t {x = x}, last_active-id i ts {x = x})
