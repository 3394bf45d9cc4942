-- ===== src/Channel/Amounts.antt =====
-- The amounts that the active TLCs hold, and how an addition and a removal change them.
use native.Mathlib.Nat.{zero-add}
use ai_ckb_backend.Common.{
  ℕ, ◌+◌, ◌<◌, ◌≡◌, ◌∙◌, ap, Bool, List, [], ◌∷◌, ◌++◌, some, none, arith, if◌then◌else◌, ltb,
  retain, Bool-cases, inl, inr,
}
use ai_ckb_backend.Common.BTreeMap.{
  key_eq, insert, remove, values, weigh, weigh-insert, weigh-remove, get-insert, get-remove,
  insert-IsSorted, remove-IsSorted, ext_of_get,
}
use ai_ckb_backend.Common.Outcome.{ok, panic, u128_mod}
use ai_ckb_backend.Tlc.Id.{TlcId, TlcId_ord, same, same_iff}
use ai_ckb_backend.Tlc.Info.{AddTlcInfo}
use ai_ckb_backend.Tlc.Kind.{TlcKind, add_tlc}
use ai_ckb_backend.Tlc.State.{TlcState, all_tlcs}
use ai_ckb_backend.Tlc.State.Active.{
  active_map, active_map-IsSorted, active_map_ext, get-active_map, active_as, or_else,
}
use ai_ckb_backend.Tlc.State.Remove.{active}
use ai_ckb_backend.Channel.State.{sum_amounts}

abbrev pub counted : (AddTlcInfo → Bool) → AddTlcInfo → ℕ
counted p t = if p t then t.amount else 0

abbrev chain : TlcState → List TlcKind
chain s = s.local_pending_tlcs.tlcs ++ s.remote_pending_tlcs.tlcs

abbrev state_map : TlcState → List (TlcId × AddTlcInfo)
state_map s = active_map (chain s)

-- The sum of the amounts of the active TLCs that a test selects.
unfoldable pub total : (AddTlcInfo → Bool) → TlcState → ℕ
total p s = weigh (counted p) (state_map s)

key_eq-same : (i j : TlcId) → key_eq i j ≡ same j i
key_eq-same i j = ground arith

-- Adding up with overflow checks gives the sum when it fits 128 bits, and panics when not.
sum_amounts_lem :
    {E : Type 0} (acc : ℕ) (p : AddTlcInfo → Bool) (m : List (TlcId × AddTlcInfo))
    → acc < u128_mod
    → sum_amounts {E = E} acc (retain p (values m))
      ≡ (if ltb (acc + weigh (counted p) m) u128_mod then ok (acc + weigh (counted p) m) else panic)
unfolding sum_amounts
sum_amounts_lem acc p [] h = ground arith
sum_amounts_lem {E} acc p ((i, t) ∷ m) h = elim (Bool-cases (p t)) [
  | inl e ↦ rw (e, sum_amounts) (ground (arith, sum_amounts_lem {E = E} (acc + t.amount) p m))
  | inr e ↦ rw (e, sum_amounts) (ground (arith, sum_amounts_lem {E = E} acc p m))
]

module _ {E : Type 0} where
  pub sum_amounts-all_tlcs :
      (p : AddTlcInfo → Bool) (s : TlcState)
      → sum_amounts {E = E} 0 (retain p (all_tlcs s))
        ≡ (if ltb (total p s) u128_mod then ok (total p s) else panic)
  unfolding all_tlcs total
  sum_amounts-all_tlcs p s = sum_amounts_lem {E = E} 0 p (state_map s) (omega arith) ∙ rw zero-add

map-inserted :
    (x : AddTlcInfo) (s u : TlcState)
    → x.removed_at ≡ none
    → ((j : TlcId) → active j u ≡ or_else (active_as j (add_tlc x)) (active j s))
    → state_map u ≡ insert x.tlc_id x (state_map s)
map-inserted x s u r h =
    ext_of_get (state_map u) (insert x.tlc_id x (state_map s)) (active_map-IsSorted (chain u))
      (insert-IsSorted x.tlc_id x (state_map s) (active_map-IsSorted (chain s)))
      λ j. ground (
        arith,
        h j,
        get-active_map j (chain u),
        get-active_map j (chain s),
        get-insert j x.tlc_id x (state_map s),
        key_eq-same j x.tlc_id,
      )

map-removed :
    (i : TlcId) (s u : TlcState)
    → ((j : TlcId) → active j u ≡ (if same j i then none else active j s))
    → state_map u ≡ remove i (state_map s)
map-removed i s u h =
    ext_of_get (state_map u) (remove i (state_map s)) (active_map-IsSorted (chain u))
      (remove-IsSorted i (state_map s) (active_map-IsSorted (chain s)))
      λ j. ground (
        arith,
        h j,
        get-active_map j (chain u),
        get-active_map j (chain s),
        get-remove j i (state_map s) (active_map-IsSorted (chain s)),
        key_eq-same j i,
        same_iff i j,
        same_iff j i,
      )

-- A new TLC adds its amount to the totals of the tests that select it.
pub total-inserted :
    (p : AddTlcInfo → Bool) (x : AddTlcInfo) (s u : TlcState)
    → x.removed_at ≡ none
    → active x.tlc_id s ≡ none
    → ((j : TlcId) → active j u ≡ or_else (active_as j (add_tlc x)) (active j s))
    → total p u ≡ total p s + counted p x
unfolding total
total-inserted p x s u r a h =
    rw (map-inserted x s u r h)
      (weigh-insert (counted p) x.tlc_id x (state_map s) (get-active_map x.tlc_id (chain s) ∙ a))

-- A TLC that is removed takes its amount with it.
pub total-removed :
    (p : AddTlcInfo → Bool) (i : TlcId) (x : AddTlcInfo) (s u : TlcState)
    → active i s ≡ some x
    → ((j : TlcId) → active j u ≡ (if same j i then none else active j s))
    → total p s ≡ total p u + counted p x
unfolding total
total-removed p i x s u a h =
    rw (map-removed i s u h)
      (weigh-remove (counted p) i (state_map s) (get-active_map i (chain s) ∙ a))

-- Equal active TLCs, equal totals.
pub total-same :
    (p : AddTlcInfo → Bool) (s u : TlcState)
    → ((j : TlcId) → active j u ≡ active j s)
    → total p u ≡ total p s
unfolding total
total-same p s u h = ap (weigh (counted p)) (active_map_ext (chain u) (chain s) h)
