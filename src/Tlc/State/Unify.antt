-- ===== src/Tlc/State/Unify.antt =====
-- `unify_tlcs`: the TLCs that a commitment transaction covers.
use ai_ckb_backend.Common.{
  ◌≡◌, refl, Bool, true, false, ◌||◌, List, [], ◌∷◌, ◌++◌, Option, some, none, arith, if◌then◌else◌,
  is_none, Bool-cases, inl, inr, any, any-append,
}
use ai_ckb_backend.Common.BTreeMap.{
  key_eq, get, insert, remove, values, contains_key, IsSorted, insert-IsSorted, remove-IsSorted,
  get-insert, get-remove,
}
use ai_ckb_backend.Common.Outcome.{ok, panic}
use ai_ckb_backend.Tlc.Id.{TlcId, TlcId_ord, same, same_iff}
use ai_ckb_backend.Tlc.Info.{AddTlcInfo}
use ai_ckb_backend.Tlc.Kind.{TlcKind, add_tlc, remove_tlc, tlc_id}
use ai_ckb_backend.Tlc.Pending.{find_add}
use ai_ckb_backend.Tlc.State.{unify_committed, unify_staging, unify_removals, unify_map, unify_tlcs}
use ai_ckb_backend.Tlc.State.Active.{last_active, or_else}

abbrev pub is_removal : TlcKind → Bool
is_removal (add_tlc info) = false
is_removal (remove_tlc info) = true

abbrev pub is_removal_of : TlcId → TlcKind → Bool
is_removal_of i (add_tlc info) = false
is_removal_of i (remove_tlc info) = same info.tlc_id i

abbrev has_id : TlcId → TlcKind → Bool
has_id i t = same (tlc_id t) i

abbrev pub as_add : Option AddTlcInfo → Option TlcKind
as_add none = none
as_add (some info) = some (add_tlc info)

key_eq-same : (i j : TlcId) → key_eq i j ≡ same j i
key_eq-same i j = ground arith

module _ {ℓ} {E : Type ℓ} where
  unify_committed-panic :
      (ts : List TlcKind) (m : List (TlcId × TlcKind))
      → any is_removal ts ≡ true
      → unify_committed {E = E} ts m ≡ panic
  unfolding unify_committed
  unify_committed-panic [] m h = ground arith
  unify_committed-panic (add_tlc x ∷ ts) m h = unify_committed-panic ts _ h
  unify_committed-panic (remove_tlc x ∷ ts) m h = refl

  unify_committed_lem :
      (ts : List TlcKind) (m : List (TlcId × TlcKind))
      → any is_removal ts ≡ false
      → IsSorted m
      → (n : List (TlcId × TlcKind)) × (unify_committed {E = E} ts m ≡ ok n)
        × IsSorted n
        × ((j : TlcId) → get j n ≡ or_else (as_add (last_active j ts)) (get j m))
  unfolding unify_committed
  unify_committed_lem [] m h s = (m, refl, s, λ j. refl)
  unify_committed_lem (add_tlc x ∷ ts) m h s = elim (Bool-cases (is_none x.removed_at)) [
    | inl e ↦
        let (n, p, q, g) =
          unify_committed_lem ts (insert x.tlc_id (add_tlc x) m) h
            (insert-IsSorted x.tlc_id (add_tlc x) m s) in
        (
          n,
          rw (e, unify_committed) p,
          q,
          λ j. ground (arith, g j, get-insert j x.tlc_id (add_tlc x) m, key_eq-same j x.tlc_id),
        )
    | inr e ↦
        let (n, p, q, g) = unify_committed_lem ts m h s in
        (n, rw (e, unify_committed) p, q, λ j. ground (arith, g j))
  ]
  unify_committed_lem (remove_tlc x ∷ ts) m h s = absurd (ground arith)

abbrev insert_absent : AddTlcInfo → List (TlcId × TlcKind) → List (TlcId × TlcKind)
insert_absent x m = if contains_key x.tlc_id m then m else insert x.tlc_id (add_tlc x) m

insert_absent-IsSorted :
    (x : AddTlcInfo) (m : List (TlcId × TlcKind)) → IsSorted m → IsSorted (insert_absent x m)
insert_absent-IsSorted x m s = elim (Bool-cases (contains_key x.tlc_id m)) [
  | inl e ↦ rw (e, IsSorted) s
  | inr e ↦ rw (e, IsSorted) (insert-IsSorted x.tlc_id (add_tlc x) m s)
]

get-insert_absent :
    (j : TlcId) (x : AddTlcInfo) (m : List (TlcId × TlcKind))
    → get j (insert_absent x m)
      ≡ or_else (get j m) (if same x.tlc_id j then some (add_tlc x) else none)
get-insert_absent j x m =
    ground (arith, same_iff x.tlc_id j, get-insert j x.tlc_id (add_tlc x) m, key_eq-same j x.tlc_id)

unify_staging_lem :
    (ts : List TlcKind) (m : List (TlcId × TlcKind)) (removals : List TlcKind)
    → IsSorted m
    → IsSorted (unify_staging ts m removals).0
      × ((j : TlcId)
          → get j (unify_staging ts m removals).0 ≡ or_else (get j m) (as_add (find_add j ts)))
      × ((j : TlcId)
          → any (has_id j) (unify_staging ts m removals).1
            ≡ (any (has_id j) removals || any (is_removal_of j) ts))
unfolding unify_staging
unify_staging_lem [] m removals s = (s, λ j. ground arith, λ j. ground arith)
unify_staging_lem (add_tlc x ∷ ts) m removals s =
    let (p, g, r) =
      unify_staging_lem ts (insert_absent x m) removals (insert_absent-IsSorted x m s) in
    (p, λ j. ground (arith, g j, get-insert_absent j x m, same_iff x.tlc_id j), r)
unify_staging_lem (remove_tlc x ∷ ts) m removals s =
    let (p, g, r) = unify_staging_lem ts m (removals ++ remove_tlc x ∷ []) s in
    (p, g, λ j. ground (arith, r j, any-append (has_id j) removals (remove_tlc x ∷ [])))

unify_removals_lem :
    (ts : List TlcKind) (m : List (TlcId × TlcKind))
    → IsSorted m
    → IsSorted (unify_removals ts m)
      × ((j : TlcId) → get j (unify_removals ts m) ≡ (if any (has_id j) ts then none else get j m))
unfolding unify_removals
unify_removals_lem [] m s = (s, λ j. refl)
unify_removals_lem (t ∷ ts) m s =
    let (p, g) = unify_removals_lem ts (remove (tlc_id t) m) (remove-IsSorted (tlc_id t) m s) in
    (p, λ j. ground (arith, g j, get-remove j (tlc_id t) m s, key_eq-same j (tlc_id t)))

-- The TLC under an id in a commitment: none if a removal of it is staging, else the last committed
-- one that is not marked as removed, else the first that is staging.
abbrev pub unified : TlcId → List TlcKind → List TlcKind → Option TlcKind
unified j staging committed =
    if any (is_removal_of j) staging
    then none
    else or_else (as_add (last_active j committed)) (as_add (find_add j staging))

module _ {ℓ} {E : Type ℓ} where
  unify_map_lem :
      (staging committed : List TlcKind)
      → any is_removal committed ≡ false
      → (m : List (TlcId × TlcKind)) × (unify_map {E = E} staging committed ≡ ok m)
        × IsSorted m
        × ((j : TlcId) → get j m ≡ unified j staging committed)
  unfolding unify_map
  unify_map_lem staging committed h =
      let (adds, e, s, g) = unify_committed_lem {E = E} committed [] h tt in
      let (s', g', r) = unify_staging_lem staging adds [] s in
      let (s'', g'') =
        unify_removals_lem (unify_staging staging adds []).1 (unify_staging staging adds []).0 s' in
      (_, rw e, s'', λ j. ground (arith, g j, g' j, r j, g'' j))

  -- `unify_tlcs` panics exactly when a removal is among the committed operations. Otherwise it lists,
  -- in strictly rising order of the ids, for each id the TLC that `unified` describes and no other.
  pub unify_tlcs_lem :
      (staging committed : List TlcKind)
      → (any is_removal committed ≡ true → unify_tlcs {E = E} staging committed ≡ panic)
        × (any is_removal committed ≡ false
            → (m : List (TlcId × TlcKind)) × (unify_tlcs {E = E} staging committed ≡ ok (values m))
              × IsSorted m
              × ((j : TlcId) → get j m ≡ unified j staging committed))
  unfolding unify_tlcs
  unify_tlcs_lem staging committed = (
    λ h. rw (unify_committed-panic {E = E} committed [] h, unify_map),
    λ h. let (m, e, s, g) = unify_map_lem staging committed h in (m, rw e, s, g),
  )
