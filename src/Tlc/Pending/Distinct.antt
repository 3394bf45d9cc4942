-- ===== src/Tlc/Pending/Distinct.antt =====
-- Lists in which no operation stands twice, which the guard of `push` and of `commit_tlcs` keeps.
use ai_ckb_backend.Common.{
  ◌≡◌, refl, Bool, false, List, [], ◌∷◌, ◌++◌, inl, inr, arith, Bool-cases, retain, any-append,
}
use ai_ckb_backend.Tlc.Kind.{TlcKind, same_operation, same_operation_comm}
use ai_ckb_backend.Tlc.Pending.{present, push_absent}

abbrev pub Distinct : List TlcKind → Type 0
Distinct [] = Unit
Distinct (t ∷ ts) = (present t ts ≡ false) × Distinct ts

pub Distinct-append :
    (ts : List TlcKind) (t : TlcKind) → Distinct ts → present t ts ≡ false → Distinct (ts ++ t ∷ [])
Distinct-append [] t d p = (refl, tt)
Distinct-append (s ∷ ts) t d p = ground (
  arith,
  any-append (λ r. same_operation r s) ts (t ∷ []),
  same_operation_comm s t,
  Distinct-append ts t d.1,
)

pub Distinct-push_absent : (cs ts : List TlcKind) → Distinct ts → Distinct (push_absent cs ts)
unfolding push_absent
Distinct-push_absent [] ts d = d
Distinct-push_absent (c ∷ cs) ts d = elim (Bool-cases (present c ts)) [
  | inl p ↦ rw p (Distinct-push_absent cs ts d)
  | inr p ↦ rw p (Distinct-push_absent cs (ts ++ c ∷ []) (Distinct-append ts c d p))
]

present-retain :
    (p : TlcKind → Bool) (t : TlcKind) (ts : List TlcKind)
    → present t ts ≡ false
    → present t (retain p ts) ≡ false
present-retain p t [] h = refl
present-retain p t (s ∷ ts) h = ground (arith, present-retain p t ts)

pub Distinct-retain :
    (p : TlcKind → Bool) (ts : List TlcKind) → Distinct ts → Distinct (retain p ts)
Distinct-retain p [] d = tt
Distinct-retain p (t ∷ ts) d = ground (arith, Distinct-retain p ts d.1, present-retain p t ts d.0)
