-- ===== src/Graph/State/Marked.antt =====
-- What `mark_channel_failed` and `mark_node_failed` (fiber/src/fiber/graph.rs) change in the graph, and
-- what stays.
use Prim.Native.Nat.{Ordering, compare}
use mathlib.Core.Path.{subst}
use ai_ckb_backend.Common.{
  ℕ, ◌≡◌, refl, sym, ap, ◌∙◌, List, [], ◌∷◌, Option, some, none, arith, Bool, true, false, not,
  ◌&&◌, ◌||◌, ◌==◌, if◌then◌else◌, ==_iff,
}
use ai_ckb_backend.Common.BTreeMap.{Key_ord, get, insert, get-insert, key_eq}
use ai_ckb_backend.Graph.Info.{ChannelInfo, ChannelUpdateInfo}
use ai_ckb_backend.Graph.State.{
  NetworkGraph, disable_from, disable_all_from, mark_node_failed, mark_channel_failed, disable,
  disable_both,
}

-- An update that is there is not enabled any more, and otherwise the same.
abbrev pub TurnedOff : Option ChannelUpdateInfo → Option ChannelUpdateInfo → Type 0
TurnedOff none u' = u' ≡ none
TurnedOff (some u) u' = u' ≡ some (record u { enabled = false })

abbrev pub OffWhen : Bool → Option ChannelUpdateInfo → Option ChannelUpdateInfo → Type 0
OffWhen true u u' = TurnedOff u u'
OffWhen false u u' = u' ≡ u

-- The channel is there as before, with the updates of its sides turned off as the two tests say.
abbrev pub OffAt :
    (ChannelInfo → Bool) → (ChannelInfo → Bool) → Option ChannelInfo → Option ChannelInfo → Type 0
OffAt off1 off2 none o' = o' ≡ none
OffAt off1 off2 (some c) o' =
    (u1 : Option ChannelUpdateInfo) × (u2 : Option ChannelUpdateInfo) × (o'
      ≡ some (record c { update_of_node1 = u1; update_of_node2 = u2 }))
    × OffWhen (off1 c) c.update_of_node1 u1
    × OffWhen (off2 c) c.update_of_node2 u2

-- The channel's two updates are turned off, and no other channel is touched.
abbrev pub ChannelFailed : ℕ → NetworkGraph → NetworkGraph → Type 0
ChannelFailed outpoint g g' =
    ((o : ℕ)
      → OffAt (λ c. o == outpoint) (λ c. o == outpoint) (get o g.channels) (get o g'.channels))
    × (g' ≡ record g { channels = g'.channels })

-- The update that is kept as `update_of_node2` of a channel whose first node fails is turned off, and
-- the other one of a channel whose second node does.
abbrev pub FailsFrom : ℕ → Option ChannelInfo → Option ChannelInfo → Type 0
FailsFrom node = OffAt (λ c. not (c.node1 == node) && c.node2 == node) (λ c. c.node1 == node)

-- No other channel is touched.
abbrev pub NodeFailed : ℕ → NetworkGraph → NetworkGraph → Type 0
NodeFailed node g g' =
    ((o : ℕ) → FailsFrom node (get o g.channels) (get o g'.channels))
    × (g' ≡ record g { channels = g'.channels })

disable-TurnedOff : (u : Option ChannelUpdateInfo) → TurnedOff u (disable u)
disable-TurnedOff none = refl
disable-TurnedOff (some u) = refl

OffAt-same : (o : Option ChannelInfo) → OffAt (λ c. false) (λ c. false) o o
OffAt-same none = refl
OffAt-same (some c) = (c.update_of_node1, c.update_of_node2, refl, refl, refl)

disable_both-OffAt :
    (c : ChannelInfo) → OffAt (λ d. true) (λ d. true) (some c) (some (disable_both c))
disable_both-OffAt c = (
  disable c.update_of_node1,
  disable c.update_of_node2,
  refl,
  disable-TurnedOff c.update_of_node1,
  disable-TurnedOff c.update_of_node2,
)

key_eq-same : (a b : ℕ) → key_eq a b ≡ (a == b)
key_eq-same a b = ground arith

abbrev failed_at : ℕ → NetworkGraph → Option ChannelInfo → NetworkGraph
failed_at outpoint g found = elim found [
  | none ↦ g
  | some c ↦ record g { channels = insert outpoint (disable_both c) g.channels }
]

failed_at-OffAt :
    (outpoint o : ℕ) (g : NetworkGraph) (here : Bool) (found : Option ChannelInfo)
    → (o == outpoint) ≡ here
    → get outpoint g.channels ≡ found
    → OffAt (λ d. here) (λ d. here) (get o g.channels) (get o (failed_at outpoint g found).channels)
failed_at-OffAt outpoint o g false none e f = OffAt-same (get o g.channels)
failed_at-OffAt outpoint o g true none e f =
    subst (λ x. OffAt (λ d. true) (λ d. true) x x)
      (sym (ap (λ k. get k g.channels) ((==_iff o outpoint).0 e) ∙ f)) refl
failed_at-OffAt outpoint o g here (some c) e f =
    subst (λ x. OffAt (λ d. here) (λ d. here) (get o g.channels) x)
      (sym (
        get-insert o outpoint (disable_both c) g.channels
        ∙ ap (λ b. if b then some (disable_both c) else get o g.channels)
            (key_eq-same o outpoint ∙ e)))
      (chosen here e)
  where
    chosen :
        (b : Bool)
        → (o == outpoint) ≡ b
        → OffAt
            (λ d. b)
            (λ d. b)
            (get o g.channels)
            (if b then some (disable_both c) else get o g.channels)
    chosen false e = OffAt-same (get o g.channels)
    chosen true e =
        subst (λ x. OffAt (λ d. true) (λ d. true) x (some (disable_both c)))
          (sym (ap (λ k. get k g.channels) ((==_iff o outpoint).0 e) ∙ f)) (disable_both-OffAt c)

failed_at-rest :
    (outpoint : ℕ) (g : NetworkGraph) (found : Option ChannelInfo)
    → failed_at outpoint g found ≡ record g { channels = (failed_at outpoint g found).channels }
failed_at-rest outpoint g none = refl
failed_at-rest outpoint g (some c) = refl

pub mark_channel_failed-ChannelFailed :
    (outpoint : ℕ) (g : NetworkGraph) → ChannelFailed outpoint g (mark_channel_failed outpoint g)
unfolding mark_channel_failed
mark_channel_failed-ChannelFailed outpoint g = (
  λ o. failed_at-OffAt outpoint o g (o == outpoint) (get outpoint g.channels) refl refl,
  failed_at-rest outpoint g (get outpoint g.channels),
)

-- The two tests of the round as values.
disable_tested :
    (c : ChannelInfo) (is1 is2 : Bool)
    → OffAt
        (λ d. not is1 && is2)
        (λ d. is1)
        (some c)
        (some (
          if is1 || is2
          then (if is1
              then record c { update_of_node2 = disable c.update_of_node2 }
              else record c { update_of_node1 = disable c.update_of_node1 })
          else c))
disable_tested c true is2 =
    (c.update_of_node1, disable c.update_of_node2, refl, refl, disable-TurnedOff c.update_of_node2)
disable_tested c false true =
    (disable c.update_of_node1, c.update_of_node2, refl, disable-TurnedOff c.update_of_node1, refl)
disable_tested c false false = (c.update_of_node1, c.update_of_node2, refl, refl, refl)

disable_all_from-FailsFrom :
    (node o : ℕ) (cs : List (ℕ × ChannelInfo))
    → FailsFrom node (get o cs) (get o (disable_all_from node cs))
disable_all_from-FailsFrom node o [] = refl
disable_all_from-FailsFrom node o ((k, c) ∷ cs) =
    elim (compare o k)
      as (λ x.
        FailsFrom node (elim x [ Ordering.eq ↦ some c | _ ↦ get o cs ])
          (elim x [
            | Ordering.eq ↦ some (disable_from node c)
            | _ ↦ get o (disable_all_from node cs)
          ])) [
            | Ordering.eq ↦ disable_tested c (c.node1 == node) (c.node2 == node)
            | Ordering.lt ↦ disable_all_from-FailsFrom node o cs
            | Ordering.gt ↦ disable_all_from-FailsFrom node o cs
          ]

pub mark_node_failed-NodeFailed :
    (node : ℕ) (g : NetworkGraph) → NodeFailed node g (mark_node_failed node g)
unfolding mark_node_failed
mark_node_failed-NodeFailed node g = (λ o. disable_all_from-FailsFrom node o g.channels, refl)
