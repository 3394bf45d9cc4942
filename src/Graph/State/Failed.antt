-- ===== src/Graph/State/Failed.antt =====
-- What `mark_node_failed` and `mark_channel_failed` (fiber/src/fiber/graph.rs) do to the channels of
-- the graph, and to those that `get_node_inbounds` gives.
use Prim.Native.Nat.{Ordering}
use ai_ckb_backend.Common.{ℕ, ◌≡◌, ◌≢◌, refl, List, [], ◌∷◌, Option, some, none, arith}
use ai_ckb_backend.Common.BTreeMap.{Key_ord}
use ai_ckb_backend.Graph.Info.{ChannelInfo}
use ai_ckb_backend.Graph.State.{
  NetworkGraph, Inbound, inbound, insert_inbound, add_inbound, inbounds_of, get_node_inbounds,
  disable_from, disable_all_from, mark_node_failed, cmp_inbound,
}
use ai_ckb_backend.Graph.State.Marked.{NodeFailed, mark_node_failed-NodeFailed}

-- Every element passes.
abbrev pub AllInbounds : (Inbound → Type 0) → List Inbound → Type 0
AllInbounds P [] = Unit
AllInbounds P (i ∷ is) = P i × AllInbounds P is

module _ (P : Inbound → Type 0) where
  insert_inbound-AllInbounds :
      (i : Inbound) (is : List Inbound)
      → P i
      → AllInbounds P is
      → AllInbounds P (insert_inbound i is)
  insert_inbound-AllInbounds i [] p a = (p, tt)
  insert_inbound-AllInbounds i (j ∷ is) p (q, a) =
      elim (cmp_inbound i j)
        as (λ o.
          AllInbounds P (elim o [ Ordering.gt ↦ j ∷ insert_inbound i is | _ ↦ i ∷ j ∷ is ])) [
            | Ordering.lt ↦ (p, (q, a))
            | Ordering.eq ↦ (p, (q, a))
            | Ordering.gt ↦ (q, insert_inbound-AllInbounds i is p a)
          ]

  add_inbound-AllInbounds :
      (o : Option Inbound) (is : List Inbound)
      → ((i : Inbound) → o ≡ some i → P i)
      → AllInbounds P is
      → AllInbounds P (add_inbound o is)
  add_inbound-AllInbounds none is p a = a
  add_inbound-AllInbounds (some i) is p a = insert_inbound-AllInbounds i is (p i refl) a

-- The edge starts at another node.
abbrev pub IsNotFrom : ℕ → Inbound → Type 0
IsNotFrom node i = i.from ≢ node

disable_from-inbound :
    (node target : ℕ) (c : ChannelInfo) (i : Inbound)
    → target ≢ node
    → inbound target (disable_from node c) ≡ some i
    → IsNotFrom node i
disable_from-inbound node target c i h e f = ground (arith, h, e, f)

disable_all_from-inbounds :
    (node target : ℕ) (cs : List (ℕ × ChannelInfo))
    → target ≢ node
    → AllInbounds (IsNotFrom node) (inbounds_of target (disable_all_from node cs))
disable_all_from-inbounds node target [] h = tt
disable_all_from-inbounds node target ((o, c) ∷ cs) h =
    add_inbound-AllInbounds (IsNotFrom node) (inbound target (disable_from node c))
      (inbounds_of target (disable_all_from node cs))
      (λ i e. disable_from-inbound node target c i h e) (disable_all_from-inbounds node target cs h)

-- After a node is marked as failed, the channels into any other node that `get_node_inbounds` gives do
-- not start at it; and no channel is lost or changed but for the updates of the failed node's channels
-- in one direction, which are turned off.
pub mark_node_failed_avoids :
    (node target : ℕ) (g : NetworkGraph)
    → target ≢ node
    → AllInbounds (IsNotFrom node) (get_node_inbounds target (mark_node_failed node g))
      × NodeFailed node g (mark_node_failed node g)
unfolding mark_node_failed get_node_inbounds
mark_node_failed_avoids node target g h =
    (disable_all_from-inbounds node target g.channels h, mark_node_failed-NodeFailed node g)
