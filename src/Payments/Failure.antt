-- ===== src/Payments/Failure.antt =====
-- What a failed attempt leaves alone, and when it ends the process (`update_graph_with_tlc_fail` and
-- `record_payment_fail` of fiber/src/fiber/network.rs and fiber/src/fiber/graph.rs).
use mathlib.Core.Path.{subst}
use ai_ckb_backend.Common.{
  ℕ, ◌≡◌, refl, sym, ◌∙◌, Bool, true, false, List, [], ◌∷◌, ◌++◌, if◌then◌else◌, Option, some, none,
  arith, length,
}
use ai_ckb_backend.Common.Outcome.{ok, panic, >>=-Passed, ok_same}
use ai_ckb_backend.History.ErrorCode.{
  TlcErrorCode, TlcErr, TlcErrData, channel_failed, node_failed, is_update, error_node_id,
  error_data_node, permanent_channel_failure, channel_disabled, unknown_next_peer,
  permanent_node_failure,
}
use ai_ckb_backend.History.Internal.{empty, succeed_range_pairs, sub_usize}
use ai_ckb_backend.History.Fail.{record_payment_fail}
use ai_ckb_backend.History.Pairs.{apply_internal_result}
use ai_ckb_backend.Graph.State.{NetworkGraph}
use ai_ckb_backend.Graph.State.Marked.{
  ChannelFailed, NodeFailed, mark_channel_failed-ChannelFailed, mark_node_failed-NodeFailed,
}
use ai_ckb_backend.Graph.Session.{PaymentSession, set_success_status}
use ai_ckb_backend.Payments.State.{
  Network, Run, update_graph_with_tlc_fail, mark_failed, channel_mark, node_mark, gossip_update,
  error_data_outpoint, error_channel_outpoint, record_fail, record_success, insert_payment_session,
}

-- What the code of an error blames, as the data beside it say.
pub data Blamed : Type 0 where
  the_channel the_node : ℕ → Blamed
  none_blamed not_named : Blamed

abbrev pub named : (ℕ → Blamed) → Option ℕ → Blamed
named kind (some n) = kind n
named kind none = not_named

abbrev pub blamed : TlcErrorCode → Option TlcErrData → Blamed
blamed permanent_channel_failure extra = named the_channel (error_data_outpoint extra)
blamed channel_disabled extra = named the_channel (error_data_outpoint extra)
blamed unknown_next_peer extra = named the_channel (error_data_outpoint extra)
blamed permanent_node_failure extra = named the_node (error_data_node extra)
blamed _ extra = none_blamed

-- The channel update that comes with an error is handed on when the code is one of an update.
abbrev pub gossiped_after : Bool → Option TlcErrData → List (List ℕ) → List (List ℕ)
gossiped_after true (some (channel_failed channel (some update) node)) sent = sent ++ (update ∷ [])
gossiped_after _ _ sent = sent

-- The payment sessions, the retries and the key of the node are the same.
abbrev pub KeepsSessions : Network → Network → Type 0
KeepsSessions n n' =
    (n'.public_key ≡ n.public_key) × (n'.sessions ≡ n.sessions) × (n'.retries ≡ n.retries)

-- It went well, with nothing but the graph changed in this way.
abbrev pub Changes : (NetworkGraph → NetworkGraph → Type 0) → Network → Run Network → Type 0
Changes P n m =
    (n' : Network) × (m ≡ ok n') × (n' ≡ record n { graph = n'.graph }) × P n.graph n'.graph

-- What is blamed is marked; or the process ended, as it is not named.
abbrev pub Marks : Blamed → Network → Run Network → Type 0
Marks (the_channel c) n m = Changes (ChannelFailed c) n m
Marks (the_node k) n m = Changes (NodeFailed k) n m
Marks none_blamed n m = m ≡ ok n
Marks not_named n m = m ≡ panic

channel_mark-Marks : (o : Option ℕ) (n : Network) → Marks (named the_channel o) n (channel_mark o n)
channel_mark-Marks none n = refl
channel_mark-Marks (some c) n = (_, refl, refl, mark_channel_failed-ChannelFailed c n.graph)

node_mark-Marks : (o : Option ℕ) (n : Network) → Marks (named the_node o) n (node_mark o n)
node_mark-Marks none n = refl
node_mark-Marks (some k) n = (_, refl, refl, mark_node_failed-NodeFailed k n.graph)

mark_failed-Marks :
    (code : TlcErrorCode) (e : TlcErr) (n : Network)
    → Marks (blamed code e.extra_data) n (mark_failed code e n)
unfolding mark_failed error_channel_outpoint error_node_id
mark_failed-Marks permanent_channel_failure e n =
    channel_mark-Marks (error_data_outpoint e.extra_data) n
mark_failed-Marks channel_disabled e n = channel_mark-Marks (error_data_outpoint e.extra_data) n
mark_failed-Marks unknown_next_peer e n = channel_mark-Marks (error_data_outpoint e.extra_data) n
mark_failed-Marks permanent_node_failure e n = node_mark-Marks (error_data_node e.extra_data) n
mark_failed-Marks _ e n = refl

gossip_update-gossiped_after :
    (b : Bool) (extra : Option TlcErrData) (n : Network)
    → (if b then gossip_update extra n else n)
      ≡ record n { gossiped = gossiped_after b extra n.gossiped }
gossip_update-gossiped_after false extra n = refl
gossip_update-gossiped_after true (some (channel_failed channel (some update) node)) n = refl
gossip_update-gossiped_after true (some (channel_failed channel none node)) n = refl
gossip_update-gossiped_after true (some (node_failed node)) n = refl
gossip_update-gossiped_after true none n = refl

-- A failed attempt hands the channel update of the error on when its code is one of an update, and
-- changes nothing else but the graph. There, if the code blames a channel that the error names, the
-- updates of that channel, as far as there are any, are turned off; if it blames a node that the error
-- names, the updates of its channels in one direction are; nothing else changes in the graph, and with
-- any other code it stays. If the error does not name what its code blames, the process ends.
pub update_graph_with_tlc_fail-Marks :
    (e : TlcErr) (n : Network)
    → Marks
        (blamed e.error_code e.extra_data)
        (record n { gossiped = gossiped_after (is_update e.error_code) e.extra_data n.gossiped })
        (update_graph_with_tlc_fail e n)
unfolding update_graph_with_tlc_fail
update_graph_with_tlc_fail-Marks e n =
    subst
      (λ m. Marks (blamed e.error_code e.extra_data) m (
        mark_failed e.error_code e
          (if is_update e.error_code then gossip_update e.extra_data n else n)))
      (gossip_update-gossiped_after (is_update e.error_code) e.extra_data n)
      (mark_failed-Marks e.error_code e
        (if is_update e.error_code then gossip_update e.extra_data n else n))

Changes-KeepsSessions :
    (P : NetworkGraph → NetworkGraph → Type 0) (n n' : Network) (r : Run Network)
    → Changes P n r
    → r ≡ ok n'
    → KeepsSessions n n'
Changes-KeepsSessions P n n' r (m, e, k, p) f =
    subst (KeepsSessions n) (sym k ∙ ok_same (sym e ∙ f)) (refl, refl, refl)

Marks-KeepsSessions :
    (b : Blamed) (n n' : Network) (r : Run Network) → Marks b n r → r ≡ ok n' → KeepsSessions n n'
Marks-KeepsSessions (the_channel c) n n' r m f = Changes-KeepsSessions (ChannelFailed c) n n' r m f
Marks-KeepsSessions (the_node k) n n' r m f = Changes-KeepsSessions (NodeFailed k) n n' r m f
Marks-KeepsSessions none_blamed n n' r e f =
    subst (KeepsSessions n) (ok_same (sym e ∙ f)) (refl, refl, refl)
Marks-KeepsSessions not_named n n' r e f = absurd (ground (arith, e, f))

pub update_graph_with_tlc_fail-KeepsSessions :
    (e : TlcErr) (n n' : Network) → update_graph_with_tlc_fail e n ≡ ok n' → KeepsSessions n n'
update_graph_with_tlc_fail-KeepsSessions e n n' h =
    Marks-KeepsSessions (blamed e.error_code e.extra_data)
      (record n { gossiped = gossiped_after (is_update e.error_code) e.extra_data n.gossiped }) n' _
      (update_graph_with_tlc_fail-Marks e n) h

pub record_fail-KeepsSessions :
    (now : ℕ) (s : PaymentSession) (e : TlcErr) (n : Network) (r : Network × Bool)
    → record_fail now s e n ≡ ok r
    → KeepsSessions n r.0
unfolding record_fail
record_fail-KeepsSessions now s e n r h =
    let (verdict, _, h1) = >>=-Passed (record_payment_fail now s.route e empty) _ h in
    let (history, _, h2) = >>=-Passed (apply_internal_result now verdict.0 n.graph.history) _ h1 in
    subst (λ (x : Network × Bool). KeepsSessions n x.0) (ok_same h2) (refl, refl, refl)

-- A payment that went well is stored as such.
pub record_success-sessions :
    (now : ℕ) (s : PaymentSession) (n n' : Network)
    → record_success now s n ≡ ok n'
    → n'.sessions ≡ (insert_payment_session (set_success_status now s) n).sessions
unfolding record_success insert_payment_session
record_success-sessions now s n n' h =
    let (end, _, h1) = >>=-Passed (sub_usize (length s.route) 1) _ h in
    let (result, _, h2) = >>=-Passed (succeed_range_pairs now s.route 0 end empty) _ h1 in
    let (history, _, h3) = >>=-Passed (apply_internal_result now result n.graph.history) _ h2 in
    subst
      (λ (x : Network). x.sessions ≡ (insert_payment_session (set_success_status now s) n).sessions)
      (ok_same h3) refl
