-- ===== src/Graph/State/Messages.antt =====
-- What gossip messages change in the graph (`update_for_messages` of fiber/src/fiber/graph.rs).
use mathlib.Core.Path.{subst}
use ai_ckb_backend.Common.{
  ℕ, ◌≤◌, ◌≡◌, refl, sym, ap, ◌∙◌, Bool, true, false, List, [], ◌∷◌, Option, some, none, arith,
  if◌then◌else◌, ltb, ◌==◌, Option-cases, Bool-cases, inl, inr,
}
use ai_ckb_backend.Common.BTreeMap.{Key_ord, get}
use ai_ckb_backend.Common.Outcome.{ok, >>=-Passed, ok_same}
use ai_ckb_backend.Tlc.Info.{Hash256}
use ai_ckb_backend.Gossip.Message.{
  NodeAnnouncement, ChannelAnnouncement, ChannelUpdate, BroadcastMessageWithTimestamp, Cursor,
  is_update_of_node_1, chain_hash, cursor,
}
use ai_ckb_backend.Gossip.Cursor.{Crates, cmp_cursor}
use ai_ckb_backend.Graph.Info.{ChannelInfo, ChannelUpdateInfo, NodeInfo}
use ai_ckb_backend.Graph.State.{
  NetworkGraph, process_channel_announcement, process_channel_update, process_node_announcement,
  process_message, process_own, process_all, update_for_messages, update_lastest_cursor,
  load_channel, load_announced, update_channel, put_update, channel_info_from, update_info_from,
  update_slot, update_time, is_newer, node_info_from, is_gt,
}
use ai_ckb_backend.Graph.State.Advances.{
  IsLater, IsLater-same, Continues, Continues-same, Advances, Advances-same, Advances-chain,
  some_same, set_channel-Advances, set_node-Advances,
}

process_channel_announcement-Advances :
    (t : ℕ) (c : ChannelAnnouncement) (g : NetworkGraph)
    → Advances g (process_channel_announcement t c g).0
unfolding process_channel_announcement channel_info_from
process_channel_announcement-Advances t c g =
    elim (Option-cases (get c.channel_outpoint g.channels)) [
      | inl e ↦
          rw (e, process_channel_announcement)
            (set_channel-Advances c.channel_outpoint (channel_info_from t c) g _ refl refl
              (λ d f. absurd (ground (arith, e, f))))
      | inr (d, e) ↦ rw (e, process_channel_announcement) (Advances-same g)
    ]

IsLater-newer :
    (old : Option ChannelUpdateInfo) (u : ChannelUpdate)
    → is_newer (update_time old) u.timestamp ≡ false
    → IsLater old (some (update_info_from u))
unfolding update_info_from
IsLater-newer none u e = tt
IsLater-newer (some a) u e = ground arith

put_update-Continues :
    (u : ChannelUpdate) (c : ChannelInfo)
    → is_newer (update_time (update_slot u c)) u.timestamp ≡ false
    → Continues c (put_update u c)
put_update-Continues u c e = elim (Bool-cases (is_update_of_node_1 u)) [
  | inl b ↦
      let f : is_newer (update_time c.update_of_node1) u.timestamp ≡ false =
        sym (ap (λ s. is_newer (update_time s) u.timestamp) (rw b refl)) ∙ e in
      rw b (record {
        outpoint = refl;
        ends = (refl, refl);
        capacity = refl;
        updates = (IsLater-newer c.update_of_node1 u f, IsLater-same c.update_of_node2);
      })
  | inr b ↦
      let f : is_newer (update_time c.update_of_node2) u.timestamp ≡ false =
        sym (ap (λ s. is_newer (update_time s) u.timestamp) (rw b refl)) ∙ e in
      rw b (record {
        outpoint = refl;
        ends = (refl, refl);
        capacity = refl;
        updates = (IsLater-same c.update_of_node1, IsLater-newer c.update_of_node2 u f);
      })
]

update_channel-Advances :
    (announcement_of : ℕ → Option (ℕ × ChannelAnnouncement)) (u : ChannelUpdate) (g : NetworkGraph)
    (o : Option ChannelInfo)
    → get u.channel_outpoint g.channels ≡ o
    → Advances g (update_channel announcement_of u o g).0
update_channel-Advances announcement_of u g none e = Advances-same g
update_channel-Advances announcement_of u g (some c) e =
    elim (Bool-cases (is_newer (update_time (update_slot u c)) u.timestamp)) [
      | inl b ↦ rw b (Advances-same g)
      | inr b ↦ rw b (
          set_channel-Advances u.channel_outpoint (put_update u c) g _ refl refl (λ d f.
            subst (λ x. Continues x (put_update u c)) (some_same (sym e ∙ f))
              (put_update-Continues u c b)))
    ]

load_announced-Advances :
    (announcement_of : ℕ → Option (ℕ × ChannelAnnouncement)) (a : Option (ℕ × ChannelAnnouncement))
    (g : NetworkGraph)
    → Advances g (load_announced announcement_of a g)
load_announced-Advances announcement_of none g = Advances-same g
load_announced-Advances announcement_of (some (t, c)) g =
    process_channel_announcement-Advances t c g

load_channel-Advances :
    (announcement_of : ℕ → Option (ℕ × ChannelAnnouncement)) (o : ℕ) (g : NetworkGraph)
    → Advances g (load_channel announcement_of o g)
unfolding load_channel
load_channel-Advances announcement_of o g = elim (Option-cases (get o g.channels)) [
  | inl e ↦ rw (e, load_channel) (load_announced-Advances announcement_of (announcement_of o) g)
  | inr (c, e) ↦ rw (e, load_channel) (Advances-same g)
]

process_node_announcement-Advances :
    (n : NodeAnnouncement) (g : NetworkGraph) → Advances g (process_node_announcement n g).0
unfolding process_node_announcement node_info_from
process_node_announcement-Advances n g = elim (Option-cases (get n.node_id g.nodes)) [
  | inl e ↦
      rw (e, process_node_announcement)
        (set_node-Advances n.node_id (node_info_from n) g (λ i f. absurd (ground (arith, e, f))))
  | inr (j, e) ↦ elim (Bool-cases (ltb n.timestamp j.timestamp)) [
    | inl b ↦ rw (e, process_node_announcement, b) (Advances-same g)
    | inr b ↦
        rw (e, process_node_announcement, b)
          (set_node-Advances n.node_id (node_info_from n) g (λ i f.
            subst (λ (x : NodeInfo). x.timestamp ≤ n.timestamp) (some_same (sym e ∙ f))
              (ground (arith, b))))
  ]
]

process_message-Advances :
    (announcement_of : ℕ → Option (ℕ × ChannelAnnouncement)) (m : BroadcastMessageWithTimestamp)
    (g : NetworkGraph)
    → Advances g (process_message announcement_of m g)
unfolding process_message process_channel_update
process_message-Advances announcement_of (BroadcastMessageWithTimestamp.channel_announcement t c)
      g =
    process_channel_announcement-Advances t c g
process_message-Advances announcement_of (BroadcastMessageWithTimestamp.channel_update u) g =
    Advances-chain (load_channel-Advances announcement_of u.channel_outpoint g) (
      update_channel-Advances announcement_of u (load_channel announcement_of u.channel_outpoint g)
        _ refl)
process_message-Advances announcement_of (BroadcastMessageWithTimestamp.node_announcement n) g =
    process_node_announcement-Advances n g

cursor_only :
    (b : Bool) (c : Cursor) (g : NetworkGraph)
    → Advances g (if b then record g { latest_cursor = c } else g)
cursor_only true c g = record {
  channels = λ o d e. (d, e, Continues-same d);
  nodes = λ n i e. (i, e, omega arith);
}
cursor_only false c g = Advances-same g

module _ (announcement_of : ℕ → Option (ℕ × ChannelAnnouncement)) (crates : Crates)
    (own_chain : Hash256) where
  process_own-Advances :
      (m : BroadcastMessageWithTimestamp) (g : NetworkGraph)
      → Advances g (process_own announcement_of crates own_chain m g)
  process_own-Advances m g = elim (Bool-cases (chain_hash m == own_chain)) [
    | inl e ↦ rw e (process_message-Advances announcement_of m g)
    | inr e ↦ rw e (Advances-same g)
  ]

  update_lastest_cursor-Advances :
      (c : Cursor) (g h : NetworkGraph)
      → update_lastest_cursor announcement_of crates own_chain c g ≡ ok h
      → Advances g h
  unfolding update_lastest_cursor
  update_lastest_cursor-Advances c g h e =
      let (o, f, r) = >>=-Passed (cmp_cursor crates c g.latest_cursor) _ e in
      subst (λ k. Advances g k) (ok_same r)
        (cursor_only (is_gt announcement_of crates own_chain o) c g)

  process_all-Advances :
      (ms : List BroadcastMessageWithTimestamp) (g h : NetworkGraph)
      → process_all announcement_of crates own_chain ms g ≡ ok h
      → Advances g h
  process_all-Advances [] g h e = subst (λ k. Advances g k) (ok_same e) (Advances-same g)
  process_all-Advances (m ∷ ms) g h e =
      let (seen, f, r) =
        >>=-Passed (update_lastest_cursor announcement_of crates own_chain (cursor m) g) _ e in
      Advances-chain (update_lastest_cursor-Advances (cursor m) g seen f) (
        Advances-chain (process_own-Advances m seen)
          (process_all-Advances ms (process_own announcement_of crates own_chain m seen) h r))

  -- Whatever gossip messages are taken in: no channel and no node is forgotten, the ends, the capacity
  -- and the outpoint of a channel stay, and the update of a direction or the announcement of a node is
  -- replaced by one that is no older.
  pub update_for_messages-Advances :
      (ms : List BroadcastMessageWithTimestamp) (g h : NetworkGraph) (changed : Bool)
      → update_for_messages announcement_of crates own_chain ms g ≡ ok (h, changed)
      → Advances g h
  unfolding update_for_messages
  update_for_messages-Advances [] g h changed e =
      subst (λ (r : NetworkGraph × Bool). Advances g r.0) (ok_same e) (Advances-same g)
  update_for_messages-Advances (m ∷ ms) g h changed e =
      let (k, f, r) = >>=-Passed (process_all announcement_of crates own_chain (m ∷ ms) g) _ e in
      subst (λ (x : NetworkGraph × Bool). Advances g x.0) (ok_same r)
        (process_all-Advances (m ∷ ms) g k f)
