-- ===== src/Graph/State/Advances.antt =====
-- The relation between a graph (fiber/src/fiber/graph.rs) and a later one: nothing is forgotten and
-- nothing goes back in time.
use ai_ckb_backend.Common.{
  ℕ, ◌≤◌, ◌≡◌, refl, sym, ap, ◌∙◌, true, Option, some, none, arith, Bool-cases, inl, inr,
}
use ai_ckb_backend.Common.BTreeMap.{Key_ord, get, insert, get-insert, key_eq}
use ai_ckb_backend.Graph.Info.{ChannelInfo, ChannelUpdateInfo, NodeInfo}
use ai_ckb_backend.Graph.State.{NetworkGraph}

-- The later update is no older.
abbrev pub IsLater : Option ChannelUpdateInfo → Option ChannelUpdateInfo → Type 0
IsLater none later = Unit
IsLater (some a) none = ⊥
IsLater (some a) (some b) = a.timestamp ≤ b.timestamp

-- The announced data of a channel stay, and its updates are replaced by no older ones.
pub record Continues (c d : ChannelInfo) : Type 0 where
  pub outpoint : d.channel_outpoint ≡ c.channel_outpoint
  pub ends : (d.node1 ≡ c.node1) × (d.node2 ≡ c.node2)
  pub capacity : d.capacity ≡ c.capacity
  pub updates :
      IsLater c.update_of_node1 d.update_of_node1 × IsLater c.update_of_node2 d.update_of_node2

-- No channel and no node is forgotten or goes back in time.
pub record Advances (g h : NetworkGraph) : Type 0 where
  pub channels :
      (o : ℕ) (c : ChannelInfo)
      → get o g.channels ≡ some c
      → (d : ChannelInfo) × (get o h.channels ≡ some d) × Continues c d
  pub nodes :
      (n : ℕ) (i : NodeInfo)
      → get n g.nodes ≡ some i
      → (j : NodeInfo) × (get n h.nodes ≡ some j) × (i.timestamp ≤ j.timestamp)

pub some_same : {A : Type 0} {a b : A} → some a ≡ some b → a ≡ b
some_same h = cc

pub IsLater-same : (u : Option ChannelUpdateInfo) → IsLater u u
IsLater-same none = tt
IsLater-same (some a) = omega arith

IsLater-chain : (a b c : Option ChannelUpdateInfo) → IsLater a b → IsLater b c → IsLater a c
IsLater-chain none b c h k = tt
IsLater-chain (some a) none c h k = elim h [ ]
IsLater-chain (some a) (some b) none h k = elim k [ ]
IsLater-chain (some a) (some b) (some c) h k = omega arith

pub Continues-same : (c : ChannelInfo) → Continues c c
Continues-same c = record {
  outpoint = refl;
  ends = (refl, refl);
  capacity = refl;
  updates = (IsLater-same c.update_of_node1, IsLater-same c.update_of_node2);
}

Continues-chain : (a b c : ChannelInfo) → Continues a b → Continues b c → Continues a c
Continues-chain a b c h k = record {
  outpoint = k.outpoint ∙ h.outpoint;
  ends = (k.ends.0 ∙ h.ends.0, k.ends.1 ∙ h.ends.1);
  capacity = k.capacity ∙ h.capacity;
  updates = (
    IsLater-chain a.update_of_node1 b.update_of_node1 c.update_of_node1 h.updates.0 k.updates.0,
    IsLater-chain a.update_of_node2 b.update_of_node2 c.update_of_node2 h.updates.1 k.updates.1,
  );
}

pub Advances-same : (g : NetworkGraph) → Advances g g
Advances-same g = record {
  channels = λ o c e. (c, e, Continues-same c);
  nodes = λ n i e. (i, e, omega arith);
}

pub Advances-chain : {g h k : NetworkGraph} → Advances g h → Advances h k → Advances g k
Advances-chain a b = record {
  channels = λ o c e.
      let (d, f, p) = a.channels o c e in
      let (d', f', q) = b.channels o d f in (d', f', Continues-chain c d d' p q);
  nodes = λ n i e.
      let (j, f, p) = a.nodes n i e in let (k, f', q) = b.nodes n j f in (k, f', omega arith);
}

key_eq-same : (a b : ℕ) → key_eq a b ≡ true → a ≡ b
key_eq-same a b h = ground arith

set_channel :
    (o : ℕ) (d : ChannelInfo) (g h : NetworkGraph)
    → h.channels ≡ insert o d g.channels
    → ((c : ChannelInfo) → get o g.channels ≡ some c → Continues c d)
    → (q : ℕ) (c : ChannelInfo) → get q g.channels ≡ some c
    → (d' : ChannelInfo) × (get q h.channels ≡ some d') × Continues c d'
set_channel o d g h e p q c r = elim (Bool-cases (key_eq q o)) [
  | inl s ↦ (
    d,
    rw (e, get-insert q o d g.channels, s) refl,
    p c (ap (λ k. get k g.channels) (sym (key_eq-same q o s)) ∙ r),
  )
  | inr s ↦ (c, rw (e, get-insert q o d g.channels, s) r, Continues-same c)
]

-- A channel that is set, where there was none or one that it continues.
pub set_channel-Advances :
    (o : ℕ) (d : ChannelInfo) (g h : NetworkGraph)
    → h.channels ≡ insert o d g.channels
    → h.nodes ≡ g.nodes
    → ((c : ChannelInfo) → get o g.channels ≡ some c → Continues c d)
    → Advances g h
set_channel-Advances o d g h e f p = record {
  channels = λ q c r. set_channel o d g h e p q c r;
  nodes = λ n i r. (i, rw f r, omega arith);
}

pub set_node-Advances :
    (n : ℕ) (j : NodeInfo) (g : NetworkGraph)
    → ((i : NodeInfo) → get n g.nodes ≡ some i → i.timestamp ≤ j.timestamp)
    → Advances g (record g { nodes = insert n j g.nodes })
set_node-Advances n j g p = record {
  channels = λ o c e. (c, e, Continues-same c);
  nodes = λ m i r. elim (Bool-cases (key_eq m n)) [
    | inl s ↦ (
      j,
      rw (get-insert m n j g.nodes, s) refl,
      p i (ap (λ k. get k g.nodes) (sym (key_eq-same m n s)) ∙ r),
    )
    | inr s ↦ (i, rw (get-insert m n j g.nodes, s) r, omega arith)
  ];
}
