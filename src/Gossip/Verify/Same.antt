-- ===== src/Gossip/Verify/Same.antt =====
-- When two gossip messages are the same: the derived `PartialEq` of the messages of
-- fiber/src/fiber/types.rs tells equal messages from others.
use ai_ckb_backend.Common.{
  ℕ, ◌≡◌, refl, ap, Bool, true, ◌&&◌, List, [], ◌∷◌, Option, some, none, ◌==◌, arith, ==_iff,
}
use ai_ckb_backend.Gossip.Message.{NodeAnnouncement, ChannelAnnouncement, ChannelUpdate}
use ai_ckb_backend.Gossip.Verify.{same_option, same_list, same_channel, same_update, same_node}

both : (x y : Bool) → (x && y) ≡ true → (x ≡ true) × (y ≡ true)
both x y h = ground (arith, h)

same_number : (a b : ℕ) → (a == b) ≡ true → a ≡ b
same_number a b h = (==_iff a b).0 h

same_option_lem : (a b : Option ℕ) → same_option a b ≡ true → a ≡ b
same_option_lem none none h = refl
same_option_lem (some a) (some b) h = ap some (same_number a b h)
same_option_lem none (some b) h = absurd (ground (arith, h))
same_option_lem (some a) none h = absurd (ground (arith, h))

same_list_lem : (xs ys : List ℕ) → same_list xs ys ≡ true → xs ≡ ys
same_list_lem [] [] h = refl
same_list_lem (a ∷ xs) (b ∷ ys) h =
    let (e, f) = both (a == b) (same_list xs ys) h in
    let p = same_number a b e in let q = same_list_lem xs ys f in λ i. p i ∷ q i
same_list_lem [] (b ∷ ys) h = absurd (ground (arith, h))
same_list_lem (a ∷ xs) [] h = absurd (ground (arith, h))

pub same_channel_lem : (a b : ChannelAnnouncement) → same_channel a b ≡ true → a ≡ b
unfolding same_channel
same_channel_lem a b h =
    let (t0, h0) = both _ _ h in
    let p0 = same_option_lem a.node1_signature b.node1_signature t0 in
    let (t1, h1) = both _ _ h0 in
    let p1 = same_option_lem a.node2_signature b.node2_signature t1 in
    let (t2, h2) = both _ _ h1 in
    let p2 = same_option_lem a.ckb_signature b.ckb_signature t2 in
    let (t3, h3) = both _ _ h2 in
    let p3 = same_number a.features b.features t3 in
    let (t4, h4) = both _ _ h3 in
    let p4 = same_number a.chain_hash b.chain_hash t4 in
    let (t5, h5) = both _ _ h4 in
    let p5 = same_number a.channel_outpoint b.channel_outpoint t5 in
    let (t6, h6) = both _ _ h5 in
    let p6 = same_number a.node1_id b.node1_id t6 in
    let (t7, h7) = both _ _ h6 in
    let p7 = same_number a.node2_id b.node2_id t7 in
    let (t8, h8) = both _ _ h7 in
    let p8 = same_number a.ckb_key b.ckb_key t8 in
    let (t9, h9) = both _ _ h8 in
    let p9 = same_number a.capacity b.capacity t9 in
    let p10 = same_option_lem a.udt_type_script b.udt_type_script h9 in
    λ i. record {
      node1_signature = p0 i;
      node2_signature = p1 i;
      ckb_signature = p2 i;
      features = p3 i;
      chain_hash = p4 i;
      channel_outpoint = p5 i;
      node1_id = p6 i;
      node2_id = p7 i;
      ckb_key = p8 i;
      capacity = p9 i;
      udt_type_script = p10 i;
    }

pub same_update_lem : (a b : ChannelUpdate) → same_update a b ≡ true → a ≡ b
unfolding same_update
same_update_lem a b h =
    let (t0, h0) = both _ _ h in
    let p0 = same_option_lem a.signature b.signature t0 in
    let (t1, h1) = both _ _ h0 in
    let p1 = same_number a.chain_hash b.chain_hash t1 in
    let (t2, h2) = both _ _ h1 in
    let p2 = same_number a.channel_outpoint b.channel_outpoint t2 in
    let (t3, h3) = both _ _ h2 in
    let p3 = same_number a.timestamp b.timestamp t3 in
    let (t4, h4) = both _ _ h3 in
    let p4 = same_number a.message_flags b.message_flags t4 in
    let (t5, h5) = both _ _ h4 in
    let p5 = same_number a.channel_flags b.channel_flags t5 in
    let (t6, h6) = both _ _ h5 in
    let p6 = same_number a.tlc_expiry_delta b.tlc_expiry_delta t6 in
    let (t7, h7) = both _ _ h6 in
    let p7 = same_number a.tlc_minimum_value b.tlc_minimum_value t7 in
    let p8 = same_number a.tlc_fee_proportional_millionths b.tlc_fee_proportional_millionths h7 in
    λ i. record {
      signature = p0 i;
      chain_hash = p1 i;
      channel_outpoint = p2 i;
      timestamp = p3 i;
      message_flags = p4 i;
      channel_flags = p5 i;
      tlc_expiry_delta = p6 i;
      tlc_minimum_value = p7 i;
      tlc_fee_proportional_millionths = p8 i;
    }

pub same_node_lem : (a b : NodeAnnouncement) → same_node a b ≡ true → a ≡ b
unfolding same_node
same_node_lem a b h =
    let (t0, h0) = both _ _ h in
    let p0 = same_option_lem a.signature b.signature t0 in
    let (t1, h1) = both _ _ h0 in
    let p1 = same_number a.features b.features t1 in
    let (t2, h2) = both _ _ h1 in
    let p2 = same_number a.timestamp b.timestamp t2 in
    let (t3, h3) = both _ _ h2 in
    let p3 = same_number a.node_id b.node_id t3 in
    let (t4, h4) = both _ _ h3 in
    let p4 = same_number a.alias b.alias t4 in
    let (t5, h5) = both _ _ h4 in
    let p5 = same_list_lem a.addresses b.addresses t5 in
    let (t6, h6) = both _ _ h5 in
    let p6 = same_number a.chain_hash b.chain_hash t6 in
    let (t7, h7) = both _ _ h6 in
    let p7 =
      same_number a.auto_accept_min_ckb_funding_amount b.auto_accept_min_ckb_funding_amount t7 in
    let p8 = same_number a.udt_cfg_infos b.udt_cfg_infos h7 in
    λ i. record {
      signature = p0 i;
      features = p1 i;
      timestamp = p2 i;
      node_id = p3 i;
      alias = p4 i;
      addresses = p5 i;
      chain_hash = p6 i;
      auto_accept_min_ckb_funding_amount = p7 i;
      udt_cfg_infos = p8 i;
    }
