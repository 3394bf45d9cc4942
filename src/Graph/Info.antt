-- ===== src/Graph/Info.antt =====
-- `ChannelInfo`, `ChannelUpdateInfo` and `NodeInfo` of fiber/src/fiber/graph.rs. A script, an alias,
-- an address and the configuration of UDTs are numbers: the graph only copies them.
use Prim.Native.Nat.{max}
use ai_ckb_backend.Common.{ℕ, Bool, false, not, ◌||◌, List, Option, some, none, if◌then◌else◌, ◌==◌}

pub record ChannelUpdateInfo : Type 0 where
  pub timestamp : ℕ  -- u64
  pub enabled : Bool
  pub tlc_expiry_delta : ℕ  -- u64
  pub tlc_minimum_value : ℕ  -- u128
  pub fee_rate : ℕ  -- u64

pub record ChannelInfo : Type 0 where
  pub channel_outpoint : ℕ
  pub timestamp : ℕ  -- u64
  pub features : ℕ  -- u64
  pub node1 : ℕ
  pub node2 : ℕ
  pub capacity : ℕ  -- u128
  pub udt_type_script : Option ℕ
  pub update_of_node1 : Option ChannelUpdateInfo
  pub update_of_node2 : Option ChannelUpdateInfo

pub record NodeInfo : Type 0 where
  pub node_id : ℕ
  pub timestamp : ℕ  -- u64
  pub features : ℕ  -- u64
  pub alias : ℕ
  pub addresses : List ℕ
  pub auto_accept_min_ckb_funding_amount : ℕ  -- u64
  pub udt_cfg_infos : ℕ

abbrev pub is_disabled_info : Option ChannelUpdateInfo → Bool
is_disabled_info none = false
is_disabled_info (some update) = not update.enabled

unfoldable pub is_explicitly_disabled : ChannelInfo → Bool
is_explicitly_disabled c = is_disabled_info c.update_of_node2 || is_disabled_info c.update_of_node1

unfoldable pub get_update_info_with : ℕ → ChannelInfo → Option ChannelUpdateInfo
get_update_info_with node c =
    if c.node2 == node
    then c.update_of_node2
    else (if c.node1 == node then c.update_of_node1 else none)

-- The order of `Option`: `None` is below every `Some`.
abbrev pub max_time : Option ChannelUpdateInfo → Option ChannelUpdateInfo → Option ℕ
max_time none none = none
max_time none (some b) = some b.timestamp
max_time (some a) none = some a.timestamp
max_time (some a) (some b) = some (max a.timestamp b.timestamp)

unfoldable pub channel_last_update_time : ChannelInfo → Option ℕ
channel_last_update_time c = max_time c.update_of_node2 c.update_of_node1
