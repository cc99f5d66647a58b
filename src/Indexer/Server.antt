-- ===== src/Indexer/Server.antt =====
-- The calls of internal/opensearch/api/cluster_api.go that a drain makes. The OpenSearch server is a
-- parameter, over a store of its own; an answer that is not readable is its error.
use wazuh_operator.Common.{
  ◌≡◌, List, Option, none, some, Bool, filter, ℤ, pos, ltb_ℤ, Bytes, codes, bytes_eq, length,
}
use wazuh_operator.Kube.{Result, ok, err}

-- The fields of ShardInfo and ClusterHealth that the drains read.
pub record ShardInfo : Type 0 where
  pub index : Bytes
  pub shard : Bytes
  pub prirep : Bytes
  pub state : Bytes
  pub node : Bytes

pub record ClusterHealth : Type 0 where
  pub status : Bytes
  pub number_of_data_nodes : ℤ
  pub relocating_shards : ℤ

-- GET /_cat/shards, /_cluster/health and /_cluster/settings (the name excluded from allocation in the
-- transient and in the persistent settings), and PUT of that name into the transient settings.
pub record Server : Type 1 where
  pub Store : Type 0
  pub cat_shards : Store → Result (List ShardInfo)
  pub cluster_health : Store → Result ClusterHealth
  pub exclude_settings : Store → Result (Option Bytes × Option Bytes)
  pub put_exclude : Option Bytes → Store → Result Store

-- What OpenSearch documents of the setting: there is one name, and an accepted PUT replaces it.
pub record Replaces (sv : Server) : Type 0 where
  pub excluded : sv.Store → Option Bytes
  pub after_put :
      (name : Option Bytes) (st st' : sv.Store)
      → sv.put_exclude name st ≡ ok st'
      → excluded st' ≡ name

module _ (sv : Server) where
  open sv use {Store, cat_shards, cluster_health, exclude_settings, put_exclude}

  unfoldable pub get_shards_on_node : Bytes → Store → Result (List ShardInfo)
  get_shards_on_node node st = elim (cat_shards st) [
    | err e ↦ err e
    | ok all ↦ ok (filter (λ s. bytes_eq s.node node) all)
  ]

  unfoldable pub get_shard_count : Bytes → Store → Result ℤ
  unfolding get_shards_on_node
  get_shard_count node st = elim (get_shards_on_node node st) [
    | err e ↦ err e
    | ok shards ↦ ok (pos (length shards))
  ]

  unfoldable pub has_relocating_shards : Store → Result (Bool × ℤ)
  has_relocating_shards st = elim (cluster_health st) [
    | err e ↦ err e
    | ok h ↦ ok (ltb_ℤ (pos 0) h.relocating_shards, h.relocating_shards)
  ]

  unfoldable pub set_allocation_exclusion : Bytes → Store → Result Store
  set_allocation_exclusion node st = put_exclude (some node) st

  unfoldable pub clear_allocation_exclusion : Store → Result Store
  clear_allocation_exclusion st = put_exclude none st

  unfoldable pub get_allocation_exclusion : Store → Result Bytes
  get_allocation_exclusion st = elim (exclude_settings st) [
    | err e ↦ err e
    | ok (some name, _) ↦ ok name
    | ok (none, some name) ↦ ok name
    | ok (none, none) ↦ ok (codes "")
  ]
