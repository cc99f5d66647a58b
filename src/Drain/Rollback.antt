-- ===== src/Drain/Rollback.antt =====
-- RollbackManagerImpl of internal/wazuh/drain/rollback.go.
pub mod Restores
use wazuh_operator.Common.{
  List, [], ◌∷◌, ◌++◌, Option, none, some, Bool, true, false, ◌&&◌, ◌||◌, not, if◌then◌else◌, ℤ,
  pos, eqb_ℤ, Bytes, codes, bytes_eq,
}
use wazuh_operator.Drain.Status.{GoError, ComponentDrainStatus}
use wazuh_operator.Kube.{StatefulSet, Result, ok, err, Client}

pub record DrainStatus : Type 0 where
  pub indexer : Option ComponentDrainStatus
  pub manager : Option ComponentDrainStatus

-- The fields of a WazuhCluster that the manager reads.
pub record WazuhCluster : Type 0 where
  pub name : Bytes
  pub namespace : Bytes
  pub drain : Option DrainStatus

abbrev pub drain_component_indexer : Bytes
drain_component_indexer = codes "indexer"

abbrev pub drain_component_manager : Bytes
drain_component_manager = codes "manager"

-- `var previousReplicas int32 = fallback`, and the nested tests for nil that follow.
abbrev pub previous_or : ℤ → Option ComponentDrainStatus → ℤ
previous_or fallback none = fallback
previous_or fallback (some s) = elim s.previous_replicas [ none ↦ fallback | some n ↦ n ]

abbrev pub indexer_previous : WazuhCluster → ℤ
indexer_previous c = elim c.drain [ none ↦ pos 3 | some d ↦ previous_or (pos 3) d.indexer ]

abbrev pub manager_previous : WazuhCluster → ℤ
manager_previous c = elim c.drain [ none ↦ pos 1 | some d ↦ previous_or (pos 1) d.manager ]

abbrev pub indexer_sts_name : WazuhCluster → Bytes
indexer_sts_name c = c.name ++ codes "-indexer"

abbrev pub manager_sts_name : WazuhCluster → Bytes
manager_sts_name c = c.name ++ codes "-manager-worker"

-- `sts.Spec.Replicas == nil || *sts.Spec.Replicas != previous`
abbrev pub differs : Option ℤ → ℤ → Bool
differs none previous = true
differs (some n) previous = not (eqb_ℤ n previous)

module _ (c : Client) where
  open c use {Store, get, update}

  -- The common text of rollbackIndexer and rollbackManager behind their names and defaults.
  unfoldable pub restore : Bytes → Bytes → Bytes → Bytes → ℤ → Store → Store × Option GoError
  restore get_msg update_msg namespace name previous st = elim (get st namespace name) [
    | err e ↦ (st, some (get_msg ++ e))
    | ok sts ↦ elim (differs sts.spec_replicas previous) [
      | false ↦ (st, none)
      | true ↦ elim (update st (record sts { spec_replicas = some previous })) [
        | err e ↦ (st, some (update_msg ++ e))
        | ok st' ↦ (st', none)
      ]
    ]
  ]

  unfoldable pub rollback_indexer : WazuhCluster → Store → Store × Option GoError
  unfolding restore
  rollback_indexer cluster st =
      restore (codes "failed to get indexer StatefulSet: ")
        (codes "failed to update indexer StatefulSet replicas: ") cluster.namespace
        (indexer_sts_name cluster) (indexer_previous cluster) st

  unfoldable pub rollback_manager : WazuhCluster → Store → Store × Option GoError
  unfolding restore
  rollback_manager cluster st =
      restore (codes "failed to get manager worker StatefulSet: ")
        (codes "failed to update manager worker StatefulSet replicas: ") cluster.namespace
        (manager_sts_name cluster) (manager_previous cluster) st

  unfoldable pub execute_rollback : WazuhCluster → Bytes → Store → Store × Option GoError
  unfolding rollback_indexer rollback_manager
  execute_rollback cluster component st =
      if bytes_eq component drain_component_indexer
      then rollback_indexer cluster st
      else if bytes_eq component drain_component_manager
      then rollback_manager cluster st
      else (st, some (codes "unknown component: " ++ component))

  -- The common text of verifyIndexerRollback and verifyManagerRollback.
  unfoldable pub verify_restored : Bytes → Bytes → Bytes → ℤ → Store → Result Bool
  verify_restored get_msg namespace name previous st = elim (get st namespace name) [
    | err e ↦ err (get_msg ++ e)
    | ok sts ↦ ok (eqb_ℤ sts.ready_replicas previous && eqb_ℤ sts.status_replicas previous)
  ]

  unfoldable pub verify_rollback_complete : WazuhCluster → Bytes → Store → Result Bool
  unfolding verify_restored
  verify_rollback_complete cluster component st =
      if bytes_eq component drain_component_indexer
      then verify_restored (codes "failed to get indexer StatefulSet: ") cluster.namespace
          (indexer_sts_name cluster) (indexer_previous cluster) st
      else if bytes_eq component drain_component_manager
      then verify_restored (codes "failed to get manager worker StatefulSet: ") cluster.namespace
          (manager_sts_name cluster) (manager_previous cluster) st
      else err (codes "unknown component: " ++ component)
