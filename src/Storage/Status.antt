-- ===== src/Storage/Status.antt =====
-- internal/shared/storage/status.go, over the status types of api/v1/wazuhcluster_types.go.
use wazuh_operator.Common.{
  List, [], ◌++◌, Option, none, some, Bool, true, false, ◌||◌, if◌then◌else◌, pos, Bytes, codes,
  show_ℤ, length, Time,
}

pub data ExpansionPhase : Type 0 where
  pending in_progress completed failed : ExpansionPhase

pub record ExpansionStatusUpdate : Type 0 where
  pub phase : ExpansionPhase
  pub requested_size : Bytes
  pub current_size : Bytes
  pub message : Bytes
  pub pvcs_expanded : List Bytes
  pub pvcs_pending : List Bytes

pub record ComponentExpansionStatus : Type 0 where
  pub phase : ExpansionPhase
  pub requested_size : Bytes
  pub current_size : Bytes
  pub message : Bytes
  pub last_transition_time : Time
  pub pvcs_expanded : List Bytes
  pub pvcs_pending : List Bytes

pub record VolumeExpansionStatus : Type 0 where
  pub indexer_expansion : Option ComponentExpansionStatus
  pub manager_master_expansion : Option ComponentExpansionStatus
  pub manager_workers_expansion : Option ComponentExpansionStatus

abbrev pub same_phase : ExpansionPhase → ExpansionPhase → Bool
same_phase pending pending = true
same_phase in_progress in_progress = true
same_phase completed completed = true
same_phase failed failed = true
same_phase _ _ = false

unfoldable pub new_component_expansion_status :
    Time → ExpansionStatusUpdate → ComponentExpansionStatus
new_component_expansion_status now u = record {
  phase = u.phase;
  requested_size = u.requested_size;
  current_size = u.current_size;
  message = u.message;
  last_transition_time = now;
  pvcs_expanded = u.pvcs_expanded;
  pvcs_pending = u.pvcs_pending;
}

unfoldable pub update_component_expansion_status :
    Time → Option ComponentExpansionStatus → ExpansionStatusUpdate → ComponentExpansionStatus
unfolding new_component_expansion_status
update_component_expansion_status now none u = new_component_expansion_status now u
update_component_expansion_status now (some s) u = record {
  phase = u.phase;
  requested_size = u.requested_size;
  current_size = u.current_size;
  message = u.message;
  last_transition_time = if same_phase s.phase u.phase then s.last_transition_time else now;
  pvcs_expanded = u.pvcs_expanded;
  pvcs_pending = u.pvcs_pending;
}

abbrev count : List Bytes → Bytes
count xs = show_ℤ (pos (length xs))

unfoldable pub create_pending_status : Bytes → Bytes → List Bytes → ExpansionStatusUpdate
create_pending_status requested current waiting = record {
  phase = pending;
  requested_size = requested;
  current_size = current;
  message =
      codes "Waiting to expand "
      ++ (count waiting ++ (codes " PVC(s) from " ++ (current ++ (codes " to " ++ requested))));
  pvcs_expanded = [];
  pvcs_pending = waiting;
}

unfoldable pub create_in_progress_status :
    Bytes → Bytes → List Bytes → List Bytes → ExpansionStatusUpdate
create_in_progress_status requested current done waiting = record {
  phase = in_progress;
  requested_size = requested;
  current_size = current;
  message =
      codes "Expanding PVCs: "
      ++ (count done ++ (codes " completed, " ++ (count waiting ++ codes " pending")));
  pvcs_expanded = done;
  pvcs_pending = waiting;
}

unfoldable pub create_completed_status : Bytes → List Bytes → ExpansionStatusUpdate
create_completed_status requested done = record {
  phase = completed;
  requested_size = requested;
  current_size = requested;
  message =
      codes "All " ++ (count done ++ (codes " PVC(s) expanded successfully to " ++ requested));
  pvcs_expanded = done;
  pvcs_pending = [];
}

unfoldable pub create_failed_status :
    Bytes → Bytes → Bytes → List Bytes → List Bytes → ExpansionStatusUpdate
create_failed_status requested current message done waiting = record {
  phase = failed;
  requested_size = requested;
  current_size = current;
  message = message;
  pvcs_expanded = done;
  pvcs_pending = waiting;
}

abbrev is_component_growing : Option ComponentExpansionStatus → Bool
is_component_growing none = false
is_component_growing (some s) = elim s.phase [
  | pending ↦ true
  | in_progress ↦ true
  | completed ↦ false
  | failed ↦ false
]

unfoldable pub is_expansion_in_progress : Option VolumeExpansionStatus → Bool
is_expansion_in_progress none = false
is_expansion_in_progress (some s) =
    is_component_growing s.indexer_expansion
    || (is_component_growing s.manager_master_expansion
        || is_component_growing s.manager_workers_expansion)

abbrev has_failed : Option ComponentExpansionStatus → Bool
has_failed none = false
has_failed (some s) = same_phase s.phase failed

unfoldable pub is_any_expansion_failed : Option VolumeExpansionStatus → Bool
is_any_expansion_failed none = false
is_any_expansion_failed (some s) =
    has_failed s.indexer_expansion
    || (has_failed s.manager_master_expansion || has_failed s.manager_workers_expansion)
