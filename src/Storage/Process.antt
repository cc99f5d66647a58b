-- ===== src/Storage/Process.antt =====
-- The reconcilers' use of internal/shared/storage: processVolumeExpansion and the status updates of
-- internal/wazuh/reconciler/cluster_reconciler_volume.go, and the same loop in
-- reconcileVolumeExpansion of internal/opensearch/reconciler/indexer_reconciler.go. Events are left
-- out, but for the condition of the last one.
use wazuh_operator.Common.{
  List, [], ◌∷◌, ◌++◌, Option, none, some, Bool, true, false, ◌&&◌, not, if◌then◌else◌, Bytes,
  codes, bytes_eq, Time,
}
use wazuh_operator.Kube.{Result, ok, err}
use wazuh_operator.Drain.Status.{GoError}
use wazuh_operator.Storage.{
  Quantities, Pvc, VolumeClient, ExpansionValidationResult, validate_expansion, is_shrink_request,
  get_pvc_expansion_condition, expand_pvc, get_pvc_storage_size,
}
use wazuh_operator.Storage.Status.{
  ComponentExpansionStatus, update_component_expansion_status, create_pending_status,
  create_in_progress_status, create_completed_status, create_failed_status,
}

-- The four variables of the loop.
pub record Expansion : Type 0 where
  pub pvcs_expanded : List Bytes
  pub pvcs_pending : List Bytes
  pub expansion_needed : Bool
  pub expansion_error : Option GoError

abbrev pub no_progress : Expansion
no_progress = record {
  pvcs_expanded = [];
  pvcs_pending = [];
  expansion_needed = false;
  expansion_error = none;
}

-- What the loop does with a volume.
pub data Plan : Type 0 where
  skip : Plan
  fail : GoError → Plan
  is_at_size : Plan
  is_growing : Plan
  grow : Plan

-- The event that all volumes were expanded.
abbrev pub emits_completed : Expansion → Bool
emits_completed x = elim x.pvcs_pending [
  | [] ↦ elim x.pvcs_expanded [ [] ↦ false | b ∷ bs ↦ x.expansion_needed ]
  | b ∷ bs ↦ false
]

-- What a plan does, at what ExpandPVC returns where it is called.
unfoldable pub apply_plan :
    {S : Type 0} → Plan → Bytes → S × Option GoError → Expansion → S → Expansion × S
apply_plan skip name _ x st = (x, st)
apply_plan (fail m) name _ x st = (record x { expansion_error = some m }, st)
apply_plan is_at_size name _ x st =
    (record x { pvcs_expanded = x.pvcs_expanded ++ (name ∷ []) }, st)
apply_plan is_growing name _ x st =
    (record x { expansion_needed = true; pvcs_pending = x.pvcs_pending ++ (name ∷ []) }, st)
apply_plan grow name (st', none) x st =
    (record x { expansion_needed = true; pvcs_pending = x.pvcs_pending ++ (name ∷ []) }, st')
apply_plan grow name (st', some m) x st = (
  record x {
    expansion_needed = true;
    pvcs_pending = x.pvcs_pending ++ (name ∷ []);
    expansion_error = some m;
  },
  st',
)

module _ (qs : Quantities) where
  open qs use {Quantity, show_quantity}

  abbrev pub plan_invalid : ExpansionValidationResult Quantity → Bytes → Plan
  plan_invalid r size =
      let unsupported =
        if not r.storage_class_supports_expansion && r.needs_expansion
        then fail (codes "storage class does not support expansion: " ++ r.error_message)
        else skip in
      if bytes_eq r.error_message (codes "")
      then skip
      else elim (is_shrink_request qs (show_quantity r.current_size) size) [
        | ok true ↦ skip
        | ok false ↦ unsupported
        | err e ↦ unsupported
      ]

  unfoldable pub plan_pvc : ExpansionValidationResult Quantity → Bytes → Pvc Quantity → Plan
  unfolding is_shrink_request get_pvc_expansion_condition
  plan_pvc r size pvc =
      let invalid = plan_invalid r size in
      if not r.valid
      then invalid
      else if not r.needs_expansion
      then is_at_size
      else if not (get_pvc_expansion_condition qs pvc).is_complete
      then is_growing
      else grow

  module _ (c : VolumeClient Quantity) where
    open c use {Store}

    -- One round of the loop; `stamp` is the printed instant of the patch.
    unfoldable pub process_pvc :
        Bytes → Bytes → Pvc Quantity → Expansion × Store → Expansion × Store
    unfolding validate_expansion plan_pvc expand_pvc apply_plan
    process_pvc size stamp pvc (x, st) =
        apply_plan (plan_pvc (validate_expansion qs c pvc size st) size pvc) pvc.name
          (expand_pvc qs c size stamp pvc st) x st

    unfoldable pub process_volume_expansion :
        Bytes → Bytes → List (Pvc Quantity) → Expansion × Store → Expansion × Store
    unfolding process_pvc
    process_volume_expansion size stamp [] xs = xs
    process_volume_expansion size stamp (pvc ∷ pvcs) xs =
        process_volume_expansion size stamp pvcs (process_pvc size stamp pvc xs)

  -- currentSize, read from the volumes listed once more.
  abbrev pub current_size_of : Bytes → Expansion → Result (List (Pvc Quantity)) → Bytes
  current_size_of size x listed = elim x.pvcs_expanded [
    | b ∷ bs ↦ size
    | [] ↦ elim x.pvcs_pending [
      | [] ↦ size
      | b ∷ bs ↦ elim listed [
        | err e ↦ size
        | ok pvcs ↦ elim pvcs [ [] ↦ size | pvc ∷ _ ↦ get_pvc_storage_size qs pvc ]
      ]
    ]
  ]

  -- updateManagerMasterExpansionStatus, and its copies for the workers and the indexer.
  unfoldable pub update_expansion_status :
      Time
      → Bytes
      → Expansion
      → Result (List (Pvc Quantity))
      → Option ComponentExpansionStatus
      → Option ComponentExpansionStatus
  unfolding get_pvc_storage_size update_component_expansion_status create_pending_status
      create_in_progress_status create_completed_status create_failed_status
  update_expansion_status now size x listed s =
      let current = current_size_of size x listed in
      elim x.expansion_error [
        | some e ↦ some (
            update_component_expansion_status now s
              (create_failed_status size current e x.pvcs_expanded x.pvcs_pending))
        | none ↦ elim x.pvcs_pending [
          | b ∷ bs ↦ elim x.pvcs_expanded [
            | d ∷ ds ↦ some (
                update_component_expansion_status now s
                  (create_in_progress_status size current (d ∷ ds) (b ∷ bs)))
            | [] ↦ some (
                update_component_expansion_status now s
                  (create_pending_status size current (b ∷ bs)))
          ]
          | [] ↦ elim x.pvcs_expanded [
            | d ∷ ds ↦
                some
                  (update_component_expansion_status now s (create_completed_status size (d ∷ ds)))
            | [] ↦ none
          ]
        ]
      ]
