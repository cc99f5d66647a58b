-- ===== src/Storage.antt =====
-- The size of volumes: internal/shared/storage (validation.go, storageclass.go, expansion.go). The
-- quantities of apimachinery and the API server are parameters.
pub mod Status
pub mod Process
pub mod Sizes
pub mod Completed
pub mod Examples
use wazuh_operator.Common.{
  ◌≡◌, List, [], ◌∷◌, ◌++◌, Option, none, some, Bool, true, false, not, if◌then◌else◌, Bytes, codes,
  bytes_eq,
}
use wazuh_operator.Kube.{Result, ok, err}
use wazuh_operator.Drain.Status.{GoError}

-- %q of a text in which nothing is to be escaped.
abbrev pub quoted : Bytes → Bytes
quoted s = codes "\"" ++ (s ++ codes "\"")

-- The answer of Cmp: -1, 0 or 1.
pub data Comparison : Type 0 where
  less same more : Comparison

-- resource.Quantity: ParseQuantity, Cmp, String, and the zero value.
pub record Quantities : Type 1 where
  pub Quantity : Type 0
  pub parse_quantity : Bytes → Result Quantity
  pub cmp : Quantity → Quantity → Comparison
  pub show_quantity : Quantity → Bytes
  pub zero_quantity : Quantity

-- What apimachinery documents of Cmp, as far as a result needs it: a quantity equals itself.
pub record QuantityLaws (qs : Quantities) : Type 0 where
  pub cmp_self : (q : qs.Quantity) → qs.cmp q q ≡ same

pub record PvcCondition : Type 0 where
  pub type_ : Bytes
  pub status : Bytes
  pub message : Bytes

-- The parts of a PersistentVolumeClaim: the storage request is a key of a map that may be nil.
pub record Pvc (Quantity : Type 0) : Type 0 where
  pub name : Bytes
  pub namespace : Bytes
  pub storage_class_name : Option Bytes
  pub requests : Option (Option Quantity)
  pub requested_size : Option Bytes
  pub last_expansion : Option Bytes
  pub conditions : List PvcCondition

pub record StorageClass : Type 0 where
  pub name : Bytes
  pub allow_volume_expansion : Option Bool
  pub is_default : Option Bytes

-- The calls of the API server's client; an accepted Patch leads to a new store.
pub record VolumeClient (Quantity : Type 0) : Type 1 where
  pub Store : Type 0
  pub get_storage_class : Store → Bytes → Result StorageClass
  pub list_storage_classes : Store → Result (List StorageClass)
  pub patch_pvc : Store → Pvc Quantity → Result Store

pub record ExpansionValidationResult (Quantity : Type 0) : Type 0 where
  pub valid : Bool
  pub needs_expansion : Bool
  pub current_size : Quantity
  pub wanted_size : Quantity
  pub error_message : Bytes
  pub storage_class_supports_expansion : Bool

pub data PvcExpansionPhase : Type 0 where
  not_expanding resizing file_system_resize_pending expanded : PvcExpansionPhase

pub record PvcExpansionCondition : Type 0 where
  pub phase : PvcExpansionPhase
  pub message : Bytes
  pub is_complete : Bool

-- The loop over the conditions of GetPVCExpansionCondition; `none` where it runs to its end.
unfoldable pub find_condition : List PvcCondition → Option PvcExpansionCondition
find_condition [] = none
find_condition (c ∷ cs) =
    let rest = find_condition cs in
    if bytes_eq c.type_ (codes "Resizing")
    then if bytes_eq c.status (codes "True")
      then some (record { phase = resizing; message = c.message; is_complete = false })
      else rest
    else if bytes_eq c.type_ (codes "FileSystemResizePending")
    then if bytes_eq c.status (codes "True")
      then some
          (record { phase = file_system_resize_pending; message = c.message; is_complete = false })
      else rest
    else rest

-- The loop of GetDefaultStorageClass.
unfoldable pub find_default : List StorageClass → Result Bytes
find_default [] = err (codes "no default StorageClass found in the cluster")
find_default (c ∷ cs) =
    let rest = find_default cs in
    elim c.is_default [
      | none ↦ rest
      | some v ↦ if bytes_eq v (codes "true") then ok c.name else rest
    ]

module _ (qs : Quantities) where
  open qs use {Quantity, parse_quantity, cmp, show_quantity, zero_quantity}

  -- Spec.Resources.Requests[storage]: a missing key reads as the zero quantity.
  abbrev pub request_of : Pvc Quantity → Quantity
  request_of pvc = elim pvc.requests [
    | none ↦ zero_quantity
    | some r ↦ elim r [ none ↦ zero_quantity | some q ↦ q ]
  ]

  unfoldable pub get_pvc_storage_size : Pvc Quantity → Bytes
  get_pvc_storage_size pvc = elim pvc.requests [
    | none ↦ codes ""
    | some r ↦ show_quantity (request_of pvc)
  ]

  unfoldable pub compare_storage_size_strings : Bytes → Bytes → Result Comparison
  compare_storage_size_strings a b = elim (parse_quantity a) [
    | err e ↦ err (codes "failed to parse size " ++ (quoted a ++ (codes ": " ++ e)))
    | ok x ↦ elim (parse_quantity b) [
      | err e ↦ err (codes "failed to parse size " ++ (quoted b ++ (codes ": " ++ e)))
      | ok y ↦ ok (cmp x y)
    ]
  ]

  unfoldable pub is_shrink_request : Bytes → Bytes → Result Bool
  unfolding compare_storage_size_strings
  is_shrink_request current requested = elim (compare_storage_size_strings current requested) [
    | err e ↦ err e
    | ok more ↦ ok true
    | ok less ↦ ok false
    | ok same ↦ ok false
  ]

  unfoldable pub is_expansion_request : Bytes → Bytes → Result Bool
  unfolding compare_storage_size_strings
  is_expansion_request current requested = elim (compare_storage_size_strings current requested) [
    | err e ↦ err e
    | ok less ↦ ok true
    | ok same ↦ ok false
    | ok more ↦ ok false
  ]

  -- `Cmp(…) >= 0`
  abbrev pub at_least : Quantity → Quantity → Bool
  at_least a b = elim (cmp a b) [ less ↦ false | same ↦ true | more ↦ true ]

  abbrev pub no_expansion : PvcExpansionCondition
  no_expansion = record { phase = not_expanding; message = codes ""; is_complete = true }

  abbrev pub completed_condition : PvcExpansionCondition
  completed_condition = record {
    phase = expanded;
    message = codes "Expansion completed successfully";
    is_complete = true;
  }

  unfoldable pub get_pvc_expansion_condition : Pvc Quantity → PvcExpansionCondition
  unfolding find_condition
  get_pvc_expansion_condition pvc = elim (find_condition pvc.conditions) [
    | some c ↦ c
    | none ↦ elim pvc.requested_size [
      | none ↦ no_expansion
      | some size ↦ elim (parse_quantity size) [
        | err e ↦ no_expansion
        | ok q ↦ if at_least (request_of pvc) q then completed_condition else no_expansion
      ]
    ]
  ]

  unfoldable pub is_pvc_expansion_complete : Pvc Quantity → Bytes → Result Bool
  unfolding get_pvc_expansion_condition
  is_pvc_expansion_complete pvc size =
      let checked : Result Bool = elim (parse_quantity size) [
        | err e ↦ err (codes "invalid requested size " ++ (quoted size ++ (codes ": " ++ e)))
        | ok q ↦ ok (at_least (request_of pvc) q)
      ] in
      if not (get_pvc_expansion_condition pvc).is_complete then ok false else checked

  -- The object that ExpandPVC patches, at the parsed size and the printed instant.
  abbrev pub patched : Quantity → Bytes → Bytes → Pvc Quantity → Pvc Quantity
  patched q size stamp pvc = record pvc {
    requests = some (some q);
    requested_size = some size;
    last_expansion = some stamp;
  }

  module _ (c : VolumeClient Quantity) where
    open c use {Store, get_storage_class, list_storage_classes, patch_pvc}

    unfoldable pub expand_pvc : Bytes → Bytes → Pvc Quantity → Store → Store × Option GoError
    expand_pvc size stamp pvc st = elim (parse_quantity size) [
      | err e ↦ (st, some (codes "invalid storage size " ++ (quoted size ++ (codes ": " ++ e))))
      | ok q ↦ elim (patch_pvc st (patched q size stamp pvc)) [
        | err e ↦ (
          st,
          some (
              codes "failed to patch PVC "
              ++ (pvc.namespace ++ (codes "/" ++ (pvc.name ++ (codes ": " ++ e))))),
        )
        | ok st' ↦ (st', none)
      ]
    ]

    unfoldable pub get_default_storage_class : Store → Result Bytes
    unfolding find_default
    get_default_storage_class st = elim (list_storage_classes st) [
      | err e ↦ err (codes "failed to list StorageClasses: " ++ e)
      | ok classes ↦ find_default classes
    ]

    -- GetStorageClassForPVC; GetStorageClassName has the same text.
    unfoldable pub get_storage_class_for_pvc : Option Bytes → Store → Result Bytes
    unfolding get_default_storage_class
    get_storage_class_for_pvc none st = get_default_storage_class st
    get_storage_class_for_pvc (some []) st = get_default_storage_class st
    get_storage_class_for_pvc (some (b ∷ bs)) st = ok (b ∷ bs)

    unfoldable pub can_storage_class_expand : Bytes → Store → Result Bool
    can_storage_class_expand [] st = err (codes "storage class name cannot be empty")
    can_storage_class_expand (b ∷ bs) st = elim (get_storage_class st (b ∷ bs)) [
      | err e ↦ err (codes "failed to get StorageClass " ++ ((b ∷ bs) ++ (codes ": " ++ e)))
      | ok sc ↦ ok (elim sc.allow_volume_expansion [ none ↦ false | some allowed ↦ allowed ])
    ]

    abbrev pub no_validation : ExpansionValidationResult Quantity
    no_validation = record {
      valid = false;
      needs_expansion = false;
      current_size = zero_quantity;
      wanted_size = zero_quantity;
      error_message = codes "";
      storage_class_supports_expansion = false;
    }

    -- The rest of ValidateExpansion once a growth is wanted.
    unfoldable pub check_class :
        Pvc Quantity
        → Store
        → ExpansionValidationResult Quantity
        → ExpansionValidationResult Quantity
    unfolding get_storage_class_for_pvc can_storage_class_expand
    check_class pvc st r = elim (get_storage_class_for_pvc pvc.storage_class_name st) [
      | err e ↦ record r { error_message = codes "failed to determine storage class: " ++ e }
      | ok name ↦ elim (can_storage_class_expand name st) [
        | err e ↦ record r {
          error_message = codes "failed to check StorageClass expansion support: " ++ e;
        }
        | ok true ↦ record r { storage_class_supports_expansion = true; valid = true }
        | ok false ↦ record r {
          error_message =
              codes "StorageClass "
              ++ (quoted name
                  ++ codes " does not support volume expansion (allowVolumeExpansion is not true)");
        }
      ]
    ]

    -- ValidateExpansion; its error is always nil.
    unfoldable pub validate_expansion :
        Pvc Quantity → Bytes → Store → ExpansionValidationResult Quantity
    unfolding check_class
    validate_expansion pvc size st = elim (parse_quantity size) [
      | err e ↦ record no_validation {
        error_message = codes "invalid requested size " ++ (quoted size ++ (codes ": " ++ e));
      }
      | ok q ↦
          let current = request_of pvc in
          let r = record no_validation { wanted_size = q; current_size = current } in
          elim (cmp current q) [
            | less ↦ check_class pvc st (record r { needs_expansion = true })
            | same ↦ record r { valid = true }
            | more ↦ record r {
              error_message =
                  codes "cannot decrease storage size from "
                  ++ (show_quantity current
                      ++ (codes " to "
                          ++ (show_quantity q
                              ++ codes ": Kubernetes does not support shrinking PVCs")));
            }
          ]
    ]
