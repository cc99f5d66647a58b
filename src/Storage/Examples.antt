-- ===== src/Storage/Examples.antt =====
-- The results on volumes at concrete inputs.
use wazuh_operator.Common.{
  ◌≡◌, refl, ◌⊎◌, List, [], ◌∷◌, map, Option, none, some, true, arith, ltb, if◌then◌else◌, pos,
  Bytes, codes, length,
}
use wazuh_operator.Kube.{ok}
use wazuh_operator.Storage.{
  Comparison, less, same, more, Quantities, QuantityLaws, Pvc, PvcCondition, StorageClass,
  VolumeClient, patched,
}
use wazuh_operator.Storage.Status.{ComponentExpansionStatus, completed}
use wazuh_operator.Storage.Process.{
  no_progress, process_pvc, process_volume_expansion, update_expansion_status,
}
use wazuh_operator.Storage.Sizes.{MayGrow, process_pvc-MayGrow}
use wazuh_operator.Storage.Completed.{patched_completes}

-- Sizes as the lengths of their texts.
abbrev compare_lengths : Bytes → Bytes → Comparison
compare_lengths a b =
    if ltb (length a) (length b) then less else if ltb (length b) (length a) then more else same

abbrev sizes : Quantities
sizes = record {
  Quantity = Bytes;
  parse_quantity = λ s. ok s;
  cmp = compare_lengths;
  show_quantity = λ s. s;
  zero_quantity = codes "";
}

compare_self : (q : Bytes) → compare_lengths q q ≡ same
compare_self q = ground arith

sizes-QuantityLaws : QuantityLaws sizes
sizes-QuantityLaws = record { cmp_self = compare_self }

-- A server with one class, which allows growth, and whose store is the last volume patched.
abbrev gp3 : StorageClass
gp3 = record {
  name = codes "gp3";
  allow_volume_expansion = some true;
  is_default = some (codes "true");
}

abbrev volumes : VolumeClient Bytes
volumes = record {
  Store = Option (Pvc Bytes);
  get_storage_class = λ st name. ok gp3;
  list_storage_classes = λ st. ok (gp3 ∷ []);
  patch_pvc = λ st pvc. ok (some pvc);
}

abbrev resizing_now : PvcCondition
resizing_now = record { type_ = codes "Resizing"; status = codes "True"; message = codes "" }

abbrev volume : Bytes → List PvcCondition → Pvc Bytes
volume size conditions = record {
  name = codes "data-0";
  namespace = codes "wazuh";
  storage_class_name = none;
  requests = some (some size);
  requested_size = none;
  last_expansion = none;
  conditions = conditions;
}

process_pvc-MayGrow_example :
    ((process_pvc sizes volumes
        (codes "iiiii")
        (codes "t")
        (volume (codes "iii") [])
        (no_progress, none)).1
      ≡ none)
    ⊎ MayGrow sizes volumes (volume (codes "iii") []) (codes "iiiii") none
process_pvc-MayGrow_example =
    process_pvc-MayGrow sizes volumes (codes "iiiii") (codes "t") (volume (codes "iii") [])
      no_progress none

patched_completes_example :
    (t : ComponentExpansionStatus) × (update_expansion_status sizes
        (pos 7)
        (codes "iiiii")
        (process_volume_expansion sizes volumes
          (codes "iiiii")
          (codes "t")
          (map
            (patched sizes (codes "iiiii") (codes "iiiii") (codes "s"))
            (volume (codes "iii") (resizing_now ∷ []) ∷ []))
          (no_progress, none)).0
        (ok [])
        none
      ≡ some t)
    × (t.phase ≡ completed)
    × (t.pvcs_pending ≡ [])
patched_completes_example =
    patched_completes sizes volumes sizes-QuantityLaws (codes "iiiii") (codes "s") (codes "t")
      (codes "iiiii") (volume (codes "iii") (resizing_now ∷ [])) [] none (pos 7) (ok []) none refl
