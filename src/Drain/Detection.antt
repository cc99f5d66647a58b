-- ===== src/Drain/Detection.antt =====
-- internal/shared/drain/detection.go. Replica counts are int32 values held as integers.
pub mod Targets
pub mod Ordinals
use wazuh_operator.Common.{
  ℕ, zero, suc, List, [], ◌∷◌, ◌++◌, Option, none, some, Bool, true, false, ◌&&◌, not,
  if◌then◌else◌, ltb, ℤ, pos, ltb_ℤ, leb_ℤ, sub32, Bytes, codes, show_ℤ, length, fits, read_int,
  strip_prefix, skip_blanks, leb,
}
use wazuh_operator.Kube.{StatefulSet}

pub record ScaleDownInfo : Type 0 where
  pub detected : Bool
  pub current_replicas : ℤ
  pub target_replicas : ℤ
  pub scale_amount : ℤ
  pub target_pod_name : Bytes
  pub target_pod_index : ℤ

-- fmt.Sprintf("%s-%d", name, index)
unfoldable pub pod_name : Bytes → ℤ → Bytes
pod_name name index = name ++ (codes "-" ++ show_ℤ index)

abbrev no_scale_down : ℤ → ScaleDownInfo
no_scale_down desired = record {
  detected = false;
  current_replicas = pos 0;
  target_replicas = desired;
  scale_amount = pos 0;
  target_pod_name = codes "";
  target_pod_index = pos 0;
}

-- Spec.Replicas where it is set, Status.Replicas otherwise.
abbrev pub observed_replicas : StatefulSet → ℤ
observed_replicas sts = elim sts.spec_replicas [ none ↦ sts.status_replicas | some n ↦ n ]

unfoldable pub detect_scale_down : Option StatefulSet → ℤ → ScaleDownInfo
detect_scale_down none desired = no_scale_down desired
detect_scale_down (some sts) desired =
    let current = observed_replicas sts in
    let info = record (no_scale_down desired) { current_replicas = current } in
    let index = sub32 current (pos 1) in
    if ltb_ℤ desired current
    then record info {
      detected = true;
      scale_amount = sub32 current desired;
      target_pod_index = index;
      target_pod_name = pod_name sts.name index;
    }
    else info

-- The results (pod, index, ok); without ok they are "" and 0.
unfoldable pub get_next_target_pod : Bytes → ℤ → ℤ → ℤ → Option (Bytes × ℤ)
get_next_target_pod name current target drained =
    let next = sub32 (sub32 current (pos 1)) drained in
    if leb_ℤ current target
    then none
    else if ltb_ℤ next target
    then none
    else some (pod_name name next, next)

-- The loop `for i := …; i >= target; i--`, with fuel for its rounds; `none` is fuel that ran out.
unfoldable pub pods_from : ℕ → Bytes → ℤ → ℤ → Option (List Bytes)
pods_from zero name i target = none
pods_from (suc fuel) name i target = elim (leb_ℤ target i) [
  | false ↦ some []
  | true ↦ elim (pods_from fuel name (sub32 i (pos 1)) target) [
    | none ↦ none
    | some pods ↦ some (pod_name name i ∷ pods)
  ]
]

unfoldable pub get_all_target_pods : ℕ → Bytes → ℤ → ℤ → Option (List Bytes)
unfolding pods_from
get_all_target_pods fuel name current target =
    let pods = pods_from fuel name (sub32 current (pos 1)) target in
    if leb_ℤ current target then some [] else pods

-- fmt.Sscanf(pod, sts + "-%d", &ordinal): the name of a StatefulSet has no blank and no percent
-- sign, so the format's text is matched literally; "%d" skips blanks and leaves what follows.
unfoldable pub scan_ordinal : Bytes → Bytes → Option ℤ
scan_ordinal prefix pod = elim (strip_prefix prefix pod) [
  | none ↦ none
  | some rest ↦ elim (read_int (skip_blanks rest)) [
    | none ↦ none
    | some (z, _) ↦ if fits 31 z then some z else none
  ]
]

-- The two errors are `none`.
unfoldable pub get_pod_ordinal_from_name : Bytes → Bytes → Option ℤ
unfolding scan_ordinal
get_pod_ordinal_from_name pod sts =
    let prefix = sts ++ codes "-" in
    let scanned = scan_ordinal prefix pod in
    if leb (length pod) (length prefix) then none else scanned

unfoldable pub needs_scale_down : ℤ → ℤ → Bool
needs_scale_down current desired = ltb_ℤ desired current && leb_ℤ (pos 0) desired

unfoldable pub needs_scale_up : ℤ → ℤ → Bool
needs_scale_up current desired = ltb_ℤ current desired

unfoldable pub calculate_scale_down_amount : ℤ → ℤ → ℤ
calculate_scale_down_amount current desired =
    if leb_ℤ current desired then pos 0 else sub32 current desired
