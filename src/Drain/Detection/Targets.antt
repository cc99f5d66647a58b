-- ===== src/Drain/Detection/Targets.antt =====
-- Which pods a scale-down drains, and in which order (internal/shared/drain/detection.go).
use wazuh_operator.Common.{
  ℕ, zero, suc, ◌+◌, ◌-◌, ◌<◌, ◌≡◌, refl, List, [], ◌∷◌, none, some, if◌then◌else◌, ltb, arith, ℤ,
  pos, negsuc, sub32, sub32_pos, Bytes, length, get_elem?,
}
use mathlib.Core.Option
use wazuh_operator.Kube.{StatefulSet}
use wazuh_operator.Drain.Detection.{
  pod_name, observed_replicas, detect_scale_down, get_next_target_pod, pods_from,
  get_all_target_pods,
}

-- The k pods below ordinal j, highest first.
abbrev pub pods_down : ℕ → Bytes → ℕ → List Bytes
pods_down zero name j = []
pods_down (suc k) name j = pod_name name (pos (j - 1)) ∷ pods_down k name (j - 1)

length-pods_down : (k : ℕ) (name : Bytes) (j : ℕ) → length (pods_down k name j) ≡ k
length-pods_down zero name j = refl
length-pods_down (suc k) name j = omega (arith, length-pods_down k name (j - 1))

get_elem?-pods_down :
    (k : ℕ) (name : Bytes) (j n : ℕ)
    → get_elem? (pods_down k name j) n
      ≡ (if ltb n k then some (pod_name name (pos (j - 1 - n))) else none)
get_elem?-pods_down zero name j n = ground arith
get_elem?-pods_down (suc k) name j zero = ground arith
get_elem?-pods_down (suc k) name j (suc n) =
    let e : j - 1 - suc n ≡ j - 1 - 1 - n = omega arith in
    ground (arith, e, get_elem?-pods_down k name (j - 1) n)

-- The loop's variable below ordinal j.
abbrev index_below : ℕ → ℤ
index_below zero = negsuc 0
index_below (suc j) = pos j

sub32-one : (j : ℕ) → j < 2147483648 → sub32 (pos j) (pos 1) ≡ index_below j
sub32-one zero h = ground (arith, sub32_pos zero 1)
sub32-one (suc j) h = ground (arith, sub32_pos (suc j) 1)

pods_from_lem :
    (fuel k t j : ℕ) (name : Bytes)
    → k < fuel
    → j ≡ k + t
    → j < 2147483648
    → pods_from fuel name (index_below j) (pos t) ≡ some (pods_down k name j)
unfolding pods_from
pods_from_lem zero k t j name f e b = absurd (omega arith)
pods_from_lem (suc fuel) zero t zero name f e b = ground arith
pods_from_lem (suc fuel) zero t (suc j) name f e b = ground arith
pods_from_lem (suc fuel) (suc k) t zero name f e b = absurd (omega arith)
pods_from_lem (suc fuel) (suc k) t (suc j) name f e b =
    ground (arith, sub32-one j, pods_from_lem fuel k t j name)

-- From c replicas down to t the loop ends with fuel above c - t, and lists the pods c - 1, …, t.
all_target_pods :
    (fuel : ℕ) (name : Bytes) (c t : ℕ)
    → c < 2147483648
    → c - t < fuel
    → get_all_target_pods fuel name (pos c) (pos t) ≡ some (pods_down (c - t) name c)
unfolding get_all_target_pods
all_target_pods fuel name c t b f = ground (arith, sub32-one c, pods_from_lem fuel (c - t) t c name)

next_target_pod :
    (name : Bytes) (c t n : ℕ)
    → c < 2147483648
    → n < 2147483648
    → get_next_target_pod name (pos c) (pos t) (pos n)
      ≡ (if ltb n (c - t) then some (pod_name name (pos (c - 1 - n)), pos (c - 1 - n)) else none)
unfolding get_next_target_pod
next_target_pod name c t n b h = ground (arith, sub32_pos c 1, sub32_pos (c - 1) n)

-- From c replicas down to t replicas, GetAllTargetPods ends with fuel above c - t and lists c - t
-- pods; its n-th entry is the pod that GetNextTargetPod names after n drained pods, and past its end
-- GetNextTargetPod names none.
pub all-next_target_pod :
    (fuel : ℕ) (name : Bytes) (c t n : ℕ)
    → c < 2147483648
    → c - t < fuel
    → n < 2147483648
    → (pods : List Bytes) × (get_all_target_pods fuel name (pos c) (pos t) ≡ some pods)
      × (length pods ≡ c - t)
      × (get_elem? pods n
          ≡ Option.map (λ p. p.0) (get_next_target_pod name (pos c) (pos t) (pos n)))
all-next_target_pod fuel name c t n b f h = (
  pods_down (c - t) name c,
  all_target_pods fuel name c t b f,
  length-pods_down (c - t) name c,
  ground (arith, get_elem?-pods_down (c - t) name c n, next_target_pod name c t n b h),
)

-- A scale-down is detected exactly when fewer replicas are wanted than observed. The amount is their
-- difference, cut off at 0, and the pod it names is the first one that GetNextTargetPod gives.
pub detect_scale_down_lem :
    (sts : StatefulSet) (c t : ℕ)
    → c < 2147483648
    → t < 2147483648
    → observed_replicas sts ≡ pos c
    → let info = detect_scale_down (some sts) (pos t) in
      (info.detected ≡ ltb t c)
      × (info.scale_amount ≡ pos (c - t))
      × (get_next_target_pod sts.name (pos c) (pos t) (pos 0)
          ≡ (if info.detected then some (info.target_pod_name, info.target_pod_index) else none))
unfolding detect_scale_down
detect_scale_down_lem sts c t b b' e =
    ground (arith, sub32_pos c 1, sub32_pos c t, next_target_pod sts.name c t 0)
