-- ===== src/Rolling.antt =====
-- internal/shared/rolling: one step of a rolling restart of a StatefulSet under the OnDelete
-- strategy. The answers of the API server and of the health checker are arguments; the outcome says
-- which pod was deleted.
pub mod Safety
pub mod Progress
pub mod Examples
use wazuh_operator.Common.{
  ℕ, List, [], ◌∷◌, ◌++◌, map, Option, none, some, Bool, true, false, ◌&&◌, not, if◌then◌else◌, ℤ,
  pos, ltb_ℤ, wrap32, Bytes, codes, bytes_eq, show_ℤ, split, last_or, atoi, length, filter, any,
}
use wazuh_operator.Kube.{StatefulSet, Result, ok, err}

pub record Condition : Type 0 where
  pub kind : Bytes
  pub status : Bytes

-- The fields of a pod that the package reads; `revision` is its label controller-revision-hash,
-- empty where it has none.
pub record Pod : Type 0 where
  pub name : Bytes
  pub owners : List Bytes
  pub revision : Bytes
  pub conditions : List Condition

pub data RestartPhase : Type 0 where
  idle in_progress complete : RestartPhase

pub record RestartResult : Type 0 where
  pub phase : RestartPhase
  pub total_pods : ℤ
  pub updated_pods : ℤ
  pub current_pod : Bytes
  pub message : Bytes

-- What one call returns, and the pod whose deletion it asked for.
pub record Outcome : Type 0 where
  pub result : Result RestartResult
  pub deleted : Option Pod

unfoldable pub ready_in : List Condition → Bool
ready_in [] = false
ready_in (c ∷ cs) =
    if bytes_eq c.kind (codes "Ready") then bytes_eq c.status (codes "True") else ready_in cs

unfoldable pub is_pod_ready : Pod → Bool
unfolding ready_in
is_pod_ready p = ready_in p.conditions

-- strings.Split gives at least one part, and the ordinal is its last; 0 where Atoi fails.
unfoldable pub extract_ordinal : Bytes → ℤ
extract_ordinal name = elim (atoi (last_or (codes "") (split b'-' name))) [
  | none ↦ pos 0
  | some n ↦ n
]

-- The order that sort.Slice is given.
unfoldable pub before : Bool → Pod → Pod → Bool
before highest_first p q =
    let i = extract_ordinal p.name in
    let j = extract_ordinal q.name in if highest_first then ltb_ℤ j i else ltb_ℤ i j

-- sort.Slice, as the insertion sort that it is on short slices. The program uses only the first
-- element, which is a least one in every sorting.
unfoldable pub insert_by {ℓ} : {A : Type ℓ} → (A → A → Bool) → A → List A → List A
insert_by less x [] = x ∷ []
insert_by less x (y ∷ ys) = if less x y then x ∷ y ∷ ys else y ∷ insert_by less x ys

unfoldable pub sort_slice {ℓ} : {A : Type ℓ} → (A → A → Bool) → List A → List A
unfolding insert_by
sort_slice less [] = []
sort_slice less (x ∷ xs) = insert_by less x (sort_slice less xs)

unfoldable pub owned_by : Bytes → Pod → Bool
owned_by uid p = any (λ owner. bytes_eq owner uid) p.owners

unfoldable pub is_updated : Bytes → Pod → Bool
is_updated target p = bytes_eq p.revision target

-- The first pod that is not ready.
unfoldable pub first_unready : List Pod → Option Pod
first_unready [] = none
first_unready (p ∷ ps) = if not (is_pod_ready p) then some p else first_unready ps

-- int32(len(…))
abbrev pub count32 : List Pod → ℤ
count32 ps = wrap32 (pos (length ps))

-- Step 6 and 7, at the outdated pods in their order.
unfoldable pub delete_first : Bytes → (Pod → Option Bytes) → ℤ → ℤ → List Pod → Outcome
delete_first sts_name delete total updated [] = record {
  -- an index out of range; no call gets here
  result = err (codes "index out of range");
  deleted = none;
}
delete_first sts_name delete total updated (p ∷ ps) = elim (delete p) [
  | some e ↦ record {
    result = err (codes "failed to delete pod " ++ (p.name ++ (codes ": " ++ e)));
    deleted = none;
  }
  | none ↦ record {
    result = ok (record {
      phase = in_progress;
      total_pods = total;
      updated_pods = updated;
      current_pod = p.name;
      message =
          codes "deleted pod "
          ++ (p.name
              ++ (codes " ("
                  ++ (show_ℤ updated ++ (codes "/" ++ (show_ℤ total ++ codes " updated)")))));
    });
    deleted = some p;
  }
]

-- Steps 2 to 7, at the pods that the StatefulSet owns.
unfoldable pub restart_owned :
    StatefulSet → Result (Bool × Bytes) → (Pod → Option Bytes) → Bool → List Pod → Outcome
unfolding delete_first
restart_owned sts health delete highest_first owned =
    let outdated = filter (λ p. not (is_updated sts.update_revision p)) owned in
    let updated = count32 (filter (is_updated sts.update_revision) owned) in
    let total = count32 owned in
    let sorted = sort_slice (before highest_first) outdated in
    let waiting : Bytes → Bytes → Outcome = λ pod msg. record {
      result = ok (record {
        phase = in_progress;
        total_pods = total;
        updated_pods = updated;
        current_pod = pod;
        message = msg;
      });
      deleted = none;
    } in
    elim outdated [
      | [] ↦ record {
        result = ok (record {
          phase = complete;
          total_pods = total;
          updated_pods = updated;
          current_pod = codes "";
          message = codes "all pods updated to target revision";
        });
        deleted = none;
      }
      | _ ∷ _ ↦ elim (first_unready owned) [
        | some p ↦ waiting p.name (codes "waiting for pod " ++ (p.name ++ codes " to become ready"))
        | none ↦ elim health [
          | err e ↦ record {
            result =
                err
                  (codes "health check failed for StatefulSet " ++ (sts.name ++ (codes ": " ++ e)));
            deleted = none;
          }
          | ok (healthy, msg) ↦
              if not healthy
              then waiting (codes "") (codes "waiting for cluster health: " ++ msg)
              else delete_first sts.name delete total updated sorted
        ]
      ]
    ]

unfoldable pub orchestrate_restart :
    StatefulSet → Result (List Pod) → Result (Bool × Bytes) → (Pod → Option Bytes) → Bool → Outcome
unfolding restart_owned
orchestrate_restart sts listed health delete highest_first =
    if bytes_eq sts.update_revision sts.current_revision
    then record {
      result = ok (record {
        phase = idle;
        total_pods = sts.status_replicas;
        updated_pods = sts.status_replicas;
        current_pod = codes "";
        message = codes "all pods are on current revision";
      });
      deleted = none;
    }
    else elim listed [
      | err e ↦ record {
        result =
            err (codes "failed to list pods for StatefulSet " ++ (sts.name ++ (codes ": " ++ e)));
        deleted = none;
      }
      | ok pods ↦ restart_owned sts health delete highest_first (filter (owned_by sts.uid) pods)
    ]
