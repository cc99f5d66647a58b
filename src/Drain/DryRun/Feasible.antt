-- ===== src/Drain/DryRun/Feasible.antt =====
-- The verdict of a dry run (evaluateDryRun of controllers/wazuhcluster_controller.go and
-- internal/wazuh/drain/dryrun.go) against its blockers.
use wazuh_operator.Common.{
  ◌≡◌, refl, ap, ◌∙◌, ◌↔◌, List, [], ◌∷◌, ◌++◌, Bool, true, false, ◌&&◌, arith, not, if◌then◌else◌,
  leb, length, filter, bytes_eq, map, ℤ, Bytes, codes, Time, Duration,
}
use wazuh_operator.Kube.{Result, ok, err}
use wazuh_operator.Drain.Rollback.{drain_component_indexer, drain_component_manager}
use wazuh_operator.Drain.DryRun.{
  DryRunResult, new_dry_run, dry_block, dry_warn, ManagerAnswers, check_running, check_node,
  estimate_queue, check_workers, evaluate_manager_feasibility, prefixed, DryRunPart, not_enabled,
  no_target, called, merge_part, evaluate_dry_run,
}

-- A result is feasible exactly if nothing blocks.
abbrev pub IsConsistent : DryRunResult → Type 0
IsConsistent r = (r.feasible ≡ true) ↔ (r.blockers ≡ [])

not_empty : {A : Type 0} (xs : List A) (x : A) → xs ++ (x ∷ []) ≡ [] → ⊥
not_empty [] x h = ground arith
not_empty (y ∷ xs) x h = ground arith

pub dry_block-IsConsistent : (reason : Bytes) (r : DryRunResult) → IsConsistent (dry_block reason r)
unfolding dry_block
dry_block-IsConsistent reason r =
    (λ h. absurd (ground arith), λ h. absurd (not_empty r.blockers reason h))

pub dry_warn-IsConsistent :
    (reason : Bytes) (r : DryRunResult) → IsConsistent r → IsConsistent (dry_warn reason r)
unfolding dry_warn
dry_warn-IsConsistent reason r h = h

pub if-IsConsistent :
    (b : Bool) (r r' : DryRunResult)
    → IsConsistent r
    → IsConsistent r'
    → IsConsistent (if b then r else r')
if-IsConsistent true r r' h h' = h
if-IsConsistent false r r' h h' = h'

pub block_if-IsConsistent :
    (b : Bool) (reason : Bytes) (r : DryRunResult)
    → IsConsistent r
    → IsConsistent (if b then dry_block reason r else r)
block_if-IsConsistent true reason r h = dry_block-IsConsistent reason r
block_if-IsConsistent false reason r h = h

check_running-IsConsistent :
    (a : Result Bool) (r : DryRunResult) → IsConsistent r → IsConsistent (check_running a r)
unfolding check_running dry_warn
check_running-IsConsistent (err e) r h = h
check_running-IsConsistent (ok true) r h = h
check_running-IsConsistent (ok false) r h =
    dry_block-IsConsistent (codes "Wazuh cluster is not running") r

check_node-IsConsistent :
    (node : Bytes) (a : Result Bytes) (r : DryRunResult)
    → IsConsistent r
    → IsConsistent (check_node node a r)
unfolding check_node dry_warn
check_node-IsConsistent node (err e) r h = h
check_node-IsConsistent node (ok status) r h =
    if-IsConsistent (bytes_eq status (codes "disconnected")) _ r h h

estimate_queue-IsConsistent :
    (seconds : Duration → ℤ) (grace : Duration) (a : Result ℤ) (r : DryRunResult)
    → IsConsistent r
    → IsConsistent (estimate_queue seconds grace a r)
unfolding estimate_queue dry_warn
estimate_queue-IsConsistent seconds grace (err e) r h = h
estimate_queue-IsConsistent seconds grace (ok n) r h = h

check_workers-IsConsistent :
    (a : Result (List Bytes)) (r : DryRunResult) → IsConsistent r → IsConsistent (check_workers a r)
unfolding check_workers dry_warn
check_workers-IsConsistent (err e) r h = h
check_workers-IsConsistent (ok ts) r h =
    block_if-IsConsistent (leb (length (filter (λ t. bytes_eq t (codes "worker")) ts)) 1)
      (codes "Cannot drain: only one worker node in cluster") r h

-- The evaluation of the workers' drain is consistent, whatever the Wazuh API answers.
pub evaluate_manager_feasibility-IsConsistent :
    (seconds : Duration → ℤ) (now : Time) (grace : Duration) (node : Bytes) (a : ManagerAnswers)
    → IsConsistent (evaluate_manager_feasibility seconds now grace node a)
unfolding evaluate_manager_feasibility
evaluate_manager_feasibility-IsConsistent seconds now grace node a =
    let r = new_dry_run now drain_component_manager in
    let r1 = check_running-IsConsistent a.running r (λ h. refl, λ h. refl) in
    let r2 = check_node-IsConsistent node a.node_status _ r1 in
    let r3 = estimate_queue-IsConsistent seconds grace a.total_events _ r2 in
    if-IsConsistent (not a.healthy) _ _
      (dry_block-IsConsistent (codes "Cannot connect to Wazuh API") r)
      (check_workers-IsConsistent a.node_types _ r3)

map_empty : {A B : Type 0} (f : A → B) (xs : List A) → map f xs ≡ [] → xs ≡ []
map_empty f [] h = refl
map_empty f (x ∷ xs) h = absurd (ground arith)

append_empty : {A : Type 0} (xs ys : List A) → xs ++ ys ≡ [] → (xs ≡ []) × (ys ≡ [])
append_empty [] ys h = (refl, h)
append_empty (x ∷ xs) ys h = absurd (ground arith)

-- The verdict of a part, as far as it was asked for.
abbrev pub part_feasible : DryRunPart → Bool
part_feasible (called (ok r)) = r.feasible
part_feasible _ = true

abbrev pub PartIsConsistent : DryRunPart → Type 0
PartIsConsistent (called (ok r)) = IsConsistent r
PartIsConsistent _ = Unit

merge_part-IsConsistent :
    (name : Bytes) (p : DryRunPart) (combined : DryRunResult)
    → PartIsConsistent p
    → IsConsistent combined
    → IsConsistent (merge_part name p combined)
      × ((merge_part name p combined).feasible ≡ part_feasible p && combined.feasible)
unfolding merge_part dry_warn
merge_part-IsConsistent name not_enabled c p h = (h, refl)
merge_part-IsConsistent name no_target c p h = (h, refl)
merge_part-IsConsistent name (called (err e)) c p h = (h, refl)
merge_part-IsConsistent name (called (ok r)) c p h = (
  (
    λ f.
        let b1 : r.feasible ≡ true = ground arith in
        let b2 : c.feasible ≡ true = ground arith in ground (arith, p.0 b1, h.0 b2),
    λ e.
        let (x, y) = append_empty c.blockers (map (prefixed name) r.blockers) e in
        let z = map_empty (prefixed name) r.blockers y in ground (arith, p.1 z, h.1 x),
  ),
  refl,
)

and_swap : (a b : Bool) → b && (a && true) ≡ a && b
and_swap a b = ground arith

-- The results of both components merged, before the warning on the dashboard.
abbrev merged : Time → DryRunPart → DryRunPart → DryRunResult
merged now indexer manager =
    merge_part drain_component_manager manager
      (merge_part drain_component_indexer indexer (new_dry_run now (codes "all")))

merged-IsConsistent :
    (now : Time) (indexer manager : DryRunPart)
    → PartIsConsistent indexer
    → PartIsConsistent manager
    → IsConsistent (merged now indexer manager)
      × ((merged now indexer manager).feasible ≡ part_feasible indexer && part_feasible manager)
merged-IsConsistent now indexer manager hi hm =
    let r = new_dry_run now (codes "all") in
    let (a, f) =
      merge_part-IsConsistent drain_component_indexer indexer r hi (λ h. refl, λ h. refl) in
    let (b, g) =
      merge_part-IsConsistent drain_component_manager manager
        (merge_part drain_component_indexer indexer r) hm a in
    (
      b,
      g
          ∙ (ap (λ x. part_feasible manager && x) f
              ∙ and_swap (part_feasible indexer) (part_feasible manager)),
    )

-- A dry run of the controller, of parts that are consistent themselves, is feasible exactly if it names
-- no blocker, and exactly if each evaluation that it asked for and got is feasible.
pub evaluate_dry_run-IsConsistent :
    (now : Time) (indexer manager : DryRunPart) (has_dashboard : Bool)
    → PartIsConsistent indexer
    → PartIsConsistent manager
    → IsConsistent (evaluate_dry_run now indexer manager has_dashboard)
      × ((evaluate_dry_run now indexer manager has_dashboard).feasible
          ≡ part_feasible indexer && part_feasible manager)
unfolding evaluate_dry_run dry_warn
evaluate_dry_run-IsConsistent now indexer manager true hi hm =
    merged-IsConsistent now indexer manager hi hm
evaluate_dry_run-IsConsistent now indexer manager false hi hm =
    merged-IsConsistent now indexer manager hi hm
