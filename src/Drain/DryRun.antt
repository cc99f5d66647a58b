-- ===== src/Drain/DryRun.antt =====
-- Dry runs: EvaluateFeasibility of internal/wazuh/drain/manager_drain.go, the evaluator of
-- internal/wazuh/drain/dryrun.go, and evaluateDryRun of controllers/wazuhcluster_controller.go. The
-- answers of the Wazuh API and of the API server are arguments; logs and metrics are left out.
pub mod Feasible
use wazuh_operator.Common.{
  ℕ, suc, List, [], ◌∷◌, ◌++◌, Option, none, some, Bool, true, false, ◌&&◌, not, if◌then◌else◌, any,
  filter, map, length, leb, ℤ, pos, ltb_ℤ, leb_ℤ, eqb_ℤ, sub32, add64, mul64, div64, to_int32,
  Bytes, codes, bytes_eq, show_ℤ, Time, Duration, second,
}
use wazuh_operator.Kube.{Result, ok, err}
use wazuh_operator.Drain.Status.{ComponentDrainStatus}
use wazuh_operator.Drain.Rollback.{drain_component_indexer, drain_component_manager}

pub record DryRunResult : Type 0 where
  pub feasible : Bool
  pub evaluated_at : Time
  pub component : Bytes
  pub blockers : List Bytes
  pub warnings : List Bytes
  pub estimated_duration : Option Duration

abbrev pub new_dry_run : Time → Bytes → DryRunResult
new_dry_run now component = record {
  feasible = true;
  evaluated_at = now;
  component = component;
  blockers = [];
  warnings = [];
  estimated_duration = none;
}

-- `result.Feasible = false` with a blocker, and a warning.
unfoldable pub dry_block : Bytes → DryRunResult → DryRunResult
dry_block reason r = record r { feasible = false; blockers = r.blockers ++ (reason ∷ []) }

unfoldable pub dry_warn : Bytes → DryRunResult → DryRunResult
dry_warn reason r = record r { warnings = r.warnings ++ (reason ∷ []) }

-- What the Wazuh API answers: whether it is healthy, whether the cluster is running, the node's
-- status, the number of queued events, and the types of all nodes.
pub record ManagerAnswers : Type 0 where
  pub healthy : Bool
  pub running : Result Bool
  pub node_status : Result Bytes
  pub total_events : Result ℤ
  pub node_types : Result (List Bytes)

unfoldable pub check_running : Result Bool → DryRunResult → DryRunResult
unfolding dry_block dry_warn
check_running (err e) r = dry_warn (codes "Cannot check cluster status: " ++ e) r
check_running (ok true) r = r
check_running (ok false) r = dry_block (codes "Wazuh cluster is not running") r

unfoldable pub check_node : Bytes → Result Bytes → DryRunResult → DryRunResult
unfolding dry_warn
check_node node (err e) r =
    dry_warn (codes "Cannot check node " ++ (node ++ (codes " status: " ++ e))) r
check_node node (ok status) r =
    if bytes_eq status (codes "disconnected")
    then dry_warn (codes "Node " ++ (node ++ codes " is disconnected from cluster")) r
    else r

-- The estimate from the queue; `seconds` is int64(d.Seconds()) of a duration, through float64.
unfoldable pub estimate_queue : (Duration → ℤ) → Duration → Result ℤ → DryRunResult → DryRunResult
unfolding dry_warn
estimate_queue seconds grace (err e) r = dry_warn (codes "Cannot check queue status: " ++ e) r
estimate_queue seconds grace (ok events) r =
    let rough = div64 events (pos 1000) in
    let least = if ltb_ℤ rough (pos 60) then pos 60 else rough in
    record r {
      estimated_duration = some (
          if ltb_ℤ (pos 0) events
          then mul64 (add64 least (seconds grace)) second
          else add64 grace (mul64 (pos 30) second));
    }

unfoldable pub check_workers : Result (List Bytes) → DryRunResult → DryRunResult
unfolding dry_block dry_warn
check_workers (err e) r = dry_warn (codes "Cannot check all nodes: " ++ e) r
check_workers (ok types) r =
    if leb (length (filter (λ t. bytes_eq t (codes "worker")) types)) 1
    then dry_block (codes "Cannot drain: only one worker node in cluster") r
    else r

-- EvaluateFeasibility of the manager's drainer.
unfoldable pub evaluate_manager_feasibility :
    (Duration → ℤ) → Time → Duration → Bytes → ManagerAnswers → DryRunResult
unfolding dry_block check_running check_node estimate_queue check_workers
evaluate_manager_feasibility seconds now grace node answers =
    let r = new_dry_run now drain_component_manager in
    if not answers.healthy
    then dry_block (codes "Cannot connect to Wazuh API") r
    else check_workers answers.node_types (
        estimate_queue seconds grace answers.total_events
          (check_node node answers.node_status (check_running answers.running r)))

-- The budget of the dashboard: not there, not readable, or there with minAvailable and
-- maxUnavailable as integers.
pub data BudgetLookup : Type 0 where
  no_budget : BudgetLookup
  unreadable : Bytes → BudgetLookup
  budget : Option ℤ → Option ℤ → BudgetLookup

unfoldable pub check_min_available : Option ℤ → ℤ → DryRunResult → DryRunResult
unfolding dry_block dry_warn
check_min_available none replicas r = r
check_min_available (some n) replicas r =
    if leb_ℤ replicas (to_int32 n)
    then dry_block
        (codes "PDB minAvailable ("
          ++ (show_ℤ n
              ++ (codes ") >= replicas (" ++ (show_ℤ replicas ++ codes "): cannot scale down"))))
        r
    else dry_warn (codes "PDB protects Dashboard with minAvailable=" ++ show_ℤ n) r

unfoldable pub check_max_unavailable : Option ℤ → DryRunResult → DryRunResult
unfolding dry_block
check_max_unavailable none r = r
check_max_unavailable (some n) r =
    if eqb_ℤ n (pos 0) then dry_block (codes "PDB maxUnavailable is 0: cannot scale down") r else r

unfoldable pub check_budget : BudgetLookup → ℤ → DryRunResult → DryRunResult
unfolding dry_warn check_min_available check_max_unavailable
check_budget no_budget replicas r = dry_warn (codes "No PodDisruptionBudget found for Dashboard") r
check_budget (unreadable e) replicas r = dry_warn (codes "Failed to check PDB: " ++ e) r
check_budget (budget least most) replicas r =
    check_max_unavailable most (check_min_available least replicas r)

-- EvaluateDashboard, at the dashboard's replicas in the spec where there is a dashboard.
unfoldable pub evaluate_dashboard : Time → Option ℤ → BudgetLookup → DryRunResult
unfolding dry_warn check_budget
evaluate_dashboard now none lookup =
    dry_warn (codes "Dashboard not configured in cluster spec")
      (new_dry_run now (codes "dashboard"))
evaluate_dashboard now (some n) lookup =
    let replicas = if eqb_ℤ n (pos 0) then pos 1 else n in
    let r = check_budget lookup replicas (new_dry_run now (codes "dashboard")) in
    let r' =
      if eqb_ℤ replicas (pos 1)
      then dry_warn
          (codes "Dashboard has only 1 replica: scaling down would remove all Dashboard instances")
          r
      else r in
    record r' { estimated_duration = some (mul64 (pos 30) second) }

-- EvaluateIndexerDrain and EvaluateManagerDrain at an evaluator that is nil or answers.
unfoldable pub evaluate_with : Time → Bytes → Bytes → Option (Result DryRunResult) → DryRunResult
unfolding dry_block
evaluate_with now component missing none = dry_block missing (new_dry_run now component)
evaluate_with now component missing (some (err e)) =
    dry_block (codes "Failed to evaluate: " ++ e) (new_dry_run now component)
evaluate_with now component missing (some (ok r)) = r

-- `[name] text`
abbrev pub prefixed : Bytes → Bytes → Bytes
prefixed name text = codes "[" ++ (name ++ (codes "] " ++ text))

-- The body of EvaluateAll's loop, with the duration so far.
unfoldable pub merge_result :
    Bytes → DryRunResult → DryRunResult × Duration → DryRunResult × Duration
merge_result name r (combined, total) = (
  record combined {
    feasible = r.feasible && combined.feasible;
    blockers = combined.blockers ++ map (prefixed name) r.blockers;
    warnings = combined.warnings ++ map (prefixed name) r.warnings;
  },
  elim r.estimated_duration [ none ↦ total | some t ↦ add64 total t ],
)

-- EvaluateAll at the results of the three components.
unfoldable pub evaluate_all : Time → DryRunResult → DryRunResult → DryRunResult → DryRunResult
unfolding merge_result
evaluate_all now indexer manager dashboard =
    let (combined, total) = merge_result (codes "dashboard") dashboard (
      merge_result drain_component_manager manager
        (merge_result drain_component_indexer indexer (new_dry_run now (codes "all"), pos 0))) in
    if ltb_ℤ (pos 0) total then record combined { estimated_duration = some total } else combined

-- The node that a dry run looks at: that of the drain's status, or the last pod of a scale-down; ""
-- is none.
unfoldable pub dry_run_target : Bytes → Bytes → Option ComponentDrainStatus → ℤ → ℤ → Bytes
dry_run_target cluster suffix status current desired =
    let stored = elim status as (λ s. Bytes) [ none ↦ codes "" | some s ↦ s.target_pod ] in
    if not (bytes_eq stored (codes ""))
    then stored
    else if ltb_ℤ desired current
    then cluster ++ (suffix ++ show_ℤ (sub32 current (pos 1)))
    else codes ""

-- evaluateDryRun of the cluster controller for one component: draining is not enabled, there is no
-- target, or EvaluateDrainFeasibility was called.
pub data DryRunPart : Type 0 where
  not_enabled : DryRunPart
  no_target : DryRunPart
  called : Result DryRunResult → DryRunPart

abbrev join_durations : Option Duration → Option Duration → Option Duration
join_durations none b = b
join_durations (some a) none = some a
join_durations (some a) (some b) = some (add64 a b)

unfoldable pub merge_part : Bytes → DryRunPart → DryRunResult → DryRunResult
unfolding dry_warn
merge_part name not_enabled combined = combined
merge_part name no_target combined =
    dry_warn (prefixed name (codes "No scale-down detected")) combined
merge_part name (called (err e)) combined =
    dry_warn (prefixed name (codes "Evaluation failed: " ++ e)) combined
merge_part name (called (ok r)) combined = record combined {
  feasible = r.feasible && combined.feasible;
  blockers = combined.blockers ++ map (prefixed name) r.blockers;
  warnings = combined.warnings ++ map (prefixed name) r.warnings;
  estimated_duration = join_durations combined.estimated_duration r.estimated_duration;
}

unfoldable pub evaluate_dry_run : Time → DryRunPart → DryRunPart → Bool → DryRunResult
unfolding merge_part dry_warn
evaluate_dry_run now indexer manager has_dashboard =
    let r =
      merge_part drain_component_manager manager
        (merge_part drain_component_indexer indexer (new_dry_run now (codes "all"))) in
    if has_dashboard
    then dry_warn (prefixed (codes "dashboard") (codes "PDB protection not yet implemented")) r
    else r
