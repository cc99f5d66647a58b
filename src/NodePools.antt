-- ===== src/NodePools.antt =====
-- internal/opensearch/validation/nodepool_validator.go: which node pools an indexer cluster may have.
-- Pools and roles are those of api/v1/nodepool_types.go and pkg/constants/roles.go.
pub mod Accepted
pub mod Consistent
pub mod Examples
use wazuh_operator.Common.{
  ℕ, suc, ◌+◌, List, [], ◌∷◌, ◌++◌, Option, none, some, Bool, true, false, ◌&&◌, ◌||◌, not,
  if◌then◌else◌, ◌==◌, leb, ltb, ℤ, pos, ltb_ℤ, leb_ℤ, add32, sub32, Bytes, codes, bytes_eq, show_ℕ,
  show_ℤ, join, length, any, all, last_or,
}

pub record IndexerNodePoolSpec : Type 0 where
  pub name : Bytes
  pub replicas : ℤ
  pub roles : List Bytes
  pub storage_size : Bytes

-- The fields of WazuhIndexerClusterSpec that are validated.
pub record WazuhIndexerClusterSpec : Type 0 where
  pub replicas : ℤ
  pub node_pools : List IndexerNodePoolSpec

pub record ValidationError : Type 0 where
  pub field : Bytes
  pub message : Bytes

pub record ValidationResult : Type 0 where
  pub valid : Bool
  pub errors : List ValidationError
  pub warnings : List Bytes

abbrev pub new_result : ValidationResult
new_result = record { valid = true; errors = []; warnings = [] }

unfoldable pub add_error : Bytes → Bytes → ValidationResult → ValidationResult
add_error field message r = record r {
  valid = false;
  errors = r.errors ++ (record { field = field; message = message } ∷ []);
}

unfoldable pub add_warning : Bytes → ValidationResult → ValidationResult
add_warning message r = record r { warnings = r.warnings ++ (message ∷ []) }

abbrev pub min_cluster_manager_nodes : ℤ
min_cluster_manager_nodes = pos 3

abbrev pub min_data_nodes : ℤ
min_data_nodes = pos 1

abbrev pub max_node_pool_name_length : ℕ
max_node_pool_name_length = 15

abbrev pub cluster_manager_role : Bytes
cluster_manager_role = codes "cluster_manager"

abbrev pub data_role : Bytes
data_role = codes "data"

abbrev pub opensearch_role_list : List Bytes
opensearch_role_list =
    cluster_manager_role
    ∷ data_role
    ∷ codes "ingest"
    ∷ codes "search"
    ∷ codes "coordinating_only"
    ∷ codes "ml"
    ∷ codes "remote_cluster_client"
    ∷ []

unfoldable pub is_valid_role : Bytes → Bool
is_valid_role role = any (λ valid. bytes_eq role valid) opensearch_role_list

unfoldable pub has_role : Bytes → IndexerNodePoolSpec → Bool
has_role role pool = any (λ r. bytes_eq r role) pool.roles

unfoldable pub has_cluster_manager_role : IndexerNodePoolSpec → Bool
unfolding has_role
has_cluster_manager_role pool = has_role cluster_manager_role pool

unfoldable pub has_data_role : IndexerNodePoolSpec → Bool
unfolding has_role
has_data_role pool = has_role data_role pool

-- [a-z0-9]
abbrev pub is_alphanumeric : ℕ → Bool
is_alphanumeric c = (leb b'a' c && leb c b'z') || (leb b'0' c && leb c b'9')

-- [-a-z0-9]*[a-z0-9], or nothing.
unfoldable pub matches_rest : Bytes → Bool
matches_rest [] = true
matches_rest (c ∷ []) = is_alphanumeric c
matches_rest (c ∷ d ∷ s) = (is_alphanumeric c || (c == b'-')) && matches_rest (d ∷ s)

-- nodePoolNameRegex, ^[a-z0-9]([-a-z0-9]*[a-z0-9])?$
unfoldable pub matches_name : Bytes → Bool
unfolding matches_rest
matches_name [] = false
matches_name (c ∷ s) = is_alphanumeric c && matches_rest s

unfoldable pub check_name : IndexerNodePoolSpec → Bytes → ValidationResult → ValidationResult
unfolding add_error
check_name pool prefix r =
    let field = prefix ++ codes ".name" in
    let r1 =
      if not (matches_name pool.name)
      then add_error field
          (codes
            "name must be DNS-compatible (lowercase alphanumeric, may contain hyphens, must start and end with alphanumeric)")
          r
      else r in
    if length pool.name == 0
    then add_error field (codes "name is required") r
    else if ltb max_node_pool_name_length (length pool.name)
    then add_error field
        (codes "name must be at most 15 characters; got " ++ show_ℕ (length pool.name)) r1
    else r1

-- The loop over the roles from position `i`.
unfoldable pub check_roles : Bytes → ℕ → List Bytes → ValidationResult → ValidationResult
unfolding add_error
check_roles prefix i [] r = r
check_roles prefix i (role ∷ roles) r = check_roles prefix (suc i) roles (
    if not (is_valid_role role)
    then add_error (prefix ++ (codes ".roles[" ++ (show_ℕ i ++ codes "]")))
        (codes "invalid role '"
          ++ (role
              ++ (codes "'; valid roles are: ["
                  ++ (join (codes " ") opensearch_role_list ++ codes "]"))))
        r
    else r)

unfoldable pub validate_node_pool_spec : IndexerNodePoolSpec → Bytes → ValidationResult
unfolding check_name check_roles add_error add_warning
validate_node_pool_spec pool prefix =
    let r1 = check_name pool prefix new_result in
    let r2 =
      if ltb_ℤ pool.replicas (pos 0)
      then add_error (prefix ++ codes ".replicas") (codes "replicas cannot be negative") r1
      else r1 in
    let r3 = check_roles prefix 0 pool.roles r2 in
    let r4 =
      if has_cluster_manager_role pool && has_data_role pool
      then add_warning
          (codes "nodePool '"
            ++ (pool.name
                ++ codes
                    "' has both cluster_manager and data roles; consider separating these roles for better stability in production"))
          r3
      else r3 in
    if (length pool.storage_size == 0) && has_data_role pool
    then add_warning
        (codes "nodePool '"
          ++ (pool.name ++ codes "' has data role but no storageSize specified; using default"))
        r4
    else r4

-- The variables of the loop of ValidateNodePools.
pub record Tally : Type 0 where
  pub result : ValidationResult
  pub seen_names : List Bytes
  pub cluster_manager_count : ℤ
  pub data_node_count : ℤ
  pub has_cluster_manager : Bool
  pub has_data : Bool

abbrev pub new_tally : Tally
new_tally = record {
  result = new_result;
  seen_names = [];
  cluster_manager_count = pos 0;
  data_node_count = pos 0;
  has_cluster_manager = false;
  has_data = false;
}

-- `result` with the errors and warnings of one pool.
unfoldable pub merge : ValidationResult → ValidationResult → ValidationResult
merge r pool_result = record {
  valid = r.valid && pool_result.valid;
  errors = if not pool_result.valid then r.errors ++ pool_result.errors else r.errors;
  warnings = r.warnings ++ pool_result.warnings;
}

unfoldable pub tally_pool : ℕ → IndexerNodePoolSpec → Tally → Tally
unfolding validate_node_pool_spec merge add_error add32
tally_pool i pool t =
    let field = codes "spec.indexer.nodePools[" ++ (show_ℕ i ++ codes "]") in
    let r1 = merge t.result (validate_node_pool_spec pool field) in
    record {
      result =
          if any (λ n. bytes_eq n pool.name) t.seen_names
          then add_error (field ++ codes ".name")
              (codes "duplicate nodePool name '"
                ++ (pool.name ++ codes "'; each nodePool must have a unique name"))
              r1
          else r1;
      seen_names = pool.name ∷ t.seen_names;
      cluster_manager_count =
          if has_cluster_manager_role pool
          then add32 t.cluster_manager_count pool.replicas
          else t.cluster_manager_count;
      data_node_count =
          if has_data_role pool then add32 t.data_node_count pool.replicas else t.data_node_count;
      has_cluster_manager = t.has_cluster_manager || has_cluster_manager_role pool;
      has_data = t.has_data || has_data_role pool;
    }

unfoldable pub tally_pools : ℕ → List IndexerNodePoolSpec → Tally → Tally
unfolding tally_pool
tally_pools i [] t = t
tally_pools i (pool ∷ pools) t = tally_pools (suc i) pools (tally_pool i pool t)

-- The checks after the loop.
unfoldable pub check_tally : Tally → ValidationResult
unfolding add_error add_warning
check_tally t =
    let field = codes "spec.indexer.nodePools" in
    let r1 =
      if t.has_cluster_manager && ltb_ℤ t.cluster_manager_count min_cluster_manager_nodes
      then add_error field
          (codes "cluster_manager role requires at least 3 nodes for quorum; found "
            ++ show_ℤ t.cluster_manager_count)
          t.result
      else t.result in
    let r2 =
      if t.has_data && ltb_ℤ t.data_node_count min_data_nodes
      then add_error field
          (codes "at least 1 data node is required; found " ++ show_ℤ t.data_node_count) r1
      else r1 in
    if not t.has_data
    then add_warning
        (codes "no nodePool has the data role; the cluster will not be able to store data") r2
    else r2

unfoldable pub validate_node_pools : WazuhIndexerClusterSpec → ValidationResult
unfolding tally_pools check_tally add_error
validate_node_pools spec = elim spec.node_pools [
  | [] ↦ new_result
  | pool ∷ pools ↦
      if ltb_ℤ (pos 0) spec.replicas
      then add_error (codes "spec.indexer")
          (codes
            "replicas and nodePools are mutually exclusive; use either replicas (simple mode) or nodePools (advanced mode), not both")
          new_result
      else check_tally (tally_pools 0 (pool ∷ pools) new_tally)
]

-- ValidateModeTransition; the result is an error's text.
unfoldable pub validate_mode_transition : Bytes → Bytes → Option Bytes
validate_mode_transition current new =
    if not (length current == 0) && not (length new == 0) && not (bytes_eq current new)
    then some (
        codes "transitioning from "
        ++ (current
            ++ (codes " mode to "
                ++ (new
                    ++ codes
                        " mode is not supported; please create a new cluster with the desired topology"))))
    else none

unfoldable pub validate_scale_down : IndexerNodePoolSpec → ℤ → ℤ → ℤ → ValidationResult
unfolding add_error add_warning sub32
validate_scale_down pool current desired total =
    let new_total = sub32 total (sub32 current desired) in
    let r1 =
      if has_cluster_manager_role pool && ltb_ℤ new_total min_cluster_manager_nodes
      then add_error (codes "scale-down")
          (codes "scaling down nodePool '"
            ++ (pool.name
                ++ (codes "' would reduce cluster_manager nodes to "
                    ++ (show_ℤ new_total ++ codes ", below minimum quorum of 3"))))
          new_result
      else new_result in
    if leb_ℤ current desired
    then new_result
    else if has_data_role pool
    then add_warning
        (codes "nodePool '"
          ++ (pool.name
              ++ codes "' has data role; shards must be relocated before nodes are terminated"))
        r1
    else r1
