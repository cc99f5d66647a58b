-- ===== src/NodePools/Accepted.antt =====
-- What the validation of nodepool_validator.go asks of node pools, written without its loop.
use wazuh_operator.Common.{
  ℕ, suc, ◌+◌, ◌-◌, ◌<◌, ◌≤◌, ◌≡◌, refl, ◌∙◌, ◌↔◌, inl, inr, List, [], ◌∷◌, ◌++◌, Bool, true, false,
  Bool-cases, ◌&&◌, ◌||◌, not, if◌then◌else◌, ◌==◌, leb, arith, ℤ, pos, ltb_ℤ, leb_ℤ, add32,
  sub32_pos, Bytes, bytes_eq, codes, show_ℕ, length, any, all,
}
use wazuh_operator.NodePools.{
  IndexerNodePoolSpec, WazuhIndexerClusterSpec, ValidationResult, new_result, Tally, new_tally,
  add_error, add_warning, is_valid_role, has_cluster_manager_role, has_data_role, matches_name,
  check_name, check_roles, validate_node_pool_spec, merge, tally_pool, tally_pools, check_tally,
  validate_node_pools, validate_scale_down,
}

-- A pool that is in order by itself.
abbrev pub pool_fits : IndexerNodePoolSpec → Bool
pool_fits pool =
    matches_name pool.name
    && leb (length pool.name) 15
    && leb_ℤ (pos 0) pool.replicas
    && all is_valid_role pool.roles

-- The nodes of the pools that pass a test, as an int32.
abbrev pub nodes_of : (IndexerNodePoolSpec → Bool) → ℤ → List IndexerNodePoolSpec → ℤ
nodes_of p n [] = n
nodes_of p n (pool ∷ pools) = nodes_of p (if p pool then add32 n pool.replicas else n) pools

-- No two pools have one name.
abbrev pub distinct_names : List IndexerNodePoolSpec → Bool
distinct_names [] = true
distinct_names (pool ∷ pools) =
    not (any (λ q. bytes_eq pool.name q.name) pools) && distinct_names pools

-- There are enough nodes with a role, where a pool has it.
abbrev pub enough : (IndexerNodePoolSpec → Bool) → ℤ → List IndexerNodePoolSpec → Bool
enough p least pools = not (any p pools) || leb_ℤ least (nodes_of p (pos 0) pools)

check_name-valid :
    (pool : IndexerNodePoolSpec) (prefix : Bytes) (r : ValidationResult)
    → (check_name pool prefix r).valid
      ≡ r.valid && matches_name pool.name && leb (length pool.name) 15
unfolding check_name add_error matches_name
check_name-valid pool prefix r = ground arith

check_roles-valid :
    (prefix : Bytes) (i : ℕ) (roles : List Bytes) (r : ValidationResult)
    → (check_roles prefix i roles r).valid ≡ r.valid && all is_valid_role roles
unfolding check_roles add_error
check_roles-valid prefix i [] r = ground arith
check_roles-valid prefix i (role ∷ roles) r =
    check_roles-valid prefix (suc i) roles _ ∙ ground arith

pool_valid :
    (pool : IndexerNodePoolSpec) (prefix : Bytes)
    → (validate_node_pool_spec pool prefix).valid ≡ pool_fits pool
unfolding validate_node_pool_spec add_error add_warning
pool_valid pool prefix =
    let r1 = check_name pool prefix new_result in
    let name_valid = check_name-valid pool prefix new_result in
    elim (Bool-cases (ltb_ℤ pool.replicas (pos 0))) [
      | inl negative ↦
          let roles_valid =
            check_roles-valid prefix 0 pool.roles
              (add_error (prefix ++ codes ".replicas") (codes "replicas cannot be negative") r1) in
          ground (arith, name_valid, roles_valid)
      | inr fine ↦
          let roles_valid = check_roles-valid prefix 0 pool.roles r1 in
          ground (arith, name_valid, roles_valid)
    ]

-- The names of the pools are new and distinct, for the loop's list of names.
abbrev fresh : List Bytes → List IndexerNodePoolSpec → Bool
fresh seen [] = true
fresh seen (pool ∷ pools) =
    not (any (λ n. bytes_eq n pool.name) seen) && fresh (pool.name ∷ seen) pools

tally_pool_valid :
    (i : ℕ) (pool : IndexerNodePoolSpec) (t : Tally)
    → (tally_pool i pool t).result.valid
      ≡ t.result.valid && pool_fits pool && not (any (λ n. bytes_eq n pool.name) t.seen_names)
unfolding tally_pool merge add_error
tally_pool_valid i pool t =
    let field = codes "spec.indexer.nodePools[" ++ (show_ℕ i ++ codes "]") in
    ground (arith, pool_valid pool field)

-- What the loop leaves of each of its variables.
tally_pools_lem :
    (i : ℕ) (pools : List IndexerNodePoolSpec) (t : Tally)
    → let t' = tally_pools i pools t in
      (t'.result.valid ≡ t.result.valid && all pool_fits pools && fresh t.seen_names pools)
      × (t'.cluster_manager_count ≡ nodes_of has_cluster_manager_role t.cluster_manager_count pools)
      × (t'.data_node_count ≡ nodes_of has_data_role t.data_node_count pools)
      × (t'.has_cluster_manager ≡ t.has_cluster_manager || any has_cluster_manager_role pools)
      × (t'.has_data ≡ t.has_data || any has_data_role pools)
unfolding tally_pools
tally_pools_lem i [] t = ground arith
tally_pools_lem i (pool ∷ pools) t =
    let (a, b, c, d, e) = tally_pools_lem (suc i) pools (tally_pool i pool t) in
    let step = tally_pool_valid i pool t in
    (a ∙ ground (arith, step), b ∙ refl, c ∙ refl, d ∙ ground arith, e ∙ ground arith)

all-not_or :
    {A : Type 0} (f g : A → Bool) (xs : List A)
    → all (λ x. not (f x || g x)) xs ≡ not (any f xs) && all (λ x. not (g x)) xs
all-not_or f g [] = refl
all-not_or f g (x ∷ xs) = ground (arith, all-not_or f g xs)

fresh-distinct_names :
    (seen : List Bytes) (pools : List IndexerNodePoolSpec)
    → fresh seen pools
      ≡ all (λ p. not (any (λ n. bytes_eq n p.name) seen)) pools && distinct_names pools
fresh-distinct_names seen [] = refl
fresh-distinct_names seen (pool ∷ pools) =
    let rest = fresh-distinct_names (pool.name ∷ seen) pools in
    let apart =
      all-not_or (λ q. bytes_eq pool.name q.name) (λ q. any (λ n. bytes_eq n q.name) seen) pools in
    ground (arith, rest, apart)

all-true : (pools : List IndexerNodePoolSpec) → all (λ p. true) pools ≡ true
all-true [] = refl
all-true (pool ∷ pools) = all-true pools

check_tally-valid :
    (t : Tally)
    → (check_tally t).valid
      ≡ t.result.valid
        && (not t.has_cluster_manager || leb_ℤ (pos 3) t.cluster_manager_count)
        && (not t.has_data || leb_ℤ (pos 1) t.data_node_count)
unfolding check_tally add_error add_warning
check_tally-valid t = ground arith

-- What is asked of the pools of a cluster that has some.
abbrev pub pools_fit : List IndexerNodePoolSpec → Bool
pools_fit pools =
    all pool_fits pools
    && distinct_names pools
    && enough has_cluster_manager_role (pos 3) pools
    && enough has_data_role (pos 1) pools

check_tally_pools-valid :
    (pools : List IndexerNodePoolSpec)
    → (check_tally (tally_pools 0 pools new_tally)).valid ≡ pools_fit pools
check_tally_pools-valid pools =
    let (a, b, c, d, e) = tally_pools_lem 0 pools new_tally in
    let f = fresh-distinct_names [] pools in
    check_tally-valid (tally_pools 0 pools new_tally)
    ∙ ground (arith, a, b, c, d, e, f, all-true pools)

-- A cluster with no node pools is accepted. One with node pools is accepted exactly when it has no
-- replicas of its own, each pool has a DNS-compatible name of 1 to 15 characters, replicas that are
-- not negative and known roles only, the names are distinct, the pools with the role cluster_manager
-- have at least 3 nodes and those with the role data at least one, as sums of int32. The last two
-- are asked for only where some pool has the role.
pub validate_node_pools_lem :
    (spec : WazuhIndexerClusterSpec)
    → (validate_node_pools spec).valid
      ≡ (length spec.node_pools == 0) || (leb_ℤ spec.replicas (pos 0) && pools_fit spec.node_pools)
unfolding validate_node_pools add_error
validate_node_pools_lem spec = go spec.node_pools refl
  where
    go :
        (pools : List IndexerNodePoolSpec)
        → spec.node_pools ≡ pools
        → (validate_node_pools spec).valid
          ≡ (length spec.node_pools == 0)
            || (leb_ℤ spec.replicas (pos 0) && pools_fit spec.node_pools)
    go [] e = rw e refl
    go (pool ∷ pools) e =
        let checked = check_tally_pools-valid (pool ∷ pools) in
        elim (Bool-cases (ltb_ℤ (pos 0) spec.replicas)) [
          | inl both ↦ rw e (ground (arith))
          | inr fine ↦ rw e (ground (arith, checked))
        ]

-- The validation of a scale-down of a pool between int32 counts refuses exactly the scale-downs of a
-- pool with the role cluster_manager that leave fewer than 3 of the cluster's managers.
pub validate_scale_down_lem :
    (pool : IndexerNodePoolSpec) (c d total : ℕ)
    → c < 2147483648
    → d < 2147483648
    → total < 2147483648
    → c ≤ total
    → ((validate_scale_down pool (pos c) (pos d) (pos total)).valid ≡ false)
      ↔ ((d < c) × (has_cluster_manager_role pool ≡ true) × (total + d < c + 3))
unfolding validate_scale_down add_error add_warning
validate_scale_down_lem pool c d total hc hd ht hle =
    ground (arith, sub32_pos c d, sub32_pos total (c - d))
