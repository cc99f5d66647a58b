-- ===== src/NodePools/Consistent.antt =====
-- Validity and the list of errors in the results of nodepool_validator.go.
use wazuh_operator.Common.{
  ℕ, suc, ◌≡◌, refl, List, [], ◌∷◌, ◌++◌, Bool, true, false, if◌then◌else◌, ◌==◌, arith, ℤ, pos,
  ltb_ℤ, Bytes, codes, length, length-append,
}
use wazuh_operator.NodePools.{
  IndexerNodePoolSpec, WazuhIndexerClusterSpec, ValidationResult, new_result, Tally, new_tally,
  add_error, add_warning, check_name, check_roles, validate_node_pool_spec, merge, tally_pool,
  tally_pools, check_tally, validate_node_pools, validate_scale_down,
}

abbrev pub IsConsistent : ValidationResult → Type 0
IsConsistent r = r.valid ≡ (length r.errors == 0)

add_error-IsConsistent :
    (field message : Bytes) (r : ValidationResult) → IsConsistent (add_error field message r)
unfolding add_error
add_error-IsConsistent field message r =
    ground (arith, length-append r.errors (record { field = field; message = message } ∷ []))

add_warning-IsConsistent :
    (message : Bytes) (r : ValidationResult) → IsConsistent r → IsConsistent (add_warning message r)
unfolding add_warning
add_warning-IsConsistent message r h = h

if-IsConsistent :
    (b : Bool) (r s : ValidationResult)
    → IsConsistent r
    → IsConsistent s
    → IsConsistent (if b then r else s)
if-IsConsistent true r s h k = h
if-IsConsistent false r s h k = k

merge-IsConsistent :
    (r s : ValidationResult) → IsConsistent r → IsConsistent s → IsConsistent (merge r s)
unfolding merge
merge-IsConsistent r s h k = ground (arith, length-append r.errors s.errors)

ruleset consistent =
    (add_error-IsConsistent, add_warning-IsConsistent, if-IsConsistent, merge-IsConsistent)

check_name-IsConsistent :
    (pool : IndexerNodePoolSpec) (prefix : Bytes) (r : ValidationResult)
    → IsConsistent r
    → IsConsistent (check_name pool prefix r)
unfolding check_name
check_name-IsConsistent pool prefix r h = search consistent

check_roles-IsConsistent :
    (prefix : Bytes) (i : ℕ) (roles : List Bytes) (r : ValidationResult)
    → IsConsistent r
    → IsConsistent (check_roles prefix i roles r)
unfolding check_roles
check_roles-IsConsistent prefix i [] r h = h
check_roles-IsConsistent prefix i (role ∷ roles) r h =
    check_roles-IsConsistent prefix (suc i) roles _ (search consistent)

ruleset parts = (check_name-IsConsistent, check_roles-IsConsistent)

pool-IsConsistent :
    (pool : IndexerNodePoolSpec) (prefix : Bytes)
    → IsConsistent (validate_node_pool_spec pool prefix)
unfolding validate_node_pool_spec
pool-IsConsistent pool prefix =
    let r1 = check_name pool prefix new_result in
    let r2 =
      if ltb_ℤ pool.replicas (pos 0)
      then add_error (prefix ++ codes ".replicas") (codes "replicas cannot be negative") r1
      else r1 in
    let h1 : IsConsistent r1 = check_name-IsConsistent pool prefix new_result refl in
    let h2 : IsConsistent r2 = search (consistent, h1) in
    let h3 : IsConsistent (check_roles prefix 0 pool.roles r2) =
      check_roles-IsConsistent prefix 0 pool.roles r2 h2 in
    search (consistent, h3)

tally_pool-IsConsistent :
    (i : ℕ) (pool : IndexerNodePoolSpec) (t : Tally)
    → IsConsistent t.result
    → IsConsistent (tally_pool i pool t).result
unfolding tally_pool
tally_pool-IsConsistent i pool t h = search (consistent, pool-IsConsistent)

tally_pools-IsConsistent :
    (i : ℕ) (pools : List IndexerNodePoolSpec) (t : Tally)
    → IsConsistent t.result
    → IsConsistent (tally_pools i pools t).result
unfolding tally_pools
tally_pools-IsConsistent i [] t h = h
tally_pools-IsConsistent i (pool ∷ pools) t h =
    tally_pools-IsConsistent (suc i) pools (tally_pool i pool t)
      (tally_pool-IsConsistent i pool t h)

check_tally-IsConsistent : (t : Tally) → IsConsistent t.result → IsConsistent (check_tally t)
unfolding check_tally
check_tally-IsConsistent t h = search consistent

-- For every cluster and every scale-down of a pool, the result of the validation is valid exactly
-- when it lists no error.
pub validate-IsConsistent :
    (spec : WazuhIndexerClusterSpec) (pool : IndexerNodePoolSpec) (current desired total : ℤ)
    → ((validate_node_pools spec).valid ≡ (length (validate_node_pools spec).errors == 0))
      × ((validate_scale_down pool current desired total).valid
          ≡ (length (validate_scale_down pool current desired total).errors == 0))
unfolding validate_node_pools validate_scale_down
validate-IsConsistent spec pool current desired total = (go spec.node_pools refl, scale_down)
  where
    go :
        (pools : List IndexerNodePoolSpec)
        → spec.node_pools ≡ pools
        → IsConsistent (validate_node_pools spec)
    go [] e = rw e refl
    go (p ∷ pools) e =
        let t = tally_pools 0 (p ∷ pools) new_tally in
        let h : IsConsistent (check_tally t) =
          check_tally-IsConsistent t (tally_pools-IsConsistent 0 (p ∷ pools) new_tally refl) in
        rw e (search (consistent, h))

    scale_down : IsConsistent (validate_scale_down pool current desired total)
    scale_down = search consistent
