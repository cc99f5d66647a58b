-- ===== src/Indexer/Exclusion.antt =====
-- Which node is excluded from allocation by the drains of internal/opensearch/drain/indexer_drain.go.
use wazuh_operator.Common.{◌≡◌, inl, inr, List, [], ◌∷◌, ◌++◌, none, some, arith, Bytes}
use wazuh_operator.Kube.{ok, Result-cases}
use wazuh_operator.Indexer.Server.{
  Server, Replaces, get_shard_count, set_allocation_exclusion, clear_allocation_exclusion,
}
use wazuh_operator.Indexer.Drainer.{IndexerDrainer, start_shard_drain, cancel_shard_drain}
use wazuh_operator.Indexer.Pool.{exclude_all, start_node_pool_drain}

module _ (sv : Server) (laws : Replaces sv) where
  open sv use {Store}

  set_excluded :
      (node : Bytes) (st st' : Store)
      → set_allocation_exclusion sv node st ≡ ok st'
      → laws.excluded st' ≡ some node
  unfolding set_allocation_exclusion
  set_excluded node st st' h = laws.after_put (some node) st st' h

  -- A drain of one node that starts without an error excludes that node.
  pub start_excludes :
      (node : Bytes) (d : IndexerDrainer) (st : Store)
      → (start_shard_drain sv node d st).2 ≡ none
      → laws.excluded (start_shard_drain sv node d st).1 ≡ some node
  unfolding start_shard_drain
  start_excludes node d st h = elim (Result-cases (get_shard_count sv node st)) [
    | inr (e, p) ↦ absurd (ground (arith, p))
    | inl (n, p) ↦ elim (Result-cases (set_allocation_exclusion sv node st)) [
      | inr (e, q) ↦ absurd (ground (arith, p, q))
      | inl (st', q) ↦ ground (arith, p, q, set_excluded node st st' q)
    ]
  ]

  -- A cancellation without an error excludes none.
  pub cancel_excludes_none :
      (st : Store)
      → (cancel_shard_drain sv st).1 ≡ none
      → laws.excluded (cancel_shard_drain sv st).0 ≡ none
  unfolding cancel_shard_drain clear_allocation_exclusion
  cancel_excludes_none st h = elim (Result-cases (sv.put_exclude none st)) [
    | inr (e, p) ↦ absurd (ground (arith, p))
    | inl (st', p) ↦ ground (arith, p, laws.after_put none st st' p)
  ]

  exclude_all_last :
      (nodes : List Bytes) (node : Bytes) (st : Store)
      → (exclude_all sv (nodes ++ (node ∷ [])) st).1 ≡ none
      → laws.excluded (exclude_all sv (nodes ++ (node ∷ [])) st).0 ≡ some node
  unfolding exclude_all
  exclude_all_last [] node st h = elim (Result-cases (set_allocation_exclusion sv node st)) [
    | inr (e, q) ↦ absurd (ground (arith, q))
    | inl (st', q) ↦ ground (arith, q, set_excluded node st st' q)
  ]
  exclude_all_last (n ∷ nodes) node st h = elim (Result-cases (set_allocation_exclusion sv n st)) [
    | inr (e, q) ↦ absurd (ground (arith, q))
    | inl (st', q) ↦ ground (arith, q, exclude_all_last nodes node st')
  ]

  -- A drain of several nodes that starts without an error leaves only the last of them excluded: each
  -- request replaces the name that the one before has set.
  pub pool_excludes_last :
      (nodes : List Bytes) (node : Bytes) (d : IndexerDrainer) (st : Store)
      → (start_node_pool_drain sv (nodes ++ (node ∷ [])) d st).2 ≡ none
      → laws.excluded (start_node_pool_drain sv (nodes ++ (node ∷ [])) d st).1 ≡ some node
  unfolding start_node_pool_drain
  pool_excludes_last [] node d st h = exclude_all_last [] node st h
  pool_excludes_last (n ∷ nodes) node d st h = exclude_all_last (n ∷ nodes) node st h
