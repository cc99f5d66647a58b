-- ===== src/Rolling/Examples.antt =====
-- The results on rolling restarts at concrete inputs.
use wazuh_operator.Common.{
  refl, List, [], ◌∷◌, none, some, true, arith, pos, Bytes, codes, bytes_eq, atoi, last_or, split,
}
use wazuh_operator.Kube.{StatefulSet, ok}
use wazuh_operator.Rolling.{
  Pod, orchestrate_restart, owned_by, is_updated, is_pod_ready, before, insert_by, sort_slice,
  extract_ordinal, first_unready,
}
use wazuh_operator.Rolling.Safety.{SafeToDelete, orchestrate_restart-SafeToDelete}
use wazuh_operator.Rolling.Progress.{IsSettled, Completes, ticks, ticks_complete}

abbrev indexers : StatefulSet
indexers = record {
  name = codes "indexer";
  namespace = codes "wazuh";
  uid = codes "u1";
  spec_replicas = some (pos 3);
  status_replicas = pos 3;
  ready_replicas = pos 3;
  update_revision = codes "r2";
  current_revision = codes "r1";
}

abbrev ready_pod : Bytes → Bytes → Pod
ready_pod name revision = record {
  name = name;
  owners = codes "u1" ∷ [];
  revision = revision;
  conditions = record { kind = codes "Ready"; status = codes "True" } ∷ [];
}

abbrev pods : List Pod
pods =
    ready_pod (codes "indexer-0") (codes "r1")
    ∷ ready_pod (codes "indexer-1") (codes "r1")
    ∷ ready_pod (codes "indexer-2") (codes "r2")
    ∷ []

-- Of the two pods on the old revision the one with the higher ordinal goes first.
orchestrate_restart-SafeToDelete_example :
    SafeToDelete indexers
      (ok pods)
      (ok (true, codes "green"))
      true
      (ready_pod (codes "indexer-1") (codes "r1"))
unfolding orchestrate_restart owned_by is_updated is_pod_ready before insert_by sort_slice
    extract_ordinal first_unready bytes_eq atoi last_or split
orchestrate_restart-SafeToDelete_example =
    orchestrate_restart-SafeToDelete indexers (ok pods) (ok (true, codes "green")) (λ _. none) true
      (ready_pod (codes "indexer-1") (codes "r1")) refl

ticks_complete_example :
    IsSettled indexers (codes "green") true (ticks indexers (codes "green") true 2 pods)
    × Completes indexers (codes "green") true (ticks indexers (codes "green") true 2 pods)
unfolding owned_by is_updated is_pod_ready bytes_eq
ticks_complete_example =
    ticks_complete indexers (codes "green") true 2 pods refl
      ((refl, (refl, (refl, tt))), (refl, (refl, (refl, tt)))) (omega arith)
