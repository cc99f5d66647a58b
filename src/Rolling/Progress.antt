-- ===== src/Rolling/Progress.antt =====
-- Rounds of a rolling restart (internal/shared/rolling): a call of the program, and the answer of the
-- StatefulSet controller, which puts a ready pod on the target revision in the place of a deleted one.
use mathlib.Core.List.{Memᴰ}
use wazuh_operator.Common.{
  ℕ, zero, suc, ◌≤◌, ◌<◌, ◌≡◌, refl, ap, inl, inr, List, [], ◌∷◌, none, some, Bool, true, false,
  not, if◌then◌else◌, arith, Bytes, codes, bytes_eq, bytes_eq_refl, All, filter, mem-filter, length,
  List-cases, all_of_mem,
}
use wazuh_operator.Kube.{StatefulSet, ok}
use wazuh_operator.Rolling.{
  Pod, Outcome, count32, RestartResult, complete, is_pod_ready, before, sort_slice, owned_by,
  is_updated, first_unready, restart_owned, orchestrate_restart,
}
use wazuh_operator.Rolling.Safety.{before-IsWeakOrder, sort_HasLeast}

-- The pod that the controller starts in the place of `p`.
abbrev pub fresh : Bytes → Pod → Pod
fresh target p = record {
  name = p.name;
  owners = p.owners;
  revision = target;
  conditions = record { kind = codes "Ready"; status = codes "True" } ∷ [];
}

abbrev pub recreate : Bytes → Pod → List Pod → List Pod
recreate target p [] = []
recreate target p (q ∷ qs) =
    (if bytes_eq q.name p.name then fresh target p else q) ∷ recreate target p qs

-- The pods on an old revision.
abbrev pub old_pods : Bytes → List Pod → List Pod
old_pods target pods = filter (λ q. not (is_updated target q)) pods

is_updated-fresh : (target : Bytes) (p : Pod) → is_updated target (fresh target p) ≡ true
unfolding is_updated
is_updated-fresh target p = bytes_eq_refl target

is_pod_ready-fresh : (target : Bytes) (p : Pod) → is_pod_ready (fresh target p) ≡ true
unfolding is_pod_ready bytes_eq
is_pod_ready-fresh target p = refl

old-recreate_le :
    (target : Bytes) (p : Pod) (qs : List Pod)
    → length (old_pods target (recreate target p qs)) ≤ length (old_pods target qs)
old-recreate_le target p [] = omega arith
old-recreate_le target p (q ∷ qs) =
    ground (arith, old-recreate_le target p qs, is_updated-fresh target p)

old-recreate_lt :
    (target : Bytes) (p : Pod) (qs : List Pod)
    → is_updated target p ≡ false
    → Memᴰ p qs
    → length (old_pods target (recreate target p qs)) < length (old_pods target qs)
old-recreate_lt target p [] h m = elim m [ ]
old-recreate_lt target p (q ∷ qs) h (Memᴰ.head e) =
    let same : bytes_eq q.name p.name ≡ true = rw e (bytes_eq_refl q.name) in
    let old : is_updated target q ≡ false = rw e at h in
    ground (arith, old-recreate_le target p qs, is_updated-fresh target p)
old-recreate_lt target p (q ∷ qs) h (Memᴰ.tail m) =
    ground (arith, old-recreate_lt target p qs h m, is_updated-fresh target p)

ready-recreate :
    (target : Bytes) (p : Pod) (qs : List Pod)
    → All (λ q. is_pod_ready q ≡ true) qs
    → All (λ q. is_pod_ready q ≡ true) (recreate target p qs)
ready-recreate target p [] h = tt
ready-recreate target p (q ∷ qs) (h, hs) =
    (ground (arith, is_pod_ready-fresh target p), ready-recreate target p qs hs)

owned-recreate :
    (uid target : Bytes) (p : Pod) (qs : List Pod)
    → owned_by uid (fresh target p) ≡ true
    → All (λ q. owned_by uid q ≡ true) qs
    → All (λ q. owned_by uid q ≡ true) (recreate target p qs)
owned-recreate uid target p [] o h = tt
owned-recreate uid target p (q ∷ qs) o (h, hs) = (ground arith, owned-recreate uid target p qs o hs)

first_unready-none : (ps : List Pod) → All (λ p. is_pod_ready p ≡ true) ps → first_unready ps ≡ none
unfolding first_unready
first_unready-none [] h = refl
first_unready-none (p ∷ ps) (h, hs) = ground (arith, first_unready-none ps hs)

filter-All : (f : Pod → Bool) (ps : List Pod) → All (λ p. f p ≡ true) ps → filter f ps ≡ ps
filter-All f [] h = refl
filter-All f (p ∷ ps) (h, hs) = ground (arith, filter-All f ps hs)

owned_by-fresh :
    (uid target : Bytes) (p : Pod) → owned_by uid p ≡ true → owned_by uid (fresh target p) ≡ true
unfolding owned_by
owned_by-fresh uid target p h = h

module _ (sts : StatefulSet) (reason : Bytes) (highest_first : Bool) where
  -- A call at which the cluster is healthy and the API server accepts the deletion.
  abbrev pub step : List Pod → Outcome
  step pods = orchestrate_restart sts (ok pods) (ok (true, reason)) (λ _. none) highest_first

  -- The pods after a call and the controller's answer to it.
  abbrev pub tick : List Pod → List Pod
  tick pods = elim (step pods).deleted [
    | none ↦ pods
    | some p ↦ recreate sts.update_revision p pods
  ]

  abbrev pub ticks : ℕ → List Pod → List Pod
  ticks zero pods = pods
  ticks (suc n) pods = ticks n (tick pods)

  -- All pods belong to the StatefulSet and are ready.
  abbrev pub IsSettled : List Pod → Type 0
  IsSettled pods = All (λ q. owned_by sts.uid q ≡ true) pods × All (λ q. is_pod_ready q ≡ true) pods

  abbrev pub left : List Pod → List Pod
  left = old_pods sts.update_revision

  -- The call at these pods reports completion.
  abbrev pub Completes : List Pod → Type 0
  Completes pods = (r : RestartResult) × ((step pods).result ≡ ok r) × (r.phase ≡ complete)

  step_owned :
      (pods : List Pod)
      → bytes_eq sts.update_revision sts.current_revision ≡ false
      → IsSettled pods
      → step pods ≡ restart_owned sts (ok (true, reason)) (λ _. none) highest_first pods
  unfolding orchestrate_restart
  step_owned pods d (own, _) = ground (arith, filter-All (owned_by sts.uid) pods own)

  step_done :
      (pods : List Pod)
      → bytes_eq sts.update_revision sts.current_revision ≡ false
      → IsSettled pods
      → left pods ≡ []
      → Completes pods × (tick pods ≡ pods)
  unfolding restart_owned
  step_done pods d s e =
      let r : RestartResult = record {
        phase = complete;
        total_pods = count32 pods;
        updated_pods = count32 (filter (is_updated sts.update_revision) pods);
        current_pod = codes "";
        message = codes "all pods updated to target revision";
      } in
      ((r, ground (arith, step_owned pods d s), refl), ground (arith, step_owned pods d s))

  step_deletes :
      (pods : List Pod) (x : Pod) (xs : List Pod)
      → bytes_eq sts.update_revision sts.current_revision ≡ false
      → IsSettled pods
      → left pods ≡ x ∷ xs
      → (p : Pod) × ((step pods).deleted ≡ some p) × Memᴰ p (left pods)
  unfolding restart_owned
  step_deletes pods x xs d s e =
      let least = sort_HasLeast (before highest_first) (before-IsWeakOrder highest_first) x xs in
      let ready = first_unready-none pods s.1 in
      let shape : sort_slice (before highest_first) (left pods) ≡ least.first ∷ least.rest =
        cc (least.sorted_eq) in
      (least.first, ground (arith, step_owned pods d s, shape, ready), rw e (least.member))

  tick_deletes :
      (pods : List Pod) (p : Pod)
      → (step pods).deleted ≡ some p
      → tick pods ≡ recreate sts.update_revision p pods
  tick_deletes pods p e = ground arith

  -- A round with old pods keeps the pods settled and leaves fewer old ones.
  tick_step :
      (pods : List Pod) (x : Pod) (xs : List Pod)
      → bytes_eq sts.update_revision sts.current_revision ≡ false
      → IsSettled pods
      → left pods ≡ x ∷ xs
      → IsSettled (tick pods) × (length (left (tick pods)) < length (left pods))
  tick_step pods x xs d s e =
      let (p, deleted, old) = step_deletes pods x xs d s e in
      let target = sts.update_revision in
      let (mem, stale) = mem-filter (λ q. not (is_updated target q)) p pods old in
      let own = all_of_mem (λ q. owned_by sts.uid q ≡ true) pods s.0 mem in
      rw (tick_deletes pods p deleted) (
        (
          owned-recreate sts.uid target p pods (owned_by-fresh sts.uid target p own) s.0,
          ready-recreate target p pods s.1,
        ),
        old-recreate_lt target p pods (ground arith) mem,
      )

  -- Where the revisions differ and all pods belong to the StatefulSet and are ready, as many rounds
  -- as there are pods on an old revision, or more, keep the pods owned and ready, and end with a call
  -- that reports completion. In a round the cluster is healthy, the API server accepts the deletion
  -- and the controller starts a ready pod on the target revision.
  pub ticks_complete :
      (n : ℕ) (pods : List Pod)
      → bytes_eq sts.update_revision sts.current_revision ≡ false
      → IsSettled pods
      → length (left pods) ≤ n
      → IsSettled (ticks n pods) × Completes (ticks n pods)
  ticks_complete zero pods d s h = elim (List-cases (left pods)) [
    | inl none_left ↦ (s, (step_done pods d s none_left).0)
    | inr (x, xs, e) ↦ absurd (omega (arith, ap length e))
  ]
  ticks_complete (suc n) pods d s h = elim (List-cases (left pods)) [
    | inl none_left ↦
        rw ((step_done pods d s none_left).1)
          (ticks_complete n pods d s (omega (arith, ap length none_left)))
    | inr (x, xs, e) ↦
        let (s', fewer) = tick_step pods x xs d s e in
        ticks_complete n (tick pods) d s' (omega arith)
  ]
