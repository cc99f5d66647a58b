-- ===== src/Rolling/Safety.antt =====
-- The pod that a step of a rolling restart deletes (internal/shared/rolling/orchestrator.go).
use mathlib.Core.List.{Memᴰ}
use wazuh_operator.Common.{
  subst, ap, ◌∙◌, ◌≡◌, refl, ◌≢◌, inl, inr, List, [], ◌∷◌, Option, none, some, Bool, true, false,
  not, Bool-cases, arith, Bytes, bytes_eq, bytes_eq_iff, All, filter, mem-filter,
}
use wazuh_operator.Kube.{StatefulSet, Result, ok, err, Result-cases}
use wazuh_operator.Rolling.{
  Pod, is_pod_ready, before, insert_by, sort_slice, owned_by, is_updated, first_unready,
  restart_owned, orchestrate_restart,
}

-- The orders that sort.Slice is given: strict, and transitive where they do not hold.
pub record IsWeakOrder {ℓ} {A : Type ℓ} (less : A → A → Bool) : Type ℓ where
  pub asym : (x y : A) → less x y ≡ true → less y x ≡ false
  pub not_trans : (x y z : A) → less x y ≡ false → less y z ≡ false → less x z ≡ false

pub before-IsWeakOrder : (highest_first : Bool) → IsWeakOrder (before highest_first)
unfolding before
before-IsWeakOrder highest_first = record {
  asym = λ x y h. ground arith;
  not_trans = λ x y z h k. ground arith;
}

module _ {ℓ} {A : Type ℓ} (less : A → A → Bool) (w : IsWeakOrder less) where
  -- A first element that none comes before.
  pub record HasLeast (xs sorted : List A) : Type ℓ where
    pub first : A
    pub rest : List A
    pub sorted_eq : sorted ≡ first ∷ rest
    pub member : Memᴰ first xs
    pub least : All (λ q. less q first ≡ false) xs

  irrefl : (x : A) → less x x ≡ false
  irrefl x = elim (Bool-cases (less x x)) [ inl h ↦ w.asym x x h | inr h ↦ h ]

  All-after :
      (x y : A) (xs : List A)
      → less y x ≡ false
      → All (λ q. less q y ≡ false) xs
      → All (λ q. less q x ≡ false) xs
  All-after x y [] h k = tt
  All-after x y (q ∷ xs) h (k, ks) = (w.not_trans q y x k h, All-after x y xs h ks)

  insert_HasLeast :
      (x : A) (xs sorted : List A)
      → HasLeast xs sorted
      → HasLeast (x ∷ xs) (insert_by less x sorted)
  unfolding insert_by
  insert_HasLeast x xs sorted h =
      let head_first = ap (insert_by less x) h.sorted_eq in
      elim (Bool-cases (less x h.first)) [
        | inl earlier ↦ record {
          first = x;
          rest = h.first ∷ h.rest;
          sorted_eq = head_first ∙ rw earlier refl;
          member = Memᴰ.head refl;
          least = (irrefl x, All-after x h.first xs (w.asym x h.first earlier) h.least);
        }
        | inr not_earlier ↦ record {
          first = h.first;
          rest = insert_by less x h.rest;
          sorted_eq = head_first ∙ rw not_earlier refl;
          member = Memᴰ.tail h.member;
          least = (not_earlier, h.least);
        }
      ]

  pub sort_HasLeast : (x : A) (xs : List A) → HasLeast (x ∷ xs) (sort_slice less (x ∷ xs))
  unfolding sort_slice
  sort_HasLeast x [] = record {
    first = x;
    rest = [];
    sorted_eq = refl;
    member = Memᴰ.head refl;
    least = (irrefl x, tt);
  }
  sort_HasLeast x (y ∷ ys) = insert_HasLeast x (y ∷ ys) _ (sort_HasLeast y ys)

first_unready-All : (ps : List Pod) → first_unready ps ≡ none → All (λ p. is_pod_ready p ≡ true) ps
unfolding first_unready
first_unready-All [] h = tt
first_unready-All (p ∷ ps) h = (ground arith, first_unready-All ps (ground arith))

-- Why it was safe to delete a pod.
pub record SafeToDelete (sts : StatefulSet) (listed : Result (List Pod))
    (health : Result (Bool × Bytes)) (highest_first : Bool) (p : Pod) : Type 0 where
  pub restart_wanted : sts.update_revision ≢ sts.current_revision
  pub pods : List Pod
  pub were_listed : listed ≡ ok pods
  pub is_listed : Memᴰ p pods
  pub is_owned : owned_by sts.uid p ≡ true
  pub is_outdated : is_updated sts.update_revision p ≡ false
  pub all_ready : All (λ q. is_pod_ready q ≡ true) (filter (owned_by sts.uid) pods)
  pub reason : Bytes
  pub healthy : health ≡ ok (true, reason)
  pub extreme :
      All
        (λ q. before highest_first q p ≡ false)
        (filter (λ q. not (is_updated sts.update_revision q)) (filter (owned_by sts.uid) pods))

module _ (sts : StatefulSet) (health : Result (Bool × Bytes)) (delete : Pod → Option Bytes)
    (highest_first : Bool) where
  abbrev outdated : List Pod → List Pod
  outdated owned = filter (λ q. not (is_updated sts.update_revision q)) owned

  sorted : List Pod → List Pod
  sorted owned = sort_slice (before highest_first) (outdated owned)

  -- A deletion passed every test, and took the first pod of the sorted ones.
  deletion_passed :
      (owned : List Pod) (p : Pod)
      → (restart_owned sts health delete highest_first owned).deleted ≡ some p
      → (outdated owned ≢ [])
        × (first_unready owned ≡ none)
        × ((m : Bytes) × (health ≡ ok (true, m)))
        × ((ps : List Pod) × (sorted owned ≡ p ∷ ps))
  unfolding restart_owned sorted
  deletion_passed owned p h =
      (ground arith, ground arith, healthy_of health refl, first_of_sorted (sorted owned) refl)
    where
      healthy_of : (r : Result (Bool × Bytes)) → health ≡ r → (m : Bytes) × (health ≡ ok (true, m))
      healthy_of (ok (true, m)) e = (m, e)
      healthy_of (ok (false, m)) e = absurd (ground arith)
      healthy_of (err m) e = absurd (ground arith)

      first_of_sorted :
          (l : List Pod) → sorted owned ≡ l → (ps : List Pod) × (sorted owned ≡ p ∷ ps)
      first_of_sorted [] e = absurd (ground arith)
      first_of_sorted (q ∷ ps) e = (ps, ground arith)

  sorted_safe :
      (owned : List Pod) (p : Pod) (ps : List Pod)
      → outdated owned ≢ []
      → sorted owned ≡ p ∷ ps
      → Memᴰ p (outdated owned) × All (λ q. before highest_first q p ≡ false) (outdated owned)
  unfolding sorted
  sorted_safe owned p ps some_left e = go (outdated owned) refl
    where
      go :
          (l : List Pod)
          → outdated owned ≡ l
          → Memᴰ p (outdated owned) × All (λ q. before highest_first q p ≡ false) (outdated owned)
      go [] none_left = absurd (some_left none_left)
      go (x ∷ xs) found =
          let least =
            sort_HasLeast (before highest_first) (before-IsWeakOrder highest_first) x xs in
          let same : least.first ≡ p = cc (least.sorted_eq) in
          rw found (
            subst (λ r. Memᴰ r (x ∷ xs) × All (λ q. before highest_first q r ≡ false) (x ∷ xs)) same
              (least.member, least.least))

-- A pod is deleted only in a restart that is wanted, with every owned pod ready and the health check
-- passed; it is an owned pod on an old revision, and no owned pod on an old revision comes before it
-- in the order asked for.
pub orchestrate_restart-SafeToDelete :
    (sts : StatefulSet) (listed : Result (List Pod)) (health : Result (Bool × Bytes))
    (delete : Pod → Option Bytes) (highest_first : Bool) (p : Pod)
    → (orchestrate_restart sts listed health delete highest_first).deleted ≡ some p
    → SafeToDelete sts listed health highest_first p
unfolding orchestrate_restart
orchestrate_restart-SafeToDelete sts listed health delete highest_first p h =
    elim (Result-cases listed) [
      | inr (e, q) ↦ absurd (ground arith)
      | inl (pods, q) ↦
          let owned = filter (owned_by sts.uid) pods in
          let differ : bytes_eq sts.update_revision sts.current_revision ≡ false = ground arith in
          let from_owned : (restart_owned sts health delete highest_first owned).deleted ≡ some p =
            ground arith in
          let (left, ready, (m, good), (ps, first)) =
            deletion_passed sts health delete highest_first owned p from_owned in
          let (mem, extreme) = sorted_safe sts health delete highest_first owned p ps left first in
          let (mem', old) = mem-filter (λ q. not (is_updated sts.update_revision q)) p owned mem in
          let (mem'', own) = mem-filter (owned_by sts.uid) p pods mem' in
          record {
            restart_wanted = λ e. cc ((bytes_eq_iff sts.update_revision sts.current_revision).1 e);
            pods = pods;
            were_listed = q;
            is_listed = mem'';
            is_owned = own;
            is_outdated = ground arith;
            all_ready = first_unready-All owned ready;
            reason = m;
            healthy = good;
            extreme = extreme;
          }
    ]
