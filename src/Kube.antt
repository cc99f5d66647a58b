-- ===== src/Kube.antt =====
-- The Kubernetes objects that the operator reads, and its client. The API server is not part of the
-- program: a client is a parameter, over a store of its own.
use wazuh_operator.Common.{◌≡◌, refl, ◌⊎◌, inl, inr, Option, ℤ, Bytes}

pub record StatefulSet : Type 0 where
  pub name : Bytes
  pub namespace : Bytes
  pub uid : Bytes
  pub spec_replicas : Option ℤ
  pub status_replicas : ℤ
  pub ready_replicas : ℤ
  pub update_revision : Bytes
  pub current_revision : Bytes

-- A pair of a value and a Go error of which one is nil.
pub data Result {ℓ} (A : Type ℓ) : Type ℓ where
  ok : A → Result A
  err : Bytes → Result A

-- Get and Update of StatefulSets; a failed Update stores nothing.
pub record Client : Type 1 where
  pub Store : Type 0
  pub get : Store → (namespace name : Bytes) → Result StatefulSet
  pub update : Store → StatefulSet → Result Store

-- What the API server documents of an accepted update: a later read gives the spec that was
-- written. (The status belongs to the StatefulSet controller.)
pub record ReadsWrites (c : Client) : Type 0 where
  pub get_after :
      (st st' : c.Store) (s : StatefulSet)
      → c.update st s ≡ ok st'
      → (t : StatefulSet) × (c.get st' s.namespace s.name ≡ ok t)
        × (t.spec_replicas ≡ s.spec_replicas)
        × (t.name ≡ s.name)
        × (t.namespace ≡ s.namespace)
  -- An object is read under its own key.
  pub get_key :
      (st : c.Store) (namespace name : Bytes) (s : StatefulSet)
      → c.get st namespace name ≡ ok s
      → (s.namespace ≡ namespace) × (s.name ≡ name)

pub Result-cases {ℓ} :
    {A : Type ℓ} (r : Result A) → ((a : A) × (r ≡ ok a)) ⊎ ((e : Bytes) × (r ≡ err e))
Result-cases (ok a) = inl (a, refl)
Result-cases (err e) = inr (e, refl)
