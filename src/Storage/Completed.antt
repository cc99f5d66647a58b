-- ===== src/Storage/Completed.antt =====
-- When the reconcilers report an expansion as completed
-- (internal/wazuh/reconciler/cluster_reconciler_volume.go).
use wazuh_operator.Common.{
  ◌≡◌, refl, sym, ap, ◌∙◌, ◌⊎◌, inl, inr, List, [], ◌∷◌, ◌++◌, map, Option, none, some, false,
  arith, Bytes, Time,
}
use mathlib.Core.List.{append-nil, append_assoc}
use wazuh_operator.Kube.{Result, ok}
use wazuh_operator.Drain.Status.{GoError}
use wazuh_operator.Storage.{
  Quantities, QuantityLaws, Pvc, VolumeClient, validate_expansion, expand_pvc, patched,
}
use wazuh_operator.Storage.Status.{
  ComponentExpansionStatus, ExpansionStatusUpdate, completed, update_component_expansion_status,
  create_completed_status,
}
use wazuh_operator.Storage.Process.{
  Expansion, no_progress, Plan, skip, fail, is_at_size, is_growing, grow, plan_pvc, apply_plan,
  process_pvc, process_volume_expansion, emits_completed, update_expansion_status,
}

-- A growth that was wanted has left a pending volume.
abbrev Waits : Expansion → Type 0
Waits x =
    (x.expansion_needed ≡ false) ⊎ ((b : Bytes) × (bs : List Bytes) × (x.pvcs_pending ≡ b ∷ bs))

appended :
    (xs : List Bytes) (a : Bytes) → (b : Bytes) × (bs : List Bytes) × (xs ++ (a ∷ []) ≡ b ∷ bs)
appended [] a = (a, [], refl)
appended (x ∷ xs) a = (x, xs ++ (a ∷ []), refl)

apply-Waits :
    {S : Type 0} (p : Plan) (name : Bytes) (o : S × Option GoError) (x : Expansion) (st : S)
    → Waits x
    → Waits (apply_plan p name o x st).0
unfolding apply_plan
apply-Waits skip name o x st w = w
apply-Waits (fail m) name o x st w = w
apply-Waits is_at_size name o x st w = w
apply-Waits is_growing name o x st w = inr (appended x.pvcs_pending name)
apply-Waits grow name (st', none) x st w = inr (appended x.pvcs_pending name)
apply-Waits grow name (st', some m) x st w = inr (appended x.pvcs_pending name)

Waits-silent : (x : Expansion) → Waits x → emits_completed x ≡ false
Waits-silent x (inr (b, bs, e)) = ground (arith, e)
Waits-silent x (inl e) = go x.pvcs_pending x.pvcs_expanded refl refl
  where
    go :
        (ps ds : List Bytes)
        → x.pvcs_pending ≡ ps
        → x.pvcs_expanded ≡ ds
        → emits_completed x ≡ false
    go (p ∷ ps) ds h k = ground (arith, h)
    go [] [] h k = ground (arith, h, k)
    go [] (d ∷ ds) h k = ground (arith, h, k, e)

updated_status :
    (now : Time) (s : Option ComponentExpansionStatus) (u : ExpansionStatusUpdate)
    → ((update_component_expansion_status now s u).phase ≡ u.phase)
      × ((update_component_expansion_status now s u).pvcs_pending ≡ u.pvcs_pending)
unfolding update_component_expansion_status
updated_status now none u = (refl, refl)
updated_status now (some s) u = (refl, refl)

module _ (qs : Quantities) (c : VolumeClient qs.Quantity) where
  open qs use {Quantity}

  process-Waits :
      (size stamp : Bytes) (pvcs : List (Pvc Quantity)) (x : Expansion) (st : c.Store)
      → Waits x
      → Waits (process_volume_expansion qs c size stamp pvcs (x, st)).0
  unfolding process_volume_expansion process_pvc
  process-Waits size stamp [] x st w = w
  process-Waits size stamp (pvc ∷ pvcs) x st w =
      let p = plan_pvc qs (validate_expansion qs c pvc size st) size pvc in
      let o = expand_pvc qs c size stamp pvc st in
      let y = apply_plan p pvc.name o x st in
      process-Waits size stamp pvcs y.0 y.1 (apply-Waits p pvc.name o x st w)

  -- A pass over any volumes never emits the event that all of them were expanded.
  pub process_never_emits :
      (size stamp : Bytes) (pvcs : List (Pvc Quantity)) (st : c.Store)
      → emits_completed (process_volume_expansion qs c size stamp pvcs (no_progress, st)).0 ≡ false
  process_never_emits size stamp pvcs st =
      Waits-silent (process_volume_expansion qs c size stamp pvcs (no_progress, st)).0
        (process-Waits size stamp pvcs no_progress st (inl refl))

  patched_at_size :
      (laws : QuantityLaws qs) (size stamp : Bytes) (q : Quantity) (pvc : Pvc Quantity)
      (st : c.Store)
      → qs.parse_quantity size ≡ ok q
      → plan_pvc qs
          (validate_expansion qs c (patched qs q size stamp pvc) size st)
          size
          (patched qs q size stamp pvc)
        ≡ is_at_size
  unfolding plan_pvc validate_expansion
  patched_at_size laws size stamp q pvc st h = ground (arith, h, laws.cmp_self q)

  process_one :
      (laws : QuantityLaws qs) (size stamp stamp' : Bytes) (q : Quantity) (pvc : Pvc Quantity)
      (x : Expansion) (st : c.Store)
      → qs.parse_quantity size ≡ ok q
      → process_pvc qs c size stamp' (patched qs q size stamp pvc) (x, st)
        ≡ (record x { pvcs_expanded = x.pvcs_expanded ++ (pvc.name ∷ []) }, st)
  unfolding process_pvc apply_plan
  process_one laws size stamp stamp' q pvc x st h =
      let pvc' = patched qs q size stamp pvc in
      ap (λ p. apply_plan p pvc.name (expand_pvc qs c size stamp' pvc' st) x st)
        (patched_at_size laws size stamp q pvc st h)

  process_patched :
      (laws : QuantityLaws qs) (size stamp stamp' : Bytes) (q : Quantity)
      (pvcs : List (Pvc Quantity)) (x : Expansion) (st : c.Store)
      → qs.parse_quantity size ≡ ok q
      → process_volume_expansion qs c size stamp' (map (patched qs q size stamp) pvcs) (x, st)
        ≡ (record x { pvcs_expanded = x.pvcs_expanded ++ map (λ p. p.name) pvcs }, st)
  unfolding process_volume_expansion
  process_patched laws size stamp stamp' q [] x st h =
      ap (λ ds. (record x { pvcs_expanded = ds }, st)) (sym (append-nil x.pvcs_expanded))
  process_patched laws size stamp stamp' q (pvc ∷ pvcs) x st h =
      let y = record x { pvcs_expanded = x.pvcs_expanded ++ (pvc.name ∷ []) } in
      ap (process_volume_expansion qs c size stamp' (map (patched qs q size stamp) pvcs))
        (process_one laws size stamp stamp' q pvc x st h)
      ∙ (process_patched laws size stamp stamp' q pvcs y st h
          ∙ ap (λ ds. (record x { pvcs_expanded = ds }, st))
              (append_assoc x.pvcs_expanded (pvc.name ∷ []) (map (λ p. p.name) pvcs)))

  -- The pass that follows the patches of some volumes, each accepted for the same size, reports the
  -- expansion as completed, whatever conditions the volumes are in: it compares the wanted size with
  -- the size that the patch asked for.
  pub patched_completes :
      (laws : QuantityLaws qs) (size stamp stamp' : Bytes) (q : Quantity) (pvc : Pvc Quantity)
      (pvcs : List (Pvc Quantity)) (st : c.Store) (now : Time)
      (listed : Result (List (Pvc Quantity))) (s : Option ComponentExpansionStatus)
      → qs.parse_quantity size ≡ ok q
      → (t : ComponentExpansionStatus) × (update_expansion_status qs now size
            (process_volume_expansion qs c size stamp'
              (map (patched qs q size stamp) (pvc ∷ pvcs))
              (no_progress, st)).0
            listed
            s
          ≡ some t)
        × (t.phase ≡ completed)
        × (t.pvcs_pending ≡ [])
  unfolding update_expansion_status update_component_expansion_status create_completed_status
  patched_completes laws size stamp stamp' q pvc pvcs st now listed s h =
      let all = process_patched laws size stamp stamp' q (pvc ∷ pvcs) no_progress st h in
      let u = create_completed_status size (pvc.name ∷ map (λ p. p.name) pvcs) in
      let (a, b) = updated_status now s u in
      (
        update_component_expansion_status now s u,
        ap (λ x. update_expansion_status qs now size x.0 listed s) all,
        a,
        b,
      )
