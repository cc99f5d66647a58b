-- ===== src/Storage/Sizes.antt =====
-- Which volumes the reconcilers enlarge (internal/shared/storage/validation.go and
-- internal/wazuh/reconciler/cluster_reconciler_volume.go).
use wazuh_operator.Common.{
  ◌≡◌, refl, ◌⊎◌, inl, inr, Option, true, false, Bool-cases, Option-cases, none, some, List, [],
  ◌∷◌, All, ap, ◌∙◌, bytes_eq_iff, arith, Bytes, codes, bytes_eq,
}
use mathlib.Core.List.{Memᴰ}
use wazuh_operator.Kube.{ok, Result-cases}
use wazuh_operator.Drain.Status.{GoError}
use wazuh_operator.Storage.{
  Comparison, less, same, more, Quantities, Pvc, PvcCondition, PvcExpansionCondition, StorageClass,
  find_default, find_condition, resizing, file_system_resize_pending, get_default_storage_class,
  VolumeClient, ExpansionValidationResult, validate_expansion, no_validation, check_class,
  request_of, is_shrink_request, get_storage_class_for_pvc, can_storage_class_expand,
  get_pvc_expansion_condition, expand_pvc,
}
use wazuh_operator.Storage.Process.{
  Expansion, Plan, skip, fail, is_at_size, is_growing, grow, plan_invalid, plan_pvc, apply_plan,
  process_pvc,
}

-- A condition that says that a growth of the volume is under way.
abbrev pub SaysGrowing : PvcCondition → Type 0
SaysGrowing k =
    ((k.type_ ≡ codes "Resizing") ⊎ (k.type_ ≡ codes "FileSystemResizePending"))
    × (k.status ≡ codes "True")

-- The volume names no class, and a listed class of this name is marked as the default.
pub record IsDefaultOf {Quantity : Type 0} (c : VolumeClient Quantity) (asked : Option Bytes)
    (name : Bytes) (st : c.Store) : Type 0 where
  pub none_named : (asked ≡ none) ⊎ (asked ≡ some [])
  pub classes : List StorageClass
  pub listed : c.list_storage_classes st ≡ ok classes
  pub default_class : StorageClass
  pub is_member : Memᴰ default_class classes
  pub is_marked : default_class.is_default ≡ some (codes "true")
  pub is_named : default_class.name ≡ name

-- The volume asks for less than the wanted size; the storage class that it names, or the default
-- class, is read from the API server and has growth allowed; and no condition of the volume says that
-- a growth is under way.
pub record MayGrow (qs : Quantities) (c : VolumeClient qs.Quantity) (pvc : Pvc qs.Quantity)
    (size : Bytes) (st : c.Store) : Type 0 where
  pub wanted : qs.Quantity
  pub parsed : qs.parse_quantity size ≡ ok wanted
  pub larger : qs.cmp (request_of qs pvc) wanted ≡ less
  pub class_name : Bytes
  pub class : StorageClass
  pub has_class :
      (pvc.storage_class_name ≡ some class_name)
      ⊎ IsDefaultOf c pvc.storage_class_name class_name st
  pub read : c.get_storage_class st class_name ≡ ok class
  pub allowed : class.allow_volume_expansion ≡ some true
  pub settled : All (λ k. ¬ SaysGrowing k) pvc.conditions

find_default-Memᴰ :
    (classes : List StorageClass) (name : Bytes)
    → find_default classes ≡ ok name
    → (k : StorageClass) × Memᴰ k classes × (k.is_default ≡ some (codes "true")) × (k.name ≡ name)
unfolding find_default
find_default-Memᴰ [] name h = absurd (ground arith)
find_default-Memᴰ (k ∷ ks) name h = elim (Option-cases k.is_default) [
  | inl unmarked ↦
      let (k', member, marked, named) = find_default-Memᴰ ks name (ground arith) in
      (k', Memᴰ.tail member, marked, named)
  | inr (v, has_mark) ↦ elim (Bool-cases (bytes_eq v (codes "true"))) [
    | inl marked ↦
        let is_true = (bytes_eq_iff v (codes "true")).0 marked in
        (k, Memᴰ.head refl, has_mark ∙ ap some is_true, ground arith)
    | inr other ↦
        let (k', member, marked, named) = find_default-Memᴰ ks name (ground arith) in
        (k', Memᴰ.tail member, marked, named)
  ]
]

bytes_eq-false : (a b : Bytes) → bytes_eq a b ≡ false → ¬ (a ≡ b)
bytes_eq-false a b h e = let same = (bytes_eq_iff a b).1 e in ground arith

abbrev Found : List PvcCondition → Type 0
Found ks = (k : PvcExpansionCondition) × (find_condition ks ≡ some k) × (k.is_complete ≡ false)

-- A condition is found, or it is passed over and does not say that the volume grows.
condition_step :
    (k : PvcCondition) (ks : List PvcCondition)
    → Found (k ∷ ks) ⊎ ((find_condition (k ∷ ks) ≡ find_condition ks) × (¬ SaysGrowing k))
unfolding find_condition
condition_step k ks = elim (Bool-cases (bytes_eq k.status (codes "True"))) [
  | inr over ↦ inr (ground arith, λ g. bytes_eq-false k.status (codes "True") over g.1)
  | inl now ↦ elim (Bool-cases (bytes_eq k.type_ (codes "Resizing"))) [
    | inl resizes ↦
        inl (
          record { phase = resizing; message = k.message; is_complete = false },
          ground arith,
          refl,
        )
    | inr not_resizing ↦ elim (Bool-cases (bytes_eq k.type_ (codes "FileSystemResizePending"))) [
      | inl pends ↦ inl (
        record { phase = file_system_resize_pending; message = k.message; is_complete = false },
        ground arith,
        refl,
      )
      | inr not_pending ↦ inr (
        ground arith,
        λ g. elim g.0 [
          | inl e ↦ bytes_eq-false k.type_ (codes "Resizing") not_resizing e
          | inr e ↦ bytes_eq-false k.type_ (codes "FileSystemResizePending") not_pending e
        ],
      )
    ]
  ]
]

-- A condition found among them is not complete, and if none is found, none says that the volume grows.
find_condition_lem :
    (ks : List PvcCondition)
    → Found ks ⊎ ((find_condition ks ≡ none) × All (λ k. ¬ SaysGrowing k) ks)
unfolding find_condition
find_condition_lem [] = inr (refl, tt)
find_condition_lem (k ∷ ks) = elim (condition_step k ks) [
  | inl found ↦ inl found
  | inr (passed, quiet) ↦ elim (find_condition_lem ks) [
    | inl (x, found, growing) ↦ inl (x, passed ∙ found, growing)
    | inr (none_found, rest) ↦ inr (passed ∙ none_found, (quiet, rest))
  ]
]

expansion_settled :
    (qs : Quantities) (pvc : Pvc qs.Quantity)
    → (get_pvc_expansion_condition qs pvc).is_complete ≡ true
    → All (λ k. ¬ SaysGrowing k) pvc.conditions
unfolding get_pvc_expansion_condition
expansion_settled qs pvc h = elim (find_condition_lem pvc.conditions) [
  | inl (k, found, growing) ↦ absurd (ground arith)
  | inr (none_found, quiet) ↦ quiet
]

module _ (qs : Quantities) (c : VolumeClient qs.Quantity) where
  open qs use {Quantity}

  default_found :
      (asked : Option Bytes) (st : c.Store) (name : Bytes)
      → (asked ≡ none) ⊎ (asked ≡ some [])
      → get_default_storage_class qs c st ≡ ok name
      → IsDefaultOf c asked name st
  unfolding get_default_storage_class
  default_found asked st name unnamed h = elim (Result-cases (c.list_storage_classes st)) [
    | inr (e, p) ↦ absurd (ground (arith, p))
    | inl (classes, p) ↦
        let (k, member, marked, named) = find_default-Memᴰ classes name (ground (arith, p)) in
        record {
          none_named = unnamed;
          classes = classes;
          listed = p;
          default_class = k;
          is_member = member;
          is_marked = marked;
          is_named = named;
        }
  ]

  class_found :
      (asked : Option Bytes) (st : c.Store) (name : Bytes)
      → get_storage_class_for_pvc qs c asked st ≡ ok name
      → (asked ≡ some name) ⊎ IsDefaultOf c asked name st
  unfolding get_storage_class_for_pvc get_default_storage_class
  class_found none st name h = inr (default_found none st name (inl refl) h)
  class_found (some []) st name h = inr (default_found (some []) st name (inr refl) h)
  class_found (some (b ∷ bs)) st name h = inl (ground arith)

  class_reads :
      (name : Bytes) (st : c.Store)
      → can_storage_class_expand qs c name st ≡ ok true
      → (k : StorageClass) × (c.get_storage_class st name ≡ ok k)
        × (k.allow_volume_expansion ≡ some true)
  unfolding can_storage_class_expand
  class_reads [] st h = absurd (ground arith)
  class_reads (b ∷ bs) st h = elim (Result-cases (c.get_storage_class st (b ∷ bs))) [
    | inr (e, p) ↦ absurd (ground (arith, p))
    | inl (k, p) ↦ elim (Option-cases k.allow_volume_expansion) [
      | inl unset ↦ absurd (ground arith)
      | inr (allowed, set) ↦ (k, p, ground arith)
    ]
  ]

  class_allows :
      (pvc : Pvc Quantity) (st : c.Store) (r : ExpansionValidationResult Quantity)
      → r.valid ≡ false
      → (check_class qs c pvc st r).valid ≡ true
      → (name : Bytes) × (get_storage_class_for_pvc qs c pvc.storage_class_name st ≡ ok name)
        × (can_storage_class_expand qs c name st ≡ ok true)
  unfolding check_class
  class_allows pvc st r v h =
      elim (Result-cases (get_storage_class_for_pvc qs c pvc.storage_class_name st)) [
        | inr (e, p) ↦ absurd (ground (arith, p, v))
        | inl (name, p) ↦ elim (Result-cases (can_storage_class_expand qs c name st)) [
          | inr (e, q) ↦ absurd (ground (arith, p, q, v))
          | inl (false, q) ↦ absurd (ground (arith, p, q, v))
          | inl (true, q) ↦ (name, p, q)
        ]
      ]

  invalid_grows :
      (r : ExpansionValidationResult Quantity) (size : Bytes) → plan_invalid qs r size ≡ grow → ⊥
  invalid_grows r size h = elim (Bool-cases (bytes_eq r.error_message (codes ""))) [
    | inl p ↦ ground (arith, p)
    | inr p ↦ elim (Result-cases (is_shrink_request qs (qs.show_quantity r.current_size) size)) [
      | inr (e, q) ↦ ground (arith, p, q)
      | inl (true, q) ↦ ground (arith, p, q)
      | inl (false, q) ↦ ground (arith, p, q)
    ]
  ]

  plan_grows :
      (r : ExpansionValidationResult Quantity) (size : Bytes) (pvc : Pvc Quantity)
      → plan_pvc qs r size pvc ≡ grow
      → (r.valid ≡ true)
        × (r.needs_expansion ≡ true)
        × ((get_pvc_expansion_condition qs pvc).is_complete ≡ true)
  unfolding plan_pvc
  plan_grows r size pvc h = elim (Bool-cases r.valid) [
    | inr p ↦ absurd (invalid_grows r size (ground (arith, p)))
    | inl p ↦ (p, ground (arith, p), ground (arith, p))
  ]

  validation_grows :
      (pvc : Pvc Quantity) (size : Bytes) (st : c.Store)
      → (validate_expansion qs c pvc size st).valid ≡ true
      → (validate_expansion qs c pvc size st).needs_expansion ≡ true
      → (get_pvc_expansion_condition qs pvc).is_complete ≡ true
      → MayGrow qs c pvc size st
  unfolding validate_expansion
  validation_grows pvc size st v n s = elim (Result-cases (qs.parse_quantity size)) [
    | inr (e, p) ↦ absurd (ground (arith, p))
    | inl (q, p) ↦ go q p (qs.cmp (request_of qs pvc) q) refl
  ]
    where
      go :
          (q : Quantity)
          → qs.parse_quantity size ≡ ok q
          → (o : Comparison) → qs.cmp (request_of qs pvc) q ≡ o
          → MayGrow qs c pvc size st
      go q p same e = absurd (ground (arith, p, e))
      go q p more e = absurd (ground (arith, p, e))
      go q p less e =
          let r = record (no_validation qs c) {
            wanted_size = q;
            current_size = request_of qs pvc;
            needs_expansion = true;
          } in
          let (name, a, b) = class_allows pvc st r refl (ground (arith, p, e)) in
          let (k, read, allowed) = class_reads name st b in
          record {
            wanted = q;
            parsed = p;
            larger = e;
            class_name = name;
            class = k;
            has_class = class_found pvc.storage_class_name st name a;
            read = read;
            allowed = allowed;
            settled = expansion_settled qs pvc s;
          }

  plan_applied :
      {A : Type 0} (p : Plan) (name : Bytes) (o : c.Store × Option GoError) (x : Expansion)
      (st : c.Store)
      → (p ≡ grow → A)
      → ((apply_plan p name o x st).1 ≡ st) ⊎ A
  unfolding apply_plan
  plan_applied skip name o x st h = inl refl
  plan_applied (fail m) name o x st h = inl refl
  plan_applied is_at_size name o x st h = inl refl
  plan_applied is_growing name o x st h = inl refl
  plan_applied grow name o x st h = inr (h refl)

  -- A round of the loop over the volumes leaves the API server's store, or the volume asks for less
  -- than the wanted size, the storage class that it names, or a class marked as the default, is read
  -- with growth allowed, and no condition Resizing or FileSystemResizePending of the volume is True.
  pub process_pvc-MayGrow :
      (size stamp : Bytes) (pvc : Pvc Quantity) (x : Expansion) (st : c.Store)
      → ((process_pvc qs c size stamp pvc (x, st)).1 ≡ st) ⊎ MayGrow qs c pvc size st
  unfolding process_pvc
  process_pvc-MayGrow size stamp pvc x st =
      plan_applied (plan_pvc qs (validate_expansion qs c pvc size st) size pvc) pvc.name
        (expand_pvc qs c size stamp pvc st) x st
        (λ e.
          let (v, n, s) = plan_grows (validate_expansion qs c pvc size st) size pvc e in
          validation_grows pvc size st v n s)
