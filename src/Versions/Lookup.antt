-- ===== src/Versions/Lookup.antt =====
-- The walk of GetWazuhVersionInfo (pkg/versions/versions.go) over its table.
use mathlib.Core.List.{Memᴰ}
use wazuh_operator.Common.{
  subst, ◌≡◌, refl, ◌⊎◌, inl, inr, List, [], ◌∷◌, Option, none, some, Bool-cases, ◌&&◌,
  if◌then◌else◌, Option-cases, arith, ltb_ℤ, leb_ℤ, eqb_ℤ, ◌≤ℤ◌,
}
use wazuh_operator.Kube.{ok, err}
use wazuh_operator.Versions.{Version, Entry, Best, improves, parse_version, best_step, best_match}

-- An entry of the wanted major and minor version, with no later patch.
abbrev pub Fits : Version → Entry → Version → Type 0
Fits wanted e v =
    (parse_version e.0 ≡ ok v)
    × (v.major ≡ wanted.major)
    × (v.minor ≡ wanted.minor)
    × (v.patch ≤ℤ wanted.patch)

-- The walk's result for the entries that were seen: none fits, or it is one that fits, and no other
-- that fits has a later patch.
pub data IsBest (wanted : Version) (seen : Entry → Type 0) : Best → Type 0 where
  nothing : ((e : Entry) (v : Version) → seen e → ¬ Fits wanted e v) → IsBest wanted seen none
  found :
      (e : Entry) (u : Version)
      → seen e
      → Fits wanted e u
      → ((e' : Entry) (v : Version) → seen e' → Fits wanted e' v → v.patch ≤ℤ u.patch)
      → IsBest wanted seen (some (e.1, u))

-- The version of an entry that fits.
candidate : Version → Entry → Option Version
candidate wanted (key, info) = elim (parse_version key) [
  | err _ ↦ none
  | ok v ↦
      if eqb_ℤ v.major wanted.major && eqb_ℤ v.minor wanted.minor && leb_ℤ v.patch wanted.patch
      then some v
      else none
]

candidate-some :
    (wanted : Version) (e : Entry) (v : Version) → candidate wanted e ≡ some v → Fits wanted e v
unfolding candidate
candidate-some wanted (key, info) v h = ground arith

candidate-none :
    (wanted : Version) (e : Entry) (v : Version) → candidate wanted e ≡ none → Fits wanted e v → ⊥
unfolding candidate
candidate-none wanted (key, info) v h (a, b, c, d) = ground arith

candidate_of_Fits :
    (wanted : Version) (e : Entry) (v w : Version)
    → candidate wanted e ≡ some w
    → Fits wanted e v
    → v ≡ w
candidate_of_Fits wanted e v w h (a, _, _, _) = let (b, _, _, _) = candidate-some wanted e w h in cc

best_step_lem :
    (wanted : Version) (best : Best) (e : Entry)
    → best_step wanted best e ≡ elim (candidate wanted e) [
      | none ↦ best
      | some v ↦ if improves v best then some (e.1, v) else best
    ]
unfolding best_step candidate
best_step_lem wanted best (key, info) = ground arith

same_entry :
    (wanted : Version) (e e' : Entry) (v w : Version)
    → candidate wanted e ≡ some w
    → e' ≡ e
    → Fits wanted e' v
    → v.patch ≤ℤ w.patch
same_entry wanted e e' v w c eq f =
    let same : v ≡ w = candidate_of_Fits wanted e v w c (subst (λ x. Fits wanted x v) eq f) in
    rw same (omega arith)

unfit_IsBest :
    (wanted : Version) (seen : Entry → Type 0) (best : Best) (e : Entry)
    → candidate wanted e ≡ none
    → IsBest wanted seen best
    → IsBest wanted (λ x. seen x ⊎ (x ≡ e)) best
unfit_IsBest wanted seen best e c (nothing h) = nothing λ e' v s f. elim s [
  | inl old ↦ h e' v old f
  | inr eq ↦ candidate-none wanted e v c (subst (λ x. Fits wanted x v) eq f)
]
unfit_IsBest wanted seen best e c (found e0 u s f h) = found e0 u (inl s) f λ e' v s' f'. elim s' [
  | inl old ↦ h e' v old f'
  | inr eq ↦ absurd (candidate-none wanted e v c (subst (λ x. Fits wanted x v) eq f'))
]

fit_IsBest :
    (wanted : Version) (seen : Entry → Type 0) (best : Best) (e : Entry) (w : Version)
    → candidate wanted e ≡ some w
    → IsBest wanted seen best
    → IsBest wanted (λ x. seen x ⊎ (x ≡ e)) (if improves w best then some (e.1, w) else best)
fit_IsBest wanted seen best e w c (nothing h) =
    found e w (inr refl) (candidate-some wanted e w c) λ e' v s f. elim s [
      | inl old ↦ absurd (h e' v old f)
      | inr eq ↦ same_entry wanted e e' v w c eq f
    ]
fit_IsBest wanted seen best e w c (found e0 u s f h) = elim (Bool-cases (ltb_ℤ u.patch w.patch)) [
  | inl later ↦ rw later (
      found e w (inr refl) (candidate-some wanted e w c) λ e' v s' f'. elim s' [
        | inl old ↦ let le = h e' v old f' in ground arith
        | inr eq ↦ same_entry wanted e e' v w c eq f'
      ])
  | inr not_later ↦ rw not_later (
      found e0 u (inl s) f λ e' v s' f'. elim s' [
        | inl old ↦ h e' v old f'
        | inr eq ↦ let le = same_entry wanted e e' v w c eq f' in ground arith
      ])
]

best_step-IsBest :
    (wanted : Version) (seen : Entry → Type 0) (best : Best) (e : Entry)
    → IsBest wanted seen best
    → IsBest wanted (λ x. seen x ⊎ (x ≡ e)) (best_step wanted best e)
best_step-IsBest wanted seen best e h = elim (Option-cases (candidate wanted e)) [
  | inl c ↦ rw (best_step_lem wanted best e) (rw c (unfit_IsBest wanted seen best e c h))
  | inr (w, c) ↦ rw (best_step_lem wanted best e) (rw c (fit_IsBest wanted seen best e w c h))
]

pub IsBest-iff :
    (wanted : Version) (seen seen' : Entry → Type 0) (best : Best)
    → ((e : Entry) → seen e → seen' e)
    → ((e : Entry) → seen' e → seen e)
    → IsBest wanted seen best
    → IsBest wanted seen' best
IsBest-iff wanted seen seen' best to from (nothing h) = nothing λ e v s. h e v (from e s)
IsBest-iff wanted seen seen' best to from (found e u s f h) =
    found e u (to e s) f λ e' v s'. h e' v (from e' s')

walk_IsBest :
    (wanted : Version) (seen : Entry → Type 0) (best : Best) (es : List Entry)
    → IsBest wanted seen best
    → IsBest wanted (λ x. seen x ⊎ Memᴰ x es) (best_match wanted best es)
unfolding best_match
walk_IsBest wanted seen best [] h =
    IsBest-iff wanted seen (λ x. seen x ⊎ Memᴰ x []) best (λ e s. inl s)
      (λ e s. elim s [ inl a ↦ a | inr m ↦ absurd (elim m [ ]) ]) h
walk_IsBest wanted seen best (e ∷ es) h =
    IsBest-iff wanted (λ x. (seen x ⊎ (x ≡ e)) ⊎ Memᴰ x es) (λ x. seen x ⊎ Memᴰ x (e ∷ es))
      (best_match wanted (best_step wanted best e) es)
      (λ x s. elim s [
        | inl (inl a) ↦ inl a
        | inl (inr eq) ↦ inr (Memᴰ.head eq)
        | inr m ↦ inr (Memᴰ.tail m)
      ])
      (λ x s. back x s)
      (walk_IsBest wanted (λ x. seen x ⊎ (x ≡ e)) (best_step wanted best e) es
        (best_step-IsBest wanted seen best e h))
  where
    back : (x : Entry) → seen x ⊎ Memᴰ x (e ∷ es) → (seen x ⊎ (x ≡ e)) ⊎ Memᴰ x es
    back x (inl a) = inl (inl a)
    back x (inr (Memᴰ.head eq)) = inl (inr eq)
    back x (inr (Memᴰ.tail m)) = inr m

-- The walk over a list of entries finds the best of them: an entry of the wanted major and minor
-- version, with the latest patch that is not past the wanted one, or nothing if none fits.
pub best_match-IsBest :
    (wanted : Version) (es : List Entry)
    → IsBest wanted (λ e. Memᴰ e es) (best_match wanted none es)
best_match-IsBest wanted es =
    IsBest-iff wanted (λ x. ⊥ ⊎ Memᴰ x es) (λ x. Memᴰ x es) (best_match wanted none es)
      (λ e s. elim s [ inl a ↦ absurd a | inr m ↦ m ]) (λ e m. inr m)
      (walk_IsBest wanted (λ x. ⊥) none es (nothing λ e v s f. s))
