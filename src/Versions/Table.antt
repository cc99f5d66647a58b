-- ===== src/Versions/Table.antt =====
-- The table wazuhVersionMapping of pkg/versions/versions.go, and the order of the walk over it.
use mathlib.Core.List.{Memᴰ}
use wazuh_operator.Common.{
  ◌≡◌, refl, sym, ap, ◌∙◌, subst, ◌⊎◌, inl, inr, List, [], ◌∷◌, Option, none, some, Bool, true,
  false, Bool-cases, not, ◌&&◌, if◌then◌else◌, arith, ℤ, pos, ltb_ℤ, leb_ℤ, eqb_ℤ, ◌≤ℤ◌, Bytes,
  codes, trim_prefix, all, all_of_mem, Option-cases,
}
use wazuh_operator.Kube.{ok, err, Result-cases}
use wazuh_operator.Versions.{
  Version, Entry, WazuhVersionInfo, Best, parse_version, best_match, wazuh_version_mapping,
  get_wazuh_version_info,
}
use wazuh_operator.Versions.Lookup.{Fits, IsBest, nothing, found, best_match-IsBest, IsBest-iff}

parsed : Entry → Option Version
parsed (key, info) = elim (parse_version key) [ err _ ↦ none | ok v ↦ some v ]

same_version : Option Version → Option Version → Bool
same_version (some v) (some w) =
    eqb_ℤ v.major w.major && eqb_ℤ v.minor w.minor && eqb_ℤ v.patch w.patch
same_version x y = false

-- No later entry has the version of an earlier one.
distinct_versions : List Entry → Bool
unfolding parsed same_version
distinct_versions [] = true
distinct_versions (e ∷ es) =
    all (λ x. not (same_version (parsed e) (parsed x))) es && distinct_versions es

table_distinct : distinct_versions wazuh_version_mapping ≡ true
unfolding distinct_versions wazuh_version_mapping parse_version wazuh_operator.Common.split
    wazuh_operator.Common.atoi
table_distinct = refl

same_version_sym : (v w : Version) → same_version (some v) (some w) ≡ same_version (some w) (some v)
unfolding same_version
same_version_sym v w = ground arith

pub all_lem :
    {A : Type 0} (p : A → Bool) (xs : List A) (x : A) → all p xs ≡ true → Memᴰ x xs → p x ≡ true
all_lem p [] x h m = elim m [ ]
all_lem p (y ∷ ys) x h (Memᴰ.head e) =
    let (a, b) : (p y ≡ true) × (all p ys ≡ true) = (ground arith, ground arith) in rw e a
all_lem p (y ∷ ys) x h (Memᴰ.tail m) = all_lem p ys x (ground arith) m

clash :
    (x e : Entry) (v w : Version)
    → parsed x ≡ some v
    → parsed e ≡ some w
    → same_version (some v) (some w) ≡ true
    → not (same_version (parsed x) (parsed e)) ≡ true
    → {A : Type 0} → A
clash x e v w a b s apart = absurd (ground arith)

one_entry :
    (es : List Entry) (e e' : Entry) (v w : Version)
    → distinct_versions es ≡ true
    → Memᴰ e es
    → Memᴰ e' es
    → parsed e ≡ some v
    → parsed e' ≡ some w
    → same_version (some v) (some w) ≡ true
    → e ≡ e'
unfolding distinct_versions
one_entry [] e e' v w d m n a b s = elim m [ ]
one_entry (x ∷ es) e e' v w d (Memᴰ.head p) (Memᴰ.head q) a b s = p ∙ sym q
one_entry (x ∷ es) e e' v w d (Memᴰ.head p) (Memᴰ.tail m) a b s =
    let apart = all_lem (λ y. not (same_version (parsed x) (parsed y))) es e' (ground arith) m in
    clash x e' v w (rw p at a) b s apart
one_entry (x ∷ es) e e' v w d (Memᴰ.tail m) (Memᴰ.head q) a b s =
    let apart = all_lem (λ y. not (same_version (parsed x) (parsed y))) es e (ground arith) m in
    sym (clash x e w v (rw q at b) a (rw (same_version_sym v w) at s) apart)
one_entry (x ∷ es) e e' v w d (Memᴰ.tail m) (Memᴰ.tail n) a b s =
    one_entry es e e' v w (ground arith) m n a b s

abbrev pub InTable : Entry → Type 0
InTable e = Memᴰ e wazuh_version_mapping

parsed_of_Fits : (wanted : Version) (e : Entry) (v : Version) → Fits wanted e v → parsed e ≡ some v
unfolding parsed
parsed_of_Fits wanted (key, info) v (a, _, _, _) = rw (parsed, a) refl

same_of_Fits :
    (wanted : Version) (e e' : Entry) (v w : Version)
    → Fits wanted e v
    → Fits wanted e' w
    → v.patch ≤ℤ w.patch
    → w.patch ≤ℤ v.patch
    → same_version (some v) (some w) ≡ true
unfolding same_version
same_of_Fits wanted e e' v w (_, a, b, _) (_, c, d, _) h k = ground arith

-- What an answer says to the caller.
answer : Best → Option WazuhVersionInfo
answer none = none
answer (some (info, _)) = some info

one_best :
    (wanted : Version) (best best' : Best)
    → IsBest wanted InTable best
    → IsBest wanted InTable best'
    → answer best ≡ answer best'
unfolding answer
one_best wanted best best' (nothing h) (nothing h') = refl
one_best wanted best best' (nothing h) (found e u m f _) = absurd (h e u m f)
one_best wanted best best' (found e u m f _) (nothing h) = absurd (h e u m f)
one_best wanted best best' (found e u m f h) (found e' u' m' f' h') =
    let a = h e' u' m' f' in
    let b = h' e u m f in
    let s : same_version (some u) (some u') ≡ true = same_of_Fits wanted e e' u u' f f' b a in
    ap (λ x. some x.1)
      (one_entry wazuh_version_mapping e e' u u' table_distinct m m' (parsed_of_Fits wanted e u f)
        (parsed_of_Fits wanted e' u' f') s)

walk_answer :
    (order order' : List Entry) (wanted : Version)
    → ((e : Entry) → (Memᴰ e order → InTable e) × (InTable e → Memᴰ e order))
    → ((e : Entry) → (Memᴰ e order' → InTable e) × (InTable e → Memᴰ e order'))
    → answer (best_match wanted none order) ≡ answer (best_match wanted none order')
walk_answer order order' wanted h h' =
    one_best wanted (best_match wanted none order) (best_match wanted none order')
      (IsBest-iff wanted (λ e. Memᴰ e order) InTable (best_match wanted none order) (λ e. (h e).0)
        (λ e. (h e).1) (best_match-IsBest wanted order))
      (IsBest-iff wanted (λ e. Memᴰ e order') InTable (best_match wanted none order')
        (λ e. (h' e).0) (λ e. (h' e).1) (best_match-IsBest wanted order'))

-- The answer of GetWazuhVersionInfo does not depend on the order in which Go walks the table: any
-- two lists that have exactly the table's entries give the same result.
pub get_wazuh_version_info-order :
    (order order' : List Entry) (s : Bytes)
    → ((e : Entry) → (Memᴰ e order → InTable e) × (InTable e → Memᴰ e order))
    → ((e : Entry) → (Memᴰ e order' → InTable e) × (InTable e → Memᴰ e order'))
    → get_wazuh_version_info order s ≡ get_wazuh_version_info order' s
unfolding get_wazuh_version_info answer
get_wazuh_version_info-order order order' s h h' =
    elim (Result-cases (parse_version (trim_prefix (codes "v") s))) [
      | inl (wanted, e) ↦ let same = walk_answer order order' wanted h h' in ground arith
      | inr (m, e) ↦ ground arith
    ]
