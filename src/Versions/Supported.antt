-- ===== src/Versions/Supported.antt =====
-- GetWazuhVersionInfo and IsWazuhVersionSupported of pkg/versions/versions.go beside each other.
use mathlib.Core.List.{Memᴰ}
use wazuh_operator.Common.{
  ◌≡◌, refl, subst, inl, inr, List, [], ◌∷◌, ◌++◌, none, some, Bool, true, false, Bool-cases,
  Option-cases, ◌&&◌, arith, pos, eqb_ℤ, leb_ℤ, ◌≤ℤ◌, Bytes, codes, bytes_eq, bytes_eq_iff, all,
  split, atoi, trim_prefix,
}
use wazuh_operator.Kube.{ok, err, Result-cases}
use wazuh_operator.Versions.{
  Version, Entry, WazuhVersionInfo, Best, parse_version, lookup_entry, best_match,
  wazuh_version_mapping, get_wazuh_version_info,
}
use wazuh_operator.Versions.Support.{is_wazuh_version_supported}
use wazuh_operator.Versions.Lookup.{Fits, IsBest, nothing, found, best_match-IsBest}
use wazuh_operator.Versions.Table.{InTable, all_lem}

-- A version 4.9 or later of the series 4.
abbrev in_series : Bytes → Bool
in_series key = elim (parse_version key) [
  | err _ ↦ false
  | ok v ↦ eqb_ℤ v.major (pos 4) && leb_ℤ (pos 9) v.minor
]

table_series : all (λ e. in_series e.0) wazuh_version_mapping ≡ true
unfolding wazuh_version_mapping parse_version split atoi
table_series = refl

entry_series : (e : Entry) → InTable e → in_series e.0 ≡ true
entry_series e m = all_lem (λ x. in_series x.0) wazuh_version_mapping e table_series m

supported_of_series : (key : Bytes) → in_series key ≡ true → is_wazuh_version_supported key ≡ true
unfolding is_wazuh_version_supported
supported_of_series key h = ground arith

-- A key that is found is in the series, when all keys are.
lookup_series :
    (key : Bytes) (es : List Entry) (info : WazuhVersionInfo)
    → all (λ e. in_series e.0) es ≡ true
    → lookup_entry key es ≡ some info
    → in_series key ≡ true
unfolding lookup_entry
lookup_series key [] info h g = absurd (ground arith)
lookup_series key ((k, i) ∷ es) info h g = elim (Bool-cases (bytes_eq k key)) [
  | inl same ↦
      let this : in_series k ≡ true = ground arith in
      subst (λ x. in_series x ≡ true) ((bytes_eq_iff k key).0 same) this
  | inr other ↦ lookup_series key es info (ground arith) (ground arith)
]

-- The wanted version is of the series of an entry that fits.
Fits-series :
    (wanted : Version) (e : Entry) (v : Version)
    → InTable e
    → Fits wanted e v
    → (wanted.major ≡ pos 4) × (pos 9 ≤ℤ wanted.minor)
Fits-series wanted e v m (a, b, c, _) = let s = entry_series e m in (ground arith, ground arith)

-- A best match exists only for a version of the series.
best_series :
    (wanted : Version) (order : List Entry) (r : WazuhVersionInfo × Version)
    → ((e : Entry) → Memᴰ e order → InTable e)
    → best_match wanted none order ≡ some r
    → (wanted.major ≡ pos 4) × (pos 9 ≤ℤ wanted.minor)
best_series wanted order r h g =
    go (best_match wanted none order) g (best_match-IsBest wanted order)
  where
    go :
        (best : Best)
        → best ≡ some r
        → IsBest wanted (λ e. Memᴰ e order) best
        → (wanted.major ≡ pos 4) × (pos 9 ≤ℤ wanted.minor)
    go best e (nothing _) = absurd (ground arith)
    go best e (found x u s f _) = Fits-series wanted x u (h x s) f

-- A version that GetWazuhVersionInfo answers for is one that IsWazuhVersionSupported accepts, once
-- the prefix "v" is taken off.
pub get_wazuh_version_info-supported :
    (order : List Entry) (s : Bytes) (info : WazuhVersionInfo)
    → ((e : Entry) → Memᴰ e order → InTable e)
    → get_wazuh_version_info order s ≡ ok info
    → is_wazuh_version_supported (trim_prefix (codes "v") s) ≡ true
unfolding get_wazuh_version_info is_wazuh_version_supported
get_wazuh_version_info-supported order s info h g =
    let text = trim_prefix (codes "v") s in
    elim (Option-cases (lookup_entry text wazuh_version_mapping)) [
      | inr (i, e) ↦
          supported_of_series text (lookup_series text wazuh_version_mapping i table_series e)
      | inl none_there ↦ elim (Result-cases (parse_version text)) [
        | inr (m, e) ↦ absurd (ground arith)
        | inl (wanted, e) ↦ elim (Option-cases (best_match wanted none order)) [
          | inl nothing_fits ↦ absurd (ground arith)
          | inr (r, f) ↦ let (major, minor) = best_series wanted order r h f in ground arith
        ]
      ]
    ]

-- A version from 5.0 on is accepted by IsWazuhVersionSupported, and GetWazuhVersionInfo reports an
-- error for it.
pub supported_unknown :
    (order : List Entry) (s : Bytes) (wanted : Version)
    → ((e : Entry) → Memᴰ e order → InTable e)
    → parse_version (trim_prefix (codes "v") s) ≡ ok wanted
    → pos 5 ≤ℤ wanted.major
    → (is_wazuh_version_supported (trim_prefix (codes "v") s) ≡ true)
      × ((m : Bytes) × (get_wazuh_version_info order s ≡ err m))
unfolding get_wazuh_version_info is_wazuh_version_supported
supported_unknown order s wanted h p late =
    let text = trim_prefix (codes "v") s in
    (
      ground arith,
      elim (Option-cases (lookup_entry text wazuh_version_mapping)) [
        | inr (i, e) ↦
            let series = lookup_series text wazuh_version_mapping i table_series e in
            absurd (ground arith)
        | inl none_there ↦ elim (Option-cases (best_match wanted none order)) [
          | inr (r, f) ↦
              let (major, minor) = best_series wanted order r h f in absurd (ground arith)
          | inl nothing_fits ↦ (
            codes "unsupported Wazuh version "
                ++ (text ++ codes ": only versions 4.9.0 and above are supported"),
            ground arith,
          )
        ]
      ],
    )
