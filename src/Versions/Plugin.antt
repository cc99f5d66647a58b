-- ===== src/Versions/Plugin.antt =====
-- The plugin versions in the table of pkg/versions/versions.go.
use mathlib.Core.List.{Memᴰ}
use wazuh_operator.Common.{
  ◌≡◌, refl, subst, inl, inr, List, [], ◌∷◌, none, some, Bool, true, Bool-cases, Option-cases,
  arith, Bytes, codes, bytes_eq, bytes_eq_iff, all, split, join, trim_prefix,
}
use wazuh_operator.Kube.{ok, Result-cases}
use wazuh_operator.Versions.{
  Version, Entry, WazuhVersionInfo, Best, parse_version, lookup_entry, best_match,
  wazuh_version_mapping, get_wazuh_version_info,
}
use wazuh_operator.Versions.Support.{extract_opensearch_version}
use wazuh_operator.Versions.Lookup.{IsBest, nothing, found, best_match-IsBest}
use wazuh_operator.Versions.Table.{InTable, all_lem}

-- The plugin's version begins with the version of OpenSearch.
abbrev pub plugin_fits : WazuhVersionInfo → Bool
plugin_fits info =
    bytes_eq (extract_opensearch_version info.prometheus_exporter_plugin_version)
      info.opensearch_version

table_fits : all (λ e. plugin_fits e.1) wazuh_version_mapping ≡ true
unfolding wazuh_version_mapping extract_opensearch_version bytes_eq split join
table_fits = refl

fits_of_mem : (e : Entry) → InTable e → plugin_fits e.1 ≡ true
fits_of_mem e m = all_lem (λ x. plugin_fits x.1) wazuh_version_mapping e table_fits m

lookup_entry-fits :
    (key : Bytes) (es : List Entry) (info : WazuhVersionInfo)
    → all (λ e. plugin_fits e.1) es ≡ true
    → lookup_entry key es ≡ some info
    → plugin_fits info ≡ true
unfolding lookup_entry
lookup_entry-fits key [] info h g = absurd (ground arith)
lookup_entry-fits key ((k, i) ∷ es) info h g = elim (Bool-cases (bytes_eq k key)) [
  | inl same ↦
      let e : i ≡ info = ground arith in
      let fits : plugin_fits i ≡ true = ground arith in rw e at fits
  | inr other ↦ lookup_entry-fits key es info (ground arith) (ground arith)
]

best-fits :
    (wanted : Version) (order : List Entry) (info : WazuhVersionInfo) (v : Version)
    → ((e : Entry) → Memᴰ e order → InTable e)
    → best_match wanted none order ≡ some (info, v)
    → plugin_fits info ≡ true
best-fits wanted order info v h g =
    go (best_match wanted none order) g (best_match-IsBest wanted order)
  where
    go :
        (best : Best)
        → best ≡ some (info, v)
        → IsBest wanted (λ e. Memᴰ e order) best
        → plugin_fits info ≡ true
    go best e (nothing _) = absurd (ground arith)
    go best e (found x u s _ _) =
        let same : x.1 ≡ info = ground arith in rw same at (fits_of_mem x (h x s))

-- Whatever Wazuh version GetWazuhVersionInfo answers for, walking entries of the table in any order,
-- the plugin version of the answer begins with the answer's version of OpenSearch: the first three
-- parts, as ExtractOpenSearchVersionFromPluginVersion takes them.
pub extract-get_wazuh_version_info :
    (order : List Entry) (s : Bytes) (info : WazuhVersionInfo)
    → ((e : Entry) → Memᴰ e order → InTable e)
    → get_wazuh_version_info order s ≡ ok info
    → extract_opensearch_version info.prometheus_exporter_plugin_version ≡ info.opensearch_version
unfolding get_wazuh_version_info
extract-get_wazuh_version_info order s info h g =
    let text = trim_prefix (codes "v") s in
    (bytes_eq_iff _ _).0 (elim (Option-cases (lookup_entry text wazuh_version_mapping)) [
      | inr (i, e) ↦
          let fits = lookup_entry-fits text wazuh_version_mapping i table_fits e in
          let same : i ≡ info = ground arith in rw same at fits
      | inl none_there ↦ elim (Result-cases (parse_version text)) [
        | inr (m, e) ↦ absurd (ground arith)
        | inl (wanted, e) ↦ elim (Option-cases (best_match wanted none order)) [
          | inl nothing_fits ↦ absurd (ground arith)
          | inr ((i, v), f) ↦
              let fits : plugin_fits (record i { wazuh_version = text }) ≡ true =
                best-fits wanted order i v h f in
              let same : record i { wazuh_version = text } ≡ info = ground arith in
              subst (λ x. plugin_fits x ≡ true) same fits
        ]
      ]
    ])
