-- ===== src/Versions/Examples.antt =====
-- The results on versions at concrete inputs.
use mathlib.Core.List.{Memᴰ}
use mathlib.Core.List.Memᴰ
use wazuh_operator.Common.{◌≡◌, List, ◌++◌, inl, inr, none, arith, pos, codes}
use wazuh_operator.Kube.{ok}
use wazuh_operator.Versions.{
  version, Entry, parse_version, show_version, best_match, wazuh_version_mapping,
  get_wazuh_version_info,
}
use wazuh_operator.Versions.Format.{numbers, parse-show_version}
use wazuh_operator.Versions.Lookup.{IsBest, best_match-IsBest}
use wazuh_operator.Versions.Table.{InTable, get_wazuh_version_info-order}
use wazuh_operator.Versions.{WazuhVersionInfo}

parse-show_version_example : parse_version (show_version (numbers 4 14 3)) ≡ ok (numbers 4 14 3)
parse-show_version_example = parse-show_version 4 14 3 (omega arith) (omega arith) (omega arith)

best_match-IsBest_example :
    IsBest
      (version (pos 4) (pos 10) (pos 7))
      (λ e. Memᴰ e wazuh_version_mapping)
      (best_match (version (pos 4) (pos 10) (pos 7)) none wazuh_version_mapping)
best_match-IsBest_example =
    best_match-IsBest (version (pos 4) (pos 10) (pos 7)) wazuh_version_mapping

abbrev twice : List Entry
twice = wazuh_version_mapping ++ wazuh_version_mapping

twice_same : (e : Entry) → (Memᴰ e twice → InTable e) × (InTable e → Memᴰ e twice)
twice_same e = (
  λ m. elim (Memᴰ.append_cases wazuh_version_mapping m) [ inl a ↦ a | inr b ↦ b ],
  λ m. Memᴰ.append_left wazuh_version_mapping m,
)

-- The table walked twice.
get_wazuh_version_info-order_example :
    get_wazuh_version_info wazuh_version_mapping (codes "v4.10.7")
    ≡ get_wazuh_version_info twice (codes "v4.10.7")
get_wazuh_version_info-order_example =
    get_wazuh_version_info-order wazuh_version_mapping twice (codes "v4.10.7")
      (λ e. (λ m. m, λ m. m)) twice_same

abbrev info : WazuhVersionInfo
info = record {
  wazuh_version = codes "4.10.7";
  opensearch_version = codes "2.16.0";
  prometheus_exporter_plugin_version = codes "2.16.0.0";
}
