-- ===== src/Versions/Support.antt =====
-- The functions of pkg/versions/versions.go that answer what a version supports: hot reload, the
-- plugin of the Prometheus exporter, and whether the version is supported at all.
use wazuh_operator.Common.{
  List, [], ◌∷◌, ◌++◌, Option, none, some, Bool, true, false, ◌&&◌, if◌then◌else◌, pos, leb_ℤ,
  eqb_ℤ, Bytes, codes, split, join,
}
use wazuh_operator.Kube.{Result, ok, err}
use wazuh_operator.Versions.{
  Version, version, Entry, parse_version, less_than, greater_than_or_equal, get_wazuh_version_info,
  wazuh_to_opensearch_version,
}

pub data HotReloadSupport : Type 0 where
  not_supported with_api_call automatic : HotReloadSupport

-- GetHotReloadSupport; a nil pointer is `none`.
unfoldable pub get_hot_reload_support : Option Version → HotReloadSupport
unfolding less_than greater_than_or_equal
get_hot_reload_support none = not_supported
get_hot_reload_support (some v) =
    if less_than v (version (pos 2) (pos 13) (pos 0))
    then not_supported
    else if greater_than_or_equal v (version (pos 2) (pos 19) (pos 0))
    then automatic
    else with_api_call

unfoldable pub get_hot_reload_support_for_wazuh : List Entry → Bytes → Result HotReloadSupport
unfolding wazuh_to_opensearch_version get_hot_reload_support
get_hot_reload_support_for_wazuh order s = elim (wazuh_to_opensearch_version order s) [
  | err e ↦ err e
  | ok v ↦ ok (get_hot_reload_support (some v))
]

unfoldable pub is_wazuh_version_supported : Bytes → Bool
is_wazuh_version_supported s = elim (parse_version s) [
  | err _ ↦ false
  | ok v ↦
      if leb_ℤ (pos 5) v.major
      then true
      else if eqb_ℤ v.major (pos 4) && leb_ℤ (pos 9) v.minor
      then true
      else false
]

unfoldable pub get_opensearch_version_from_wazuh : List Entry → Bytes → Result Bytes
unfolding get_wazuh_version_info
get_opensearch_version_from_wazuh order s = elim (get_wazuh_version_info order s) [
  | err e ↦ err e
  | ok info ↦ ok info.opensearch_version
]

unfoldable pub get_prometheus_exporter_plugin_version : List Entry → Bytes → Result Bytes
unfolding get_wazuh_version_info
get_prometheus_exporter_plugin_version order s = elim (get_wazuh_version_info order s) [
  | err e ↦ err e
  | ok info ↦ ok info.prometheus_exporter_plugin_version
]

-- SupportsHotReload, RequiresAPIReload and SupportsAutomaticHotReload test the answer.
abbrev answer_is : (HotReloadSupport → Bool) → Result HotReloadSupport → Bool
answer_is test (err e) = false
answer_is test (ok support) = test support

unfoldable pub supports_hot_reload : List Entry → Bytes → Bool
unfolding get_hot_reload_support_for_wazuh
supports_hot_reload order s =
    answer_is
      (λ support. elim support [ not_supported ↦ false | with_api_call ↦ true | automatic ↦ true ])
      (get_hot_reload_support_for_wazuh order s)

unfoldable pub requires_api_reload : List Entry → Bytes → Bool
unfolding get_hot_reload_support_for_wazuh
requires_api_reload order s =
    answer_is
      (λ support. elim support [ not_supported ↦ false | with_api_call ↦ true | automatic ↦ false ])
      (get_hot_reload_support_for_wazuh order s)

unfoldable pub supports_automatic_hot_reload : List Entry → Bytes → Bool
unfolding get_hot_reload_support_for_wazuh
supports_automatic_hot_reload order s =
    answer_is
      (λ support. elim support [ not_supported ↦ false | with_api_call ↦ false | automatic ↦ true ])
      (get_hot_reload_support_for_wazuh order s)

unfoldable pub get_prometheus_exporter_download_url : List Entry → Bytes → Result Bytes
unfolding get_prometheus_exporter_plugin_version
get_prometheus_exporter_download_url order s =
    elim (get_prometheus_exporter_plugin_version order s) [
      | err e ↦ err e
      | ok v ↦ ok (
          codes
            "https://github.com/opensearch-project/opensearch-prometheus-exporter/releases/download/"
          ++ (v ++ (codes "/prometheus-exporter-" ++ (v ++ codes ".zip"))))
    ]

-- The first three of the parts between the dots, where there are three.
abbrev pub first_three : Bytes → List Bytes → Bytes
first_three text (a ∷ b ∷ c ∷ rest) = join (codes ".") (a ∷ b ∷ c ∷ [])
first_three text _ = text

unfoldable pub extract_opensearch_version : Bytes → Bytes
unfolding split join
extract_opensearch_version plugin = first_three plugin (split b'.' plugin)
