-- ===== src/Versions/HotReload.antt =====
-- GetHotReloadSupport of pkg/versions/versions.go, along the order of versions.
use wazuh_operator.Common.{ℕ, ◌≤◌, ◌≡◌, refl, true, not, arith, pos, if◌then◌else◌, some}
use wazuh_operator.Versions.{Version, version, less_than, greater_than_or_equal}
use wazuh_operator.Versions.Support.{
  HotReloadSupport, not_supported, with_api_call, automatic, get_hot_reload_support,
}
use wazuh_operator.Versions.Order.{less_than_trans, compare_order}

-- How much support a value stands for.
abbrev pub level : HotReloadSupport → ℕ
level not_supported = 0
level with_api_call = 1
level automatic = 2

-- The two versions at which the support changes.
abbrev api_version : Version
api_version = version (pos 2) (pos 13) (pos 0)

abbrev automatic_version : Version
automatic_version = version (pos 2) (pos 19) (pos 0)

api_before_automatic : less_than api_version automatic_version ≡ true
unfolding less_than
api_before_automatic = refl

not-less_than : (v w : Version) → greater_than_or_equal v w ≡ not (less_than v w)
not-less_than v w = let (_, _, same, _) = compare_order v v w in same

support_lem :
    (v : Version)
    → level (get_hot_reload_support (some v))
      ≡ (if less_than v api_version then 0 else if less_than v automatic_version then 1 else 2)
unfolding get_hot_reload_support
support_lem v = ground (arith, not-less_than v automatic_version)

-- A later version of OpenSearch never supports hot reload less than an earlier one.
pub get_hot_reload_support-monotone :
    (v w : Version)
    → less_than v w ≡ true
    → level (get_hot_reload_support (some v)) ≤ level (get_hot_reload_support (some w))
get_hot_reload_support-monotone v w h = ground (
  arith,
  support_lem v,
  support_lem w,
  less_than_trans v w api_version h,
  less_than_trans v w automatic_version h,
  less_than_trans v api_version automatic_version,
  api_before_automatic,
)
