-- ===== src/Versions.antt =====
-- pkg/versions/versions.go. A Go map is walked in no fixed order, so the walk over the table takes
-- the order as an argument.
pub mod Order
pub mod Format
pub mod Table
pub mod Lookup
pub mod Support
pub mod HotReload
pub mod Plugin
pub mod Supported
pub mod Examples
use wazuh_operator.Common.{
  List, [], ◌∷◌, ◌++◌, Option, none, some, Bool, true, false, ◌&&◌, ◌||◌, not, if◌then◌else◌, ℤ,
  pos, negsuc, ltb_ℤ, leb_ℤ, eqb_ℤ, Bytes, codes, bytes_eq, show_ℤ, atoi, split, join, trim_prefix,
}
use wazuh_operator.Kube.{Result, ok, err}

pub record Version : Type 0 where
  pub major : ℤ
  pub minor : ℤ
  pub patch : ℤ

abbrev pub version : ℤ → ℤ → ℤ → Version
version a b c = record { major = a; minor = b; patch = c }

-- The patch in a third part: what stands before its first dash, and 0 where that is no number.
abbrev pub parse_patch : List Bytes → ℤ
parse_patch [] = pos 0
parse_patch (part ∷ _) = elim (split b'-' part) [
  | [] ↦ pos 0
  | text ∷ _ ↦ elim (atoi text) [ none ↦ pos 0 | some n ↦ n ]
]

-- The parts between the dots.
unfoldable pub parse_parts : Bytes → List Bytes → Result Version
parse_parts text [] = err (codes "invalid version format: " ++ text)
parse_parts text (a ∷ []) = err (codes "invalid version format: " ++ text)
parse_parts text (a ∷ b ∷ rest) = elim (atoi a) [
  | none ↦ err (codes "invalid major version: " ++ a)
  | some major ↦ elim (atoi b) [
    | none ↦ err (codes "invalid minor version: " ++ b)
    | some minor ↦ ok (version major minor (parse_patch rest))
  ]
]

unfoldable pub parse_version : Bytes → Result Version
unfolding parse_parts trim_prefix
parse_version s = let text = trim_prefix (codes "v") s in parse_parts text (split b'.' text)

unfoldable pub compare : Version → Version → ℤ
compare v w =
    if not (eqb_ℤ v.major w.major)
    then if ltb_ℤ v.major w.major then negsuc 0 else pos 1
    else if not (eqb_ℤ v.minor w.minor)
    then if ltb_ℤ v.minor w.minor then negsuc 0 else pos 1
    else if not (eqb_ℤ v.patch w.patch)
    then if ltb_ℤ v.patch w.patch then negsuc 0 else pos 1
    else pos 0

unfoldable pub greater_than_or_equal : Version → Version → Bool
unfolding compare
greater_than_or_equal v w = leb_ℤ (pos 0) (compare v w)

unfoldable pub less_than : Version → Version → Bool
unfolding compare
less_than v w = ltb_ℤ (compare v w) (pos 0)

-- Version.String
unfoldable pub show_version : Version → Bytes
show_version v = show_ℤ v.major ++ (codes "." ++ (show_ℤ v.minor ++ (codes "." ++ show_ℤ v.patch)))

pub record WazuhVersionInfo : Type 0 where
  pub wazuh_version : Bytes
  pub opensearch_version : Bytes
  pub prometheus_exporter_plugin_version : Bytes

abbrev pub Entry : Type 0
Entry = Bytes × WazuhVersionInfo

abbrev entry : Bytes → Bytes → Bytes → Entry
entry w o p = (
  w,
  record { wazuh_version = w; opensearch_version = o; prometheus_exporter_plugin_version = p },
)

-- The table wazuhVersionMapping.
unfoldable pub wazuh_version_mapping : List Entry
wazuh_version_mapping =
    entry (codes "4.14.3") (codes "2.19.4") (codes "2.19.4.0")
    ∷ entry (codes "4.14.2") (codes "2.19.4") (codes "2.19.4.0")
    ∷ entry (codes "4.14.1") (codes "2.19.3") (codes "2.19.3.0")
    ∷ entry (codes "4.14.0") (codes "2.19.3") (codes "2.19.3.0")
    ∷ entry (codes "4.13.1") (codes "2.19.2") (codes "2.19.2.0")
    ∷ entry (codes "4.13.0") (codes "2.19.2") (codes "2.19.2.0")
    ∷ entry (codes "4.12.0") (codes "2.19.1") (codes "2.19.1.0")
    ∷ entry (codes "4.11.2") (codes "2.16.0") (codes "2.16.0.0")
    ∷ entry (codes "4.11.1") (codes "2.16.0") (codes "2.16.0.0")
    ∷ entry (codes "4.11.0") (codes "2.16.0") (codes "2.16.0.0")
    ∷ entry (codes "4.10.3") (codes "2.16.0") (codes "2.16.0.0")
    ∷ entry (codes "4.10.2") (codes "2.16.0") (codes "2.16.0.0")
    ∷ entry (codes "4.10.1") (codes "2.16.0") (codes "2.16.0.0")
    ∷ entry (codes "4.10.0") (codes "2.16.0") (codes "2.16.0.0")
    ∷ entry (codes "4.9.3") (codes "2.13.0") (codes "2.13.0.0")
    ∷ entry (codes "4.9.2") (codes "2.13.0") (codes "2.13.0.0")
    ∷ entry (codes "4.9.1") (codes "2.13.0") (codes "2.13.0.0")
    ∷ entry (codes "4.9.0") (codes "2.13.0") (codes "2.13.0.0")
    ∷ []

unfoldable pub lookup_entry : Bytes → List Entry → Option WazuhVersionInfo
lookup_entry key [] = none
lookup_entry key ((k, info) ∷ es) = if bytes_eq k key then some info else lookup_entry key es

-- bestMatch and bestMatchVersion.
abbrev pub Best : Type 0
Best = Option (WazuhVersionInfo × Version)

-- `bestMatchVersion == nil || mappedVer.Patch > bestMatchVersion.Patch`
abbrev pub improves : Version → Best → Bool
improves mapped none = true
improves mapped (some (_, best)) = ltb_ℤ best.patch mapped.patch

-- One round of the walk over the table.
unfoldable pub best_step : Version → Best → Entry → Best
best_step wanted best (key, info) = elim (parse_version key) [
  | err _ ↦ best
  | ok mapped ↦
      if not (eqb_ℤ mapped.major wanted.major)
      then best
      else if not (eqb_ℤ mapped.minor wanted.minor)
      then best
      else if improves mapped best
      then if leb_ℤ mapped.patch wanted.patch then some (info, mapped) else best
      else best
]

unfoldable pub best_match : Version → Best → List Entry → Best
unfolding best_step
best_match wanted best [] = best
best_match wanted best (e ∷ es) = best_match wanted (best_step wanted best e) es

unfoldable pub get_wazuh_version_info : List Entry → Bytes → Result WazuhVersionInfo
unfolding best_match lookup_entry trim_prefix
get_wazuh_version_info order s =
    let text = trim_prefix (codes "v") s in
    elim (lookup_entry text wazuh_version_mapping) [
      | some info ↦ ok info
      | none ↦ elim (parse_version text) [
        | err _ ↦ err (codes "invalid Wazuh version format: " ++ text)
        | ok wanted ↦ elim (best_match wanted none order) [
          | some (info, _) ↦ ok (record info { wazuh_version = text })
          | none ↦ err (
              codes "unsupported Wazuh version "
              ++ (text ++ codes ": only versions 4.9.0 and above are supported"))
        ]
      ]
    ]

-- The switch of WazuhToOpenSearchVersion for versions that the table does not give.
unfoldable pub approximate_opensearch : Version → Version
approximate_opensearch v =
    if eqb_ℤ v.major (pos 4) && leb_ℤ (pos 12) v.minor
    then version (pos 2) (pos 19) (pos 1)
    else if eqb_ℤ v.major (pos 4) && leb_ℤ (pos 10) v.minor
    then version (pos 2) (pos 16) (pos 0)
    else if eqb_ℤ v.major (pos 4) && leb_ℤ (pos 9) v.minor
    then version (pos 2) (pos 13) (pos 0)
    else if eqb_ℤ v.major (pos 4) && leb_ℤ (pos 7) v.minor
    then version (pos 2) (pos 10) (pos 0)
    else if eqb_ℤ v.major (pos 4) && leb_ℤ (pos 4) v.minor
    then version (pos 2) (pos 6) (pos 0)
    else if leb_ℤ (pos 5) v.major
    then version (pos 2) (pos 19) (pos 0)
    else version (pos 1) (pos 0) (pos 0)

unfoldable pub wazuh_to_opensearch_version : List Entry → Bytes → Result Version
unfolding get_wazuh_version_info approximate_opensearch
wazuh_to_opensearch_version order s = elim (get_wazuh_version_info order s) [
  | ok info ↦ parse_version info.opensearch_version
  | err _ ↦ elim (parse_version s) [
    | err e ↦ err (codes "failed to parse Wazuh version: " ++ e)
    | ok v ↦ ok (approximate_opensearch v)
  ]
]
