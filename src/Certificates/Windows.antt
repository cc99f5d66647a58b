-- ===== src/Certificates/Windows.antt =====
-- The maintenance windows of internal/utils/maintenance_window.go. The cron library and the time
-- zones are parameters. A loop that has used up its fuel gives `none`.
use wazuh_operator.Common.{
  ℕ, zero, suc, List, [], ◌∷◌, Option, none, some, Bool, true, false, ◌&&◌, if◌then◌else◌, pos,
  sub64, eqb_ℤ, ltb_ℤ, Bytes, bytes_eq, codes, Time, Duration, sub_time, add_time, after,
}
use wazuh_operator.Kube.{Result, ok, err}

-- time.LoadLocation, time.UTC, and Parse of cron with its result's Next, which reads the instant in
-- the location that it carries.
pub record Calendar : Type 1 where
  pub Location : Type 0
  pub utc : Location
  pub load_location : Bytes → Result Location
  pub parse_cron : Bytes → Result (Location → Time → Time)

pub record WindowChecker (cal : Calendar) : Type 0 where
  pub schedule : Bytes
  pub duration : Duration
  pub timezone : cal.Location

unfoldable pub location_of : (cal : Calendar) → Bytes → Result cal.Location
location_of cal [] = ok cal.utc
location_of cal (c ∷ s) =
    if bytes_eq (c ∷ s) (codes "UTC") then ok cal.utc else cal.load_location (c ∷ s)

unfoldable pub new_window_checker :
    (cal : Calendar) → Bytes → Duration → Bytes → Result (WindowChecker cal)
new_window_checker cal schedule duration timezone = elim (location_of cal timezone) [
  | err e ↦ err e
  | ok loc ↦ ok (record { schedule = schedule; duration = duration; timezone = loc })
]

-- The loop of IsWithinWindow, from the instant it starts at.
unfoldable pub last_scheduled : ℕ → (Time → Time) → Time → Time → Option Time
last_scheduled zero next now last = none
last_scheduled (suc fuel) next now last =
    let rest = last_scheduled fuel next now (next last) in
    if after (next last) now then some last else rest

-- `-m.Duration - 24*time.Hour`, added to the instant.
unfoldable pub check_start : Duration → Time → Time
check_start duration now = add_time now (sub64 (sub64 (pos 0) duration) (pos 86400000000000))

-- IsWithinWindow behind its loop.
unfoldable pub in_window : Duration → Time → Time → Bool
in_window duration now last =
    if eqb_ℤ last (check_start duration now)
    then false
    else after now last && ltb_ℤ now (add_time last duration)

-- IsWithinWindow for a schedule that was parsed.
unfoldable pub within : ℕ → (Time → Time) → Duration → Time → Option Bool
within fuel next duration now = elim (last_scheduled fuel next now (check_start duration now)) [
  | none ↦ none
  | some last ↦ some (in_window duration now last)
]

unfoldable pub is_within_window :
    ℕ → (cal : Calendar) → WindowChecker cal → Time → Option (Result Bool)
is_within_window fuel cal m now = elim (cal.parse_cron m.schedule) [
  | err e ↦ some (err e)
  | ok next ↦ elim (within fuel (next m.timezone) m.duration now) [
    | none ↦ none
    | some b ↦ some (ok b)
  ]
]

unfoldable pub next_window_start : (cal : Calendar) → WindowChecker cal → Time → Result Time
next_window_start cal m t = elim (cal.parse_cron m.schedule) [
  | err e ↦ err e
  | ok next ↦ ok (next m.timezone t)
]

unfoldable pub time_until_next_window :
    (cal : Calendar) → WindowChecker cal → Time → Result Duration
time_until_next_window cal m now = elim (next_window_start cal m now) [
  | err e ↦ err e
  | ok next ↦ ok (sub_time next now)
]

unfoldable pub check_maintenance_windows :
    ℕ → (cal : Calendar) → List (WindowChecker cal) → Time → Option (Result Bool)
check_maintenance_windows fuel cal [] now = some (ok false)
check_maintenance_windows fuel cal (w ∷ ws) now =
    let rest = check_maintenance_windows fuel cal ws now in
    elim (is_within_window fuel cal w now) [
      | none ↦ none
      | some (err e) ↦ some (err e)
      | some (ok inside) ↦ if inside then some (ok true) else rest
    ]
