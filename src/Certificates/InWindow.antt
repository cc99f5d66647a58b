-- ===== src/Certificates/InWindow.antt =====
-- IsWithinWindow (internal/utils/maintenance_window.go) for a schedule that always has a next start.
use wazuh_operator.Common.{
  ℕ, suc, ◌≡◌, refl, inl, inr, ◌↔◌, some, Bool, true, arith, pos, pos_part, neg_part, ◌<◌, ◌+◌,
  sub_ℕ, ap, ◌∙◌, wrap64, ◌≤ℤ◌, ◌<ℤ◌, ◌+ℤ◌, +ℤ_parts, ◌-ℤ◌, eq_of_parts, wrap64_of_IsInt64, sub64,
  Time, Duration, add_time,
}
use wazuh_operator.Kube.{ok}
use wazuh_operator.Certificates.Windows.{
  Calendar, WindowChecker, is_within_window, within, check_start, in_window, last_scheduled,
}
use wazuh_operator.Certificates.LastStart.{
  NextIsFirst, IsLast, last_scheduled-IsLast, last_scheduled_ends,
}

abbrev pub day : ℕ
day = 86400000000000

-- The last start up to now lies before now, and its window has not ended.
pub record InsideWindow (Active : Time → Type 0) (duration : Duration) (now : Time) : Type 0 where
  pub start : Time
  pub active : Active start
  pub opened : start <ℤ now
  pub open_still : now <ℤ start +ℤ duration
  pub last : (b : Time) → Active b → b ≤ℤ now → b ≤ℤ start

negated : (d : ℕ) → d < 9223372036854775808 → sub64 (pos 0) (pos d) ≡ sub_ℕ 0 d
unfolding sub64 ◌-ℤ◌
negated d h =
    let same : pos 0 -ℤ pos d ≡ sub_ℕ 0 d = ground arith in
    ap wrap64 same ∙ wrap64_of_IsInt64 (sub_ℕ 0 d) (ground arith)

lowered : (d e : ℕ) → d + e < 9223372036854775808 → sub64 (sub_ℕ 0 d) (pos e) ≡ sub_ℕ 0 (d + e)
unfolding sub64 ◌-ℤ◌
lowered d e h =
    let same : sub_ℕ 0 d -ℤ pos e ≡ sub_ℕ 0 (d + e) = ground arith in
    ap wrap64 same ∙ wrap64_of_IsInt64 (sub_ℕ 0 (d + e)) (ground arith)

-- The loop begins a day and the duration before now.
check_start_lem :
    (d : ℕ) (now : Time)
    → d + day < 9223372036854775808
    → check_start (pos d) now ≡ now +ℤ sub_ℕ 0 (d + day)
unfolding check_start add_time
check_start_lem d now h =
    ap (λ z. now +ℤ z) (ap (λ z. sub64 z (pos day)) (negated d (omega arith)) ∙ lowered d day h)

starts_before :
    (d : ℕ) (now : Time)
    → d + day < 9223372036854775808
    → pos_part (check_start (pos d) now) + neg_part now + d + day
      ≡ neg_part (check_start (pos d) now) + pos_part now
starts_before d now h =
    rw (check_start_lem d now h) (ground (arith, +ℤ_parts now (sub_ℕ 0 (d + day))))

-- What the loop leaves, and the test behind it.
module _ (Active : Time → Type 0) (now last : Time) (d : ℕ) (small : d + day < 9223372036854775808)
    (s : IsLast Active now (check_start (pos d) now) last) where
  in_window-InsideWindow : in_window (pos d) now last ≡ true → InsideWindow Active (pos d) now
  unfolding in_window add_time
  in_window-InsideWindow e = elim s.upto [
    | inl same ↦ absurd (ground arith)
    | inr (act, upto) ↦ record {
      start = last;
      active = act;
      opened = ground arith;
      open_still = ground arith;
      last = s.none_later;
    }
  ]

  no_later : (i : InsideWindow Active (pos d) now) → last ≤ℤ i.start
  no_later i = elim s.upto [
    | inl same ↦
        let before = starts_before d now small in
        let still = i.open_still in let sum = +ℤ_parts i.start (pos d) in ground arith
    | inr (act, upto) ↦ i.last last act upto
  ]

  InsideWindow-in_window : InsideWindow Active (pos d) now → in_window (pos d) now last ≡ true
  unfolding in_window add_time
  InsideWindow-in_window i =
      let before = starts_before d now small in
      let opened = i.opened in
      let still = i.open_still in
      let sum = +ℤ_parts i.start (pos d) in
      let found = s.none_later i.start i.active (omega arith) in
      let back = no_later i in
      let same : last ≡ i.start = eq_of_parts last i.start (omega arith) in rw same (ground arith)

within_found :
    (fuel : ℕ) (next : Time → Time) (d : Duration) (now last : Time)
    → last_scheduled fuel next now (check_start d now) ≡ some last
    → within fuel next d now ≡ some (in_window d now last)
unfolding within
within_found fuel next d now last e = rw (e, within) refl

-- The loop and the test with enough rounds.
within-InsideWindow :
    (Active : Time → Type 0) (next : Time → Time)
    → NextIsFirst Active next
    → (fuel d : ℕ) (now : Time) → d + day < 9223372036854775808
    → d + day < fuel
    → (b : Bool) × (within (suc fuel) next (pos d) now ≡ some b)
      × ((b ≡ true) ↔ InsideWindow Active (pos d) now)
within-InsideWindow Active next h fuel d now small enough =
    let from = check_start (pos d) now in
    let before = starts_before d now small in
    let sum = +ℤ_parts from (pos fuel) in
    let (last, found) = last_scheduled_ends Active next h fuel now from (omega arith) in
    let s = last_scheduled-IsLast Active next h (suc fuel) now from last found in
    (
      in_window (pos d) now last,
      within_found (suc fuel) next (pos d) now last found,
      (
        in_window-InsideWindow Active now last d small s,
        InsideWindow-in_window Active now last d small s,
      ),
    )

within_parsed :
    (fuel : ℕ) (cal : Calendar) (m : WindowChecker cal) (now : Time)
    (next : cal.Location → Time → Time) (b : Bool)
    → cal.parse_cron m.schedule ≡ ok next
    → within fuel (next m.timezone) m.duration now ≡ some b
    → is_within_window fuel cal m now ≡ some (ok b)
unfolding is_within_window
within_parsed fuel cal m now next b parsed found = rw (parsed, found, is_within_window) refl

-- For a schedule that parses and always has a next activation, the one that Next gives, and a
-- duration of d nanoseconds that with a day fits into an int64, IsWithinWindow ends within d
-- nanoseconds, a day and two rounds, with no error; it answers yes exactly when the last activation
-- up to now lies before now and less than the duration ago.
pub is_within_window-InsideWindow :
    (cal : Calendar) (m : WindowChecker cal) (next : cal.Location → Time → Time)
    (Active : Time → Type 0)
    → cal.parse_cron m.schedule ≡ ok next
    → NextIsFirst Active (next m.timezone)
    → (fuel d : ℕ) (now : Time) → m.duration ≡ pos d
    → d + day < 9223372036854775808
    → d + day < fuel
    → (b : Bool) × (is_within_window (suc fuel) cal m now ≡ some (ok b))
      × ((b ≡ true) ↔ InsideWindow Active (pos d) now)
is_within_window-InsideWindow cal m next Active parsed h fuel d now lasts small enough =
    let (b, found, iff) = within-InsideWindow Active (next m.timezone) h fuel d now small enough in
    let found' : within (suc fuel) (next m.timezone) m.duration now ≡ some b = rw lasts found in
    (b, within_parsed (suc fuel) cal m now next b parsed found', iff)
