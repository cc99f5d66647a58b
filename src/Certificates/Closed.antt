-- ===== src/Certificates/Closed.antt =====
-- The loop of checkCAMaintenanceWindow over windows that are all closed
-- (internal/certificates/reconciler/certificate_maintenance.go).
use wazuh_operator.Common.{
  ℕ, ◌≡◌, refl, sym, ◌∙◌, subst, ◌⊎◌, inl, inr, Bool-cases, Option-cases, List, [], ◌∷◌, none, some,
  true, false, arith, ◌≤ℤ◌, ◌<ℤ◌, ltb_ℤ, eqb_ℤ, eq_of_parts, Time, Bytes, ap, All, zero_time,
}
use wazuh_operator.Kube.{Result, ok, err, Result-cases}
use wazuh_operator.Certificates.Windows.{
  Calendar, WindowChecker, is_within_window, within, next_window_start,
}
use wazuh_operator.Certificates.Maintenance.{
  MaintenanceWindow, Texts, outside, checker_of, search_windows, earlier,
}

-- The windows' next starts lie behind the zero instant.
abbrev pub StartsLater : (cal : Calendar) → Texts → Time → MaintenanceWindow → Type 0
StartsLater cal tx now w =
    (m : WindowChecker cal) (t : Time)
    → checker_of cal tx w ≡ ok m
    → next_window_start cal m now ≡ ok t
    → zero_time <ℤ t

-- The window is not open, and does not start again before the instant.
abbrev pub ClosedUntil : ℕ → (cal : Calendar) → Texts → Time → Time → MaintenanceWindow → Type 0
ClosedUntil fuel cal tx now next w =
    (m : WindowChecker cal) (t : Time)
    → checker_of cal tx w ≡ ok m
    → next_window_start cal m now ≡ ok t
    → (is_within_window fuel cal m now ≡ some (ok false)) × (zero_time <ℤ next) × (next ≤ℤ t)

earlier_lem :
    (best t : Time)
    → zero_time <ℤ t
    → (zero_time ≤ℤ best)
    → (zero_time <ℤ earlier best (ok t))
      × (earlier best (ok t) ≤ℤ t)
      × ((best ≡ zero_time) ⊎ (earlier best (ok t) ≤ℤ best))
unfolding earlier
earlier_lem best t behind from = elim (Bool-cases (eqb_ℤ best zero_time)) [
  | inl unset ↦
      let same = eq_of_parts best zero_time in (ground arith, ground arith, inl (ground arith))
  | inr set ↦ elim (Bool-cases (ltb_ℤ t best)) [
    | inl sooner ↦ (ground arith, ground arith, inr (ground arith))
    | inr later ↦ (ground arith, ground arith, inr (ground arith))
  ]
]

within_err :
    (fuel : ℕ) (cal : Calendar) (m : WindowChecker cal) (now : Time) (e : Bytes)
    → is_within_window fuel cal m now ≡ some (err e)
    → (e' : Bytes) × (next_window_start cal m now ≡ err e')
unfolding is_within_window next_window_start
within_err fuel cal m now e h = elim (Result-cases (cal.parse_cron m.schedule)) [
  | inr (e', bad) ↦ (e', rw (bad, next_window_start) refl)
  | inl (next, parsed) ↦ elim (Option-cases (within fuel (next m.timezone) m.duration now)) [
    | inl lost ↦
        let hangs : is_within_window fuel cal m now ≡ none =
          rw (parsed, lost, is_within_window) refl in
        absurd (ground arith)
    | inr (b, found) ↦
        let answers : is_within_window fuel cal m now ≡ some (ok b) =
          rw (parsed, found, is_within_window) refl in
        absurd (ground arith)
  ]
]

-- What the loop over the windows establishes, from the start `best` found so far.
abbrev pub SearchClosed :
    ℕ → (cal : Calendar) → Texts → Time → List MaintenanceWindow → (best next : Time) → Type 0
SearchClosed fuel cal tx now ws best next =
    All (ClosedUntil fuel cal tx now next) ws
    × ((best ≡ zero_time) ⊎ ((zero_time <ℤ next) × (next ≤ℤ best)))

abbrev ok_or {ℓ} : {A : Type ℓ} → A → Result A → A
ok_or a (ok b) = b
ok_or a (err e) = a

pub ok_unique {ℓ} : {A : Type ℓ} {r : Result A} {a b : A} → r ≡ ok a → r ≡ ok b → a ≡ b
ok_unique {a = a} e e' = ap (ok_or a) (sym e ∙ e')

-- A window that is skipped says nothing, and the loop goes on with the same start.
skipped :
    (fuel : ℕ) (cal : Calendar) (tx : Texts) (now : Time) (w : MaintenanceWindow)
    (ws : List MaintenanceWindow) (best next : Time)
    → ((m : WindowChecker cal)
        → checker_of cal tx w ≡ ok m
        → (e : Bytes) × (next_window_start cal m now ≡ err e))
    → SearchClosed fuel cal tx now ws best next
    → SearchClosed fuel cal tx now (w ∷ ws) best next
skipped fuel cal tx now w ws best next none_next (closed, kept) = (
  (λ m t built starts. let (e, fails) = none_next m built in absurd (ground arith), closed),
  kept,
)

module _ (fuel : ℕ) (cal : Calendar) (tx : Texts) (now : Time) where
  -- A window that is closed and starts again later.
  closed_window :
      (w : MaintenanceWindow) (ws : List MaintenanceWindow) (best next t : Time)
      (m : WindowChecker cal)
      → checker_of cal tx w ≡ ok m
      → is_within_window fuel cal m now ≡ some (ok false)
      → next_window_start cal m now ≡ ok t
      → zero_time <ℤ t
      → zero_time ≤ℤ best
      → SearchClosed fuel cal tx now ws (earlier best (ok t)) next
      → SearchClosed fuel cal tx now (w ∷ ws) best next
  closed_window w ws best next t m built shut starts later from (closed, kept) =
      let (set, upto, sooner) = earlier_lem best t later from in
      let (behind, before) : (zero_time <ℤ next) × (next ≤ℤ earlier best (ok t)) = elim kept [
        | inl unset ↦ absurd (ground arith)
        | inr found ↦ found
      ] in
      (
        (
          λ m' t' built' starts'.
              let same : m ≡ m' = ok_unique built built' in
              let starts'' : next_window_start cal m now ≡ ok t' = rw same starts' in
              let same_start : t ≡ t' = ok_unique starts starts'' in
              (
                subst (λ k. is_within_window fuel cal k now ≡ some (ok false)) same shut,
                behind,
                rw (sym same_start) (omega arith),
              ),
          closed,
        ),
        elim sooner [ inl unset ↦ inl unset | inr le ↦ inr (behind, omega arith) ],
      )

  abbrev HasNone : WindowChecker cal → Type 0
  HasNone k = (e : Bytes) × (next_window_start cal k now ≡ err e)

  pub search_closed :
      (ws : List MaintenanceWindow) (best next : Time)
      → All (StartsLater cal tx now) ws
      → zero_time ≤ℤ best
      → search_windows fuel cal tx now ws best ≡ some (outside next)
      → SearchClosed fuel cal tx now ws best next
  unfolding search_windows earlier
  search_closed [] best next h from e = (
    tt,
    elim (Bool-cases (eqb_ℤ best zero_time)) [
      | inl unset ↦ inl (eq_of_parts best zero_time (ground arith))
      | inr set ↦ inr (ground arith)
    ],
  )
  search_closed (w ∷ ws) best next (h, hs) from e = elim (Result-cases (checker_of cal tx w)) [
    | inr (e', bad) ↦
        let on = rw (bad, search_windows) at e in
        skipped fuel cal tx now w ws best next (λ m built. absurd (ground arith))
          (search_closed ws best next hs from on)
    | inl (m, built) ↦ elim (Option-cases (is_within_window fuel cal m now)) [
      | inl hangs ↦ let off = rw (built, hangs, search_windows) at e in absurd (ground arith)
      | inr (err e', fails) ↦
          let on = rw (built, fails, search_windows) at e in
          skipped fuel cal tx now w ws best next
            (λ m' built'.
              let same : m ≡ m' = ok_unique built built' in
              subst HasNone same (within_err fuel cal m now e' fails))
            (search_closed ws best next hs from on)
      | inr (ok true, is_open) ↦
          let off = rw (built, is_open, search_windows) at e in absurd (ground arith)
      | inr (ok false, shut) ↦
          let on = rw (built, shut, search_windows) at e in
          elim (Result-cases (next_window_start cal m now)) [
            | inr (e', none_next) ↦
                let on' = rw none_next at on in
                skipped fuel cal tx now w ws best next
                  (λ m' built'.
                    let same : m ≡ m' = ok_unique built built' in
                    subst HasNone same (e', none_next))
                  (search_closed ws best next hs from on')
            | inl (t, starts) ↦
                let later = h m t built starts in
                let (set, _, _) = earlier_lem best t later from in
                let on' = rw starts at on in
                closed_window w ws best next t m built shut starts later from
                  (search_closed ws (earlier best (ok t)) next hs (omega arith) on')
          ]
    ]
  ]
