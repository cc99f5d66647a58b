-- ===== src/Certificates/LastStart.antt =====
-- The loop of IsWithinWindow (internal/utils/maintenance_window.go) finds the last start of a
-- window, and ends.
use wazuh_operator.Common.{
  ℕ, zero, suc, ◌≡◌, refl, ◌⊎◌, inl, inr, Bool-cases, some, arith, pos, ◌≤ℤ◌, ◌<ℤ◌, ◌+ℤ◌, +ℤ_parts,
  ltb_ℤ, Time, subst,
}
use wazuh_operator.Certificates.Windows.{last_scheduled}

-- What the cron library documents of Next when it finds a time: the first activation that is later
-- than the given instant.
pub record NextIsFirst (Active : Time → Type 0) (next : Time → Time) : Type 0 where
  pub active : (t : Time) → Active (next t)
  pub later : (t : Time) → t <ℤ next t
  pub first : (t b : Time) → Active b → t <ℤ b → next t ≤ℤ b

-- The instant found lies at or behind the start, is an activation if it is not the start itself,
-- and no activation up to now lies behind it.
pub record IsLast (Active : Time → Type 0) (now start last : Time) : Type 0 where
  pub from : start ≤ℤ last
  pub upto : (last ≡ start) ⊎ (Active last × (last ≤ℤ now))
  pub none_later : (b : Time) → Active b → b ≤ℤ now → b ≤ℤ last

module _ (Active : Time → Type 0) (next : Time → Time) (h : NextIsFirst Active next) where
  stop_here : (now start : Time) → now <ℤ next start → IsLast Active now start start
  stop_here now start late = record {
    from = omega arith;
    upto = inl refl;
    none_later = λ b act upto. elim (Bool-cases (ltb_ℤ start b)) [
      | inl behind ↦ let least = h.first start b act (ground arith) in ground arith
      | inr before ↦ ground arith
    ];
  }

  step_on :
      (now start last : Time)
      → next start ≤ℤ now
      → IsLast Active now (next start) last
      → IsLast Active now start last
  step_on now start last early s =
      let later = h.later start in
      let from = s.from in
      record {
        from = omega arith;
        upto = elim s.upto [
          | inl same ↦ inr (rw same (h.active start), rw same early)
          | inr found ↦ inr found
        ];
        none_later = s.none_later;
      }

  pub last_scheduled-IsLast :
      (fuel : ℕ) (now start last : Time)
      → last_scheduled fuel next now start ≡ some last
      → IsLast Active now start last
  unfolding last_scheduled
  last_scheduled-IsLast zero now start last e = absurd (ground arith)
  last_scheduled-IsLast (suc fuel) now start last e = elim (Bool-cases (ltb_ℤ now (next start))) [
    | inl late ↦
        let same : start ≡ last = ground arith in
        subst (IsLast Active now start) same (stop_here now start (ground arith))
    | inr early ↦
        let goes_on : last_scheduled fuel next now (next start) ≡ some last = ground arith in
        step_on now start last (ground arith)
          (last_scheduled-IsLast fuel now (next start) last goes_on)
  ]

  -- As many rounds as there are nanoseconds up to now, and two more, are enough.
  pub last_scheduled_ends :
      (fuel : ℕ) (now start : Time)
      → now <ℤ start +ℤ pos fuel
      → (last : Time) × (last_scheduled (suc fuel) next now start ≡ some last)
  unfolding last_scheduled
  last_scheduled_ends zero now start enough =
      let sum = +ℤ_parts start (pos zero) in let later = h.later start in (start, ground arith)
  last_scheduled_ends (suc fuel) now start enough = elim (Bool-cases (ltb_ℤ now (next start))) [
    | inl late ↦ (start, ground arith)
    | inr early ↦
        let sum = +ℤ_parts start (pos (suc fuel)) in
        let sum' = +ℤ_parts (next start) (pos fuel) in
        let later = h.later start in
        let (last, found) = last_scheduled_ends fuel now (next start) (omega arith) in
        (last, ground arith)
  ]
