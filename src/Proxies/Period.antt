-- ===== src/Proxies/Period.antt =====
-- About ResetState and ResetDue of internal/proxies/proxies.go: when a new period of the cap is due.
use cash_pilot_desktop.Base.{
  ℕ, suc, ◌≤◌, pos, eqb_ℤ, true, false, some, ◌≡◌, ◌↔◌, is_empty, arith, Bool-cases, inl, inr, refl,
  ltb, ◌-◌, if◌then◌else◌,
}
use cash_pilot_desktop.Proxies.{Floats, Definition, State}
use cash_pilot_desktop.Proxies.Cap.{
  Clock, Date, before, days_in, normalised, boundary, reset_due, reset_state,
}

-- A day of the given number after the start and up to today.
abbrev pub IsResetBetween : ℕ → Date → Date → Date → Type 0
IsResetBetween day start today r =
    (r.day ≡ day) × (before start r ≡ true) × (before today r ≡ false)

days_in-ge : (months : ℕ) → 28 ≤ days_in months
unfolding days_in
days_in-ge months = ground arith

normalised-small :
    (months day : ℕ)
    → day ≤ 28
    → normalised (record { months = months; day = day }) ≡ record { months = months; day = day }
unfolding normalised
normalised-small months day h = ground (arith, h, days_in-ge months)

-- Every month has the days up to 28.
boundary-small :
    (today : Date) (day : ℕ)
    → day ≤ 28
    → boundary today day
      ≡ record { months = if ltb today.day day then today.months - 1 else today.months; day = day }
unfolding boundary
boundary-small today day h = elim (Bool-cases (ltb today.day day)) [
  | inl b ↦
      rw (normalised-small today.months day h, b, normalised-small (today.months - 1) day h) refl
  | inr b ↦ rw (normalised-small today.months day h, b) refl
]

boundary_not_after :
    (day : ℕ) (today : Date)
    → day ≤ 28
    → 1 ≤ today.months
    → before today (boundary today day) ≡ false
boundary_not_after day today small h = rw (boundary-small today day small) (ground (arith, h))

boundary_day : (day : ℕ) (today : Date) → day ≤ 28 → (boundary today day).day ≡ day
boundary_day day today small = rw (boundary-small today day small) refl

boundary_last :
    (day : ℕ) (start today r : Date)
    → day ≤ 28
    → IsResetBetween day start today r
    → before start (boundary today day) ≡ true
boundary_last day start today r small (d, s, t) =
    rw (boundary-small today day small) (ground (arith, d, s, t))

is_a_day : (n : ℕ) → eqb_ℤ (pos (suc n)) (pos 0) ≡ false
is_a_day n = ground arith

module _ {F : Type 0} (floats : Floats F) (clock : Clock) (d : Definition F) (s : State) where
  -- After a reset, with a reset day of at most 28 and dates that are read as they are printed, a new period is due
  -- exactly when a day of that number has come after the day of the reset.
  pub reset_state_due :
      (today now n : ℕ)
      → suc n ≤ 28
      → d.reset_day ≡ some (pos (suc n))
      → is_empty (clock.format_date today) ≡ false
      → clock.parse_date (clock.format_date today) ≡ some (clock.date_of today)
      → 1 ≤ (clock.date_of now).months
      → (reset_due clock d (reset_state floats clock s today) now ≡ true)
        ↔ ((r : Date) × IsResetBetween (suc n) (clock.date_of today) (clock.date_of now) r)
  unfolding reset_due reset_state
  reset_state_due today now n small day given parsed months =
      let start = clock.date_of today in
      let end_of = clock.date_of now in
      let last = boundary end_of (suc n) in
      rw (day, given, parsed, is_a_day n)
        (
          (λ due. (
            last,
            (
              boundary_day (suc n) end_of small,
              due,
              boundary_not_after (suc n) end_of small months,
            ),
          )),
          (λ (r, h). boundary_last (suc n) start end_of r small h),
        )
