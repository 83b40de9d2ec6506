-- ===== src/Proxies/Stopped.antt =====
-- About Account of internal/proxies/proxies.go: when the copies of a proxy are stopped, over any run of readings.
use cash_pilot_desktop.Base.{
  ℕ, ◌+◌, Bool, true, false, ◌&&◌, not, Option, none, some, List, [], ◌∷◌, ◌++◌, ◌≡◌, refl, sym, ap,
  ◌∙◌, inl, inr, Text, is_empty, leb, Bool-cases, Option-cases, arith, true_not_false,
}
use cash_pilot_desktop.Proxies.{Floats, Definition, State}
use cash_pilot_desktop.Proxies.Cap.{
  Clock, Traffic, note_exit, count_reading, fold_counters, fold_readings, drop_expired, crosses,
  threshold_bytes, account,
}

pub record Round : Type 0 where
  pub readings : List Traffic
  pub now : ℕ

no_change : (b : Bool) → false ≡ (b && not b)
no_change true = refl
no_change false = refl

module _ {F : Type 0} (floats : Floats F) (clock : Clock) (public_ip : Text → Text)
    (d : Definition F) where
  abbrev once_if : Bool → ℕ
  once_if true = 1
  once_if false = 0

  -- The state after a run of readings, and how often the cap was reported as reached.
  unfoldable pub account_all : State → List Round → State × ℕ
  account_all s [] = (s, 0)
  account_all s (r ∷ rounds) =
      let next = account floats clock public_ip s d r.readings r.now in
      let rest = account_all next.0 rounds in (rest.0, once_if next.1 + rest.1)

  fold_counters-capped_at :
      (now : ℕ) (rx tx : Option ℕ) (r : Traffic) (out : State)
      → (fold_counters clock public_ip now rx tx r out).capped_at ≡ out.capped_at
  unfolding fold_counters note_exit count_reading
  fold_counters-capped_at now (some rx) (some tx) r out = elim (Bool-cases (is_empty r.tunnel_id)) [
    | inl e ↦ rw e refl
    | inr e ↦ elim (Bool-cases (is_empty (public_ip r.exit_ip))) [
      | inl i ↦ rw (e, i) refl
      | inr i ↦ rw (e, i) refl
    ]
  ]
  fold_counters-capped_at now (some rx) none r out = refl
  fold_counters-capped_at now none tx r out = refl

  fold_readings-capped_at :
      (now : ℕ) (readings : List Traffic) (out : State)
      → (fold_readings clock public_ip now readings out).capped_at ≡ out.capped_at
  unfolding fold_readings
  fold_readings-capped_at now [] out = refl
  fold_readings-capped_at now (r ∷ readings) out =
      fold_readings-capped_at now readings (fold_counters clock public_ip now r.rx r.tx r out)
      ∙ fold_counters-capped_at now r.rx r.tx r out

  crosses_open : (out : State) → crosses floats d out ≡ true → is_empty out.capped_at ≡ true
  unfolding crosses
  crosses_open out h = elim (Option-cases (threshold_bytes floats d)) [
    | inl t ↦ elim (true_not_false (sym h ∙ rw (t, crosses) refl)) [ ]
    | inr (limit, t) ↦ elim (Bool-cases (is_empty out.capped_at)) [
      | inl e ↦ e
      | inr e ↦ elim (true_not_false (sym h ∙ rw (t, e, crosses) refl)) [ ]
    ]
  ]

  crosses_not :
      (out : State) (limit : ℕ)
      → threshold_bytes floats d ≡ some limit
      → leb limit out.used_bytes ≡ true
      → crosses floats d out ≡ false
      → is_empty out.capped_at ≡ false
  unfolding crosses
  crosses_not out limit t u c = elim (Bool-cases (is_empty out.capped_at)) [
    | inl e ↦ elim (true_not_false (sym (rw (t, e, crosses) u) ∙ c)) [ ]
    | inr e ↦ e
  ]

  -- The state that a round leaves before the test of the cap.
  abbrev counted : State → Round → State
  counted s r =
      let read = fold_readings clock public_ip r.now r.readings s in
      record read { counters = drop_expired r.now read.counters }

  abbrev next : State → Round → State × Bool
  next s r = account floats clock public_ip s d r.readings r.now

  counted-capped_at : (s : State) (r : Round) → (counted s r).capped_at ≡ s.capped_at
  counted-capped_at s r = fold_readings-capped_at r.now r.readings s

  module _ (rfc3339_given : (now : ℕ) → is_empty (clock.rfc3339 now) ≡ false) where
    -- A round reports the cap exactly when it stops the copies.
    account_reports :
        (s : State) (r : Round)
        → (next s r).1 ≡ (is_empty s.capped_at && not (is_empty (next s r).0.capped_at))
    unfolding account
    account_reports s r = elim (Bool-cases (crosses floats d (counted s r))) [
      | inl c ↦
          let running : is_empty s.capped_at ≡ true =
            sym (ap is_empty (counted-capped_at s r)) ∙ crosses_open (counted s r) c in
          rw (c, running, rfc3339_given r.now) refl
      | inr c ↦ rw (c, counted-capped_at s r) (no_change (is_empty s.capped_at))
    ]

    -- No round starts them.
    account_keeps_stopped :
        (s : State) (r : Round)
        → is_empty s.capped_at ≡ false
        → is_empty (next s r).0.capped_at ≡ false
    unfolding account
    account_keeps_stopped s r h = elim (Bool-cases (crosses floats d (counted s r))) [
      | inl c ↦ rw c (rfc3339_given r.now)
      | inr c ↦ rw (c, counted-capped_at s r) h
    ]

    account_stops :
        (s : State) (r : Round) (limit : ℕ)
        → threshold_bytes floats d ≡ some limit
        → leb limit (next s r).0.used_bytes ≡ true
        → is_empty (next s r).0.capped_at ≡ false
    unfolding account
    account_stops s r limit t h = elim (Bool-cases (crosses floats d (counted s r))) [
      | inl c ↦ rw c (rfc3339_given r.now)
      | inr c ↦
          let same : next s r ≡ (counted s r, false) = rw c refl in
          let reached = ap (λ q. leb limit q.0.used_bytes) (sym same) ∙ h in
          rw c (crosses_not (counted s r) limit t reached c)
    ]

    all_keep_stopped :
        (s : State) (rounds : List Round)
        → is_empty s.capped_at ≡ false
        → is_empty (account_all s rounds).0.capped_at ≡ false
    unfolding account_all
    all_keep_stopped s [] h = h
    all_keep_stopped s (r ∷ rounds) h =
        all_keep_stopped (next s r).0 rounds (account_keeps_stopped s r h)

    -- Over any run of readings the cap is reported at most once, and exactly once when the run stops
    -- the copies of a proxy whose copies ran.
    pub account_all_reports :
        (s : State) (rounds : List Round)
        → (account_all s rounds).1
          ≡ once_if (is_empty s.capped_at && not (is_empty (account_all s rounds).0.capped_at))
    unfolding account_all
    account_all_reports s [] = ap once_if (no_change (is_empty s.capped_at))
    account_all_reports s (r ∷ rounds) = elim (Bool-cases (is_empty s.capped_at)) [
      | inr e ↦
          let stopped = account_keeps_stopped s r e in
          rw (account_reports s r, account_all_reports (next s r).0 rounds, e, stopped) refl
      | inl e ↦ elim (Bool-cases (is_empty (next s r).0.capped_at)) [
        | inl n ↦
            rw (account_reports s r, account_all_reports (next s r).0 rounds, e, n) (omega arith)
        | inr n ↦
            rw
              (
                account_reports s r,
                account_all_reports (next s r).0 rounds,
                e,
                n,
                all_keep_stopped (next s r).0 rounds n,
              )
              refl
      ]
    ]

    -- When the bytes used reach the limit after some reading of a run, the copies are stopped at the
    -- end of the run.
    pub account_all_stops :
        (s : State) (rounds : List Round) (r : Round) (later : List Round) (limit : ℕ)
        → threshold_bytes floats d ≡ some limit
        → leb limit (account_all s (rounds ++ r ∷ [])).0.used_bytes ≡ true
        → is_empty (account_all s (rounds ++ r ∷ later)).0.capped_at ≡ false
    unfolding account_all
    account_all_stops s [] r later limit t h =
        all_keep_stopped (next s r).0 later (account_stops s r limit t h)
    account_all_stops s (q ∷ rounds) r later limit t h =
        account_all_stops (next s q).0 rounds r later limit t h
