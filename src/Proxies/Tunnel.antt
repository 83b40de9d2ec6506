-- ===== src/Proxies/Tunnel.antt =====
-- About Account of internal/proxies/proxies.go: a reading that is counted twice.
use cash_pilot_desktop.Base.{
  ℕ, ◌^◌, ◌<◌, false, Option, none, some, List, [], ◌∷◌, ◌≡◌, refl, ◌∙◌, inl, inr, Text, text_eq,
  text_eq_iff, is_empty, Map, lookup, lookup-insert, All, Bool-cases, arith,
}
use cash_pilot_desktop.Proxies.{State, Counter}
use cash_pilot_desktop.Proxies.Cap.{
  Clock, Traffic, cap_delta, moved, note_exit, count_reading, fold_counters, fold_readings, unix,
}

-- The counters that are given are the last ones that were counted for the reading's tunnel, now.
abbrev pub IsCounted : ℕ → Map Counter → Option ℕ → Option ℕ → Traffic → Type 0
IsCounted now counters (some rx) (some tx) r =
    is_empty r.tunnel_id ≡ false
    → lookup r.tunnel_id counters
      ≡ some (record { rx = rx; tx = tx; seen_at = unix now; started_at = r.started_at })
IsCounted now counters _ _ r = Unit

abbrev pub AllCounted : ℕ → Map Counter → List Traffic → Type 0
AllCounted now counters readings = All (λ r. IsCounted now counters r.rx r.tx r) readings

-- No two readings are of one tunnel.
abbrev pub Distinct : List Traffic → Type 0
Distinct [] = Unit
Distinct (r ∷ readings) =
    All (λ q. text_eq r.tunnel_id q.tunnel_id ≡ false) readings × Distinct readings

text_eq_comm : (a b : Text) → text_eq b a ≡ text_eq a b
text_eq_comm a b = ground (arith, text_eq_iff a b, text_eq_iff b a)

moved_nothing :
    (rx tx seen_at : ℕ) (started_at : Text)
    → moved
        (some (record { rx = rx; tx = tx; seen_at = seen_at; started_at = started_at }))
        rx
        tx
        started_at
      ≡ 0
unfolding moved cap_delta
moved_nothing rx tx seen_at started_at = ground (arith, (text_eq_iff started_at started_at).1 refl)

module _ (clock : Clock) (public_ip : Text → Text) (now : ℕ) where
  note_exit-counters :
      (r : Traffic) (out : State)
      → ((note_exit clock public_ip now r out).counters ≡ out.counters)
        × ((note_exit clock public_ip now r out).used_bytes ≡ out.used_bytes)
  unfolding note_exit
  note_exit-counters r out = elim (Bool-cases (is_empty (public_ip r.exit_ip))) [
    | inl e ↦ rw e (refl, refl)
    | inr e ↦ rw e (refl, refl)
  ]

  -- A reading becomes the last one of its tunnel.
  fold_counters-IsCounted :
      (rx tx : Option ℕ) (r : Traffic) (out : State)
      → IsCounted now (fold_counters clock public_ip now rx tx r out).counters rx tx r
  unfolding fold_counters count_reading
  fold_counters-IsCounted (some rx) (some tx) r out = λ e.
      rw
        (
          e,
          (note_exit-counters r (count_reading now rx tx r out)).0,
          lookup-insert r.tunnel_id r.tunnel_id
              (record { rx = rx; tx = tx; seen_at = unix now; started_at = r.started_at })
              out.counters,
          (text_eq_iff r.tunnel_id r.tunnel_id).1 refl,
        )
        refl
  fold_counters-IsCounted (some rx) none r out = tt
  fold_counters-IsCounted none tx r out = tt

  -- A reading of another tunnel does not touch it.
  fold_counters_apart :
      (rx tx : Option ℕ) (r : Traffic) (out : State) (id : Text)
      → text_eq r.tunnel_id id ≡ false
      → lookup id (fold_counters clock public_ip now rx tx r out).counters ≡ lookup id out.counters
  unfolding fold_counters count_reading
  fold_counters_apart (some rx) (some tx) r out id h = elim (Bool-cases (is_empty r.tunnel_id)) [
    | inl e ↦ rw e refl
    | inr e ↦
        rw
          (
            e,
            (note_exit-counters r (count_reading now rx tx r out)).0,
            lookup-insert r.tunnel_id id
                (record { rx = rx; tx = tx; seen_at = unix now; started_at = r.started_at })
                out.counters,
            h,
          )
          refl
  ]
  fold_counters_apart (some rx) none r out id h = refl
  fold_counters_apart none tx r out id h = refl

  IsCounted-apart :
      (before : ℕ) (rx tx : Option ℕ) (r q : Traffic) (out : State)
      → text_eq r.tunnel_id q.tunnel_id ≡ false
      → IsCounted before out.counters rx tx q
      → IsCounted before (fold_counters clock public_ip now r.rx r.tx r out).counters rx tx q
  IsCounted-apart before (some rx) (some tx) r q out h c =
      λ e. fold_counters_apart r.rx r.tx r out q.tunnel_id h ∙ c e
  IsCounted-apart before (some rx) none r q out h c = tt
  IsCounted-apart before none tx r q out h c = tt

  -- A reading that was counted adds nothing.
  fold_counters_again :
      (before : ℕ) (rx tx : Option ℕ) (r : Traffic) (out : State)
      → out.used_bytes < 2 ^ 64
      → IsCounted before out.counters rx tx r
      → (fold_counters clock public_ip now rx tx r out).used_bytes ≡ out.used_bytes
  unfolding fold_counters count_reading
  fold_counters_again before (some rx) (some tx) r out small c =
      elim (Bool-cases (is_empty r.tunnel_id)) [
        | inl e ↦ rw e refl
        | inr e ↦
            rw
              (
                e,
                (note_exit-counters r (count_reading now rx tx r out)).1,
                c e,
                moved_nothing rx tx (unix before) r.started_at,
              )
              (omega (arith, small))
      ]
  fold_counters_again before (some rx) none r out small c = refl
  fold_counters_again before none tx r out small c = refl

  abbrev folded : List Traffic → State → State
  folded readings out = fold_readings clock public_ip now readings out

  abbrev step : Traffic → State → State
  step r out = fold_counters clock public_ip now r.rx r.tx r out

  AllCounted-apart :
      (before : ℕ) (r : Traffic) (readings : List Traffic) (out : State)
      → All (λ q. text_eq r.tunnel_id q.tunnel_id ≡ false) readings
      → AllCounted before out.counters readings
      → AllCounted before (step r out).counters readings
  AllCounted-apart before r [] out apart c = tt
  AllCounted-apart before r (q ∷ readings) out (h, apart) (cq, c) = (
    IsCounted-apart before q.rx q.tx r q out h cq,
    AllCounted-apart before r readings out apart c,
  )

  -- The other readings leave a tunnel's last counters.
  folded_apart :
      (rx tx : Option ℕ) (q : Traffic) (readings : List Traffic) (out : State)
      → All (λ r. text_eq q.tunnel_id r.tunnel_id ≡ false) readings
      → IsCounted now out.counters rx tx q
      → IsCounted now (folded readings out).counters rx tx q
  unfolding fold_readings
  folded_apart rx tx q [] out apart c = c
  folded_apart rx tx q (r ∷ readings) out (h, apart) c =
      folded_apart rx tx q readings (step r out) apart
        (IsCounted-apart now rx tx r q out (text_eq_comm q.tunnel_id r.tunnel_id ∙ h) c)

  pub folded-AllCounted :
      (readings : List Traffic) (out : State)
      → Distinct readings
      → AllCounted now (folded readings out).counters readings
  unfolding fold_readings
  folded-AllCounted [] out distinct = tt
  folded-AllCounted (r ∷ readings) out (apart, distinct) = (
    folded_apart r.rx r.tx r readings (step r out) apart (fold_counters-IsCounted r.rx r.tx r out),
    folded-AllCounted readings (step r out) distinct,
  )

  pub folded_again :
      (before : ℕ) (readings : List Traffic) (out : State)
      → Distinct readings
      → out.used_bytes < 2 ^ 64
      → AllCounted before out.counters readings
      → (folded readings out).used_bytes ≡ out.used_bytes
  unfolding fold_readings
  folded_again before [] out distinct small c = refl
  folded_again before (r ∷ readings) out (apart, distinct) small (cr, c) =
      let same = fold_counters_again before r.rx r.tx r out small cr in
      folded_again before readings (step r out) distinct (omega (arith, same, small))
        (AllCounted-apart before r readings out apart c)
      ∙ same

  step_small :
      (rx tx : Option ℕ) (r : Traffic) (out : State)
      → out.used_bytes < 2 ^ 64
      → (fold_counters clock public_ip now rx tx r out).used_bytes < 2 ^ 64
  unfolding fold_counters count_reading
  step_small (some rx) (some tx) r out small = elim (Bool-cases (is_empty r.tunnel_id)) [
    | inl e ↦ rw e small
    | inr e ↦ rw (e, (note_exit-counters r (count_reading now rx tx r out)).1) (omega arith)
  ]
  step_small (some rx) none r out small = small
  step_small none tx r out small = small

  pub folded_small :
      (readings : List Traffic) (out : State)
      → out.used_bytes < 2 ^ 64
      → (folded readings out).used_bytes < 2 ^ 64
  unfolding fold_readings
  folded_small [] out small = small
  folded_small (r ∷ readings) out small =
      folded_small readings (step r out) (step_small r.rx r.tx r out small)
