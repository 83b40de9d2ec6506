-- ===== src/Proxies/Cap.antt =====
-- The traffic cap of internal/proxies/proxies.go. A time is in nanoseconds of Unix time; its formats
-- and its date are parameters. Byte counters are 64 bits wide and wrap around.
use cash_pilot_desktop.Base.{
  ℕ, ℤ, pos, eqb_ℤ, to_uint64, pos_part, Bool, false, true, ◌&&◌, ◌||◌, not, Option, none, some,
  List, [], ◌∷◌, ◌++◌, ◌+◌, ◌-◌, ◌*◌, ◌/◌, ◌%◌, ◌^◌, Text, codes, text_eq, is_empty, Map, lookup,
  insert, itoa, if◌then◌else◌, or_else, keep, is_some, ltb, leb, ◌==◌,
}
use cash_pilot_desktop.Proxies.{Definition, State, Counter, Floats, default_threshold_pct}
use cash_pilot_desktop.Proxies.Clean.{format_float, format_int}

-- A day of the calendar: `months` counts the months since the year 0, so that the month before is
-- one less.
pub record Date : Type 0 where
  pub months : ℕ
  pub day : ℕ

-- What the code uses of the package `time`.
pub record Clock : Type 0 where
  -- `t.UTC().Format(time.RFC3339)` and `t.Format("2006-01-02")`.
  pub rfc3339 : ℕ → Text
  pub format_date : ℕ → Text
  -- `t.Date()`, and the day that `time.Parse("2006-01-02", s)` reads.
  pub date_of : ℕ → Date
  pub parse_date : Text → Option Date

-- `t.Unix()`
abbrev pub unix : ℕ → ℕ
unix now = now / 1000000000

-- 31 days, in nanoseconds.
abbrev pub baseline_keep : ℕ
baseline_keep = 2678400 * 1000000000

unfoldable pub threshold_pct : {F : Type 0} → Definition F → ℤ
threshold_pct d =
    if eqb_ℤ d.cap_threshold_pct (pos 0) then default_threshold_pct else d.cap_threshold_pct

-- The counter that is passed for the first argument, and its value: `prev == nil` is `none`.
unfoldable pub cap_delta : Option Counter → ℕ → ℕ → Text → ℕ
cap_delta none current prev_value started_at = current
cap_delta (some prev) current prev_value started_at =
    let restarted =
      not (is_empty started_at)
      && (not (is_empty prev.started_at) && not (text_eq started_at prev.started_at)) in
    if restarted || ltb current prev_value then current else current - prev_value

pub record Traffic : Type 0 where
  pub tunnel_id : Text
  pub started_at : Text
  pub rx : Option ℕ
  pub tx : Option ℕ
  pub exit_ip : Text
  pub exit_country : Text

abbrev pub rx_of : Option Counter → ℕ
rx_of none = 0
rx_of (some c) = c.rx

abbrev pub tx_of : Option Counter → ℕ
tx_of none = 0
tx_of (some c) = c.tx

-- The bytes one reading adds.
unfoldable pub moved : Option Counter → ℕ → ℕ → Text → ℕ
moved prev rx tx started_at =
    cap_delta prev rx (rx_of prev) started_at + cap_delta prev tx (tx_of prev) started_at

-- The state without the baselines, and the baselines, while a reading is folded in.
unfoldable pub note_exit : Clock → (Text → Text) → ℕ → Traffic → State → State
note_exit clock public_ip now r out =
    let ip = public_ip r.exit_ip in
    if is_empty ip then out else record out {
      last_exit_ip = ip;
      last_country = r.exit_country;
      last_checked_at = clock.rfc3339 now;
    }

unfoldable pub count_reading : ℕ → ℕ → ℕ → Traffic → State → State
count_reading now rx tx r out =
    let prev = lookup r.tunnel_id out.counters in
    record out {
      used_bytes = (out.used_bytes + moved prev rx tx r.started_at) % 2 ^ 64;
      counters =
          insert r.tunnel_id
            (record { rx = rx; tx = tx; seen_at = unix now; started_at = r.started_at })
            out.counters;
    }

-- The body of the loop for a reading with both counters.
unfoldable pub fold_counters :
    Clock → (Text → Text) → ℕ → Option ℕ → Option ℕ → Traffic → State → State
fold_counters clock public_ip now (some rx) (some tx) r out =
    if is_empty r.tunnel_id
    then out
    else note_exit clock public_ip now r (count_reading now rx tx r out)
fold_counters clock public_ip now _ _ r out = out

unfoldable pub fold_readings : Clock → (Text → Text) → ℕ → List Traffic → State → State
fold_readings clock public_ip now [] out = out
fold_readings clock public_ip now (r ∷ readings) out =
    fold_readings clock public_ip now readings (fold_counters clock public_ip now r.rx r.tx r out)

-- `now.Sub(time.Unix(seenAt, 0)) >= BaselineKeep`
abbrev pub is_expired : ℕ → ℕ → Bool
is_expired now seen_at = leb (seen_at * 1000000000 + baseline_keep) now

unfoldable pub drop_expired : ℕ → Map Counter → Map Counter
drop_expired now counters = keep (λ entry. not (is_expired now entry.1.seen_at)) counters

module _ {F : Type 0} (floats : Floats F) where
  unfoldable pub cap_bytes : Definition F → Option ℕ
  cap_bytes d = elim d.cap_gb [
    | none ↦ none
    | some gb ↦ if floats.is_none gb then none else some (floats.bytes_of gb)
  ]

  -- `c * uint64(pct) / 100`
  unfoldable pub threshold_bytes : Definition F → Option ℕ
  threshold_bytes d = elim (cap_bytes d) [
    | none ↦ none
    | some c ↦ some ((c * to_uint64 (threshold_pct d)) % 2 ^ 64 / 100)
  ]

  unfoldable pub cap_reason_of : Clock → Definition F → ℕ → Text
  cap_reason_of clock d when =
      let name = if is_empty d.name then codes "This proxy" else d.name in
      let reason =
        name
        ++ codes " reached "
        ++ itoa (threshold_pct d)
        ++ codes "% of its "
        ++ floats.gigabytes (or_else (cap_bytes d) 0)
        ++ codes " GB cap on "
        ++ clock.format_date when in
      elim d.reset_day [
        | none ↦ reason ++ codes "; reset it by hand to start the copies again"
        | some day ↦ reason ++ codes "; it resets on day " ++ itoa day ++ codes " of the month"
      ]

  -- The cap's limit is reached by a proxy that is not stopped.
  unfoldable pub crosses : Definition F → State → Bool
  crosses d out = elim (threshold_bytes d) [
    | none ↦ false
    | some limit ↦ is_empty out.capped_at && leb limit out.used_bytes
  ]

  unfoldable pub account :
      Clock → (Text → Text) → State → Definition F → List Traffic → ℕ → State × Bool
  account clock public_ip s d readings now =
      let read = fold_readings clock public_ip now readings s in
      let out = record read { counters = drop_expired now read.counters } in
      if crosses d out
      then (
        record out { capped_at = clock.rfc3339 now; cap_reason = cap_reason_of clock d now },
        true,
      )
      else (out, false)

  unfoldable pub reset_state : Clock → State → ℕ → State
  reset_state clock s today = record s {
    used_bytes = 0;
    period_start = clock.format_date today;
    capped_at = [];
    cap_reason = [];
  }

  unfoldable pub same_cap : Definition F → Definition F → Bool
  same_cap a b =
      text_eq (format_float floats a.cap_gb) (format_float floats b.cap_gb)
      && (eqb_ℤ a.cap_threshold_pct b.cap_threshold_pct
          && (text_eq (format_int a.reset_day) (format_int b.reset_day) && text_eq a.name b.name))

  abbrev pub above : Option ℕ → ℕ → Bool
  above none used = true
  above (some limit) used = ltb used limit

  unfoldable pub cap_change : Clock → Definition F → Definition F → State → ℕ → State × Bool
  cap_change clock old updated s today =
      if is_some (cap_bytes updated) && not (is_some (cap_bytes old))
      then (reset_state clock s today, not (is_empty s.capped_at))
      else if is_empty s.capped_at
      then (s, false)
      else if above (threshold_bytes updated) s.used_bytes
      then (record s { capped_at = []; cap_reason = [] }, true)
      else if not (same_cap old updated)
      then (record s { cap_reason = cap_reason_of clock updated today }, false)
      else (s, false)

-- `a.Before(b)`
abbrev pub before : Date → Date → Bool
before a b = ltb a.months b.months || (a.months == b.months && ltb a.day b.day)

abbrev pub is_leap : ℕ → Bool
is_leap year = year % 4 == 0 && (not (year % 100 == 0) || year % 400 == 0)

-- The month after `months` whole ones.
unfoldable pub days_in : ℕ → ℕ
days_in months =
    let month = months % 12 in
    if month == 1
    then if is_leap (months / 12) then 29 else 28
    else if month == 3 || (month == 5 || (month == 8 || month == 10))
    then 30
    else 31

-- How `time.Date` and `AddDate` read a day that the month does not have; the day is at most 31.
unfoldable pub normalised : Date → Date
normalised date =
    if ltb (days_in date.months) date.day
    then record { months = date.months + 1; day = date.day - days_in date.months }
    else date

-- The last reset day that is not after today. A day of the form that Clean stores is at most 28.
unfoldable pub boundary : Date → ℕ → Date
boundary today day =
    let this_month = normalised (record { months = today.months; day = day }) in
    if ltb today.day day
    then normalised (record { months = this_month.months - 1; day = this_month.day })
    else this_month

unfoldable pub reset_due : {F : Type 0} → Clock → Definition F → State → ℕ → Bool
reset_due clock d s today = elim d.reset_day [
  | none ↦ false
  | some day ↦
      if eqb_ℤ day (pos 0)
      then false
      else if is_empty s.period_start
      then true
      else elim (clock.parse_date s.period_start) [
        | none ↦ true
        | some start ↦ before start (boundary (clock.date_of today) (pos_part day))
      ]
]

-- Opens the definitions of this module.
unfoldable pub cap_defs : Unit {0}
unfolding threshold_pct cap_delta moved note_exit count_reading fold_counters fold_readings
    drop_expired cap_bytes threshold_bytes cap_reason_of crosses account reset_state same_cap
    cap_change days_in normalised boundary reset_due
cap_defs = tt
