-- ===== src/Health/Assess.antt =====
-- internal/health/producer.go. The `regexp` engine is a parameter: `compile` gives the test of a
-- pattern, or `none` where it is invalid. Logs are bytes. A sentence of the source is a constructor.
use cash_pilot_desktop.Base.{
  ℕ, ◌-◌, Bool, true, false, ◌&&◌, ◌||◌, not, Option, none, some, List, [], ◌∷◌, ◌++◌, Text, codes,
  text_eq, is_empty, trim_space, join, fields, equal_fold, if◌then◌else◌, any, ltb, drop, length,
  texts,
}
use cash_pilot_desktop.Catalog.{HealthSignal}

pub data State : Type 0 where
  not_checked idle failing account_disabled : State

unfoldable pub rank : State → ℕ
rank not_checked = 0
rank idle = 1
rank failing = 2
rank account_disabled = 3

unfoldable pub not_earning : State → Bool
not_earning not_checked = false
not_earning _ = true

abbrev pub running : Text
running = codes "running"

abbrev pub restarting : Text
restarting = codes "restarting"

abbrev pub Bytes : Type 0
Bytes = List ℕ

pub record Hit : Type 0 where
  pub pattern : Text
  pub means : Text
  pub state : State

pub data Reason : Type 0 where
  cannot_tell not_running keeps_restarting runs_natively : Reason
  no_signals logs_not_read nothing_known : Reason
  says : Text → Reason

pub record Input : Type 0 where
  pub slug : Text
  pub container_state : Text
  pub native : Bool
  pub signals : List HealthSignal
  pub logs : Bytes
  pub logs_read : Bool
  pub window_hits : List Hit
  pub refusal : Text

pub record Report : Type 0 where
  pub slug : Text
  pub state : State
  pub reasons : List Reason

abbrev signal_account_disabled : Text
signal_account_disabled = codes "account_disabled"

unfoldable pub is_windowed : HealthSignal → Bool
is_windowed s = ltb 0 s.window_hours

unfoldable pub is_refusal : HealthSignal → Bool
is_refusal s = text_eq s.state signal_account_disabled

abbrev pub declares_refusal : List HealthSignal → Bool
declares_refusal = any is_refusal

unfoldable pub collapse_space : Text → Text
collapse_space s = join b' ' (fields s)

unfoldable pub means_or_default : Text → Text
means_or_default means =
    let m = trim_space (collapse_space means) in
    if is_empty m then codes "Its logs match a known problem for this service." else m

unfoldable pub signal_state : Text → State
signal_state state = if equal_fold (trim_space state) (codes "idle") then idle else failing

-- The last `n` bytes.
abbrev pub tail_of : ℕ → Bytes → Bytes
tail_of n logs = drop (length logs - n) logs

-- Both limits are numerals in the source, and stay shut: no proof depends on their value.
unfoldable pub max_log_chars : ℕ
max_log_chars = 200000

unfoldable pub refusal_chars : ℕ
refusal_chars = 4096

abbrev pub Engine : Type 0
Engine = Text → Option (Bytes → Bool)

module _ (compile : Engine) where
  -- The pattern is valid and found, with no regard to case.
  unfoldable pub found_in : Text → Bytes → Bool
  found_in pattern logs = elim (compile (codes "(?i)" ++ pattern)) [
    | none ↦ false
    | some matches ↦ matches logs
  ]

  unfoldable pub signal_hits : Bytes → HealthSignal → Bool
  signal_hits haystack s =
      not (is_empty s.pattern || (is_windowed s || is_refusal s)) && found_in s.pattern haystack

  abbrev pub hit_of : HealthSignal → Hit
  hit_of s = record {
    pattern = s.pattern;
    means = means_or_default s.means;
    state = signal_state s.state;
  }

  unfoldable pub match_loop : Bytes → List HealthSignal → List Hit
  match_loop haystack [] = []
  match_loop haystack (s ∷ signals) =
      let rest = match_loop haystack signals in
      if signal_hits haystack s then hit_of s ∷ rest else rest

  unfoldable pub match_signals : Bytes → List HealthSignal → List Hit
  match_signals logs signals =
      if is_empty logs then [] else match_loop (tail_of max_log_chars logs) signals

  unfoldable pub refuses : Bytes → HealthSignal → Bool
  refuses logs s = is_refusal s && (not (is_empty s.pattern) && found_in s.pattern logs)

  unfoldable pub refusal_loop : Bytes → List HealthSignal → Text
  refusal_loop logs [] = []
  refusal_loop logs (s ∷ signals) =
      let rest = refusal_loop logs signals in
      if refuses logs s then means_or_default s.means else rest

  unfoldable pub match_refusal : Bytes → List HealthSignal → Text
  match_refusal logs signals =
      if is_empty logs then [] else refusal_loop (tail_of refusal_chars logs) signals

-- The verdict so far and the reasons for it.
abbrev pub Judged : Type 0
Judged = State × List Reason

unfoldable pub add : State → Reason → Judged → Judged
add s reason (state, reasons) =
    (if ltb (rank state) (rank s) then s else state, reasons ++ reason ∷ [])

unfoldable pub add_hits : List Hit → Judged → Judged
add_hits [] j = j
add_hits (hit ∷ hits) j = add_hits hits (add hit.state (says hit.means) j)

-- The branch of the last `switch` that matches the logs.
unfoldable pub judge_hits : List Hit → Judged → Judged
judge_hits [] j = add not_checked nothing_known j
judge_hits (hit ∷ hits) j = add_hits (hit ∷ hits) j

abbrev pub is_nil {ℓ} : {A : Type ℓ} → List A → Bool
is_nil [] = true
is_nil (_ ∷ _) = false

abbrev pub report : Text → State → Reason → Report
report slug state reason = record { slug = slug; state = state; reasons = reason ∷ [] }

-- What a container that is up is judged by, behind the test for a restart.
unfoldable pub judge_logs : Engine → Input → Judged → Judged
judge_logs compile input j =
    if input.native
    then add not_checked runs_natively j
    else if is_nil input.signals
    then add not_checked no_signals j
    else if not input.logs_read
    then add_hits input.window_hits (add not_checked logs_not_read j)
    else judge_hits (match_signals compile input.logs input.signals ++ input.window_hits) j

unfoldable pub judge_restart : Input → Judged
judge_restart input =
    if text_eq input.container_state restarting
    then add failing keeps_restarting (not_checked, [])
    else (not_checked, [])

unfoldable pub assess : Engine → Input → Report
assess compile input =
    let judged = judge_logs compile input (judge_restart input) in
    if not (is_empty input.refusal)
    then report input.slug account_disabled (says input.refusal)
    else if is_empty input.container_state
    then report input.slug not_checked cannot_tell
    else if not (text_eq input.container_state running)
        && not (text_eq input.container_state restarting)
    then report input.slug not_checked not_running
    else record { slug = input.slug; state = judged.0; reasons = judged.1 }

-- Opens the file and the text functions, for tests.
unfoldable pub assess_defs : Unit {0}
unfolding texts rank not_earning is_windowed is_refusal collapse_space means_or_default signal_state
    max_log_chars refusal_chars found_in signal_hits match_loop match_signals refuses refusal_loop
    match_refusal add add_hits judge_hits judge_logs judge_restart assess
assess_defs = tt
