-- ===== src/Health/Verdict.antt =====
-- About Assess of internal/health/producer.go: the verdict on a service.
use cash_pilot_desktop.Base.{
  ℕ, ◌≤◌, Bool, true, false, ◌&&◌, ◌||◌, not, List, [], ◌∷◌, ◌++◌, ◌≡◌, refl, ◌∙◌, ap, ◌⊎◌, inl,
  inr, Text, text_eq, is_empty, if◌then◌else◌, arith, Bool-cases, or_false, ltb, All, All-append,
}
use cash_pilot_desktop.Catalog.{HealthSignal}
use cash_pilot_desktop.Health.Assess.{
  State, not_checked, idle, failing, account_disabled, rank, not_earning, running, restarting, Hit,
  Reason, Input, Engine, Judged, match_loop, match_signals, signal_state, add, add_hits, judge_hits,
  is_nil, judge_logs, judge_restart, assess,
}

-- `isUp` of collect.go, by the same two states.
abbrev pub up : Text → Bool
up state = text_eq state running || text_eq state restarting

-- The hits that the verdict rests on, for a container that is up.
abbrev pub hits_of : Engine → Input → List Hit
hits_of compile input =
    if input.native || is_nil input.signals
    then []
    else if not input.logs_read
    then input.window_hits
    else match_signals compile input.logs input.signals ++ input.window_hits

-- The worst verdict among hits, from a first one on.
abbrev pub worst : State → List Hit → State
worst s [] = s
worst s (hit ∷ hits) = worst (if ltb (rank s) (rank hit.state) then hit.state else s) hits

add_hits-worst : (hits : List Hit) (j : Judged) → (add_hits hits j).0 ≡ worst j.0 hits
unfolding add_hits add
add_hits-worst [] j = refl
add_hits-worst (hit ∷ hits) j = add_hits-worst hits (add hit.state _ j)

add_not_checked : (r : Reason) (j : Judged) → (add not_checked r j).0 ≡ j.0
unfolding add rank
add_not_checked r j = ground arith

judge_hits-worst : (hits : List Hit) (j : Judged) → (judge_hits hits j).0 ≡ worst j.0 hits
unfolding judge_hits
judge_hits-worst [] j = add_not_checked _ j
judge_hits-worst (hit ∷ hits) j = add_hits-worst (hit ∷ hits) j

judge_logs-worst :
    (compile : Engine) (input : Input) (j : Judged)
    → (judge_logs compile input j).0 ≡ worst j.0 (hits_of compile input)
unfolding judge_logs
judge_logs-worst compile input j = elim (Bool-cases input.native) [
  | inl n ↦ rw n (add_not_checked _ j)
  | inr n ↦ elim (Bool-cases (is_nil input.signals)) [
    | inl e ↦ rw (n, e) (add_not_checked _ j)
    | inr e ↦ elim (Bool-cases input.logs_read) [
      | inl r ↦ rw (n, e, r) (judge_hits-worst _ j)
      | inr r ↦
          rw (n, e, r)
            (add_hits-worst input.window_hits _
              ∙ ap (λ s. worst s input.window_hits) (add_not_checked _ j))
    ]
  ]
]

-- The verdict that a restart alone gives.
abbrev pub from_restart : Text → State
from_restart state = if text_eq state restarting then failing else not_checked

restart_state : (input : Input) → (judge_restart input).0 ≡ from_restart input.container_state
unfolding judge_restart add rank
restart_state input = ground arith

empty_not_up : (state : Text) → is_empty state ≡ true → up state ≡ false
unfolding text_eq
empty_not_up [] h = refl
empty_not_up (c ∷ s) h = cc

-- A service that the provider refuses is "account disabled", whatever its container does. Otherwise
-- one whose container is not up is "not checked", and the verdict on one that is up is the worst of
-- its hits, a restart loop counting as "failing".
pub assess-state :
    (compile : Engine) (input : Input)
    → (assess compile input).state ≡ (
        if not (is_empty input.refusal)
        then account_disabled
        else if up input.container_state
        then worst (from_restart input.container_state) (hits_of compile input)
        else not_checked)
unfolding assess
assess-state compile input = elim (Bool-cases (is_empty input.refusal)) [
  | inl r ↦ rw r (
      ground (
        arith,
        empty_not_up input.container_state,
        restart_state input,
        judge_logs-worst compile input (judge_restart input),
      ))
  | inr r ↦ rw r
]

worst-ge_start : (s : State) (hits : List Hit) → rank s ≤ rank (worst s hits)
unfolding rank
worst-ge_start s [] = omega arith
worst-ge_start s (hit ∷ hits) =
    ground (arith, worst-ge_start (if ltb (rank s) (rank hit.state) then hit.state else s) hits)

worst-ge : (s : State) (hits : List Hit) → All (λ h. rank h.state ≤ rank (worst s hits)) hits
unfolding rank
worst-ge s [] = tt
worst-ge s (hit ∷ hits) =
    let next = if ltb (rank s) (rank hit.state) then hit.state else s in
    (ground (arith, worst-ge_start next hits), worst-ge next hits)

-- With no refusal, the verdict on a container that is up is at least as serious as each hit that it
-- rests on, and as a restart loop, if there is one.
pub assess-ge :
    (compile : Engine) (input : Input)
    → is_empty input.refusal ≡ true
    → up input.container_state ≡ true
    → (rank (from_restart input.container_state) ≤ rank (assess compile input).state)
      × All (λ h. rank h.state ≤ rank (assess compile input).state) (hits_of compile input)
assess-ge compile input r u = rw (assess-state compile input) (
    rw (r, u)
      (
        worst-ge_start (from_restart input.container_state) (hits_of compile input),
        worst-ge (from_restart input.container_state) (hits_of compile input),
      ))

-- A hit that says that the service does not earn.
abbrev pub IsFinding : Hit → Type 0
IsFinding h = (h.state ≡ idle) ⊎ (h.state ≡ failing)

signal_state-cases : (state : Text) → (signal_state state ≡ idle) ⊎ (signal_state state ≡ failing)
unfolding signal_state
signal_state-cases state = ground arith

match_loop-IsFinding :
    (compile : Engine) (haystack : List ℕ) (signals : List HealthSignal)
    → All IsFinding (match_loop compile haystack signals)
unfolding match_loop
match_loop-IsFinding compile haystack [] = tt
match_loop-IsFinding compile haystack (s ∷ signals) =
    ground (arith, match_loop-IsFinding compile haystack signals, signal_state-cases s.state)

match_signals-IsFinding :
    (compile : Engine) (logs : List ℕ) (signals : List HealthSignal)
    → All IsFinding (match_signals compile logs signals)
unfolding match_signals
match_signals-IsFinding compile logs signals = elim (Bool-cases (is_empty logs)) [
  | inl e ↦ rw e tt
  | inr e ↦ rw e (match_loop-IsFinding compile _ signals)
]

hits_of-IsFinding :
    (compile : Engine) (input : Input)
    → All IsFinding input.window_hits
    → All IsFinding (hits_of compile input)
hits_of-IsFinding compile input h = elim (Bool-cases (input.native || is_nil input.signals)) [
  | inl n ↦ rw n tt
  | inr n ↦ elim (Bool-cases input.logs_read) [
    | inl r ↦
        rw (n, r)
          (All-append IsFinding _ _ (match_signals-IsFinding compile input.logs input.signals) h)
    | inr r ↦ rw (n, r) h
  ]
]

worst-not_earning :
    (s : State) (hits : List Hit)
    → All IsFinding hits
    → not_earning (worst s hits) ≡ (not_earning s || not (is_nil hits))
unfolding not_earning rank
worst-not_earning s [] h = or_false (not_earning s)
worst-not_earning s (hit ∷ hits) h =
    worst-not_earning (if ltb (rank s) (rank hit.state) then hit.state else s) hits h.1
    ∙ ground arith

not_earning_cases :
    (refused is_up restarts : Bool) (hits : List Hit)
    → All IsFinding hits
    → not_earning (
        if refused
        then account_disabled
        else if is_up
        then worst (if restarts then failing else not_checked) hits
        else not_checked)
      ≡ (refused || (is_up && (restarts || not (is_nil hits))))
unfolding not_earning
not_earning_cases true is_up restarts hits h = refl
not_earning_cases false false restarts hits h = refl
not_earning_cases false true true hits h = worst-not_earning failing hits h
not_earning_cases false true false hits h = worst-not_earning not_checked hits h

-- Where the windowed hits are findings, a service is said not to earn exactly when the provider
-- refuses it, or its container is up and it restarts or has a hit.
pub assess-not_earning :
    (compile : Engine) (input : Input)
    → All IsFinding input.window_hits
    → not_earning (assess compile input).state ≡ (
        not (is_empty input.refusal)
        || (up input.container_state
            && (text_eq input.container_state restarting || not (is_nil (hits_of compile input)))))
assess-not_earning compile input h = rw (assess-state compile input) (
    not_earning_cases (not (is_empty input.refusal)) (up input.container_state)
      (text_eq input.container_state restarting) (hits_of compile input)
      (hits_of-IsFinding compile input h))
