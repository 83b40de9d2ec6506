-- ===== src/Health/OneRefresh.antt =====
-- About the cache of internal/health/windowed.go: its steps and the states they reach.
use cash_pilot_desktop.Base.{
  ℕ, ◌+◌, Bool, true, false, ◌&&◌, not, Option, none, some, List, [], ◌∷◌, ◌≡◌, refl, Text, text_eq,
  text_eq_iff, inl, inr, lookup, lookup-insert, lookup-delete, if◌then◌else◌, or_else, contains,
  keep, length, arith, Bool-cases,
}
use cash_pilot_desktop.Health.Assess.{Hit}
use cash_pilot_desktop.Health.Windows.{
  Entry, new_entry, Windows, is_due, request, forget, end_job, finish,
}

-- The background checks of a service that have not ended.
abbrev pub jobs_of : Text → List Text → ℕ
jobs_of slug jobs = length (keep (λ j. text_eq j slug) jobs)

abbrev pub is_running : Option Entry → ℕ
is_running none = 0
is_running (some e) = if e.running then 1 else 0

-- A call of `hits` or of `forget`, or the end of a check that runs.
pub data Step : Windows → Windows → Type 0 where
  requested : (now : ℕ) (slug : Text) (w : Windows) → Step w (request now slug w).1
  forgotten : (slug : Text) (w : Windows) → Step w (forget slug w)
  finished :
      (now : ℕ) (slug : Text) (result : Bool × List Hit) (w : Windows)
      → contains w.jobs slug ≡ true
      → Step w (finish now slug result w)

pub data Reach (w : Windows) : Windows → Type 0 where
  here : Reach w w
  next : {u v : Windows} → Reach w u → Step u v → Reach w v

-- The running mark of a service counts its checks.
abbrev Counted : Windows → Type 0
Counted w = (slug : Text) → jobs_of slug w.jobs ≡ is_running (lookup slug w.entries)

jobs_of-end_job :
    (slug other : Text) (jobs : List Text)
    → contains jobs slug ≡ true
    → jobs_of other (end_job slug jobs) + (if text_eq slug other then 1 else 0) ≡ jobs_of other jobs
unfolding end_job
jobs_of-end_job slug other [] h = cc
jobs_of-end_job slug other (j ∷ jobs) h = ground (
  arith,
  jobs_of-end_job slug other jobs,
  text_eq_iff j slug,
  text_eq_iff slug other,
  text_eq_iff j other,
)

is_running-or_else :
    (o : Option Entry) → is_running o ≡ (if (or_else o new_entry).running then 1 else 0)
is_running-or_else none = refl
is_running-or_else (some e) = refl

request-Counted : (now : ℕ) (slug : Text) (w : Windows) → Counted w → Counted (request now slug w).1
unfolding request
request-Counted now slug w h other =
    let e = or_else (lookup slug w.entries) new_entry in
    elim (Bool-cases (not e.running && is_due now e)) [
      | inl due ↦ rw due ground (
        arith,
        lookup-insert slug other (record e { running = true }) w.entries,
        text_eq_iff slug other,
        is_running-or_else (lookup slug w.entries),
        h slug,
        h other,
      )
      | inr idle ↦ rw idle ground (
        arith,
        lookup-insert slug other e w.entries,
        text_eq_iff slug other,
        is_running-or_else (lookup slug w.entries),
        h slug,
        h other,
      )
    ]

forget-Counted : (slug : Text) (w : Windows) → Counted w → Counted (forget slug w)
unfolding forget
forget-Counted slug w h other =
    ground (arith, lookup-delete slug other w.entries, text_eq_iff slug other, h slug, h other)

finish-Counted :
    (now : ℕ) (slug : Text) (result : Bool × List Hit) (w : Windows)
    → contains w.jobs slug ≡ true
    → Counted w
    → Counted (finish now slug result w)
unfolding finish
finish-Counted now slug (failed, hits) w c h other =
    let e = or_else (lookup slug w.entries) new_entry in
    ground (
      arith,
      lookup-insert slug other
          (record { checked = some now; running = false; hits = if failed then e.hits else hits })
          w.entries,
      text_eq_iff slug other,
      jobs_of-end_job slug other w.jobs c,
      h slug,
      h other,
    )

Step-Counted : {u v : Windows} → Step u v → Counted u → Counted v
Step-Counted (requested now slug w) h = request-Counted now slug w h
Step-Counted (forgotten slug w) h = forget-Counted slug w h
Step-Counted (finished now slug result w c) h = finish-Counted now slug result w c h

Reach-Counted : {w u : Windows} → Counted w → Reach w u → Counted u
Reach-Counted h here = h
Reach-Counted h (next r s) = Step-Counted s (Reach-Counted h r)

abbrev pub fresh : Windows
fresh = record { entries = []; jobs = [] }

-- In every state that the cache reaches from an empty one, by any sequence of requests, forgets and
-- ends of running checks, a service has one check that has not ended if its entry is marked as
-- running, and none otherwise.
pub one_refresh :
    {w : Windows} (slug : Text)
    → Reach fresh w
    → jobs_of slug w.jobs ≡ is_running (lookup slug w.entries)
unfolding lookup
one_refresh slug r = Reach-Counted (λ s. refl) r slug
