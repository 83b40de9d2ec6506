-- ===== src/Health/Tests.antt =====
-- Verdicts, the cache and a collection, with an engine that finds a literal pattern.
use cash_pilot_desktop.Base.{
  true, false, some, List, [], ◌∷◌, ◌≡◌, refl, codes, has_prefix, trim_prefix, lookup,
}
use cash_pilot_desktop.Catalog.{HealthSignal}
use cash_pilot_desktop.Health.Assess.{Engine, Input, assess, assess_defs, failing, idle}
use cash_pilot_desktop.Health.Verdict.{assess-state}
use cash_pilot_desktop.Health.Windows.{
  Windows, request, finish, windows_defs, refresh_hits, Read, lines,
}
use cash_pilot_desktop.Health.Refresh.{finish-refresh_hits}
use cash_pilot_desktop.Health.OneRefresh.{
  Reach, here, next, requested, finished, one_refresh, fresh, jobs_of, is_running,
}
use cash_pilot_desktop.Health.Collect.{Deployed, LogReader, ServiceLookup, collect, collect_defs}

-- An engine for literal patterns that are found at the start of the log.
abbrev literal : Engine
literal pattern = some (λ logs. has_prefix logs (trim_prefix pattern (codes "(?i)")))

abbrev refused : HealthSignal
refused = record {
  pattern = codes "banned";
  means = codes "The account is banned.";
  state = codes "account_disabled";
  unless = [];
  window_hours = 0;
  min_matches = 0;
}

abbrev offline : HealthSignal
offline = record refused { pattern = codes "offline"; means = codes "Offline."; state = [] }

abbrev windowed : HealthSignal
windowed = record offline { window_hours = 24 }

abbrev node_input : Input
node_input = record {
  slug = codes "node";
  container_state = codes "running";
  native = false;
  signals = offline ∷ [];
  logs = codes "offline";
  logs_read = true;
  window_hits = record { pattern = codes "idle"; means = codes "Idle."; state = idle } ∷ [];
  refusal = [];
}

assess-state_example : (assess literal node_input).state ≡ failing
unfolding assess_defs
assess-state_example = assess-state literal node_input

-- Asked, done, then asked again after an hour.
abbrev asked : Windows
asked = (request 0 (codes "node") fresh).1

abbrev done : Windows
done = finish 60 (codes "node") (false, []) asked

abbrev asked_again : Windows
asked_again = (request 3600000000000 (codes "node") done).1

asked_path : Reach fresh asked_again
unfolding windows_defs
asked_path =
    next
      (next (next here (requested 0 (codes "node") fresh))
        (finished 60 (codes "node") (false, []) asked refl))
      (requested 3600000000000 (codes "node") done)

one_refresh_example :
    jobs_of (codes "node") asked_again.jobs ≡ is_running (lookup (codes "node") asked_again.entries)
one_refresh_example = one_refresh (codes "node") asked_path

asked_again_runs : is_running (lookup (codes "node") asked_again.entries) ≡ 1
unfolding windows_defs
asked_again_runs = refl

abbrev reader : LogReader
reader = record {
  logs = λ slug lines. some (codes "offline");
  last_run_logs = some (λ slug lines. some (codes "banned"));
  can_window = true;
}

abbrev services : ServiceLookup
services slug = some (offline ∷ windowed ∷ [])

abbrev deployed : List Deployed
deployed =
    record { slug = codes "node"; container_state = codes "running"; runtime = codes "docker" }
    ∷ record { slug = []; container_state = codes "running"; runtime = codes "docker" }
    ∷ []

collect_starts :
    (collect literal (some reader) (some services) (λ ds. 0) deployed fresh).1.jobs
    ≡ codes "node" ∷ []
unfolding collect_defs
collect_starts = refl

-- The logs of every window say that the service is offline.
abbrev offline_logs : HealthSignal → Read
offline_logs s = lines (codes "offline")

finish-refresh_hits_example :
    lookup
      (codes "node")
      (finish 60
        (codes "node")
        (refresh_hits literal [] [] offline_logs [] (windowed ∷ []))
        asked).entries
    ≡ some (record {
      checked = some 60;
      running = false;
      hits = record { pattern = codes "offline"; means = codes "Offline."; state = failing } ∷ [];
    })
unfolding windows_defs
finish-refresh_hits_example =
    finish-refresh_hits literal [] [] offline_logs 60 (codes "node") (windowed ∷ []) asked
