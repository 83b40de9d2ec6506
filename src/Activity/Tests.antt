-- ===== src/Activity/Tests.antt =====
-- A round over an earner, one behind a shared namespace, and their counters.
use cash_pilot_desktop.Base.{
  ℕ, none, some, List, [], ◌∷◌, ◌≡◌, refl, codes, text_eq, Map, lookup, pos, All, if◌then◌else◌,
  map, texts,
}
use cash_pilot_desktop.Activity.{
  Container, Lookup, plan, joinable_runtimes, RuntimeSpec, mode_of, join_group, plan_joined,
  plan_one, plan_loop, chase,
}
use cash_pilot_desktop.Activity.Probed.{plan-Probed, Probed}
use cash_pilot_desktop.Activity.Counters.{Counters, CounterState, counters_defs}
use cash_pilot_desktop.Activity.Runs.{Column, AreNear, last_count, run_changes-IsChange}
use cash_pilot_desktop.Activity.Deltas.{apply-opens, IsBaseline, IsChange}

abbrev earner : Container
earner = record {
  id = codes "1";
  name = codes "cashpilot-node";
  labels = [];
  network_mode = [];
  runtime = codes "runc";
}

abbrev tunnel : Container
tunnel = record {
  id = codes "2";
  name = codes "tunnel";
  labels = [];
  network_mode = codes "bridge";
  runtime = codes "runc";
}

abbrev guest : Container
guest = record earner {
  id = codes "3";
  name = codes "cashpilot-guest";
  network_mode = codes "container:tunnel";
}

abbrev find_tunnel : Lookup
find_tunnel name = if text_eq name (codes "tunnel") then some tunnel else none

plans_two :
    map (λ g. g.0) (plan (earner ∷ guest ∷ []) find_tunnel (joinable_runtimes [])).groups
    ≡ codes "1" ∷ codes "2" ∷ []
unfolding texts plan plan_loop plan_one mode_of joinable_runtimes join_group plan_joined chase
plans_two = refl

plan-Probed_example :
    All
      (Probed (joinable_runtimes []))
      (plan (earner ∷ guest ∷ []) find_tunnel (joinable_runtimes [])).groups
plan-Probed_example = plan-Probed (earner ∷ guest ∷ []) find_tunnel (joinable_runtimes [])

abbrev runtimes : Map RuntimeSpec
runtimes =
    (codes "gvisor", record { path = codes "/usr/bin/runsc"; args = codes "--network=host" ∷ [] })
    ∷ []

abbrev counters : ℕ → Counters
counters n = record {
  opens = pos n;
  passive_opens = pos 0;
  attempt_fails = pos 0;
  resets = pos 0;
  udp_in = pos 0;
  udp_out = pos 0;
}

abbrev first_state : CounterState
first_state = record { netns = codes "net:1"; snmp = counters 10; at = 1000 }

abbrev first_map : Map CounterState
first_map = (codes "1", first_state) ∷ []

apply-opens_example :
    (o : CounterState) × (lookup (codes "1") first_map ≡ some o)
    × IsBaseline (codes "net:1") 301000 o
    × IsChange o.snmp.opens (pos 25) 15
unfolding counters_defs
apply-opens_example = apply-opens (codes "1") (codes "net:1") (counters 25) 301000 first_map 15 refl

abbrev two_readings : List (Counters × ℕ)
two_readings = (counters 25, 301000) ∷ (counters 40, 601000) ∷ []

run_changes-IsChange_example :
    AreNear (codes "net:1") first_state two_readings
    × IsChange (pos 10) (last_count Column.opens (pos 10) two_readings) 30
unfolding counters_defs
run_changes-IsChange_example =
    run_changes-IsChange Column.opens (codes "1") (codes "net:1") two_readings first_map first_state
      30 refl refl refl
