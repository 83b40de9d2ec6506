-- ===== src/Drift/Tests.antt =====
-- A probe that needs a raw socket, in a container that was made without it.
use cash_pilot_desktop.Base.{false, some, [], ◌∷◌, ◌≡◌, refl, codes, texts}
use cash_pilot_desktop.Catalog.{Service, no_service, no_docker}
use cash_pilot_desktop.Arch.{arch_defs}
use cash_pilot_desktop.Custom.Shown.{cut_at, split_tag}
use cash_pilot_desktop.Drift.{Inspected, shape_of, drift_defs}
use cash_pilot_desktop.Drift.Judge.{shape_drift, missing_caps, judge_defs}

abbrev probe : Service
probe = record no_service {
  slug = codes "probe";
  docker = record no_docker {
    image = codes "drumsergio/cashpilot-probe:2";
    cap_add = codes "net_raw" ∷ [];
    ports = codes "9000:9000" ∷ [];
  };
}

abbrev inspected : Inspected
inspected = record {
  config = some (record {
    image = codes "drumsergio/cashpilot-probe:2";
    entrypoint = [];
    env = codes "A=1" ∷ [];
  });
  host_config = some (record {
    cap_add = [];
    cap_drop = codes "ALL" ∷ [];
    privileged = false;
    network_mode = codes "bridge";
    device_paths = [];
    bound_ports = codes "9000/tcp" ∷ [];
  });
  destinations = [];
}

misses_raw : shape_drift probe (shape_of inspected) [] ≡ missing_caps (codes "NET_RAW" ∷ []) ∷ []
unfolding drift_defs judge_defs arch_defs texts cut_at split_tag
misses_raw = refl
