-- ===== src/Removal/Tests.antt =====
-- The removal of a container with a wallet volume.
use cash_pilot_desktop.Base.{
  true, false, none, some, [], ◌∷◌, ◌≡◌, refl, Text, codes, Map, pos, All, keep, any,
}
use cash_pilot_desktop.Catalog.{no_service, no_docker, no_requirements, Service}
use cash_pilot_desktop.Removal.{
  RemoveOptions, RemovalPlan, MountPoint, volume, Daemon, remove, removal_defs, has_critical,
  plan_from_mounts, critical_targets, critical_refusal,
}
use cash_pilot_desktop.Removal.Guard.{Allowed, remove-Allowed, remove_refuses}
use cash_pilot_desktop.Removal.Targets.{plan_from_mounts-critical, declares}

abbrev wallet_mount : MountPoint
wallet_mount = record {
  kind = volume;
  name = codes "node_wallet";
  source = codes "/var/lib/docker/volumes/node_wallet";
  destination = codes "/wallet/";
}

abbrev critical : Map Text
critical = (codes "/wallet", codes "the wallet") ∷ []

abbrev node_daemon : Daemon
node_daemon = record {
  inspect = λ name. some (record {
    labels = some ((codes "cashpilot.managed", codes "true") ∷ []);
    stop_timeout = none;
    mounts = wallet_mount ∷ [];
  });
  removes_container = λ name. true;
  removes_volume = λ name. true;
}

abbrev agreed : RemoveOptions
agreed = record {
  delete_data = true;
  critical = some critical;
  allow_critical = true;
  stop_timeout = pos 0;
}

abbrev node_plan : RemovalPlan
node_plan =
    plan_from_mounts (codes "node") (codes "cashpilot-node") (wallet_mount ∷ []) (some critical)

remove_makes_calls : any (λ c. true) (remove node_daemon (codes "node") agreed).1 ≡ true
unfolding removal_defs
remove_makes_calls = refl

remove-Allowed_example : All (Allowed node_plan agreed) (remove node_daemon (codes "node") agreed).1
unfolding removal_defs
remove-Allowed_example = remove-Allowed node_daemon (codes "node") agreed node_plan refl

abbrev not_agreed : RemoveOptions
not_agreed = record agreed { allow_critical = false }

remove_refuses_example :
    remove node_daemon (codes "node") not_agreed
    ≡ (some (critical_refusal (codes "node") (keep (λ v. v.critical) node_plan.volumes)), [])
unfolding removal_defs
remove_refuses_example =
    remove_refuses node_daemon (codes "node") not_agreed node_plan refl refl refl refl

abbrev node : Service
node = record no_service {
  name = codes "Node";
  slug = codes "node";
  docker = record no_docker {
    image = codes "node";
    image_by_arch = [];
    platforms = [];
    env = [];
    ports = [];
    volumes = [];
    critical_volumes = record { target = codes "/wallet/"; holds = codes "the wallet" } ∷ [];
    health_signals = [];
  };
  requirements = record no_requirements {
    residential_ip = false;
    vps_ip = true;
    devices_per_ip = none;
    min_bandwidth = [];
    gpu = false;
    min_storage = [];
    note = [];
    container_prohibited = false;
  };
  device_link = none;
}

plan_from_mounts-critical_example :
    (has_critical node_plan ≡ true)
    × (declares (some (critical_targets node)) (codes "/wallet") ≡ true)
unfolding removal_defs
plan_from_mounts-critical_example =
    plan_from_mounts-critical (codes "node") (codes "cashpilot-node") (wallet_mount ∷ [])
      (some critical) node (codes "/wallet")
