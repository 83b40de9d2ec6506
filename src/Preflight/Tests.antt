-- ===== src/Preflight/Tests.antt =====
-- The preflight on a storage service that is built for three machines.
use cash_pilot_desktop.Base.{
  true, false, none, some, List, [], ◌∷◌, ◌≡◌, refl, codes, pos, text_eq-differ, Perm, IsSorted,
  texts,
}
use cash_pilot_desktop.Catalog.{
  no_service, no_docker, no_requirements, DockerConfig, Requirements, Service,
}
use cash_pilot_desktop.Arch.{has_build_for}
use cash_pilot_desktop.Preflight.Target.{supports, target_defs}
use cash_pilot_desktop.Preflight.Agreement.{supports-eq-has_build_for}
use cash_pilot_desktop.Preflight.Assess.{Device, Input, assess, collected, worse}
use cash_pilot_desktop.Preflight.Verdicts.{assess_worst_first, Leads}

abbrev storage_image : DockerConfig
storage_image = record no_docker {
  image = codes "storage/node";
  image_by_arch = (codes "arm", codes "storage/node-arm") ∷ [];
  platforms = codes "linux/amd64" ∷ codes "linux/arm64" ∷ codes "linux/arm/v6" ∷ [];
  env = [];
  ports = [];
  volumes = [];
  critical_volumes = [];
  health_signals = [];
}

abbrev storage_needs : Requirements
storage_needs = record no_requirements {
  residential_ip = true;
  vps_ip = false;
  devices_per_ip = some (pos 1);
  min_bandwidth = [];
  gpu = false;
  min_storage = codes "500GB";
  note = [];
  container_prohibited = false;
}

abbrev storage : Service
storage = record no_service {
  name = codes "Storage";
  slug = codes "storage";
  docker = storage_image;
  requirements = storage_needs;
  device_link = none;
}

abbrev two_machines : List Device
two_machines =
    record { name = codes "attic"; services = codes "storage" ∷ [] }
    ∷ record { name = codes "cellar"; services = codes "storage" ∷ codes "other" ∷ [] }
    ∷ []

abbrev arm_input : Input
arm_input = record { service = storage; fleet = two_machines; daemon_arch = codes "armv7l" }

supports_arm : supports storage_image (codes "armv7l") ≡ (true, true)
unfolding target_defs
supports_arm = refl

supports-eq-has_build_for_example :
    supports storage_image (codes "armv7l") ≡ has_build_for storage_image (codes "armv7l")
unfolding texts
supports-eq-has_build_for_example =
    supports-eq-has_build_for storage_image (codes "armv7l") refl
      (text_eq-differ (codes "armv7l") (codes "x86-64") refl)
      (text_eq-differ (codes "armv7l") (codes "armv5l") refl) (tt, (tt, (refl, tt)))

assess_worst_first_example :
    Perm (assess arm_input).findings (collected arm_input)
    × IsSorted worse (assess arm_input).findings
    × Leads (assess arm_input).findings (assess arm_input).verdict
assess_worst_first_example = assess_worst_first arm_input
