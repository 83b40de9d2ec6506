-- ===== src/Instances/Tests.antt =====
-- A service that publishes nothing, and one that publishes a port.
use cash_pilot_desktop.Base.{true, false, none, [], ◌≡◌, refl, codes}
use cash_pilot_desktop.Catalog.{no_service, no_docker, no_requirements, Service}
use cash_pilot_desktop.Instances.{one_device_per_ip, device_env}
use cash_pilot_desktop.Instances.Limit.{shares}

abbrev plain : Service
plain = record no_service {
  name = codes "Plain";
  slug = codes "plain";
  docker = record no_docker {
    image = codes "plain";
    image_by_arch = [];
    platforms = [];
    env = [];
    ports = [];
    volumes = [];
    critical_volumes = [];
    health_signals = [];
  };
  requirements = record no_requirements {
    residential_ip = false;
    vps_ip = true;
    devices_per_ip = none;
    min_bandwidth = [];
    gpu = false;
    min_storage = [];
    note = [];
    container_prohibited = false;
  };
  device_link = none;
}

shares_natively : shares (λ svc. true) plain ≡ true
unfolding one_device_per_ip device_env
shares_natively = refl
