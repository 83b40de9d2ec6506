-- ===== src/Catalog.antt =====
-- internal/catalog/catalog.go: the fields of a catalog entry that the modelled code reads, and the
-- zero values of the structs.
use cash_pilot_desktop.Base.{ℕ, ℤ, pos, Bool, false, Option, none, List, [], Text, Map}

pub record Requirements : Type 0 where
  pub residential_ip : Bool
  pub vps_ip : Bool
  pub devices_per_ip : Option ℤ
  pub min_bandwidth : Text
  pub gpu : Bool
  pub min_storage : Text
  pub note : Text
  pub container_prohibited : Bool
  -- The source of the terms that forbid a proxy, where they do.
  pub proxy_prohibited : Option Text

pub record CriticalVolume : Type 0 where
  pub target : Text
  pub holds : Text

-- `window_hours` counts the smallest step of time that is told apart: the code compares it with 0.
pub record HealthSignal : Type 0 where
  pub pattern : Text
  pub means : Text
  pub state : Text
  pub unless : Text
  pub window_hours : ℕ
  pub min_matches : ℕ

pub record EnvVar : Type 0 where
  pub key : Text
  pub label : Text
  pub required : Bool
  pub secret : Bool
  pub default : Text
  pub pattern : Text
  pub port_range : Bool

pub record ResourceLimits : Type 0 where
  pub mem_limit : Text
  pub mem_reservation : Text
  pub cpu_shares : ℤ

pub record DockerConfig : Type 0 where
  pub image : Text
  pub tag : Text
  pub image_by_arch : Map Text
  pub platforms : List Text
  pub env : List EnvVar
  pub ports : List Text
  pub volumes : List Text
  pub critical_volumes : List CriticalVolume
  pub command : Text
  pub entrypoint : List Text
  pub network_mode : Text
  pub cap_add : List Text
  pub devices : List Text
  pub health_signals : List HealthSignal
  pub privileged : Bool
  pub resources : ResourceLimits

pub record DeviceLink : Type 0 where
  pub id_env : Text

pub record Service : Type 0 where
  pub name : Text
  pub slug : Text
  pub category : Text
  pub status : Text
  pub priority : ℤ
  pub description : Text
  pub docker : DockerConfig
  pub requirements : Requirements
  pub device_link : Option DeviceLink
  pub custom : Bool

abbrev pub no_requirements : Requirements
no_requirements = record {
  residential_ip = false;
  vps_ip = false;
  devices_per_ip = none;
  min_bandwidth = [];
  gpu = false;
  min_storage = [];
  note = [];
  container_prohibited = false;
  proxy_prohibited = none;
}

abbrev pub no_docker : DockerConfig
no_docker = record {
  image = [];
  tag = [];
  image_by_arch = [];
  platforms = [];
  env = [];
  ports = [];
  volumes = [];
  critical_volumes = [];
  command = [];
  entrypoint = [];
  network_mode = [];
  cap_add = [];
  devices = [];
  health_signals = [];
  privileged = false;
  resources = record { mem_limit = []; mem_reservation = []; cpu_shares = pos 0 };
}

abbrev pub no_service : Service
no_service = record {
  name = [];
  slug = [];
  category = [];
  status = [];
  priority = pos 0;
  description = [];
  docker = no_docker;
  requirements = no_requirements;
  device_link = none;
  custom = false;
}
