-- ===== src/Drift.antt =====
-- internal/runtime/container_drift.go: does a container still match what a redeploy would build? A
-- set of names is a list that holds each once; a sentence is a constructor with its names.
mod Judge
mod Sets
pub mod Parts
pub mod Matches
mod Tests
use cash_pilot_desktop.Base.{
  ℕ, Bool, true, false, ◌&&◌, ◌||◌, not, Option, none, some, List, [], ◌∷◌, ◌++◌, map, Text, codes,
  text_eq, text_lt, is_empty, trim_prefix, trim_space, trim_right, to_upper, split, contains, sort,
  keep, if◌then◌else◌, any, ◌==◌,
}
use cash_pilot_desktop.Custom.Shown.{cut_at, has_char, split_tag}

pub record ContainerShape : Type 0 where
  pub arch : Text
  pub image : Text
  pub cap_add : List Text
  pub cap_drop : List Text
  pub privileged : Bool
  pub network_mode : Text
  pub devices : List Text
  pub ports : List Text
  pub mounts : List Text
  pub env_keys : List Text
  pub entrypoint : List Text

-- What the code reads of an inspected container: `Config` and `HostConfig` may be missing.
pub record Config : Type 0 where
  pub image : Text
  pub entrypoint : List Text
  pub env : List Text

pub record HostConfig : Type 0 where
  pub cap_add : List Text
  pub cap_drop : List Text
  pub privileged : Bool
  pub network_mode : Text
  pub device_paths : List Text
  pub bound_ports : List Text

pub record Inspected : Type 0 where
  pub config : Option Config
  pub host_config : Option HostConfig
  pub destinations : List Text

-- `toSet`: the last of equal names is kept.
unfoldable pub to_set : List Text → List Text
to_set [] = []
to_set (v ∷ values) = let rest = to_set values in if contains values v then rest else v ∷ rest

unfoldable pub sorted_keys : List Text → List Text
sorted_keys set = sort text_lt set

-- `minus`
unfoldable pub minus : List Text → List Text → List Text
minus a b = sort text_lt (keep (λ k. not (contains b k)) a)

abbrev pub given : List Text → List Text
given names = keep (λ n. not (is_empty n)) names

abbrev pub cap_name : Text → Text
cap_name v = trim_prefix (to_upper (trim_space v)) (codes "CAP_")

unfoldable pub cap_names : List Text → List Text
cap_names values = sorted_keys (to_set (given (map cap_name values)))

-- The names of paths without the slashes that end them.
unfoldable pub trimmed_paths : List Text → List Text
trimmed_paths paths = to_set (given (map (trim_right b'/') paths))

abbrev pub no_shape : ContainerShape
no_shape = record {
  arch = [];
  image = [];
  cap_add = [];
  cap_drop = [];
  privileged = false;
  network_mode = [];
  devices = [];
  ports = [];
  mounts = [];
  env_keys = [];
  entrypoint = [];
}

unfoldable pub with_config : Option Config → ContainerShape → ContainerShape
with_config none shape = shape
with_config (some cfg) shape = record shape {
  image = cfg.image;
  entrypoint = cfg.entrypoint;
  env_keys = sorted_keys (to_set (map (λ item. (cut_at b'=' item).0) cfg.env));
}

unfoldable pub with_host : Option HostConfig → ContainerShape → ContainerShape
with_host none shape = shape
with_host (some host) shape = record shape {
  cap_add = cap_names host.cap_add;
  cap_drop = cap_names host.cap_drop;
  privileged = host.privileged;
  network_mode = host.network_mode;
  devices = sorted_keys (trimmed_paths host.device_paths);
  ports = sorted_keys (to_set host.bound_ports);
}

unfoldable pub shape_of : Inspected → ContainerShape
shape_of ctr = record (with_host ctr.host_config (with_config ctr.config no_shape)) {
  mounts = sorted_keys (trimmed_paths ctr.destinations);
}

abbrev pub podman_default_caps : List Text
podman_default_caps =
    codes "CHOWN"
    ∷ codes "DAC_OVERRIDE"
    ∷ codes "FOWNER"
    ∷ codes "FSETID"
    ∷ codes "KILL"
    ∷ codes "NET_BIND_SERVICE"
    ∷ codes "SETFCAP"
    ∷ codes "SETGID"
    ∷ codes "SETPCAP"
    ∷ codes "SETUID"
    ∷ codes "SYS_CHROOT"
    ∷ []

unfoldable pub held_caps : ContainerShape → List Text
held_caps shape =
    let held = to_set shape.cap_add in
    if contains shape.cap_drop (codes "ALL")
    then held
    else to_set (held ++ keep (λ c. not (contains shape.cap_drop c)) podman_default_caps)

-- The second part where it is not blank, or the first.
unfoldable pub device_part : List Text → Text
device_part [] = []
device_part (p ∷ []) = trim_space p
device_part (p ∷ q ∷ parts) = if is_empty (trim_space q) then trim_space p else trim_space q

unfoldable pub device_target : Text → Text
device_target raw = trim_right b'/' (device_part (split b':' (trim_space raw)))

-- The key of a mapping, and none where it publishes nothing.
unfoldable pub port_key : List Text → Option Text
port_key (host ∷ port ∷ []) =
    if is_empty port then none else some (if has_char b'/' port then port else port ++ codes "/tcp")
port_key _ = none

unfoldable pub port_keys : List Text → List Text
port_keys [] = []
port_keys (mapping ∷ raw) =
    let rest = port_keys raw in
    elim (port_key (split b':' mapping)) [ none ↦ rest | some key ↦ key ∷ rest ]

unfoldable pub catalog_port_keys : List Text → List Text
catalog_port_keys raw = to_set (port_keys raw)

abbrev digest_given : Option Text → Bool
digest_given none = false
digest_given (some digest) = not (is_empty digest)

-- The repository and the tag.
unfoldable pub split_ref : Text → Text × Text
split_ref ref =
    let parts = cut_at b'@' ref in
    let tagged = split_tag parts.0 in
    if not (text_eq tagged.0 parts.0)
    then tagged
    else if digest_given parts.1
    then (parts.0, [])
    else (parts.0, codes "latest")

-- Opens the definitions of this module.
unfoldable pub drift_defs : Unit {0}
unfolding to_set sorted_keys minus cap_names trimmed_paths with_config with_host shape_of held_caps
    device_part device_target port_key port_keys catalog_port_keys split_ref
drift_defs = tt
