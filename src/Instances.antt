-- ===== src/Instances.antt =====
-- internal/services/instances.go: how many copies of a service this machine may run. Whether the
-- manager would run it natively is a parameter; a sentence is a constructor.
pub mod Limit
mod Tests
use cash_pilot_desktop.Base.{
  ℕ, ℤ, pos, eqb_ℤ, Bool, true, false, ◌&&◌, not, Option, none, some, List, [], ◌∷◌, Text, text_eq,
  is_empty, if◌then◌else◌, Map, insert,
}
use cash_pilot_desktop.Catalog.{Service, EnvVar, DeviceLink, DockerConfig}

abbrev pub max_instances : ℕ
max_instances = 10

pub data Reason : Type 0 where
  no_reason : Reason
  one_per_ip host_directory host_port runs_natively : (name : Text) → Reason
  same_device : (name label : Text) → Reason

pub record ScalingLimit : Type 0 where
  pub most : ℕ
  pub reason : Reason

abbrev once : Reason → ScalingLimit
once reason = record { most = 1; reason = reason }

unfoldable pub name_of : Service → Text
name_of svc = if is_empty svc.name then svc.slug else svc.name

unfoldable pub one_device_per_ip : Option ℤ → Bool
one_device_per_ip none = false
one_device_per_ip (some limit) = eqb_ℤ limit (pos 1)

abbrev pub is_nil {ℓ} : {A : Type ℓ} → List A → Bool
is_nil [] = true
is_nil (_ ∷ _) = false

-- The last label of the variable that has one.
unfoldable pub label_of : Text → Text → List EnvVar → Text
label_of key label [] = label
label_of key label (item ∷ env) =
    label_of key (if text_eq item.key key && not (is_empty item.label) then item.label else label)
      env

-- The variable that names the device, where there is one.
unfoldable pub device_env : Option DeviceLink → Text
device_env none = []
device_env (some link) = link.id_env

unfoldable pub scaling_limit : (Service → Bool) → Service → ScalingLimit
scaling_limit is_native svc =
    let name = name_of svc in
    let id_env = device_env svc.device_link in
    if one_device_per_ip svc.requirements.devices_per_ip
    then once (one_per_ip name)
    else if not (is_nil svc.docker.volumes)
    then once (host_directory name)
    else if not (is_nil svc.docker.ports)
    then once (host_port name)
    else if not (is_empty id_env)
    then once (same_device name (label_of id_env id_env svc.docker.env))
    else if is_native svc
    then once (runs_natively name)
    else record { most = max_instances; reason = no_reason }

-- By slug; a later service of the same slug takes the place of an earlier one.
unfoldable pub limits_loop : (Service → Bool) → Map ScalingLimit → List Service → Map ScalingLimit
limits_loop is_native out [] = out
limits_loop is_native out (svc ∷ services) =
    limits_loop is_native (insert svc.slug (scaling_limit is_native svc) out) services

unfoldable pub scaling_limits : (Service → Bool) → List Service → Map ScalingLimit
scaling_limits is_native services = limits_loop is_native [] services
