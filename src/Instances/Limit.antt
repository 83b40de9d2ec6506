-- ===== src/Instances/Limit.antt =====
-- About ScalingLimit of internal/services/instances.go: when a second copy is allowed, and what is said where it is not.
use cash_pilot_desktop.Base.{Bool, true, false, ◌||◌, not, ◌≡◌, is_empty, ltb, arith}
use cash_pilot_desktop.Catalog.{Service}
use cash_pilot_desktop.Instances.{
  Reason, no_reason, one_device_per_ip, is_nil, device_env, scaling_limit,
}

abbrev pub is_given : Reason → Bool
is_given no_reason = false
is_given _ = true

-- What two copies of a service on one machine would share.
abbrev pub shares : (Service → Bool) → Service → Bool
shares is_native svc =
    one_device_per_ip svc.requirements.devices_per_ip
    || (not (is_nil svc.docker.volumes)
        || (not (is_nil svc.docker.ports)
            || (not (is_empty (device_env svc.device_link)) || is_native svc)))

-- More than one copy is allowed exactly when two would share neither the provider's one device per
-- address, nor a host directory, nor a published port, nor a device id, and the service is not run
-- natively; and a reason is given exactly when it is not allowed.
pub scaling_limit-shares :
    (is_native : Service → Bool) (svc : Service)
    → (ltb 1 (scaling_limit is_native svc).most ≡ not (shares is_native svc))
      × (is_given (scaling_limit is_native svc).reason ≡ shares is_native svc)
unfolding scaling_limit
scaling_limit-shares is_native svc = (ground arith, ground arith)
