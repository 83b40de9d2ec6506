-- ===== src/Drift/Judge.antt =====
-- ShapeDrift of internal/runtime/container_drift.go.
use cash_pilot_desktop.Base.{
  Bool, true, false, ◌&&◌, not, List, [], ◌∷◌, ◌++◌, map, Text, codes, text_eq, is_empty,
  has_prefix, trim_right, split, keep, if◌then◌else◌,
}
use cash_pilot_desktop.Catalog.{Service, DockerConfig}
use cash_pilot_desktop.Arch.{image_for_arch}
use cash_pilot_desktop.Drift.{
  ContainerShape, to_set, minus, given, cap_names, held_caps, device_target, catalog_port_keys,
  split_ref,
}

pub data Drift : Type 0 where
  missing_caps extra_caps missing_devices extra_devices : List Text → Drift
  runs_privileged other_entrypoint own_network shares_host : Drift
  unpublished_ports missing_mounts missing_settings : List Text → Drift
  other_tag : (repo have want : Text) → Drift

abbrev pub is_nil {ℓ} : {A : Type ℓ} → List A → Bool
is_nil [] = true
is_nil (_ ∷ _) = false

-- `if len(names) > 0 { found = append(found, …) }`
abbrev pub named : (List Text → Drift) → List Text → List Drift
named drift [] = []
named drift (n ∷ names) = drift (n ∷ names) ∷ []

abbrev pub found_if : Bool → Drift → List Drift
found_if true drift = drift ∷ []
found_if false drift = []

unfoldable pub cap_drift : DockerConfig → ContainerShape → List Drift
cap_drift dc shape =
    let want = to_set (cap_names dc.cap_add) in
    if is_nil shape.cap_drop
    then []
    else named missing_caps (minus want (held_caps shape))
      ++ named extra_caps (minus (to_set shape.cap_add) want)

unfoldable pub want_devices : DockerConfig → List Text
want_devices dc = to_set (given (map device_target dc.devices))

unfoldable pub device_drift : DockerConfig → ContainerShape → List Drift
device_drift dc shape =
    named missing_devices (minus (want_devices dc) (to_set shape.devices))
    ++ named extra_devices (minus (to_set shape.devices) (want_devices dc))

-- `slices.Equal`
unfoldable pub same_words : List Text → List Text → Bool
same_words [] [] = true
same_words (a ∷ left) (b ∷ right) = text_eq a b && same_words left right
same_words _ _ = false

unfoldable pub entrypoint_drift : DockerConfig → ContainerShape → List Drift
entrypoint_drift dc shape =
    found_if (not (is_nil dc.entrypoint) && not (same_words shape.entrypoint dc.entrypoint))
      other_entrypoint

unfoldable pub network_drift : DockerConfig → ContainerShape → List Drift
network_drift dc shape =
    let wants_host = text_eq dc.network_mode (codes "host") in
    let has_host = text_eq shape.network_mode (codes "host") in
    if wants_host && not has_host
    then own_network ∷ []
    else if not wants_host && has_host
    then shares_host ∷ []
    else if not wants_host
    then named unpublished_ports (minus (catalog_port_keys dc.ports) (to_set shape.ports))
    else []

-- The second part of a volume.
unfoldable pub mount_target : List Text → Text
mount_target (source ∷ target ∷ parts) = trim_right b'/' target
mount_target _ = []

unfoldable pub want_mounts : DockerConfig → List Text
want_mounts dc = to_set (given (map (λ raw. mount_target (split b':' raw)) dc.volumes))

-- The variables that a redeploy sets on its own.
unfoldable pub want_env : DockerConfig → List Text
want_env dc = to_set (
    map (λ item. item.key)
      (keep (λ item. not (is_empty item.key) && not (is_empty item.default)) dc.env))

abbrev pub own_image_prefix : Text
own_image_prefix = codes "drumsergio/cashpilot-"

unfoldable pub is_other_tag : Text × Text → Text × Text → Bool
is_other_tag want have =
    text_eq want.0 have.0
    && (not (is_empty want.1) && (not (is_empty have.1) && not (text_eq want.1 have.1)))

unfoldable pub tag_drift : Text → ContainerShape → List Drift
tag_drift want shape =
    let wanted = split_ref want in
    let had = split_ref shape.image in
    found_if
      ((has_prefix want own_image_prefix && not (is_empty shape.image)) && is_other_tag wanted had)
      (other_tag had.0 had.1 wanted.1)

unfoldable pub wanted_image : DockerConfig → ContainerShape → Text → Text
wanted_image dc shape custom_image =
    if is_empty custom_image then image_for_arch dc shape.arch else custom_image

unfoldable pub shape_drift : Service → ContainerShape → Text → List Drift
shape_drift svc shape custom_image =
    let dc = svc.docker in
    cap_drift dc shape
    ++ (device_drift dc shape
        ++ (found_if (shape.privileged && not dc.privileged) runs_privileged
            ++ (entrypoint_drift dc shape
                ++ (network_drift dc shape
                    ++ (named missing_mounts (minus (want_mounts dc) (to_set shape.mounts))
                        ++ (named missing_settings (minus (want_env dc) (to_set shape.env_keys))
                            ++ tag_drift (wanted_image dc shape custom_image) shape))))))

-- Opens the definitions of this module.
unfoldable pub judge_defs : Unit {0}
unfolding cap_drift want_devices device_drift same_words entrypoint_drift network_drift mount_target
    want_mounts want_env is_other_tag tag_drift wanted_image shape_drift
judge_defs = tt
