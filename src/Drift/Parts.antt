-- ===== src/Drift/Parts.antt =====
-- About ShapeDrift of internal/runtime/container_drift.go: what a container that matches the catalog has,
-- part by part.
use cash_pilot_desktop.Base.{
  Bool, ◌&&◌, ◌||◌, not, List, [], ◌∷◌, ◌++◌, ◌≡◌, refl, ◌∙◌, inl, inr, Text, codes, ap, or_false,
  split, text_eq_iff, any-append, keep, text_eq, is_empty, any, map, any-sort, text_lt, contains,
  has_prefix, if◌then◌else◌, Bool-cases, arith,
}
use cash_pilot_desktop.Catalog.{DockerConfig, EnvVar}
use cash_pilot_desktop.Drift.{
  ContainerShape, device_target, given, cap_name, podman_default_caps, sorted_keys, to_set,
  cap_names, held_caps, port_keys, split_ref,
}
use cash_pilot_desktop.Drift.Sets.{any-keep_both, any-to_set, any_same, within, within-to_set}
use cash_pilot_desktop.Drift.Judge.{
  is_nil, want_devices, same_words, want_mounts, want_env, mount_target, own_image_prefix,
}

-- Whether the names that are read from the values have a property; an empty name is passed over.
abbrev all_names : (Text → Text) → (Text → Bool) → List Text → Bool
all_names name_of has values =
    not (any (λ v. not (is_empty (name_of v)) && not (has (name_of v))) values)

abbrev all_of : (Text → Bool) → List Text → Bool
all_of has names = not (any (λ n. not (has n)) names)

abbrev pub some_names : (Text → Text) → List Text → Text → Bool
some_names name_of values n = any (λ v. not (is_empty (name_of v)) && text_eq (name_of v) n) values

any-given :
    (test : Text → Bool) (name_of : Text → Text) (values : List Text)
    → any test (given (map name_of values))
      ≡ any (λ v. not (is_empty (name_of v)) && test (name_of v)) values
any-given test name_of [] = refl
any-given test name_of (v ∷ values) = ground (arith, any-given test name_of values)

-- What a container that matches the catalog has, part by part. It holds a capability that it adds,
-- and one of Podman's own that it does not drop unless it drops all.
abbrev holds_cap : ContainerShape → Text → Bool
holds_cap shape c =
    contains shape.cap_add c
    || (not (contains shape.cap_drop (codes "ALL"))
        && (contains podman_default_caps c && not (contains shape.cap_drop c)))

abbrev pub caps_match : DockerConfig → ContainerShape → Bool
caps_match dc shape =
    is_nil shape.cap_drop
    || (all_names cap_name (holds_cap shape) dc.cap_add
        && all_of (some_names cap_name dc.cap_add) shape.cap_add)

any-kept :
    (test keeps : Text → Bool) (added defaults : List Text)
    → any test (to_set (to_set added ++ keep keeps defaults))
      ≡ (any test added || any (λ d. keeps d && test d) defaults)
any-kept test keeps added defaults =
    any-to_set test (to_set added ++ keep keeps defaults)
    ∙ any-append test (to_set added) (keep keeps defaults)
    ∙ rw (any-to_set test added, any-keep_both test keeps defaults) refl

contains-kept :
    (dropped defaults : List Text) (c : Text)
    → any (λ d. not (contains dropped d) && text_eq d c) defaults
      ≡ (contains defaults c && not (contains dropped c))
contains-kept dropped [] c = refl
contains-kept dropped (d ∷ defaults) c = elim (Bool-cases (text_eq d c)) [
  | inr e ↦ rw (e, contains-kept dropped defaults c) (ground arith)
  | inl e ↦
      let same : contains dropped d ≡ contains dropped c =
        ap (contains dropped) ((text_eq_iff d c).0 e) in
      rw (e, same, contains-kept dropped defaults c) (ground arith)
]

held_of :
    (dropped added defaults : List Text) (c : Text)
    → contains
        (if contains dropped (codes "ALL")
          then to_set added
          else to_set (to_set added ++ keep (λ d. not (contains dropped d)) defaults))
        c
      ≡ (contains added c
          || (not (contains dropped (codes "ALL"))
              && (contains defaults c && not (contains dropped c))))
held_of dropped added defaults c = elim (Bool-cases (contains dropped (codes "ALL"))) [
  | inl all ↦ rw (all, any-to_set (λ v. text_eq v c) added) (or_false (contains added c))
  | inr some ↦
      rw
        (
          some,
          any-kept (λ v. text_eq v c) (λ d. not (contains dropped d)) added defaults,
          contains-kept dropped defaults c,
        )
        refl
]

contains-held_caps :
    (shape : ContainerShape) (c : Text) → contains (held_caps shape) c ≡ holds_cap shape c
unfolding held_caps
contains-held_caps shape c = held_of shape.cap_drop shape.cap_add podman_default_caps c

pub contains-cap_names :
    (values : List Text) (c : Text) → contains (cap_names values) c ≡ some_names cap_name values c
unfolding cap_names sorted_keys
contains-cap_names values c =
    any-sort text_lt (λ v. text_eq v c) (to_set (given (map cap_name values)))
    ∙ any-to_set (λ v. text_eq v c) (given (map cap_name values))
    ∙ any-given (λ v. text_eq v c) cap_name values

abbrev pub devices_match : DockerConfig → ContainerShape → Bool
devices_match dc shape =
    all_names device_target (contains shape.devices) dc.devices
    && all_of (some_names device_target dc.devices) shape.devices

abbrev pub mounts_match : DockerConfig → ContainerShape → Bool
mounts_match dc shape =
    all_names (λ raw. mount_target (split b':' raw)) (contains shape.mounts) dc.volumes

-- A setting with a name and a default is there.
abbrev pub env_matches : DockerConfig → ContainerShape → Bool
env_matches dc shape = not (
    any
      (λ item.
        (not (is_empty item.key) && not (is_empty item.default))
        && not (contains shape.env_keys item.key))
      dc.env)

abbrev pub entrypoint_matches : DockerConfig → ContainerShape → Bool
entrypoint_matches dc shape = is_nil dc.entrypoint || same_words shape.entrypoint dc.entrypoint

abbrev pub uses_host : Text → Bool
uses_host mode = text_eq mode (codes "host")

abbrev pub network_matches : DockerConfig → ContainerShape → Bool
network_matches dc shape =
    if uses_host dc.network_mode
    then uses_host shape.network_mode
    else not (uses_host shape.network_mode) && within (port_keys dc.ports) shape.ports

-- Another repository is not judged, nor is a tag that is not given.
abbrev pub tag_matches : Text → Text → Bool
tag_matches want image =
    let wanted = split_ref want in
    let had = split_ref image in
    not (has_prefix want own_image_prefix)
    || (is_empty image
        || (not (text_eq wanted.0 had.0)
            || (is_empty wanted.1 || (is_empty had.1 || text_eq wanted.1 had.1))))

within-names :
    (name_of : Text → Text) (values others : List Text)
    → within (to_set (given (map name_of values))) others
      ≡ all_names name_of (contains others) values
within-names name_of values others =
    within-to_set (given (map name_of values)) others
    ∙ ap not (any-given (λ n. not (contains others n)) name_of values)

pub all_of_same :
    (has other : Text → Bool) (names : List Text)
    → ((n : Text) → has n ≡ other n)
    → all_of has names ≡ all_of other names
all_of_same has other names h =
    ap not (any_same (λ n. not (has n)) (λ n. not (other n)) names (λ n. ap not (h n)))

pub within-cap_names :
    (values : List Text) (shape : ContainerShape)
    → within (cap_names values) (held_caps shape) ≡ all_names cap_name (holds_cap shape) values
unfolding cap_names sorted_keys
within-cap_names values shape = ap not (
    any-sort text_lt (λ n. not (contains (held_caps shape) n))
      (to_set (given (map cap_name values)))
    ∙ any-to_set (λ n. not (contains (held_caps shape) n)) (given (map cap_name values))
    ∙ any_same (λ n. not (contains (held_caps shape) n)) (λ n. not (holds_cap shape n))
        (given (map cap_name values)) (λ n. ap not (contains-held_caps shape n))
    ∙ any-given (λ n. not (holds_cap shape n)) cap_name values)

contains-names :
    (name_of : Text → Text) (values : List Text) (n : Text)
    → contains (to_set (given (map name_of values))) n ≡ some_names name_of values n
contains-names name_of values n =
    any-to_set (λ v. text_eq v n) (given (map name_of values))
    ∙ any-given (λ v. text_eq v n) name_of values

env_of_items :
    (items : List EnvVar) (others : List Text)
    → any
        (λ n. not (contains others n))
        (map
          (λ item. item.key)
          (keep (λ item. not (is_empty item.key) && not (is_empty item.default)) items))
      ≡ any
          (λ item.
            (not (is_empty item.key) && not (is_empty item.default))
            && not (contains others item.key))
          items
env_of_items [] others = refl
env_of_items (item ∷ items) others = ground (arith, env_of_items items others)

pub want_env-match :
    (dc : DockerConfig) (shape : ContainerShape)
    → within (want_env dc) shape.env_keys ≡ env_matches dc shape
unfolding want_env
want_env-match dc shape =
    within-to_set
      (map (λ item. item.key)
        (keep (λ item. not (is_empty item.key) && not (is_empty item.default)) dc.env))
      shape.env_keys
    ∙ ap not (env_of_items dc.env shape.env_keys)

pub want_devices-within :
    (dc : DockerConfig) (shape : ContainerShape)
    → within (want_devices dc) shape.devices
      ≡ all_names device_target (contains shape.devices) dc.devices
unfolding want_devices
want_devices-within dc shape = within-names device_target dc.devices shape.devices

pub contains-want_devices :
    (dc : DockerConfig) (n : Text)
    → contains (want_devices dc) n ≡ some_names device_target dc.devices n
unfolding want_devices
contains-want_devices dc n = contains-names device_target dc.devices n

pub want_mounts-match :
    (dc : DockerConfig) (shape : ContainerShape)
    → within (want_mounts dc) shape.mounts ≡ mounts_match dc shape
unfolding want_mounts
want_mounts-match dc shape =
    within-names (λ raw. mount_target (split b':' raw)) dc.volumes shape.mounts
