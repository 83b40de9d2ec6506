-- ===== src/Removal.antt =====
-- internal/runtime/removal.go, with `Remove`, `PlanRemoval` and `managedContainerMounts` of
-- internal/runtime/runtime.go and `stopTimeoutForContainer` of internal/runtime/mounts.go: what
-- removing a service may delete. The Docker daemon is a parameter: its answers are given, and the
-- calls that change the host are listed in the order in which they are made.
pub mod Guard
mod Tests
pub mod Targets
use cash_pilot_desktop.Base.{
  ℕ, Bool, true, false, ◌&&◌, ◌||◌, not, Option, none, some, List, [], ◌∷◌, ◌++◌, Text, codes,
  text_eq, text_lt, is_empty, trim_space, trim_right, Map, lookup, insert, if◌then◌else◌, or_else,
  is_some, any, keep, sort, ℤ, pos, is_positive, texts,
}
use cash_pilot_desktop.Catalog.{CriticalVolume, Service}

pub record RemoveOptions : Type 0 where
  pub delete_data : Bool
  -- `none` is the nil map: nobody could say.
  pub critical : Option (Map Text)
  pub allow_critical : Bool
  pub stop_timeout : ℤ

pub record DataMount : Type 0 where
  pub target : Text
  pub source : Text
  pub volume : Bool
  pub critical : Bool
  pub holds : Text

pub record RemovalPlan : Type 0 where
  pub slug : Text
  pub name : Text
  pub volumes : List DataMount
  pub binds : List DataMount
  pub catalog_known : Bool

-- `container.MountPoint` of the Docker API, as far as it is read.
pub data MountType : Type 0 where
  volume bind other : MountType

pub record MountPoint : Type 0 where
  pub kind : MountType
  pub name : Text
  pub source : Text
  pub destination : Text

unfoldable pub has_critical : RemovalPlan → Bool
has_critical p = any (λ v. v.critical) p.volumes

abbrev unknown_critical_holds : Text
unknown_critical_holds =
    codes
      "This service is no longer in the catalog, so CashPilot cannot tell what this volume holds. It may be irreplaceable."

unfoldable pub normalise_mount_target : Text → Text
normalise_mount_target path =
    let trimmed = trim_space path in
    if text_eq trimmed (codes "/") then codes "/" else trim_right b'/' trimmed

unfoldable pub critical_loop : Map Text → List CriticalVolume → Map Text
critical_loop targets [] = targets
critical_loop targets (cv ∷ cvs) =
    let target = normalise_mount_target cv.target in
    critical_loop (if is_empty target then targets else insert target (trim_space cv.holds) targets)
      cvs

unfoldable pub critical_targets : Service → Map Text
critical_targets svc = critical_loop [] svc.docker.critical_volumes

-- What the catalog says is lost with a target: `none` if it does not call it critical.
unfoldable pub holds_at : Option (Map Text) → Bool → Text → Option Text
holds_at none is_volume target = if is_volume then some unknown_critical_holds else none
holds_at (some critical) is_volume target = lookup target critical

abbrev data_mount : Text → Text → Bool → Option Text → DataMount
data_mount target source is_volume held = record {
  target = target;
  source = source;
  volume = is_volume;
  critical = is_some held;
  holds = or_else held [];
}

-- The entry that a mount adds to the volumes, and to the binds.
unfoldable pub volume_entry : Option (Map Text) → MountPoint → List DataMount
volume_entry critical m =
    let target = normalise_mount_target m.destination in
    elim m.kind [
      | volume ↦
          if is_empty m.name
          then []
          else data_mount target m.name true (holds_at critical true target) ∷ []
      | bind ↦ []
      | other ↦ []
    ]

unfoldable pub bind_entry : Option (Map Text) → MountPoint → List DataMount
bind_entry critical m =
    let target = normalise_mount_target m.destination in
    elim m.kind [
      | volume ↦ []
      | bind ↦
          if is_empty m.source
          then []
          else data_mount target m.source false (holds_at critical false target) ∷ []
      | other ↦ []
    ]

unfoldable pub entries :
    (Option (Map Text) → MountPoint → List DataMount)
    → Option (Map Text)
    → List MountPoint
    → List DataMount
entries entry critical [] = []
entries entry critical (m ∷ ms) = entry critical m ++ entries entry critical ms

abbrev pub target_less : DataMount → DataMount → Bool
target_less a b = text_lt a.target b.target

unfoldable pub plan_from_mounts : Text → Text → List MountPoint → Option (Map Text) → RemovalPlan
plan_from_mounts slug name mounts critical = record {
  slug = slug;
  name = name;
  volumes = sort target_less (entries volume_entry critical mounts);
  binds = sort target_less (entries bind_entry critical mounts);
  catalog_known = is_some critical;
}

unfoldable pub blocked_critical_volumes : RemovalPlan → RemoveOptions → List DataMount
blocked_critical_volumes plan opts =
    if not opts.delete_data || opts.allow_critical then [] else keep (λ v. v.critical) plan.volumes

-- What the daemon tells of a container.
pub record Inspect : Type 0 where
  -- `none` where the answer holds no `Config`.
  pub labels : Option (Map Text)
  pub stop_timeout : Option ℤ
  pub mounts : List MountPoint

-- The daemon's answers: an inspection that fails is `none`, a call that fails is `false`.
pub record Daemon : Type 0 where
  pub inspect : Text → Option Inspect
  pub removes_container : Text → Bool
  pub removes_volume : Text → Bool

-- The calls that change the host.
pub data Call : Type 0 where
  stop_container : Text → ℤ → Call
  remove_container : (name : Text) (anonymous_volumes : Bool) → Call
  remove_volume : Text → Call

pub data RemoveError : Type 0 where
  no_container not_managed container_stays : Text → RemoveError
  critical_refusal : (slug : Text) → List DataMount → RemoveError
  volume_stays : Text → RemoveError

abbrev default_stop_timeout : ℤ
default_stop_timeout = pos 30

unfoldable pub container_name : Text → Text
container_name slug = codes "cashpilot-" ++ slug

unfoldable pub configured_timeout : Option Inspect → ℤ
configured_timeout none = default_stop_timeout
configured_timeout (some i) = elim i.labels [
  | none ↦ default_stop_timeout
  | some _ ↦ elim i.stop_timeout [
    | none ↦ default_stop_timeout
    | some t ↦ if is_positive t then t else default_stop_timeout
  ]
]

unfoldable pub stop_timeout_for : Daemon → Text → ℤ → ℤ
stop_timeout_for d name from_catalog =
    if is_positive from_catalog then from_catalog else configured_timeout (d.inspect name)

pub data Found : Type 0 where
  mounted : List MountPoint → Found
  refused : RemoveError → Found

abbrev managed_label : Text
managed_label = codes "cashpilot.managed"

unfoldable pub check_managed : Text → Option Inspect → Found
check_managed name none = refused (no_container name)
check_managed name (some i) = elim i.labels [
  | none ↦ refused (not_managed name)
  | some labels ↦
      if text_eq (or_else (lookup managed_label labels) []) (codes "true")
      then mounted i.mounts
      else refused (not_managed name)
]

unfoldable pub managed_container_mounts : Daemon → Text → Found
managed_container_mounts d name = check_managed name (d.inspect name)

-- The loop over the plan's volumes: it ends at the first that cannot be deleted.
unfoldable pub remove_volumes : Daemon → List DataMount → Option RemoveError × List Call
remove_volumes d [] = (none, [])
remove_volumes d (v ∷ vs) =
    let rest = remove_volumes d vs in
    if d.removes_volume v.source
    then (rest.0, remove_volume v.source ∷ rest.1)
    else (some (volume_stays v.source), remove_volume v.source ∷ [])

-- Behind the refusal: stop, remove the container, then the data if it is to go.
unfoldable pub carry_out : Daemon → RemovalPlan → RemoveOptions → Option RemoveError × List Call
carry_out d plan opts =
    let stop = stop_container plan.name (stop_timeout_for d plan.name opts.stop_timeout) in
    let gone = remove_container plan.name opts.delete_data in
    let volumes = remove_volumes d plan.volumes in
    if not (d.removes_container plan.name)
    then (some (container_stays plan.name), stop ∷ gone ∷ [])
    else if not opts.delete_data
    then (none, stop ∷ gone ∷ [])
    else (volumes.0, stop ∷ gone ∷ volumes.1)

-- A delete is refused before anything is removed.
unfoldable pub guarded :
    Daemon → RemovalPlan → RemoveOptions → List DataMount → Option RemoveError × List Call
guarded d plan opts [] = carry_out d plan opts
guarded d plan opts (b ∷ blocked) = (some (critical_refusal plan.slug (b ∷ blocked)), [])

unfoldable pub remove_mounted :
    Daemon → Text → RemoveOptions → Found → Option RemoveError × List Call
remove_mounted d slug opts (refused e) = (some e, [])
remove_mounted d slug opts (mounted ms) =
    let plan = plan_from_mounts slug (container_name slug) ms opts.critical in
    guarded d plan opts (blocked_critical_volumes plan opts)

unfoldable pub remove : Daemon → Text → RemoveOptions → Option RemoveError × List Call
remove d slug opts = remove_mounted d slug opts (managed_container_mounts d (container_name slug))

unfoldable pub plan_found : Text → Option (Map Text) → Found → Option RemovalPlan
plan_found slug critical (refused e) = none
plan_found slug critical (mounted ms) =
    some (plan_from_mounts slug (container_name slug) ms critical)

unfoldable pub plan_removal : Daemon → Text → Option (Map Text) → Option RemovalPlan
plan_removal d slug critical =
    plan_found slug critical (managed_container_mounts d (container_name slug))

-- Opens the file and the text functions, for tests.
unfoldable pub removal_defs : Unit {0}
unfolding texts has_critical normalise_mount_target critical_loop critical_targets holds_at
    volume_entry bind_entry entries plan_from_mounts blocked_critical_volumes container_name
    configured_timeout stop_timeout_for check_managed managed_container_mounts remove_volumes
    carry_out guarded remove_mounted remove plan_found plan_removal
removal_defs = tt
