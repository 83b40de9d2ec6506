-- ===== src/Lib.antt =====
-- CashPilot-Desktop: the rules that decide what is deployed, what is deleted and what is reported.
--
-- The application runs services of a catalog in containers. Before a deploy, internal/preflight
-- says whether a service can earn on this machine; internal/runtime picks the image for the CPU,
-- creates the container on the data that is already there, and removes it again with or without its
-- data; internal/health reads the state and the logs of what is deployed and says whether it earns;
-- internal/statebackup brings a service's irreplaceable data back from an encrypted bundle. Each of
-- these is a set of rules around calls of a container daemon. Beside them internal/activity watches
-- what the containers do on the network, internal/upstream hands the history of balances to a
-- server, internal/services says how many copies of a service may run, and internal/usage counts
-- what they use. The rules are modelled here; the daemon, the regexp engine, the reader of logs,
-- the tar reader and writer are parameters.
--
-- Files and code:
--   Base       texts, maps, lists, a stable sort and the tests that the other modules share
--   Catalog    internal/catalog/catalog.go: the fields of an entry that are read
--   Arch       internal/runtime/arch.go: HasBuildFor, ImageForArch, MachineTarget, PlatformTarget
--   Preflight  internal/preflight: Target is arch.go, Assess is preflight.go; Agreement compares the
--              two readings of CPU architectures; Verdicts and Fleet are about the report
--   Removal    internal/runtime/removal.go, and PlanRemoval, Remove and managedContainerMounts of
--              runtime.go: the plan, the guard and the calls, as a list, that a removal makes
--   Mounts     internal/runtime/mounts.go: keepLiveMounts
--   Health     internal/health: Assess is producer.go, Windows is windowed.go, Collect is collect.go
--   StateBackup  internal/statebackup/split.go: SplitArchives, with a group for each mount
--   Activity   internal/activity/activity.go: Plan and JoinableRuntimes; Counters is Deltas, the state
--              between two rounds
--   Upstream   internal/upstream/import.go: Confirmed and ChunkReadings
--   Instances  internal/services/instances.go: ScalingLimit
--   Usage      internal/usage/usage.go: CounterDelta, Step, Since and the points of Build
--
--   Proxies    internal/proxies/proxies.go: Clean, View (PublicView), Refusal, Cap (Account, CapChange,
--              ResetState, ResetDue), Exit (PublicIP, SameExit)
--   Custom     internal/services/custom.go and internal/store/custom_services.go: Slug, Validate, Shown
--              (CustomAsService, customView) and Manage (SaveCustom, DeleteCustom, holdCustom)
--   Drift      internal/runtime/container_drift.go: shapeOf, and ShapeDrift in Judge
--   Rating     internal/catalog/rating.go: Check (ParseRatingRules), Validate (validateRating) and Grade
--              (GradeService, applyRatings)
--   Listing    internal/catalog/catalog.go and envvalue.go: newCatalog, Get, List, ListVisible, SetCustom,
--              ValidSignal, ImageOutdated, HasDigestPin, AcceptsValue, IsPortRange
--   NativeLog  internal/runtime/native.go: rotatingLogWriter, readLogTail and lastLines
-- How the code is read. A text is the list of its code points, a Go map the association list of its
-- keys. A pointer or a second result `ok` is an option. A sentence shown to the user is a constructor
-- with the values that it is filled with. A loop is a recursion on its list; the two loops over the
-- bytes of a backup are on fuel, the length of the payload, which is shown to be enough. Times are
-- natural numbers. The cache of windowed signals is a state with the background checks that have not
-- ended, and its steps are a relation. A name that ends in `_defs` opens a module for tests.
--
-- Not modelled: the calls of Docker themselves, the database, HTTP, files, goroutines beyond the steps
-- of the window cache, the frontend and the packaging.
mod Base
pub mod Catalog
pub mod Arch
pub mod Preflight
pub mod Removal
pub mod Mounts
pub mod Health
pub mod StateBackup
pub mod Activity
pub mod Upstream
pub mod Instances
pub mod NativeLog
pub mod Usage
pub mod Listing
pub mod Rating
pub mod Drift
pub mod Custom
pub mod Proxies
