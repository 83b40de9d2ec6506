-- ===== src/Activity.antt =====
-- internal/activity/activity.go: which network namespaces a round probes, and how the counters of
-- two rounds become the change of a window. Times are natural numbers of milliseconds, where the
-- source has floating-point seconds. Looking up a container is a parameter.
pub mod Counters
pub mod Probed
pub mod Deltas
pub mod Runs
mod Tests
use cash_pilot_desktop.Base.{
  ℕ, suc, zero, ◌+◌, ◌*◌, ◌-◌, ◌/◌, Bool, true, false, ◌&&◌, ◌||◌, not, Option, none, some, List,
  [], ◌∷◌, ◌++◌, Text, codes, text_eq, text_lt, is_empty, has_prefix, trim_prefix, split, contains,
  Map, lookup, insert, sort, if◌then◌else◌, or_else, is_some, leb, any, texts, map, keep,
}

-- The part of a container that the plan reads.
pub record Container : Type 0 where
  pub id : Text
  pub name : Text
  pub labels : Map Text
  pub network_mode : Text
  pub runtime : Text

pub data Kind : Type 0 where
  netns cgroup : Kind

pub record Group : Type 0 where
  pub owner : Container
  pub members : List Text
  pub mode : Text
  pub kind : Kind
  pub owner_earner : Bool

-- The sample of an earner that is not probed.
pub record Fixed : Type 0 where
  pub container : Text
  pub members : List Text
  pub network_mode : Text
  pub status : Text
  pub reason : Text

unfoldable pub base_sample : Text → List Text → Text → Text → Text → Fixed
base_sample name members mode status reason = record {
  container = name;
  members = sort text_lt members;
  network_mode = mode;
  status = status;
  reason = reason;
}

abbrev pub window_seconds : ℕ
window_seconds = 300

unfoldable pub window_end : ℕ → ℕ
window_end now = now / window_seconds * window_seconds

abbrev pub plain_runtimes : List Text
plain_runtimes = [] ∷ codes "runc" ∷ codes "io.containerd.runc.v2" ∷ codes "crun" ∷ []

abbrev pub plain_binaries : List Text
plain_binaries = codes "runc" ∷ codes "crun" ∷ codes "nvidia-container-runtime" ∷ codes "youki" ∷ []

pub record RuntimeSpec : Type 0 where
  pub path : Text
  pub args : List Text

abbrev last_of : List Text → Text
last_of [] = []
last_of (p ∷ []) = p
last_of (p ∷ q ∷ ps) = last_of (q ∷ ps)

unfoldable pub binary_of : Text → RuntimeSpec → Text
binary_of name spec = last_of (split b'/' (if is_empty spec.path then name else spec.path))

unfoldable pub is_joinable : Text × RuntimeSpec → Bool
is_joinable (name, spec) =
    contains plain_binaries (binary_of name spec)
    || (text_eq (binary_of name spec) (codes "runsc")
        && contains spec.args (codes "--network=host"))

-- The set, as the list of its members.
unfoldable pub joinable_runtimes : Map RuntimeSpec → List Text
joinable_runtimes runtimes = plain_runtimes ++ map (λ r. r.0) (keep is_joinable runtimes)

abbrev pub Lookup : Type 0
Lookup = Text → Option Container

abbrev pub joins : Text → Bool
joins mode = has_prefix mode (codes "container:")

abbrev pub joined_to : Text → Text
joined_to mode = trim_prefix mode (codes "container:")

-- The loop along the containers that share a namespace, with what is left of its eight turns.
unfoldable pub chase : Lookup → ℕ → Option Container → Option Container
chase find n none = none
chase find zero (some owner) = if joins owner.network_mode then none else some owner
chase find (suc n) (some owner) =
    let next = chase find n (find (joined_to owner.network_mode)) in
    if joins owner.network_mode then next else some owner

abbrev pub max_hops : ℕ
max_hops = 8

pub record Plan : Type 0 where
  pub groups : Map Group
  pub fixed : List Fixed

unfoldable pub skip : Fixed → Plan → Plan
skip s p = record p { fixed = p.fixed ++ s ∷ [] }

unfoldable pub mode_of : Container → Text
mode_of c =
    if is_empty c.network_mode || text_eq c.network_mode (codes "default")
    then codes "bridge"
    else c.network_mode

unfoldable pub by_cgroup : Container → Plan → Plan
by_cgroup c p = record p {
  groups =
      insert c.id
        (record {
          owner = c;
          members = c.name ∷ [];
          mode = mode_of c;
          kind = cgroup;
          owner_earner = true;
        })
        p.groups;
}

-- The member joins the group of the namespace's owner, which is made if there is none.
unfoldable pub join_group : List Text → Container → Container → Plan → Plan
join_group names c owner p =
    let new : Group = record {
      owner = owner;
      members = [];
      mode = mode_of c;
      kind = netns;
      owner_earner = contains names owner.name;
    } in
    let g = or_else (lookup owner.id p.groups) new in
    record p {
      groups =
          insert owner.id
            (record g {
              members = g.members ++ c.name ∷ [];
              mode = if text_eq owner.id c.id then mode_of c else g.mode;
            })
            p.groups;
    }

-- An earner whose namespace is another container's.
unfoldable pub plan_joined : List Text → List Text → Container → Option Container → Plan → Plan
plan_joined joinable names c none p =
    skip
      (base_sample c.name (c.name ∷ []) (mode_of c) (codes "probe_failed") (codes "owner_missing"))
      p
plan_joined joinable names c (some owner) p =
    if text_eq owner.network_mode (codes "host")
    then by_cgroup c p
    else if not (contains joinable owner.runtime)
    then skip (base_sample c.name (c.name ∷ []) (mode_of c) (codes "sandboxed") []) p
    else join_group names c owner p

-- The body of the loop.
unfoldable pub plan_one : Lookup → List Text → List Text → Container → Plan → Plan
plan_one find joinable names c p =
    let mode = mode_of c in
    if is_some (lookup (codes "cashpilot.probe") c.labels)
    then p
    else if text_eq mode (codes "none")
    then skip (base_sample c.name (c.name ∷ []) mode (codes "no_network") []) p
    else if not (contains joinable c.runtime)
    then skip (base_sample c.name (c.name ∷ []) mode (codes "sandboxed") []) p
    else if text_eq mode (codes "host")
    then by_cgroup c p
    else if joins mode
    then plan_joined joinable names c (chase find max_hops (find (joined_to mode))) p
    else join_group names c c p

unfoldable pub plan_loop : Lookup → List Text → List Text → List Container → Plan → Plan
plan_loop find joinable names [] p = p
plan_loop find joinable names (c ∷ cs) p =
    plan_loop find joinable names cs (plan_one find joinable names c p)

unfoldable pub plan : List Container → Lookup → List Text → Plan
plan earners find joinable =
    plan_loop find joinable (map (λ c. c.name) earners) earners (record { groups = []; fixed = [] })
