-- ===== src/Health/Collect.antt =====
-- internal/health/collect.go. The reader of logs and the catalog are parameters: an interface value
-- that may be nil is an option, and a read answers `none` where it fails or its time is over. The
-- concurrent reads each fill fields of their own input, so they are functions of that input. The
-- clock gives the time at a service's turn, which is named by what is left of the list.
use cash_pilot_desktop.Base.{
  ℕ, Bool, true, false, ◌&&◌, ◌||◌, not, Option, none, some, List, [], ◌∷◌, Text, codes, text_eq,
  is_empty, Map, insert, if◌then◌else◌,
}
use cash_pilot_desktop.Catalog.{HealthSignal}
use cash_pilot_desktop.Health.Assess.{
  Engine, Bytes, Hit, Input, Report, running, restarting, is_nil, declares_refusal, match_refusal,
  assess,
}
use cash_pilot_desktop.Health.Windows.{Windows, request, forget, windowed_only, windows_defs}

pub record Deployed : Type 0 where
  pub slug : Text
  pub container_state : Text
  pub runtime : Text

-- A read of the last lines of a service's log.
abbrev pub Read : Type 0
Read = Text → ℕ → Option Bytes

pub record LogReader : Type 0 where
  pub logs : Read
  -- `none` where the reader is no RunLogReader.
  pub last_run_logs : Option Read
  -- The reader is a WindowReader.
  pub can_window : Bool

-- The health signals of a slug that the catalog has.
abbrev pub ServiceLookup : Type 0
ServiceLookup = Text → Option (List HealthSignal)

abbrev native_runtime : Text
native_runtime = codes "native"

abbrev log_lines : ℕ
log_lines = 200

abbrev refusal_lines : ℕ
refusal_lines = 20

unfoldable pub may_be_refused : Text → Bool
may_be_refused state =
    text_eq state running
    || (text_eq state restarting
        || (text_eq state (codes "exited") || text_eq state (codes "dead")))

unfoldable pub is_up : Text → Bool
is_up state = text_eq state running || text_eq state restarting

unfoldable pub read_logs : Read → Text → ℕ → Bytes × Bool
read_logs read slug lines = elim (read slug lines) [ none ↦ ([], false) | some out ↦ (out, true) ]

unfoldable pub signals_for : Option ServiceLookup → Bool → Text → List HealthSignal
signals_for none native slug = []
signals_for (some services) true slug = []
signals_for (some services) false slug = elim (services slug) [ none ↦ [] | some signals ↦ signals ]

unfoldable pub input_of : Option ServiceLookup → Deployed → Input
input_of services dep =
    let native = text_eq dep.runtime native_runtime in
    record {
      slug = dep.slug;
      container_state = dep.container_state;
      native = native;
      signals = signals_for services native dep.slug;
      logs = [];
      logs_read = false;
      window_hits = [];
      refusal = [];
    }

unfoldable pub can_window : Option LogReader → Bool
can_window none = false
can_window (some reader) = reader.can_window

-- What the loop does with the cache of windowed verdicts.
unfoldable pub window_turn : Option LogReader → ℕ → Input → Windows → List Hit × Windows
window_turn reader now i w =
    if is_nil (windowed_only i.signals).0
    then ([], w)
    else if not (is_up i.container_state)
    then ([], forget i.slug w)
    else if can_window reader
    then request now i.slug w
    else ([], w)

unfoldable pub refusal_of : Engine → Option LogReader → Input → Text
refusal_of compile none i = []
refusal_of compile (some reader) i = elim reader.last_run_logs [
  | none ↦ []
  | some read ↦
      let answer = read_logs read i.slug refusal_lines in
      if not i.native && (declares_refusal i.signals && may_be_refused i.container_state)
      then if answer.1 then match_refusal compile answer.0 i.signals else []
      else []
]

unfoldable pub logs_of : Option LogReader → Input → Bytes × Bool
logs_of none i = ([], false)
logs_of (some reader) i =
    if is_nil i.signals || not (is_up i.container_state)
    then ([], false)
    else read_logs reader.logs i.slug log_lines

unfoldable pub complete : Engine → Option LogReader → List Hit → Input → Input
complete compile reader hits i = record i {
  window_hits = hits;
  refusal = refusal_of compile reader i;
  logs = (logs_of reader i).0;
  logs_read = (logs_of reader i).1;
}

-- The loops of `Collect`; a later service of the same slug takes the place of an earlier one.
unfoldable pub collect_loop :
    Engine
    → Option LogReader
    → Option ServiceLookup
    → (List Deployed → ℕ)
    → List Deployed
    → Map Report
    → Windows
    → Map Report × Windows
collect_loop compile reader services clock [] out w = (out, w)
collect_loop compile reader services clock (dep ∷ deployed) out w =
    let i = input_of services dep in
    let turn = window_turn reader (clock (dep ∷ deployed)) i w in
    let r = assess compile (complete compile reader turn.0 i) in
    let skipped = collect_loop compile reader services clock deployed out w in
    let judged =
      collect_loop compile reader services clock deployed (insert dep.slug r out) turn.1 in
    if is_empty dep.slug then skipped else judged

-- `Collect`; the nil map of an empty list is the empty one.
unfoldable pub collect :
    Engine
    → Option LogReader
    → Option ServiceLookup
    → (List Deployed → ℕ)
    → List Deployed
    → Windows
    → Map Report × Windows
collect compile reader services clock deployed w =
    collect_loop compile reader services clock deployed [] w

-- Opens the file and what it uses, for tests.
unfoldable pub collect_defs : Unit {0}
unfolding windows_defs may_be_refused is_up read_logs signals_for input_of can_window window_turn
    refusal_of logs_of complete collect_loop collect
collect_defs = tt
