-- ===== src/Preflight/Assess.antt =====
-- internal/preflight/preflight.go: what will stop a service earning on this machine. A message is a
-- constructor that carries what the sentence of the source is filled with.
use cash_pilot_desktop.Base.{
  ℕ, ◌+◌, Bool, true, false, ◌&&◌, not, Option, none, some, List, [], ◌∷◌, ◌++◌, Text, codes,
  text_eq, text_lt, contains, is_empty, trim_space, if◌then◌else◌, any, ltb, ℤ, pos, eqb_ℤ, leb_ℤ,
  sort,
}
use cash_pilot_desktop.Catalog.{DockerConfig, Requirements, Service}
use cash_pilot_desktop.Preflight.Target.{supports, family_of, override_image, target_defs}

pub data Verdict : Type 0 where
  earns_nothing reduced check_yourself looks_fine : Verdict

unfoldable pub severity : Verdict → ℕ
severity earns_nothing = 3
severity reduced = 2
severity check_yourself = 1
severity looks_fine = 0

pub data Message : Type 0 where
  container_prohibited gpu residential : Message
  storage bandwidth note : Text → Message
  no_build : (family machine name : Text) → DockerConfig → Message
  separate_image : (family machine name : Text) → Message
  undocumented_limit one_per_ip no_limit : (name : Text) (peers : List Text) → Message
  over_limit : (name : Text) (peers : List Text) (limit : ℤ) (instances : ℕ) → Message

pub record Finding : Type 0 where
  pub verdict : Verdict
  pub message : Message

pub record Device : Type 0 where
  pub name : Text
  pub services : List Text

pub record Input : Type 0 where
  pub service : Service
  pub fleet : List Device
  pub daemon_arch : Text

pub data Unchecked : Type 0 where
  connection_kind speed disk cpu_build shared_connection : Unchecked

pub data Summary : Type 0 where
  forbids most_likely_nothing less_than_range another_machine should_work nothing_stands_out :
      Summary

pub record Report : Type 0 where
  pub slug : Text
  pub name : Text
  pub verdict : Verdict
  pub summary : Summary
  pub findings : List Finding
  pub not_checked : List Unchecked
  pub machine_arch : Text
  pub blocking : Bool

abbrev pub finding : Verdict → Message → Finding
finding v m = record { verdict = v; message = m }

-- `if test { findings = append(findings, …) }`
abbrev pub when {ℓ} : {A : Type ℓ} → Bool → A → List A
when true a = a ∷ []
when false a = []

unfoldable pub service_name : Service → Text
service_name svc =
    if not (is_empty (trim_space svc.name))
    then trim_space svc.name
    else if not (is_empty (trim_space svc.slug))
    then trim_space svc.slug
    else codes "This service"

-- Whether a machine of the fleet already runs the service.
unfoldable pub runs_it : Text → Device → Bool
runs_it slug d = any (λ running. text_eq (trim_space running) slug) d.services

unfoldable pub label_of : Device → Text
label_of d = if is_empty (trim_space d.name) then codes "an unnamed machine" else trim_space d.name

-- The name of a machine that runs the service is noted once.
unfoldable pub note_name : Bool → Text → List Text → List Text
note_name runs label names =
    if runs && not (contains names label) then names ++ label ∷ [] else names

unfoldable pub peers_loop : Text → List Text → ℕ → List Device → List Text × ℕ
peers_loop slug names count [] = (sort text_lt names, count)
peers_loop slug names count (d ∷ ds) =
    peers_loop slug (note_name (runs_it slug d) (label_of d) names)
      (if runs_it slug d then count + 1 else count) ds

unfoldable pub peers_running : List Device → Text → List Text × ℕ
peers_running fleet slug =
    if is_empty (trim_space slug) then ([], 0) else peers_loop (trim_space slug) [] 0 fleet

-- The `switch` on the documented limit, with at least one other machine.
unfoldable pub limit_findings : Text → Option ℤ → List Text → ℕ → List Finding × Bool
limit_findings name none peers count =
    (finding check_yourself (undocumented_limit name peers) ∷ [], false)
limit_findings name (some limit) peers count =
    if eqb_ℤ limit (pos 1)
    then (finding check_yourself (one_per_ip name peers) ∷ [], true)
    else if eqb_ℤ limit (pos 0)
    then (finding check_yourself (no_limit name peers) ∷ [], false)
    else if leb_ℤ (pos (count + 1)) limit
    then ([], false)
    else (finding check_yourself (over_limit name peers limit (count + 1)) ∷ [], true)

unfoldable pub fleet_findings : Service → List Text → ℕ → List Finding × Bool
fleet_findings svc [] count = ([], false)
fleet_findings svc (p ∷ ps) count =
    limit_findings (service_name svc) svc.requirements.devices_per_ip (p ∷ ps) count

-- The findings that the catalog entry alone gives, in the order of the source.
unfoldable pub requirement_findings : Requirements → List Finding
requirement_findings reqs =
    when reqs.container_prohibited (finding earns_nothing container_prohibited)
    ++ (when reqs.gpu (finding check_yourself gpu)
        ++ (when (not (is_empty (trim_space reqs.min_storage)))
              (finding check_yourself (storage (trim_space reqs.min_storage)))
            ++ (when (reqs.residential_ip && not reqs.vps_ip) (finding check_yourself residential)
                ++ (when (not (is_empty (trim_space reqs.min_bandwidth)))
                      (finding check_yourself (bandwidth (trim_space reqs.min_bandwidth)))
                    ++ when (not (is_empty (trim_space reqs.note)))
                        (finding check_yourself (note (trim_space reqs.note)))))))

abbrev pub has_image : Service → Bool
has_image svc = not (is_empty (trim_space svc.docker.image))

-- The findings on the CPU, and whether it was checked.
unfoldable pub arch_findings : Service → Text → List Finding × Bool
arch_findings svc machine =
    let (supported, known) = supports svc.docker machine in
    let family = family_of machine in
    let name = service_name svc in
    if not (has_image svc)
    then ([], false)
    else if known && not supported
    then (finding earns_nothing (no_build family (trim_space machine) name svc.docker) ∷ [], known)
    else if known && not (is_empty (override_image svc.docker machine))
    then (finding earns_nothing (separate_image family (trim_space machine) name) ∷ [], known)
    else ([], known)

-- Worst verdict first.
abbrev pub worse : Finding → Finding → Bool
worse a b = ltb (severity b.verdict) (severity a.verdict)

unfoldable pub verdict_of : Verdict → List Finding → Verdict
verdict_of v [] = v
verdict_of v (f ∷ fs) =
    verdict_of (if ltb (severity v) (severity f.verdict) then f.verdict else v) fs

summary_for : Verdict → Bool → Summary
summary_for earns_nothing loss = most_likely_nothing
summary_for reduced loss = less_than_range
summary_for check_yourself loss = if loss then another_machine else should_work
summary_for looks_fine loss = nothing_stands_out

unfoldable pub summary : Verdict → Service → Bool → Summary
unfolding summary_for
summary verdict svc shared_line_loss =
    if svc.requirements.container_prohibited then forbids else summary_for verdict shared_line_loss

abbrev pub has_peers : List Text → Bool
has_peers [] = false
has_peers (_ ∷ _) = true

-- What the source collects before it sorts.
unfoldable pub collected : Input → List Finding
collected input =
    let (peers, count) = peers_running input.fleet input.service.slug in
    requirement_findings input.service.requirements
    ++ ((arch_findings input.service input.daemon_arch).0
        ++ (fleet_findings input.service peers count).0)

unfoldable pub assess : Input → Report
assess input =
    let svc = input.service in
    let (peers, count) = peers_running input.fleet svc.slug in
    let arch_checked = (arch_findings svc input.daemon_arch).1 in
    let shared_line_loss = (fleet_findings svc peers count).1 in
    let findings = sort worse (collected input) in
    let verdict = verdict_of looks_fine findings in
    record {
      slug = svc.slug;
      name = service_name svc;
      verdict = verdict;
      summary = summary verdict svc shared_line_loss;
      findings = findings;
      not_checked =
          (connection_kind ∷ speed ∷ disk ∷ [])
          ++ (when (has_image svc && not arch_checked) cpu_build
              ++ when (has_peers peers) shared_connection);
      machine_arch = trim_space input.daemon_arch;
      blocking = false;
    }

-- Opens the file, the architecture rules and the text functions, for tests.
unfoldable pub assess_defs : Unit {0}
unfolding target_defs severity service_name runs_it label_of note_name peers_loop peers_running
    limit_findings fleet_findings requirement_findings arch_findings verdict_of summary collected
    assess
assess_defs = tt
