-- ===== src/Preflight/Fleet.antt =====
-- About internal/preflight/preflight.go, the rest of the fleet in the assessment: how many machines count, which are named, and what is
-- listed as not checked.
use cash_pilot_desktop.Base.{
  ℕ, ◌+◌, Bool, true, false, ◌&&◌, ◌||◌, not, Option, none, some, List, [], ◌∷◌, ◌≡◌, refl, ◌∙◌,
  Text, text_eq, text_eq_iff, text_lt, contains, is_empty, trim_space, if◌then◌else◌, any,
  any-append, any-sort, keep, length, ltb, arith, ℤ, pos, eqb_ℤ, leb_ℤ, Bool-cases, inl, inr,
  or_assoc, or_false,
}
use cash_pilot_desktop.Catalog.{Service}
use cash_pilot_desktop.Preflight.Target.{supports}
use cash_pilot_desktop.Preflight.Assess.{
  Device, Input, Unchecked, cpu_build, has_image, runs_it, label_of, has_peers, arch_findings,
  fleet_findings, limit_findings, note_name, peers_loop, peers_running, assess,
}

unfoldable pub is_cpu_build : Unchecked → Bool
is_cpu_build cpu_build = true
is_cpu_build _ = false

-- The machines of the fleet that run the service.
abbrev pub machines : Text → List Device → ℕ
machines slug fleet = length (keep (runs_it slug) fleet)

peers_loop-count :
    (slug : Text) (names : List Text) (n : ℕ) (ds : List Device)
    → (peers_loop slug names n ds).1 ≡ n + machines slug ds
unfolding peers_loop
peers_loop-count slug names n [] = ground arith
peers_loop-count slug names n (d ∷ ds) = ground (
  arith,
  peers_loop-count slug (note_name (runs_it slug d) (label_of d) names) (n + 1) ds,
  peers_loop-count slug (note_name (runs_it slug d) (label_of d) names) n ds,
)

contains_same :
    (names : List Text) (label l : Text)
    → contains names label ≡ true
    → contains names l ≡ (contains names l || text_eq label l)
contains_same names label l h = elim (Bool-cases (text_eq label l)) [
  | inl e ↦ rw (← (text_eq_iff label l).0 e) (rw h)
  | inr e ↦ rw e (or_false _)
]

contains-note_name :
    (runs : Bool) (label : Text) (names : List Text) (l : Text)
    → contains (note_name runs label names) l ≡ (contains names l || (runs && text_eq label l))
unfolding note_name
contains-note_name false label names l = or_false _
contains-note_name true label names l = elim (Bool-cases (contains names label)) [
  | inl e ↦ rw e (contains_same names label l e)
  | inr e ↦
      rw e (any-append (λ v. text_eq v l) names (label ∷ []) ∙ rw (← or_false (text_eq label l)))
]

-- A machine that runs the service under this name.
abbrev pub runs_as : Text → Text → Device → Bool
runs_as slug l d = runs_it slug d && text_eq (label_of d) l

peers_loop-contains :
    (slug : Text) (l : Text) (ds : List Device) (names : List Text) (n : ℕ)
    → contains (peers_loop slug names n ds).0 l ≡ (contains names l || any (runs_as slug l) ds)
unfolding peers_loop
peers_loop-contains slug l [] names n = any-sort text_lt (λ v. text_eq v l) names ∙ or_false _
peers_loop-contains slug l (d ∷ ds) names n =
    peers_loop-contains slug l ds (note_name (runs_it slug d) (label_of d) names)
      (if runs_it slug d then n + 1 else n)
    ∙ rw (contains-note_name (runs_it slug d) (label_of d) names l)
        (or_assoc (contains names l) (runs_as slug l d) (any (runs_as slug l) ds))

has_peers-any : (names : List Text) → has_peers names ≡ any (λ v. true) names
has_peers-any [] = refl
has_peers-any (v ∷ names) = refl

any-note_name :
    (runs : Bool) (label : Text) (names : List Text)
    → any (λ v. true) (note_name runs label names) ≡ (any (λ v. true) names || runs)
unfolding note_name
any-note_name runs label [] = ground arith
any-note_name runs label (v ∷ names) = ground arith

peers_loop-has_peers :
    (slug : Text) (ds : List Device) (names : List Text) (n : ℕ)
    → any (λ v. true) (peers_loop slug names n ds).0
      ≡ (any (λ v. true) names || any (runs_it slug) ds)
unfolding peers_loop
peers_loop-has_peers slug [] names n = any-sort text_lt (λ v. true) names ∙ or_false _
peers_loop-has_peers slug (d ∷ ds) names n =
    peers_loop-has_peers slug ds (note_name (runs_it slug d) (label_of d) names)
      (if runs_it slug d then n + 1 else n)
    ∙ rw (any-note_name (runs_it slug d) (label_of d) names)
        (or_assoc (any (λ v. true) names) (runs_it slug d) (any (runs_it slug) ds))

any-machines : (slug : Text) (ds : List Device) → any (runs_it slug) ds ≡ ltb 0 (machines slug ds)
any-machines slug [] = refl
any-machines slug (d ∷ ds) = ground (arith, any-machines slug ds)

-- For a service with a slug, the count is that of the machines that run it, two of one name counted
-- twice; a name is listed exactly when a machine of that name runs it.
pub peers_running-machines :
    (fleet : List Device) (slug l : Text)
    → is_empty (trim_space slug) ≡ false
    → let (names, count) = peers_running fleet slug in
      (count ≡ machines (trim_space slug) fleet)
      × (contains names l ≡ any (runs_as (trim_space slug) l) fleet)
unfolding peers_running
peers_running-machines fleet slug l h = rw h (
  (peers_loop-count (trim_space slug) [] 0 fleet ∙ omega arith),
  peers_loop-contains (trim_space slug) l fleet [] 0,
)

-- The loss that a documented limit means for one more machine beside `k` others.
abbrev pub loses : Option ℤ → ℕ → Bool
loses none k = false
loses (some limit) k =
    ltb 0 k
    && (eqb_ℤ limit (pos 1) || (not (eqb_ℤ limit (pos 0)) && not (leb_ℤ (pos (k + 1)) limit)))

fleet_findings-loss :
    (svc : Service) (names : List Text) (k : ℕ)
    → has_peers names ≡ ltb 0 k
    → (fleet_findings svc names k).1 ≡ loses svc.requirements.devices_per_ip k
unfolding fleet_findings limit_findings
fleet_findings-loss svc [] k h = ground arith
fleet_findings-loss svc (v ∷ names) k h = ground arith

-- The deploy is taken for a loss exactly when another machine runs the service and the documented
-- limit is one device per connection, or neither none nor one and below the number of machines.
pub fleet_findings-loses :
    (fleet : List Device) (svc : Service)
    → is_empty (trim_space svc.slug) ≡ false
    → let (names, count) = peers_running fleet svc.slug in
      (fleet_findings svc names count).1
      ≡ loses svc.requirements.devices_per_ip (machines (trim_space svc.slug) fleet)
unfolding peers_running
fleet_findings-loses fleet svc h =
    let slug = trim_space svc.slug in
    let count : (peers_loop slug [] 0 fleet).1 ≡ machines slug fleet =
      peers_loop-count slug [] 0 fleet ∙ omega arith in
    rw (h) (
      rw (count) (
        fleet_findings-loss svc (peers_loop slug [] 0 fleet).0 (machines slug fleet)
          (has_peers-any _ ∙ peers_loop-has_peers slug fleet [] 0 ∙ any-machines slug fleet)))

-- Whether the build for this CPU is listed as not checked.
abbrev pub lists_cpu_build : List Unchecked → Bool
lists_cpu_build = any is_cpu_build

arch_findings-checked :
    (svc : Service) (machine : Text)
    → (has_image svc && not (arch_findings svc machine).1)
      ≡ (has_image svc && not (supports svc.docker machine).1)
unfolding arch_findings
arch_findings-checked svc machine = ground arith

-- The CPU is listed as not checked exactly when the entry has an image and it cannot be told
-- whether a build of it runs here.
pub assess-lists_cpu_build :
    (input : Input)
    → lists_cpu_build (assess input).not_checked
      ≡ (has_image input.service && not (supports input.service.docker input.daemon_arch).1)
unfolding assess is_cpu_build
assess-lists_cpu_build input =
    rw (← arch_findings-checked input.service input.daemon_arch) (ground arith)
