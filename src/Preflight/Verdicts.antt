-- ===== src/Preflight/Verdicts.antt =====
-- About Assess of internal/preflight/preflight.go: the verdict and the order of the findings.
use cash_pilot_desktop.Base.{
  ℕ, Bool, true, false, ◌&&◌, ◌||◌, not, List, [], ◌∷◌, ◌≡◌, refl, Text, is_empty, if◌then◌else◌,
  any, any-append, ltb, sort, sort-perm, sort-IsSorted, any-sort, or_false, or_assoc, IsSorted, All,
  Perm, arith, ◌∙◌, ap, sym,
}
use cash_pilot_desktop.Catalog.{Requirements, Service}
use cash_pilot_desktop.Preflight.Target.{supports, override_image}
use cash_pilot_desktop.Preflight.Assess.{
  Verdict, earns_nothing, looks_fine, severity, Finding, Input, has_image, requirement_findings,
  arch_findings, fleet_findings, limit_findings, peers_running, worse, verdict_of, collected,
  assess,
}

worse_asym : (f g : Finding) → worse f g ≡ true → worse g f ≡ false
worse_asym f g h = ground arith

worse_trans : (f g h : Finding) → worse g f ≡ false → worse h g ≡ false → worse h f ≡ false
worse_trans f g h p q = ground arith

verdict_of_sorted :
    (f : Finding) (fs : List Finding)
    → All (λ g. worse g f ≡ false) fs
    → verdict_of f.verdict fs ≡ f.verdict
unfolding verdict_of
verdict_of_sorted f [] h = refl
verdict_of_sorted f (g ∷ fs) h = rw (h.0) (verdict_of_sorted f fs h.1)

verdict_of_first : (v : Verdict) → (if ltb 0 (severity v) then v else looks_fine) ≡ v
unfolding severity
verdict_of_first v = ground arith

-- The findings and the verdict that they give together.
abbrev pub Leads : List Finding → Verdict → Type 0
Leads [] v = v ≡ looks_fine
Leads (f ∷ fs) v = v ≡ f.verdict

sorted-Leads : (fs : List Finding) → IsSorted worse fs → Leads fs (verdict_of looks_fine fs)
unfolding verdict_of severity
sorted-Leads [] h = refl
sorted-Leads (f ∷ fs) h = rw (verdict_of_first f.verdict) (verdict_of_sorted f fs h.0)

-- The report holds exactly the findings that were collected, the worst verdict first, and its
-- verdict is that of its first finding, or "looks fine" where there is none.
pub assess_worst_first :
    (input : Input)
    → let r = assess input in
      Perm r.findings (collected input) × IsSorted worse r.findings × Leads r.findings r.verdict
unfolding assess
assess_worst_first input =
    let sorted = sort-IsSorted worse worse_asym worse_trans (collected input) in
    (sort-perm worse (collected input), sorted, sorted-Leads _ sorted)

unfoldable pub is_nothing : Verdict → Bool
is_nothing earns_nothing = true
is_nothing _ = false

abbrev pub dooms : Finding → Bool
dooms f = is_nothing f.verdict

is_nothing_step :
    (v w : Verdict)
    → is_nothing (if ltb (severity v) (severity w) then w else v) ≡ (is_nothing v || is_nothing w)
unfolding is_nothing severity
is_nothing_step v w = ground arith

verdict_of-is_nothing :
    (v : Verdict) (fs : List Finding)
    → is_nothing (verdict_of v fs) ≡ (is_nothing v || any dooms fs)
unfolding verdict_of
verdict_of-is_nothing v [] = or_false (is_nothing v)
verdict_of-is_nothing v (f ∷ fs) =
    let w = if ltb (severity v) (severity f.verdict) then f.verdict else v in
    verdict_of-is_nothing w fs
    ∙ rw (is_nothing_step v f.verdict) (or_assoc (is_nothing v) (dooms f) (any dooms fs))

requirements-dooms :
    (r : Requirements) → any dooms (requirement_findings r) ≡ r.container_prohibited
unfolding requirement_findings is_nothing
requirements-dooms r = ground arith

arch-dooms :
    (svc : Service) (machine : Text)
    → any dooms (arch_findings svc machine).0 ≡ (
        has_image svc
        && ((supports svc.docker machine).1
            && (not (supports svc.docker machine).0
                || not (is_empty (override_image svc.docker machine)))))
unfolding arch_findings is_nothing
arch-dooms svc machine = ground arith

fleet-dooms :
    (svc : Service) (peers : List Text) (count : ℕ)
    → any dooms (fleet_findings svc peers count).0 ≡ false
unfolding fleet_findings limit_findings is_nothing
fleet-dooms svc peers count = ground arith

collected-dooms :
    (input : Input)
    → any dooms (collected input) ≡ (
        input.service.requirements.container_prohibited
        || any dooms (arch_findings input.service input.daemon_arch).0)
unfolding collected
collected-dooms input =
    let svc = input.service in
    let (peers, count) = peers_running input.fleet svc.slug in
    any-append dooms (requirement_findings svc.requirements) _
    ∙ rw (requirements-dooms svc.requirements) (
        ap (λ b. svc.requirements.container_prohibited || b)
          (any-append dooms (arch_findings svc input.daemon_arch).0 _
            ∙ rw (fleet-dooms svc peers count) (sym (or_false _))))

-- The verdict is "will earn nothing" exactly when the provider forbids containers, or the entry has
-- an image and it is known that no build of it runs here, or that the build for this CPU is a
-- separate image.
pub assess-earns_nothing :
    (input : Input)
    → let docker = input.service.docker in
      let (supported, known) = supports docker input.daemon_arch in
      is_nothing (assess input).verdict ≡ (
        input.service.requirements.container_prohibited
        || (has_image input.service
            && (known
                && (not supported || not (is_empty (override_image docker input.daemon_arch))))))
unfolding assess is_nothing
assess-earns_nothing input =
    verdict_of-is_nothing looks_fine (sort worse (collected input))
    ∙ rw
        (
          any-sort worse dooms (collected input),
          collected-dooms input,
          arch-dooms input.service input.daemon_arch,
        )
        refl
