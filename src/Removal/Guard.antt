-- ===== src/Removal/Guard.antt =====
-- About Remove of internal/runtime/runtime.go: which calls it may make.
use cash_pilot_desktop.Base.{
  true, false, some, List, [], ◌∷◌, ◌≡◌, refl, ◌⊎◌, inl, inr, Text, text_eq, text_eq_iff, any, keep,
  All, arith, Bool-cases, All-map, any-keep-nil, or_true,
}
use cash_pilot_desktop.Removal.{
  RemoveOptions, DataMount, RemovalPlan, Daemon, Call, stop_container, remove_container,
  remove_volume, critical_refusal, Found, mounted, refused, plan_from_mounts, plan_removal,
  plan_found, container_name, blocked_critical_volumes, remove_volumes, carry_out, guarded,
  remove_mounted, remove, has_critical,
}

-- A call on the host that a removal with these options, under this plan, may make.
abbrev pub Allowed : RemovalPlan → RemoveOptions → Call → Type 0
Allowed plan opts (stop_container name t) = name ≡ plan.name
Allowed plan opts (remove_container name anonymous) =
    (name ≡ plan.name) × (anonymous ≡ opts.delete_data)
Allowed plan opts (remove_volume source) =
    (opts.delete_data ≡ true)
    × ((opts.allow_critical ≡ true) ⊎ (has_critical plan ≡ false))
    × (any (λ v. text_eq v.source source) plan.volumes ≡ true)

-- Every element passes a test that the list is known to hold it by.
listed : (xs : List DataMount) → All (λ v. any (λ w. text_eq w.source v.source) xs ≡ true) xs
listed [] = tt
listed (x ∷ xs) = (
  rw ((text_eq_iff x.source x.source).1 refl),
  All-map _ _ xs (λ v h. rw h (or_true (text_eq x.source v.source))) (listed xs),
)

module _ (d : Daemon) (plan : RemovalPlan) (opts : RemoveOptions) where
  remove_volumes-Allowed :
      (vs : List DataMount)
      → All (λ v. Allowed plan opts (remove_volume v.source)) vs
      → All (Allowed plan opts) (remove_volumes d vs).1
  unfolding remove_volumes
  remove_volumes-Allowed [] h = tt
  remove_volumes-Allowed (v ∷ vs) h = elim (Bool-cases (d.removes_volume v.source)) [
    | inl e ↦ rw e (h.0, remove_volumes-Allowed vs h.1)
    | inr e ↦ rw e (h.0, tt)
  ]

  carry_out-Allowed :
      (opts.delete_data ≡ true → (opts.allow_critical ≡ true) ⊎ (has_critical plan ≡ false))
      → All (Allowed plan opts) (carry_out d plan opts).1
  unfolding carry_out
  carry_out-Allowed free = elim (Bool-cases opts.delete_data) [
    | inl e ↦
        let volumes =
          remove_volumes-Allowed plan.volumes
            (All-map _ _ plan.volumes (λ v h. (e, free e, h)) (listed plan.volumes)) in
        elim (Bool-cases (d.removes_container plan.name)) [
          | inl r ↦ rw (r) (ground arith)
          | inr r ↦ rw (r) ((refl, ((refl, refl), tt)))
        ]
    | inr e ↦ ground arith
  ]

  unblocked :
      blocked_critical_volumes plan opts ≡ []
      → opts.delete_data ≡ true
      → (opts.allow_critical ≡ true) ⊎ (has_critical plan ≡ false)
  unfolding blocked_critical_volumes has_critical
  unblocked h e = ground (arith, any-keep-nil (λ v. v.critical) plan.volumes)

  guarded-Allowed :
      (blocked : List DataMount)
      → blocked_critical_volumes plan opts ≡ blocked
      → All (Allowed plan opts) (guarded d plan opts blocked).1
  unfolding guarded
  guarded-Allowed [] h = carry_out-Allowed (unblocked h)
  guarded-Allowed (b ∷ blocked) h = tt

planned :
    (d : Daemon) (slug : Text) (opts : RemoveOptions) {plan : RemovalPlan} (found : Found)
    → plan_found slug opts.critical found ≡ some plan
    → remove_mounted d slug opts found ≡ guarded d plan opts (blocked_critical_volumes plan opts)
unfolding plan_found remove_mounted
planned d slug opts (refused e) h = cc
planned d slug opts {plan} (mounted ms) h =
    let same : plan_from_mounts slug (container_name slug) ms opts.critical ≡ plan = cc in rw same

-- The removal acts on the plan that the user was shown.
remove_planned :
    (d : Daemon) (slug : Text) (opts : RemoveOptions) {plan : RemovalPlan}
    → plan_removal d slug opts.critical ≡ some plan
    → remove d slug opts ≡ guarded d plan opts (blocked_critical_volumes plan opts)
unfolding plan_removal remove
remove_planned d slug opts h = planned d slug opts _ h

-- Every call that a removal makes stops or removes the container of the plan that the user was
-- shown, its anonymous volumes only if the data is to go, or deletes a named volume of that plan;
-- and a named volume is deleted only if the data was asked to go and either the plan holds nothing
-- critical or the critical delete was agreed to separately.
pub remove-Allowed :
    (d : Daemon) (slug : Text) (opts : RemoveOptions) (plan : RemovalPlan)
    → plan_removal d slug opts.critical ≡ some plan
    → All (Allowed plan opts) (remove d slug opts).1
remove-Allowed d slug opts plan h =
    rw (remove_planned d slug opts h) (guarded-Allowed d plan opts _ refl)

keep-any :
    (vs : List DataMount)
    → any (λ v. v.critical) vs ≡ true
    → (v : DataMount) × (rest : List DataMount) × (keep (λ v. v.critical) vs ≡ v ∷ rest)
keep-any [] h = absurd (cc)
keep-any (v ∷ vs) h = elim (Bool-cases v.critical) [
  | inl e ↦ (v, keep (λ v. v.critical) vs, rw e)
  | inr e ↦ rw e (keep-any vs (rw e at h))
]

-- A removal that would delete a critical volume without the separate yes makes no call at all, and
-- its error names every critical volume of the plan.
pub remove_refuses :
    (d : Daemon) (slug : Text) (opts : RemoveOptions) (plan : RemovalPlan)
    → plan_removal d slug opts.critical ≡ some plan
    → opts.delete_data ≡ true
    → opts.allow_critical ≡ false
    → has_critical plan ≡ true
    → remove d slug opts
      ≡ (some (critical_refusal plan.slug (keep (λ v. v.critical) plan.volumes)), [])
unfolding blocked_critical_volumes has_critical guarded
remove_refuses d slug opts plan h e a c =
    let (v, rest, k) = keep-any plan.volumes c in rw (remove_planned d slug opts h) (rw (e, a, k))
