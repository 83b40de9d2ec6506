-- ===== src/Preflight/Agreement.antt =====
-- About arch.go of internal/runtime and arch.go of internal/preflight, two readings of one rule.
use cash_pilot_desktop.Base.{
  Bool, ◌≡◌, refl, sym, ap, ◌∙◌, ◌≢◌, ◌⊎◌, inl, inr, true, Option, none, some, List, [], ◌∷◌, Text,
  codes, text_eq, text_eq_iff, map, is_empty, trim_space, trim_prefix, to_lower, split, Map, lookup,
  if◌then◌else◌, All, texts, Bool-cases, Option-cases, or_else, any, ℤ, is_positive, atoi, arith,
}
use cash_pilot_desktop.Catalog.{DockerConfig}
use cash_pilot_desktop.Arch as Arch
use cash_pilot_desktop.Preflight.Target as Target

lookup_cong :
    (k j : Text) (v : Text) (m n : Map Text)
    → lookup k m ≡ lookup k n
    → lookup k ((j, v) ∷ m) ≡ lookup k ((j, v) ∷ n)
unfolding lookup
lookup_cong k j v m n h = elim (Bool-cases (text_eq j k)) [ inl e ↦ rw e refl | inr e ↦ rw e h ]

lookup_skip : (k j : Text) (v : Text) (m : Map Text) → k ≢ j → lookup k ((j, v) ∷ m) ≡ lookup k m
unfolding lookup
lookup_skip k j v m h = ground (arith, text_eq_iff j k)

-- What holds of every key of a table holds of a key that is found.
All_lookup :
    (P : Text → Type 0) (k : Text) (m : Map Text) {v : Text}
    → All (λ e. P e.0) m
    → lookup k m ≡ some v
    → P k
unfolding lookup
All_lookup P k [] h e = absurd (cc)
All_lookup P k ((j, w) ∷ m) h e = elim (Bool-cases (text_eq j k)) [
  | inl same ↦ rw (← (text_eq_iff j k).0 same) h.0
  | inr other ↦ All_lookup P k m h.1 (rw (other) at e)
]

tables_agree :
    (k : Text)
    → k ≢ codes "x86-64"
    → k ≢ codes "armv5l"
    → lookup k Arch.families ≡ lookup k Target.machine_family
tables_agree k h1 h2 = lookup_cong k _ _ _ _ (
    lookup_skip k _ _ _ h1
    ∙ lookup_cong k _ _ _ _ (
        lookup_cong k _ _ _ _ (
          lookup_cong k _ _ _ _ (
            lookup_cong k _ _ _ _ (
              lookup_cong k _ _ _ _
                (lookup_cong k _ _ _ _ (lookup_cong k _ _ _ _ (lookup_skip k _ _ _ h2))))))))

abbrev SameVariant : Text → Type 0
SameVariant k =
    or_else (Target.find_variant k) Target.arm_default_variant
    ≡ Arch.variant_digit (Arch.after_armv k)

-- Every reported machine name of the table gives both readings one variant.
variants_agree : (k : Text) {v : Text} → lookup k Arch.families ≡ some v → SameVariant k
unfolding texts Target.find_variant Arch.variant_digit Arch.after_armv
variants_agree k e =
    All_lookup SameVariant k Arch.families
      (
        refl,
        (
          refl,
          (
            refl,
            (refl, (refl, (refl, (refl, (refl, (refl, (refl, (refl, (refl, (refl, tt)))))))))),
          ),
        ),
      )
      e

abbrev lift : Option Arch.ArchTarget → Target.Target
lift none = Target.unknown
lift (some t) = record { family = t.family; variant = t.variant; known = true }

empty_name :
    (k : Text)
    → (if is_empty k then [] else or_else (lookup k Target.machine_family) [])
      ≡ or_else (lookup k Target.machine_family) []
unfolding texts
empty_name [] = refl
empty_name (c ∷ k) = refl

family_agrees :
    (machine : Text)
    → trim_space machine ≡ machine
    → to_lower machine ≢ codes "x86-64"
    → to_lower machine ≢ codes "armv5l"
    → Target.family_of machine ≡ Arch.arch_family machine
unfolding Target.family_of Arch.arch_family
family_agrees machine t h1 h2 = rw t (
    empty_name (to_lower machine)
    ∙ ap (λ o. or_else o []) (sym (tables_agree (to_lower machine) h1 h2)))

target_of_family :
    (machine : Text)
    → Target.family_of machine ≡ Arch.arch_family machine
    → (Arch.arch_family machine ≡ []) ⊎ SameVariant (to_lower machine)
    → Target.machine_target machine ≡ lift (Arch.machine_target machine)
unfolding Target.machine_target Arch.machine_target Arch.arm_variant
target_of_family machine f (inl e) = rw (f, e)
target_of_family machine f (inr v) =
    rw (f, v)
      (elim (Bool-cases (is_empty (Arch.arch_family machine))) [
        | inl e ↦ rw e
        | inr e ↦ elim (Bool-cases (text_eq (Arch.arch_family machine) Arch.arm)) [
          | inl a ↦ rw (e, a)
          | inr a ↦ rw (e, a)
        ]
      ])

variant_settled :
    (machine : Text)
    → trim_space machine ≡ machine
    → (Arch.arch_family machine ≡ []) ⊎ SameVariant (to_lower machine)
unfolding Arch.arch_family
variant_settled machine t = elim (Option-cases (lookup (to_lower machine) Arch.families)) [
  | inl e ↦ inl (rw (t, e))
  | inr (v, e) ↦ inr (variants_agree (to_lower machine) e)
]

-- The variant of a 32-bit ARM platform, if it is a number, is above 0.
abbrev is_sound : Option ℤ → Bool
is_sound none = true
is_sound (some n) = is_positive n

abbrev HasPositive : List Text → Type 0
HasPositive (os ∷ kind ∷ digits ∷ rest) = is_sound (atoi (trim_prefix digits (codes "v"))) ≡ true
HasPositive _ = Unit

abbrev pub HasPositiveVariant : Text → Type 0
HasPositiveVariant p = HasPositive (split b'/' (to_lower (trim_space p)))

variant_agrees :
    (digits : Text) (rest : List Text)
    → is_sound (atoi (trim_prefix digits (codes "v"))) ≡ true
    → Target.variant_of digits ≡ Arch.variant_of (digits ∷ rest)
unfolding Target.variant_of Arch.variant_of
variant_agrees digits rest h = elim (Option-cases (atoi (trim_prefix digits (codes "v")))) [
  | inl e ↦ rw (e, Arch.variant_of)
  | inr (n, e) ↦
      let positive : is_positive n ≡ true = rw e at h in rw (e, Arch.variant_of) (rw positive)
]

no_variant : Target.variant_of [] ≡ Arch.variant_of []
unfolding Target.variant_of Arch.variant_of texts
no_variant = refl

parts_agree :
    (parts : List Text)
    → HasPositive parts
    → Target.normalise_parts parts ≡ lift (Arch.platform_parts parts)
unfolding Target.normalise_parts Arch.platform_parts
parts_agree [] h = refl
parts_agree (os ∷ []) h = refl
parts_agree (os ∷ kind ∷ []) h = ground (arith, no_variant)
parts_agree (os ∷ kind ∷ digits ∷ rest) h = ground (arith, variant_agrees digits rest h)

platform_agrees :
    (p : Text) → HasPositiveVariant p → Target.normalise_platform p ≡ lift (Arch.platform_target p)
unfolding Target.normalise_platform Arch.platform_target
platform_agrees p h = parts_agree _ h

runs_on-lift :
    (a b : Arch.ArchTarget) → Target.runs_on (lift (some a)) (lift (some b)) ≡ Arch.runs_on a b
unfolding Target.runs_on Arch.runs_on
runs_on-lift a b = ground arith

overrides_agree : (m : Map Text) → Target.override_families m ≡ Arch.override_families m
unfolding Target.override_families Arch.override_families lookup
overrides_agree [] = refl
overrides_agree ((k, v) ∷ m) = ground (arith, overrides_agree m)

declared_agree :
    (ps : List Text)
    → All HasPositiveVariant ps
    → Target.declared_builds ps ≡ map (λ b. lift (some b)) (Arch.declared_builds ps)
unfolding Target.declared_builds Arch.declared_builds
declared_agree [] h = refl
declared_agree (p ∷ ps) h = elim (Option-cases (Arch.platform_target p)) [
  | inl e ↦ rw (platform_agrees p h.0, declared_agree ps h.1) (rw (e, Arch.declared_builds) refl)
  | inr (b, e) ↦
      rw (platform_agrees p h.0, declared_agree ps h.1) (rw (e, Arch.declared_builds) refl)
]

any-runs_on :
    (t : Arch.ArchTarget) (bs : List Arch.ArchTarget)
    → any (λ b. Target.runs_on b (lift (some t))) (map (λ b. lift (some b)) bs)
      ≡ any (λ b. Arch.runs_on b t) bs
any-runs_on t [] = refl
any-runs_on t (b ∷ bs) = rw (runs_on-lift b t, any-runs_on t bs)

answers_agree :
    (t : Arch.ArchTarget) (bs : List Arch.ArchTarget) (fs : List Text)
    → Target.answer_for (lift (some t)) (map (λ b. lift (some b)) bs) fs ≡ Arch.answer_for t bs fs
unfolding Target.answer_for Arch.answer_for
answers_agree t [] [] = refl
answers_agree t [] (f ∷ fs) = refl
answers_agree t (b ∷ bs) [] = ground (arith, runs_on-lift b t, any-runs_on t bs)
answers_agree t (b ∷ bs) (f ∷ fs) = ground (arith, runs_on-lift b t, any-runs_on t bs)

-- For a machine name with no space round it, other than the spellings "x86-64" and "armv5l", and
-- for an entry whose 32-bit ARM platforms name a variant above 0 where they name a number, the
-- preflight and the deploy path give the same answer on whether a build runs, and whether that is
-- known.
pub supports-eq-has_build_for :
    (dc : DockerConfig) (machine : Text)
    → trim_space machine ≡ machine
    → to_lower machine ≢ codes "x86-64"
    → to_lower machine ≢ codes "armv5l"
    → All HasPositiveVariant dc.platforms
    → Target.supports dc machine ≡ Arch.has_build_for dc machine
unfolding Target.supports Arch.has_build_for
supports-eq-has_build_for dc machine t h1 h2 hp =
    let target =
      target_of_family machine (family_agrees machine t h1 h2) (variant_settled machine t) in
    rw (target, declared_agree dc.platforms hp, overrides_agree dc.image_by_arch)
      (elim (Option-cases (Arch.machine_target machine)) [
        | inl e ↦ rw (e, Arch.has_build_for) refl
        | inr (m, e) ↦ rw (e, Arch.has_build_for) (answers_agree m _ _)
      ])
