-- ===== src/Arch.antt =====
-- internal/runtime/arch.go: which build of an image a machine runs.
use cash_pilot_desktop.Base.{
  ◌-◌, Bool, true, false, ◌&&◌, not, Option, none, some, List, [], ◌∷◌, Text, codes, text_eq,
  is_empty, trim_space, trim_prefix, to_lower, split, has_prefix, Map, lookup, ltb, leb,
  if◌then◌else◌, or_else, is_some, any, ℤ, pos, is_positive, leb_ℤ, atoi, texts,
}
use cash_pilot_desktop.Catalog.{DockerConfig}

abbrev pub amd64 : Text
amd64 = codes "amd64"

abbrev pub arm64 : Text
arm64 = codes "arm64"

abbrev pub arm : Text
arm = codes "arm"

abbrev pub families : Map Text
families =
    (codes "x86_64", amd64)
    ∷ (codes "x86-64", amd64)
    ∷ (amd64, amd64)
    ∷ (codes "aarch64", arm64)
    ∷ (arm64, arm64)
    ∷ (codes "arm64-v8a", arm64)
    ∷ (codes "armv8l", arm64)
    ∷ (codes "armv7l", arm)
    ∷ (codes "armv6l", arm)
    ∷ (codes "armv5l", arm)
    ∷ (codes "armhf", arm)
    ∷ (codes "armeabi-v7a", arm)
    ∷ (arm, arm)
    ∷ []

abbrev pub labels : Map Text
labels = (amd64, codes "x86-64") ∷ (arm64, codes "64-bit ARM") ∷ (arm, codes "32-bit ARM") ∷ []

abbrev pub arm_default_variant : ℤ
arm_default_variant = pos 7

unfoldable pub arch_family : Text → Text
arch_family machine = or_else (lookup (to_lower (trim_space machine)) families) []

unfoldable pub arch_label : Text → Text
arch_label family =
    or_else (lookup family labels) (if is_empty family then codes "unknown" else family)

pub record ArchTarget : Type 0 where
  pub family : Text
  pub variant : ℤ

-- `strings.Index(lower, "armv")`, and what stands behind the match.
unfoldable pub after_armv : Text → Option Text
after_armv [] = none
after_armv (c ∷ s) =
    let rest = after_armv s in
    if has_prefix (c ∷ s) (codes "armv") then some (trim_prefix (c ∷ s) (codes "armv")) else rest

-- The digit behind "armv", if it is one and above 0.
unfoldable pub variant_digit : Option Text → ℤ
variant_digit (some (c ∷ _)) =
    if ltb b'0' c && leb c b'9' then pos (c - b'0') else arm_default_variant
variant_digit _ = arm_default_variant

unfoldable pub arm_variant : Text → ℤ
arm_variant machine = variant_digit (after_armv (to_lower machine))

unfoldable pub machine_target : Text → Option ArchTarget
machine_target machine =
    let family = arch_family machine in
    if is_empty family
    then none
    else if not (text_eq family arm)
    then some (record { family = family; variant = pos 0 })
    else some (record { family = arm; variant = arm_variant machine })

-- The variant that the third part of a platform names, where it is above 0.
unfoldable pub variant_of : List Text → ℤ
variant_of (digits ∷ _) = elim (atoi (trim_prefix digits (codes "v"))) [
  | some n ↦ if is_positive n then n else arm_default_variant
  | none ↦ arm_default_variant
]
variant_of [] = arm_default_variant

unfoldable pub platform_parts : List Text → Option ArchTarget
platform_parts (os ∷ kind ∷ rest) =
    if not (text_eq os (codes "linux"))
    then none
    else if text_eq kind amd64
    then some (record { family = kind; variant = pos 0 })
    else if text_eq kind arm64
    then some (record { family = kind; variant = pos 0 })
    else if text_eq kind arm
    then some (record { family = arm; variant = variant_of rest })
    else none
platform_parts _ = none

unfoldable pub platform_target : Text → Option ArchTarget
platform_target platform = platform_parts (split b'/' (to_lower (trim_space platform)))

unfoldable pub runs_on : ArchTarget → ArchTarget → Bool
runs_on build target =
    if not (text_eq build.family target.family)
    then false
    else if not (text_eq build.family arm)
    then true
    else leb_ℤ build.variant target.variant

unfoldable pub image_for_arch : DockerConfig → Text → Text
image_for_arch dc machine =
    let family = arch_family machine in
    let override = trim_space (or_else (lookup family dc.image_by_arch) []) in
    if is_empty family then dc.image else if is_empty override then dc.image else override

-- The builds among the platforms that can be read.
unfoldable pub declared_builds : List Text → List ArchTarget
declared_builds [] = []
declared_builds (p ∷ ps) = elim (platform_target p) [
  | some build ↦ build ∷ declared_builds ps
  | none ↦ declared_builds ps
]

-- The families that the entry overrides, those only that have a label.
unfoldable pub override_families : Map Text → List Text
override_families [] = []
override_families ((family, _) ∷ m) =
    let rest = override_families m in if is_some (lookup family labels) then family ∷ rest else rest

abbrev pub none_declared {ℓ κ} : {A : Type ℓ} {B : Type κ} → List A → List B → Bool
none_declared [] [] = true
none_declared _ _ = false

-- `(runs, known)` for a machine that is one of the three families.
unfoldable pub answer_for : ArchTarget → List ArchTarget → List Text → Bool × Bool
answer_for target declared overrides =
    if none_declared declared overrides
    then (false, false)
    else if any (λ f. text_eq f target.family) overrides
    then (true, true)
    else if any (λ build. runs_on build target) declared
    then (true, true)
    else (false, true)

unfoldable pub has_build_for : DockerConfig → Text → Bool × Bool
has_build_for dc machine = elim (machine_target machine) [
  | none ↦ (false, false)
  | some target ↦
      answer_for target (declared_builds dc.platforms) (override_families dc.image_by_arch)
]

-- Opens the file and the text functions, for tests.
unfoldable pub arch_defs : Unit {0}
unfolding texts arch_family arch_label after_armv variant_digit arm_variant machine_target
    variant_of platform_parts platform_target runs_on image_for_arch declared_builds
    override_families answer_for has_build_for
arch_defs = tt
