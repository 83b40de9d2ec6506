-- ===== src/Preflight/Target.antt =====
-- internal/preflight/arch.go: the second reading of CPU architectures, which the assessment and the
-- compose export ask.
use cash_pilot_desktop.Base.{
  ◌-◌, Bool, true, false, ◌&&◌, not, Option, none, some, List, [], ◌∷◌, Text, codes, text_eq,
  is_empty, trim_space, trim_prefix, to_lower, split, has_prefix, Map, lookup, leb, if◌then◌else◌,
  or_else, any, ℤ, pos, leb_ℤ, atoi, texts,
}
use cash_pilot_desktop.Catalog.{DockerConfig}

abbrev amd64 : Text
amd64 = codes "amd64"

abbrev arm64 : Text
arm64 = codes "arm64"

abbrev arm : Text
arm = codes "arm"

-- A set of strings is the list of its members.
abbrev pub families : List Text
families = amd64 ∷ arm64 ∷ arm ∷ []

abbrev pub machine_family : Map Text
machine_family =
    (codes "x86_64", amd64)
    ∷ (amd64, amd64)
    ∷ (codes "aarch64", arm64)
    ∷ (arm64, arm64)
    ∷ (codes "arm64-v8a", arm64)
    ∷ (codes "armv8l", arm64)
    ∷ (codes "armv7l", arm)
    ∷ (codes "armv6l", arm)
    ∷ (codes "armhf", arm)
    ∷ (codes "armeabi-v7a", arm)
    ∷ (arm, arm)
    ∷ []

abbrev pub arm_default_variant : ℤ
arm_default_variant = pos 7

pub record Target : Type 0 where
  pub family : Text
  pub variant : ℤ
  pub known : Bool

abbrev pub unknown : Target
unknown = record { family = []; variant = pos 0; known = false }

abbrev pub plain : Text → Target
plain kind = record { family = kind; variant = pos 0; known = true }

abbrev pub arm_target : ℤ → Target
arm_target n = record { family = arm; variant = n; known = true }

unfoldable pub family_of : Text → Text
family_of machine =
    let name = to_lower (trim_space machine) in
    if is_empty name then [] else or_else (lookup name machine_family) []

-- `parts[2]` of a platform that has it.
abbrev third : List Text → Text
third (v ∷ _) = v
third [] = []

unfoldable pub variant_of : Text → ℤ
variant_of variant = or_else (atoi (trim_prefix variant (codes "v"))) arm_default_variant

unfoldable pub normalise_parts : List Text → Target
normalise_parts (os ∷ kind ∷ rest) =
    if not (text_eq os (codes "linux"))
    then unknown
    else if text_eq kind amd64
    then plain kind
    else if text_eq kind arm64
    then plain kind
    else if text_eq kind arm
    then arm_target (variant_of (third rest))
    else unknown
normalise_parts _ = unknown

unfoldable pub normalise_platform : Text → Target
normalise_platform platform = normalise_parts (split b'/' (to_lower (trim_space platform)))

-- The digit at the head, if there is one.
abbrev head_digit : Text → Option ℤ
head_digit [] = none
head_digit (c ∷ _) = if leb b'0' c && leb c b'9' then some (pos (c - b'0')) else none

-- The first match of the pattern `armv(\d)`, as the number that it captures.
unfoldable pub find_variant : Text → Option ℤ
find_variant [] = none
find_variant (c ∷ s) =
    let rest = find_variant s in
    let here =
      if has_prefix (c ∷ s) (codes "armv")
      then head_digit (trim_prefix (c ∷ s) (codes "armv"))
      else none in
    elim here [ some n ↦ some n | none ↦ rest ]

unfoldable pub machine_target : Text → Target
machine_target machine =
    let fam = family_of machine in
    if is_empty fam
    then unknown
    else if not (text_eq fam arm)
    then plain fam
    else arm_target (or_else (find_variant (to_lower machine)) arm_default_variant)

unfoldable pub runs_on : Target → Target → Bool
runs_on build target =
    if not (build.known && target.known && text_eq build.family target.family)
    then false
    else if text_eq build.family arm
    then leb_ℤ build.variant target.variant
    else true

unfoldable pub declared_builds : List Text → List Target
declared_builds [] = []
declared_builds (p ∷ ps) =
    let rest = declared_builds ps in
    if (normalise_platform p).known then normalise_platform p ∷ rest else rest

unfoldable pub override_families : Map Text → List Text
override_families [] = []
override_families ((key, _) ∷ m) =
    let rest = override_families m in if any (λ f. text_eq f key) families then key ∷ rest else rest

abbrev pub none_declared {ℓ κ} : {A : Type ℓ} {B : Type κ} → List A → List B → Bool
none_declared [] [] = true
none_declared _ _ = false

unfoldable pub answer_for : Target → List Target → List Text → Bool × Bool
answer_for target declared overrides =
    if none_declared declared overrides
    then (false, false)
    else if any (λ f. text_eq f target.family) overrides
    then (true, true)
    else if any (λ build. runs_on build target) declared
    then (true, true)
    else (false, true)

-- `(supported, known)`
unfoldable pub supports : DockerConfig → Text → Bool × Bool
supports docker machine =
    let target = machine_target machine in
    if not target.known
    then (false, false)
    else answer_for target (declared_builds docker.platforms)
        (override_families docker.image_by_arch)

unfoldable pub override_image : DockerConfig → Text → Text
override_image docker machine =
    let family = family_of machine in
    if is_empty family then [] else trim_space (or_else (lookup family docker.image_by_arch) [])

-- Opens the file and the text functions, for tests.
unfoldable pub target_defs : Unit {0}
unfolding texts family_of variant_of normalise_parts normalise_platform find_variant machine_target
    runs_on declared_builds override_families answer_for supports override_image
target_defs = tt
