-- ===== src/Listing.antt =====
-- internal/catalog/catalog.go: the order of the entries, their list and the lookup by slug, with the
-- user's own services; which health signals are kept; and what an image reference tells. The regexp
-- engine is a parameter.
pub mod Shadow
pub mod Ports
pub mod Order
mod Tests
use cash_pilot_desktop.Base.{
  ℕ, ℤ, pos, is_positive, leb_ℤ, eqb_ℤ, Bool, true, false, ◌&&◌, ◌||◌, not, Option, none, some,
  List, [], ◌∷◌, ◌++◌, map, Text, codes, text_eq, text_lt, is_empty, has_prefix, trim_prefix,
  trim_space, to_lower, contains, Map, lookup, insert, sort, if◌then◌else◌, or_else, keep, any, leb,
  length, is_some, ◌==◌, atoi,
}
use cash_pilot_desktop.Catalog.{Service, HealthSignal, DockerConfig, EnvVar}
use cash_pilot_desktop.Custom.Shown.{split_image_ref, cut_at}
use cash_pilot_desktop.Custom.Manage.{is_custom_slug, set_custom}

pub record Catalog : Type 0 where
  pub services : List Service
  pub by_slug : Map Service
  pub custom : List Service

-- `catalogLess`
unfoldable pub catalog_less : Service → Service → Bool
catalog_less a b =
    let a_first = is_positive a.priority in
    let b_first = is_positive b.priority in
    if not (a_first && b_first || not a_first && not b_first)
    then a_first
    else if a_first && not (eqb_ℤ a.priority b.priority)
    then leb_ℤ a.priority b.priority
    else if not (text_eq a.category b.category)
    then text_lt a.category b.category
    else text_lt a.name b.name

-- A later service takes the place of an earlier one of its slug.
unfoldable pub slug_map : Map Service → List Service → Map Service
slug_map found [] = found
slug_map found (svc ∷ services) = slug_map (insert svc.slug svc found) services

unfoldable pub new_catalog : List Service → Catalog
new_catalog services =
    let sorted = sort catalog_less services in
    record { services = sorted; by_slug = slug_map [] sorted; custom = [] }

-- `Catalog.SetCustom`
unfoldable pub with_custom : List Service → Catalog → Catalog
with_custom services c = record c {
  custom = set_custom (map (λ entry. entry.0) c.by_slug) services;
}

-- `Catalog.List`
unfoldable pub list_all : Catalog → List Service
list_all c = c.services ++ c.custom

unfoldable pub is_retired : Text → Bool
is_retired status =
    contains (codes "dead" ∷ codes "broken" ∷ codes "dropped" ∷ []) (to_lower (trim_space status))

-- `Catalog.ListVisible`
unfoldable pub list_visible : Catalog → List Service
list_visible c = keep (λ svc. not (is_retired svc.status)) c.services ++ c.custom

unfoldable pub find_slug : Text → List Service → Option Service
find_slug slug [] = none
find_slug slug (svc ∷ services) =
    let rest = find_slug slug services in if text_eq svc.slug slug then some svc else rest

-- `Catalog.Get`
unfoldable pub get : Text → Catalog → Option Service
get slug c = elim (lookup slug c.by_slug) [
  | some svc ↦ some svc
  | none ↦ if is_custom_slug slug then find_slug slug c.custom else none
]

unfoldable pub valid_signal : (Text → Bool) → HealthSignal → Bool
valid_signal compiles s =
    if contains ([] ∷ codes "failing" ∷ codes "idle" ∷ []) s.state
    then true
    else text_eq s.state (codes "account_disabled")
      && (not (is_empty (trim_space s.pattern) || not (s.window_hours == 0))
          && compiles (codes "(?i)" ++ s.pattern))

abbrev pub lower_state : HealthSignal → HealthSignal
lower_state s = record s { state = to_lower (trim_space s.state) }

unfoldable pub normalize_signals : (Text → Bool) → List HealthSignal → List HealthSignal
normalize_signals compiles signals = keep (valid_signal compiles) (map lower_state signals)

abbrev is_hex : ℕ → Bool
is_hex c = (leb b'0' c && leb c b'9') || (leb b'a' c && leb c b'f')

unfoldable pub has_digest_pin : Text → Bool
has_digest_pin image =
    let digest = (split_image_ref (trim_space image)).digest in
    let hex = trim_prefix digest (codes "sha256:") in
    has_prefix digest (codes "sha256:") && (length hex == 64 && not (any (λ c. not (is_hex c)) hex))

unfoldable pub image_outdated : Text → Text → Bool
image_outdated deployed catalog_image =
    let d = split_image_ref deployed in
    let c = split_image_ref catalog_image in
    if is_empty deployed || is_empty catalog_image
    then false
    else if not (text_eq d.repo c.repo)
    then true
    else not (is_empty c.digest) && (not (is_empty d.digest) && not (text_eq c.digest d.digest))

-- ASCII digits alone, and at least one.
abbrev pub all_digits : Text → Bool
all_digits s = not (is_empty s) && not (any (λ c. not (leb b'0' c && leb c b'9')) s)

abbrev pub ordered_ports : Option ℤ → Option ℤ → Bool
ordered_ports (some lo) (some hi) = leb_ℤ (pos 1) lo && (leb_ℤ lo hi && leb_ℤ hi (pos 65535))
ordered_ports _ _ = false

-- The two ends of a range, where there is a colon.
unfoldable pub is_range : Text → Option Text → Bool
is_range start none = false
is_range start (some end_of) =
    (all_digits start && all_digits end_of) && ordered_ports (atoi start) (atoi end_of)

unfoldable pub is_port_range : Text → Bool
is_port_range value = let parts = cut_at b':' value in is_range parts.0 parts.1

-- `compiled` is the test of a whole value by a pattern, where the pattern is valid.
unfoldable pub accepts_value : (Text → Option (Text → Bool)) → EnvVar → Text → Bool
accepts_value compiled v value =
    is_empty value
    || ((is_empty v.pattern || or_else (compiled v.pattern) (λ s. false) value)
        && (not v.port_range || is_port_range value))

-- Opens the definitions of this module.
unfoldable pub listing_defs : Unit {0}
unfolding catalog_less slug_map new_catalog with_custom list_all is_retired list_visible find_slug
    get valid_signal normalize_signals has_digest_pin image_outdated is_range is_port_range
    accepts_value
listing_defs = tt
