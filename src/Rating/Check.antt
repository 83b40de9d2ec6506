-- ===== src/Rating/Check.antt =====
-- ParseRatingRules of internal/catalog/rating.go, after the decoder.
use cash_pilot_desktop.Base.{
  ℤ, pos, leb_ℤ, is_positive, Bool, true, false, ◌&&◌, ◌||◌, not, Option, none, some, List, [], ◌∷◌,
  Text, codes, text_eq, is_empty, contains, Map, lookup, is_some,
}
use cash_pilot_desktop.Rating.{
  Readers, Criterion, Band, Ceiling, RatingRules, grade_index, verdict_names, known_caps,
  RulesError, no_criteria, no_bands, no_kinds, bad_criterion, bad_band, band_out_of_order,
  unknown_cap, bad_cap_grade, no_min_unknown, negative_points, missing_points,
}

-- The first problem of two checks.
abbrev pub first_of : Option RulesError → Option RulesError → Option RulesError
first_of none rest = rest
first_of (some why) rest = some why

abbrev pub is_nil {ℓ} : {A : Type ℓ} → List A → Bool
is_nil [] = true
is_nil (_ ∷ _) = false

abbrev pub fail_if : Bool → RulesError → Option RulesError
fail_if true why = some why
fail_if false why = none

unfoldable pub check_criteria : List Text → List Criterion → Option RulesError
check_criteria seen [] = none
check_criteria seen (c ∷ criteria) =
    first_of
      (fail_if (is_empty c.key || (is_empty c.title || contains seen c.key)) (bad_criterion c.key))
      (check_criteria (c.key ∷ seen) criteria)

unfoldable pub check_cap : Ceiling → Option RulesError
check_cap c = first_of (fail_if (not (contains known_caps c.key)) (unknown_cap c.key)) (
    first_of (fail_if (not (is_some (grade_index c.max_grade))) (bad_cap_grade c.key)) (
      fail_if (text_eq c.key (codes "thin_evidence") && not (is_positive c.min_unknown))
        (no_min_unknown c.key)))

unfoldable pub check_caps : List Ceiling → Option RulesError
check_caps [] = none
check_caps (c ∷ caps) = first_of (check_cap c) (check_caps caps)

unfoldable pub check_points : Map ℤ → Option RulesError
check_points [] = none
check_points ((v, p) ∷ points) =
    first_of (fail_if (not (leb_ℤ (pos 0) p)) (negative_points v)) (check_points points)

unfoldable pub check_verdicts : Map ℤ → List Text → Option RulesError
check_verdicts points [] = none
check_verdicts points (v ∷ verdicts) =
    first_of (fail_if (not (is_some (lookup v points))) (missing_points v))
      (check_verdicts points verdicts)

module _ {F : Type 0} (readers : Readers F) where
  -- Whether a band stands after one that it should stand before.
  abbrev pub is_out_of_order : Option (Band F) → Band F → Bool
  is_out_of_order none b = false
  is_out_of_order (some before) b = readers.ge b.min_percent before.min_percent

  unfoldable pub check_bands : Option (Band F) → List (Band F) → Option RulesError
  check_bands before [] = none
  check_bands before (b ∷ bands) =
      first_of (fail_if (not (is_some (grade_index b.grade))) (bad_band b.grade)) (
        first_of (fail_if (is_out_of_order before b) (band_out_of_order b.grade))
          (check_bands (some b) bands))

  unfoldable pub check_rules : RatingRules F → Option RulesError
  check_rules rules = first_of (fail_if (is_nil rules.criteria) no_criteria) (
      first_of (check_criteria [] rules.criteria) (
        first_of (fail_if (is_nil rules.bands) no_bands) (
          first_of (check_bands none rules.bands) (
            first_of (check_caps rules.caps) (
              first_of (check_points rules.points) (
                first_of (check_verdicts rules.points verdict_names)
                  (fail_if (is_nil rules.kinds) no_kinds)))))))

-- Opens the definitions of this module.
unfoldable pub check_defs : Unit {0}
unfolding check_criteria check_cap check_caps check_points check_verdicts check_bands check_rules
check_defs = tt
