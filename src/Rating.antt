-- ===== src/Rating.antt =====
-- internal/catalog/rating.go: the grade of a provider. Reading YAML is not modelled: a rating block is
-- a value as the decoder gives it. A date is read by a parameter, and so is the share of a score, a
-- 64-bit float. Points are added without bound.
mod Check
mod Validate
mod Grade
pub mod Worst
pub mod Allowed
pub mod Evidence
mod Tests
use cash_pilot_desktop.Base.{
  ℕ, suc, ℤ, pos, leb_ℤ, Bool, true, false, ◌&&◌, ◌||◌, not, Option, none, some, List, [], ◌∷◌, map,
  Text, codes, text_eq, is_empty, contains, Map, lookup, if◌then◌else◌, any, is_some, Outcome, done,
  refused,
}

-- A value of YAML: `timestamp` holds the date as it is formatted, `scalar` is any other scalar.
mutual
  pub data Value : Type 0 where
    null scalar : Value
    text timestamp : Text → Value
    sequence : Values → Value
    mapping : Fields → Value

  pub data Values : Type 0 where
    no_values : Values
    value_then : Value → Values → Values

  pub data Fields : Type 0 where
    no_fields : Fields
    field_then : Text → Value → Fields → Fields

-- What is read of a float64 and of the package `time`.
pub record Readers (F : Type 0) : Type 0 where
  -- `a >= b`
  pub ge : F → F → Bool
  -- `100 * score / maximum`, where a maximum of 0 gives 0.
  pub share : (score maximum : ℕ) → F
  -- The share rounded to a tenth.
  pub rounded : F → F
  -- The date of a text in the form 2006-01-02, or nothing.
  pub parse_date : Text → Text

pub record Criterion : Type 0 where
  pub key : Text
  pub title : Text

pub record Band (F : Type 0) : Type 0 where
  pub grade : Text
  pub min_percent : F

pub record Ceiling : Type 0 where
  pub key : Text
  pub max_grade : Text
  pub reason : Text
  pub min_unknown : ℤ

pub record RatingRules (F : Type 0) : Type 0 where
  pub criteria : List Criterion
  pub points : Map ℤ
  pub bands : List (Band F)
  pub caps : List Ceiling
  pub kinds : Map Text

-- Best first.
abbrev pub grade_order : List Text
grade_order = codes "A" ∷ codes "B" ∷ codes "C" ∷ codes "D" ∷ codes "F" ∷ []

unfoldable pub index_in : List Text → Text → Option ℕ
index_in [] g = none
index_in (v ∷ order) g =
    let rest = index_in order g in
    if text_eq v g then some 0 else elim rest [ none ↦ none | some i ↦ some (suc i) ]

-- `gradeIndex`, with none for -1.
unfoldable pub grade_index : Text → Option ℕ
grade_index g = index_in grade_order g

abbrev pub verdict_names : List Text
verdict_names = codes "good" ∷ codes "fair" ∷ codes "poor" ∷ codes "unknown" ∷ []

abbrev pub known_caps : List Text
known_caps =
    codes "container_prohibited" ∷ codes "poor_payout_or_safety" ∷ codes "thin_evidence" ∷ []

pub data RulesError : Type 0 where
  no_criteria no_bands no_kinds : RulesError
  bad_criterion bad_band band_out_of_order unknown_cap bad_cap_grade no_min_unknown :
      Text → RulesError
  negative_points missing_points : Text → RulesError
