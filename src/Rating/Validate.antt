-- ===== src/Rating/Validate.antt =====
-- validateRating of internal/catalog/rating.go: every problem with a rating block. The code sorts the
-- problems by their text; here they stand in the order in which they are found.
use cash_pilot_desktop.Base.{
  ℕ, suc, Bool, true, false, ◌&&◌, ◌||◌, not, Option, none, some, List, [], ◌∷◌, ◌++◌, map, Text,
  codes, text_eq, is_empty, has_prefix, trim_space, contains, lookup, if◌then◌else◌, is_some,
  or_else, any, ◌==◌,
}
use cash_pilot_desktop.Catalog.{Service}
use cash_pilot_desktop.Rating.{
  Value, null, text, timestamp, sequence, mapping, Values, no_values, value_then, Fields, no_fields,
  field_then, Readers, RatingRules, verdict_names,
}

pub data Section : Type 0 where
  cons_section pros_section : Section

pub data Problem : Type 0 where
  not_a_mapping bad_reviewed_on no_verdicts bad_notes must_be_poor : Problem
  key_not_allowed missing_verdict unknown_criterion bad_verdict : Text → Problem
  unknown_note bad_note no_con_cites no_pro_cites no_note : Text → Problem
  not_a_list : Section → Problem
  bad_item bad_text bad_item_criterion bad_kind bad_source bad_checked_on : Section → ℕ → Problem

unfoldable pub get_field : Text → Fields → Value
get_field k no_fields = null
get_field k (field_then j v fields) = if text_eq j k then v else get_field k fields

unfoldable pub has_field : Text → Fields → Bool
has_field k no_fields = false
has_field k (field_then j v fields) = text_eq j k || has_field k fields

abbrev pub allowed_keys : List Text
allowed_keys =
    codes "reviewed_on" ∷ codes "verdicts" ∷ codes "notes" ∷ codes "cons" ∷ codes "pros" ∷ []

abbrev pub problem_if : Bool → Problem → List Problem
problem_if true why = why ∷ []
problem_if false why = []

-- The problems that the code appends one after the other.
abbrev pub flatten : List (List Problem) → List Problem
flatten [] = []
flatten (problems ∷ rest) = problems ++ flatten rest

unfoldable pub extra_keys : Fields → List Problem
extra_keys no_fields = []
extra_keys (field_then k v fields) =
    problem_if (not (contains allowed_keys k)) (key_not_allowed k) ++ extra_keys fields

-- The text of a value, where it is one.
abbrev pub text_of : Value → Option Text
text_of (text s) = some s
text_of _ = none

-- `!isStr || strings.TrimSpace(s) == ""`
unfoldable pub is_blank : Value → Bool
is_blank (text s) = is_empty (trim_space s)
is_blank _ = true

-- Python's falsiness.
abbrev pub is_falsy : Value → Bool
is_falsy null = true
is_falsy (text s) = is_empty s
is_falsy (sequence no_values) = true
is_falsy (mapping no_fields) = true
is_falsy _ = false

abbrev pub fields_of : Value → Option Fields
fields_of (mapping fields) = some fields
fields_of _ = none

abbrev pub values_of : Value → Option Values
values_of (sequence values) = some values
values_of _ = none

abbrev pub is_text_in : List Text → Value → Bool
is_text_in names (text s) = contains names s
is_text_in names _ = false

unfoldable pub missing_verdicts : Fields → List Text → List Problem
missing_verdicts verdicts [] = []
missing_verdicts verdicts (k ∷ keys) =
    problem_if (not (has_field k verdicts)) (missing_verdict k) ++ missing_verdicts verdicts keys

unfoldable pub verdict_problems : List Text → Fields → List Problem
verdict_problems keys no_fields = []
verdict_problems keys (field_then k v verdicts) =
    problem_if (not (contains keys k)) (unknown_criterion k)
    ++ (problem_if (not (is_text_in verdict_names v)) (bad_verdict k)
        ++ verdict_problems keys verdicts)

-- The notes as a mapping: a falsy or a bad value has none.
abbrev pub notes_of : Value → Fields
notes_of (mapping notes) = notes
notes_of _ = no_fields

unfoldable pub note_problems : List Text → Fields → List Problem
note_problems keys no_fields = []
note_problems keys (field_then k v notes) =
    (if not (contains keys k) then unknown_note k ∷ [] else problem_if (is_blank v) (bad_note k))
    ++ note_problems keys notes

-- Whether the source is no link: a space inside it counts, one at its ends does not.
unfoldable pub is_no_link : Value → Bool
is_no_link (text s) = not (has_prefix s (codes "https://")) || any (λ c. c == 32) (trim_space s)
is_no_link _ = true

-- What a section of cons or pros cites, where it is a list of mappings.
unfoldable pub tagged : List Text → Values → List Text
tagged keys no_values = []
tagged keys (value_then (mapping item) items) =
    let rest = tagged keys items in
    elim (text_of (get_field (codes "criterion") item)) [
      | none ↦ rest
      | some criterion ↦ if contains keys criterion then criterion ∷ rest else rest
    ]
tagged keys (value_then _ items) = tagged keys items

abbrev pub section_values : Value → Values
section_values (sequence values) = values
section_values _ = no_values

module _ {F : Type 0} (readers : Readers F) (rules : RatingRules F) where
  unfoldable pub iso_date : Value → Text
  iso_date (timestamp date) = date
  iso_date (text s) = readers.parse_date (trim_space s)
  iso_date _ = []

  abbrev pub criterion_keys : List Text
  criterion_keys = map (λ c. c.key) rules.criteria

  -- The kind is published where its title is not empty.
  abbrev pub is_published : Value → Bool
  is_published (text kind) = not (is_empty (or_else (lookup kind rules.kinds) []))
  is_published _ = false

  unfoldable pub item_problems : Section → ℕ → Fields → List Problem
  item_problems section i item =
      problem_if (is_blank (get_field (codes "text") item)) (bad_text section i)
      ++ (problem_if (not (is_text_in criterion_keys (get_field (codes "criterion") item)))
            (bad_item_criterion section i)
          ++ (problem_if (not (is_published (get_field (codes "kind") item))) (bad_kind section i)
              ++ (problem_if (is_no_link (get_field (codes "source") item)) (bad_source section i)
                  ++ problem_if (is_empty (iso_date (get_field (codes "checked_on") item)))
                      (bad_checked_on section i))))

  unfoldable pub items_problems : Section → ℕ → Values → List Problem
  items_problems section i no_values = []
  items_problems section i (value_then (mapping item) items) =
      item_problems section i item ++ items_problems section (suc i) items
  items_problems section i (value_then _ items) =
      bad_item section i ∷ items_problems section (suc i) items

  unfoldable pub section_problems : Section → Value → List Problem
  section_problems section v = if is_falsy v then [] else elim (values_of v) [
    | none ↦ not_a_list section ∷ []
    | some items ↦ items_problems section 0 items
  ]

  -- What a verdict asks for: a con, a pro or a note.
  unfoldable pub evidence_problem : (cons pros : List Text) → Fields → Text → Value → List Problem
  evidence_problem cons pros notes k (text v) =
      if text_eq v (codes "fair") || text_eq v (codes "poor")
      then problem_if (not (contains cons k)) (no_con_cites k)
      else if text_eq v (codes "good")
      then problem_if (not (contains pros k)) (no_pro_cites k)
      else if text_eq v (codes "unknown")
      then problem_if (not (has_field k notes)) (no_note k)
      else []
  evidence_problem cons pros notes k _ = []

  unfoldable pub evidence_problems : (cons pros : List Text) → Fields → Fields → List Problem
  evidence_problems cons pros notes no_fields = []
  evidence_problems cons pros notes (field_then k v verdicts) =
      (if contains criterion_keys k then evidence_problem cons pros notes k v else [])
      ++ evidence_problems cons pros notes verdicts

  abbrev pub cited : Value → List Text
  cited v = tagged criterion_keys (section_values v)

  -- The problems of a block, by the part of the code that finds them.
  unfoldable pub problem_groups : Service → Fields → List (List Problem)
  problem_groups svc rating =
      let verdicts_value = get_field (codes "verdicts") rating in
      let verdicts = or_else (fields_of verdicts_value) no_fields in
      let notes_value = get_field (codes "notes") rating in
      let notes = notes_of notes_value in
      let cons = get_field (codes "cons") rating in
      let pros = get_field (codes "pros") rating in
      extra_keys rating
      ∷ problem_if (is_empty (iso_date (get_field (codes "reviewed_on") rating))) bad_reviewed_on
      ∷ problem_if (not (is_some (fields_of verdicts_value))) no_verdicts
      ∷ missing_verdicts verdicts criterion_keys
      ∷ verdict_problems criterion_keys verdicts
      ∷ problem_if (not (is_falsy notes_value) && not (is_some (fields_of notes_value))) bad_notes
      ∷ note_problems criterion_keys notes
      ∷ section_problems cons_section cons
      ∷ section_problems pros_section pros
      ∷ evidence_problems (cited cons) (cited pros) notes verdicts
      ∷ problem_if
          (svc.requirements.container_prohibited
            && not (is_text_in (codes "poor" ∷ []) (get_field (codes "terms_fit") verdicts)))
          must_be_poor
      ∷ []

  unfoldable pub block_problems : Service → Fields → List Problem
  block_problems svc rating = flatten (problem_groups svc rating)

  unfoldable pub validate_rating : Value → Service → List Problem
  validate_rating (mapping rating) svc = block_problems svc rating
  validate_rating _ svc = not_a_mapping ∷ []

-- Opens the definitions of this module.
unfoldable pub validate_defs : Unit {0}
unfolding get_field has_field extra_keys is_blank missing_verdicts verdict_problems note_problems
    is_no_link tagged iso_date item_problems items_problems section_problems evidence_problem
    evidence_problems problem_groups block_problems validate_rating
validate_defs = tt
