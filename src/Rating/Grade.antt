-- ===== src/Rating/Grade.antt =====
-- GradeService of internal/catalog/rating.go, and applyRatings for one service.
use cash_pilot_desktop.Base.{
  ℕ, zero, suc, ◌+◌, ◌*◌, ℤ, pos, negsuc, pos_part, max, Bool, true, ◌&&◌, ◌||◌, Option, none, some,
  List, [], ◌∷◌, ◌++◌, map, Text, codes, text_eq, is_empty, trim_space, Map, lookup, if◌then◌else◌,
  or_else, ltb, leb, length, take,
}
use cash_pilot_desktop.Catalog.{Service}
use cash_pilot_desktop.Rating.{
  Value, mapping, Values, no_values, value_then, Fields, no_fields, field_then, Readers, Criterion,
  Band, Ceiling, RatingRules, grade_index,
}
use cash_pilot_desktop.Rating.Check.{check_rules, is_nil}
use cash_pilot_desktop.Rating.Validate.{
  get_field, text_of, fields_of, section_values, iso_date, validate_rating,
}

pub record RatingItem : Type 0 where
  pub text : Text
  pub criterion : Text
  pub kind : Text
  pub source : Text
  pub checked_on : Text

pub record RatingVerdict : Type 0 where
  pub key : Text
  pub title : Text
  pub verdict : Text

pub record RatingCap : Type 0 where
  pub key : Text
  pub max_grade : Text
  pub reason : Text

-- The summary of a rated service, by what it is printed from.
pub record Summary : Type 0 where
  pub grade : Text
  pub score : ℕ
  pub maximum : ℕ
  -- The unknown verdicts among the criteria, where the evidence is thin.
  pub unchecked : Option (ℕ × ℕ)

pub record RatingResult (F : Type 0) : Type 0 where
  pub grade : Text
  pub band_grade : Text
  pub score : ℕ
  pub maximum : ℕ
  pub percent : F
  pub caps : List RatingCap
  pub unknown_count : ℕ
  pub thin_evidence : Bool
  pub reviewed_on : Text
  pub verdicts : List RatingVerdict
  pub notes : Map Text
  pub cons : List RatingItem
  pub pros : List RatingItem
  pub top_cons : List RatingItem
  pub summary : Summary

-- A service's block: it has none, it cannot be decoded, or it is a value.
pub data Block : Type 0 where
  no_block undecodable : Block
  decoded : Value → Block

-- The index that orders the grades: a later one is worse. -1, for no grade, is before all.
unfoldable pub rank : Text → ℕ
rank g = elim (grade_index g) [ none ↦ zero | some i ↦ suc i ]

unfoldable pub verdict_in : Fields → Text → Text
verdict_in raw key =
    let v = or_else (text_of (get_field key raw)) [] in if is_empty v then codes "unknown" else v

unfoldable pub verdicts_of : Fields → List Criterion → List RatingVerdict
verdicts_of raw criteria =
    map (λ c. record { key = c.key; title = c.title; verdict = verdict_in raw c.key }) criteria

unfoldable pub best_points : Map ℤ → ℕ
best_points [] = 0
best_points ((v, p) ∷ points) = max (pos_part p) (best_points points)

-- The points are not negative in rules that were accepted.
unfoldable pub score_of : Map ℤ → List RatingVerdict → ℕ
score_of points [] = 0
score_of points (v ∷ verdicts) =
    pos_part (or_else (lookup v.verdict points) (pos 0)) + score_of points verdicts

unfoldable pub unknowns_of : List RatingVerdict → ℕ
unknowns_of [] = 0
unknowns_of (v ∷ verdicts) =
    let rest = unknowns_of verdicts in
    if text_eq v.verdict (codes "unknown") then suc rest else rest

-- The verdict of a criterion in `byKey`, where a missing one is the empty text.
unfoldable pub verdict_for : Text → List RatingVerdict → Text
verdict_for key [] = []
verdict_for key (v ∷ verdicts) =
    let rest = verdict_for key verdicts in if text_eq v.key key then v.verdict else rest

abbrev pub last_grade : Text
last_grade = codes "F"

-- `unknowns >= c.MinUnknown`
abbrev pub at_least : ℕ → ℤ → Bool
at_least n (pos m) = leb m n
at_least n (negsuc m) = true

unfoldable pub thin_limit : ℕ → List Ceiling → ℤ
thin_limit criteria [] = pos (suc criteria)
thin_limit criteria (c ∷ caps) =
    let rest = thin_limit criteria caps in
    if text_eq c.key (codes "thin_evidence") then c.min_unknown else rest

abbrev pub is_poor : Text → Bool
is_poor v = text_eq v (codes "poor")

-- The `switch` on the key of a ceiling.
unfoldable pub holds : Bool → List RatingVerdict → Ceiling → Bool
holds prohibited verdicts c =
    if text_eq c.key (codes "container_prohibited")
    then prohibited
    else if text_eq c.key (codes "poor_payout_or_safety")
    then is_poor (verdict_for (codes "payout_record") verdicts)
      || is_poor (verdict_for (codes "account_safety") verdicts)
    else text_eq c.key (codes "thin_evidence") && at_least (unknowns_of verdicts) c.min_unknown

-- The loop over the ceilings, from the grade so far.
unfoldable pub cap_loop :
    Bool → List RatingVerdict → Text → Text → List RatingCap → List Ceiling → Text × List RatingCap
cap_loop prohibited verdicts band grade kept [] = (grade, kept)
cap_loop prohibited verdicts band grade kept (c ∷ caps) =
    let cap : RatingCap = record { key = c.key; max_grade = c.max_grade; reason = c.reason } in
    let lowered = if ltb (rank grade) (rank c.max_grade) then c.max_grade else grade in
    let applied = cap_loop prohibited verdicts band lowered (kept ++ cap ∷ []) caps in
    let passed = cap_loop prohibited verdicts band grade kept caps in
    if holds prohibited verdicts c && ltb (rank band) (rank c.max_grade) then applied else passed

unfoldable pub note_texts : Fields → Map Text
note_texts no_fields = []
note_texts (field_then k v notes) = (k, or_else (text_of v) []) ∷ note_texts notes

abbrev pub text_field : Text → Fields → Text
text_field k item = or_else (text_of (get_field k item)) []

abbrev pub fields_or_none : Value → Fields
fields_or_none v = or_else (fields_of v) no_fields

module _ {F : Type 0} (readers : Readers F) (rules : RatingRules F) where
  unfoldable pub band_of : F → List (Band F) → Text
  band_of exact [] = last_grade
  band_of exact (b ∷ bands) =
      let rest = band_of exact bands in if readers.ge exact b.min_percent then b.grade else rest

  unfoldable pub item_of : Fields → RatingItem
  item_of item = record {
    text = text_field (codes "text") item;
    criterion = text_field (codes "criterion") item;
    kind = text_field (codes "kind") item;
    source = trim_space (text_field (codes "source") item);
    checked_on = iso_date readers rules (get_field (codes "checked_on") item);
  }

  unfoldable pub rating_items : Values → List RatingItem
  rating_items no_values = []
  rating_items (value_then v items) = item_of (fields_or_none v) ∷ rating_items items

  unfoldable pub graded : Fields → Service → RatingResult F
  graded rating svc =
      let raw = fields_or_none (get_field (codes "verdicts") rating) in
      let verdicts = verdicts_of raw rules.criteria in
      let criteria = length rules.criteria in
      let score = score_of rules.points verdicts in
      let maximum = best_points rules.points * criteria in
      let exact = readers.share score maximum in
      let band = band_of exact rules.bands in
      let result =
        cap_loop svc.requirements.container_prohibited verdicts band band [] rules.caps in
      let unknowns = unknowns_of verdicts in
      let thin = at_least unknowns (thin_limit criteria rules.caps) in
      let cons = rating_items (section_values (get_field (codes "cons") rating)) in
      record {
        grade = result.0;
        band_grade = band;
        score = score;
        maximum = maximum;
        percent = readers.rounded exact;
        caps = result.1;
        unknown_count = unknowns;
        thin_evidence = thin;
        reviewed_on = iso_date readers rules (get_field (codes "reviewed_on") rating);
        verdicts = verdicts;
        notes = note_texts (fields_or_none (get_field (codes "notes") rating));
        cons = cons;
        pros = rating_items (section_values (get_field (codes "pros") rating));
        top_cons = take 3 cons;
        summary = record {
          grade = result.0;
          score = score;
          maximum = maximum;
          unchecked = if thin then some (unknowns, criteria) else none;
        };
      }

  -- A block without a problem; `none` is a service that is not rated.
  unfoldable pub grade_block : Service → Value → Option (RatingResult F)
  grade_block svc (mapping rating) =
      if is_nil (validate_rating readers rules (mapping rating) svc)
      then some (graded rating svc)
      else none
  grade_block svc _ = none

  unfoldable pub grade_decoded : Service → Block → Option (RatingResult F)
  grade_decoded svc no_block = none
  grade_decoded svc undecodable = none
  grade_decoded svc (decoded v) = grade_block svc v

module _ {F : Type 0} (readers : Readers F) where
  unfoldable pub grade_service : Option (RatingRules F) → Service → Block → Option (RatingResult F)
  grade_service none svc block = none
  grade_service (some rules) svc block =
      if svc.custom then none else grade_decoded readers rules svc block

  -- Rules with a problem are no rules.
  unfoldable pub accepted : Option (RatingRules F) → Option (RatingRules F)
  accepted none = none
  accepted (some rules) = elim (check_rules readers rules) [ none ↦ some rules | some why ↦ none ]

  -- `applyRatings`, with the rules file as it is decoded, where it can be.
  unfoldable pub apply_ratings :
      Option (RatingRules F) → List (Service × Block) → List (Option (RatingResult F))
  apply_ratings file services =
      map (λ entry. grade_service (accepted file) entry.0 entry.1) services

-- Opens the definitions of this module.
unfoldable pub grade_defs : Unit {0}
unfolding rank verdict_in verdicts_of best_points score_of unknowns_of verdict_for thin_limit holds
    cap_loop note_texts band_of item_of rating_items graded grade_block grade_decoded grade_service
    accepted apply_ratings
grade_defs = tt
