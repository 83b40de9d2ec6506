-- ===== src/Rating/Allowed.antt =====
-- About validateRating and GradeService of internal/catalog/rating.go: which providers are not rated.
use cash_pilot_desktop.Base.{
  true, false, not, Option, none, some, List, [], ◌∷◌, ◌++◌, ◌≡◌, refl, sym, ap, ◌∙◌, inl, inr,
  Text, text_eq, text_eq_iff, contains, Bool-cases, true_not_false,
}
use cash_pilot_desktop.Catalog.{Service}
use cash_pilot_desktop.Rating.{mapping, Fields, no_fields, field_then, Readers, RatingRules}
use cash_pilot_desktop.Rating.Check.{is_nil}
use cash_pilot_desktop.Rating.Validate.{
  Problem, allowed_keys, has_field, problem_if, extra_keys, problem_groups, block_problems,
  validate_rating,
}
use cash_pilot_desktop.Rating.Grade.{decoded, grade_service, grade_decoded, grade_block}

is_nil-append_false : (xs ys : List Problem) → is_nil xs ≡ false → is_nil (xs ++ ys) ≡ false
is_nil-append_false [] ys h = elim (true_not_false h) [ ]
is_nil-append_false (x ∷ xs) ys h = refl

is_nil-append_right : (xs ys : List Problem) → is_nil ys ≡ false → is_nil (xs ++ ys) ≡ false
is_nil-append_right [] ys h = h
is_nil-append_right (x ∷ xs) ys h = refl

is_nil-extra_keys :
    (k : Text) (rating : Fields)
    → has_field k rating ≡ true
    → contains allowed_keys k ≡ false
    → is_nil (extra_keys rating) ≡ false
unfolding has_field extra_keys
is_nil-extra_keys k no_fields h c = elim (true_not_false (sym h)) [ ]
is_nil-extra_keys k (field_then j v rating) h c = elim (Bool-cases (text_eq j k)) [
  | inl e ↦
      let bad : contains allowed_keys j ≡ false =
        ap (contains allowed_keys) ((text_eq_iff j k).0 e) ∙ c in
      rw bad refl
  | inr e ↦
      is_nil-append_right (problem_if (not (contains allowed_keys j)) (Problem.key_not_allowed j))
        (extra_keys rating) (is_nil-extra_keys k rating (sym (rw e refl) ∙ h) c)
]

module _ {F : Type 0} (readers : Readers F) where
  -- A provider whose block has a key other than the date, the verdicts, the notes, the cons and the
  -- pros is not rated, whatever the rules are: a grade that is typed gives none.
  pub grade_service_typed :
      (rules : Option (RatingRules F)) (svc : Service) (rating : Fields) (k : Text)
      → has_field k rating ≡ true
      → contains allowed_keys k ≡ false
      → grade_service readers rules svc (decoded (mapping rating)) ≡ none
  unfolding grade_service grade_decoded grade_block validate_rating block_problems problem_groups
  grade_service_typed none svc rating k h c = refl
  grade_service_typed (some rules) svc rating k h c = elim (Bool-cases svc.custom) [
    | inl u ↦ rw u refl
    | inr u ↦
        rw (u, is_nil-append_false (extra_keys rating) _ (is_nil-extra_keys k rating h c)) refl
  ]
