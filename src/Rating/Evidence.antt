-- ===== src/Rating/Evidence.antt =====
-- About validateRating and GradeService of internal/catalog/rating.go: what a verdict of a rated provider rests on.
use cash_pilot_desktop.Base.{
  Bool, true, ◌||◌, Option, none, some, List, [], ◌∷◌, ◌++◌, ◌≡◌, refl, sym, ◌∙◌, inl, inr, Text,
  codes, text_eq, contains, if◌then◌else◌, All, Bool-cases, arith, true_not_false,
}
use cash_pilot_desktop.Catalog.{Service}
use cash_pilot_desktop.Rating.{Value, text, mapping, Fields, field_then, Readers, RatingRules}
use cash_pilot_desktop.Rating.Check.{is_nil}
use cash_pilot_desktop.Rating.Validate.{
  Problem, flatten, get_field, has_field, notes_of, criterion_keys, cited, evidence_problem,
  evidence_problems, problem_groups, block_problems, validate_rating,
}
use cash_pilot_desktop.Rating.Grade.{
  RatingResult, decoded, fields_or_none, grade_service, grade_decoded, grade_block,
}

-- A field with its value.
pub data HasField (k : Text) (v : Value) : Fields → Type 0 where
  here : {fields : Fields} → HasField k v (field_then k v fields)
  there :
      {fields : Fields} (j : Text) (w : Value)
      → HasField k v fields
      → HasField k v (field_then j w fields)

nil_parts :
    (xs ys : List Problem) → is_nil (xs ++ ys) ≡ true → (is_nil xs ≡ true) × (is_nil ys ≡ true)
nil_parts [] ys h = (refl, h)
nil_parts (x ∷ xs) ys h = elim (true_not_false (sym h)) [ ]

All-nil :
    (groups : List (List Problem))
    → is_nil (flatten groups) ≡ true
    → All (λ problems. is_nil problems ≡ true) groups
All-nil [] h = tt
All-nil (problems ∷ groups) h =
    let parts = nil_parts problems (flatten groups) h in (parts.0, All-nil groups parts.1)

module _ {F : Type 0} (readers : Readers F) (rules : RatingRules F) where
  -- A con for a fair or poor verdict, a pro for a good one, and a note for an unknown one.
  abbrev pub has_evidence : Fields → Text → Text → Bool
  has_evidence rating k v =
      if text_eq v (codes "fair") || text_eq v (codes "poor")
      then contains (cited readers rules (get_field (codes "cons") rating)) k
      else if text_eq v (codes "good")
      then contains (cited readers rules (get_field (codes "pros") rating)) k
      else if text_eq v (codes "unknown")
      then has_field k (notes_of (get_field (codes "notes") rating))
      else true

  evidence_of_none :
      (rating : Fields) (k v : Text)
      → is_nil (
          evidence_problem readers rules
            (cited readers rules (get_field (codes "cons") rating))
            (cited readers rules (get_field (codes "pros") rating))
            (notes_of (get_field (codes "notes") rating))
            k
            (text v))
        ≡ true
      → has_evidence rating k v ≡ true
  unfolding evidence_problem
  evidence_of_none rating k v h = ground (arith, h)

  no_problem_at :
      (cons pros : List Text) (notes : Fields) (k : Text) (v : Value) (verdicts : Fields)
      → HasField k v verdicts
      → contains (criterion_keys readers rules) k ≡ true
      → is_nil (evidence_problems readers rules cons pros notes verdicts) ≡ true
      → is_nil (evidence_problem readers rules cons pros notes k v) ≡ true
  unfolding evidence_problems
  no_problem_at cons pros notes k v _ (HasField.here {fields = fields}) c h =
      (nil_parts (evidence_problem readers rules cons pros notes k v)
        (evidence_problems readers rules cons pros notes fields) (sym (rw c refl) ∙ h)).0
  no_problem_at cons pros notes k v _ (HasField.there {fields = fields} j w at) c h =
      no_problem_at cons pros notes k v fields at c
        (nil_parts _ (evidence_problems readers rules cons pros notes fields) h).1

  -- The evidence is tested between the pros and the last problem.
  evidence_checked :
      (svc : Service) (rating : Fields)
      → is_nil (block_problems readers rules svc rating) ≡ true
      → is_nil (
          evidence_problems readers rules
            (cited readers rules (get_field (codes "cons") rating))
            (cited readers rules (get_field (codes "pros") rating))
            (notes_of (get_field (codes "notes") rating))
            (fields_or_none (get_field (codes "verdicts") rating)))
        ≡ true
  unfolding block_problems problem_groups
  evidence_checked svc rating h =
      (All-nil (problem_groups readers rules svc rating) h).1.1.1.1.1.1.1.1.1.0

  unrated : (result : RatingResult F) → ◌≡◌ {A = Option (RatingResult F)} none (some result) → ⊥
  unrated result e = cc

  -- When a provider is rated, each verdict on a published criterion rests on what its block cites: a
  -- fair or poor one on a con for that criterion, a good one on a pro, and an unknown one on a note.
  pub grade_service_rests :
      (svc : Service) (rating : Fields) (result : RatingResult F) (k v : Text)
      → grade_service readers (some rules) svc (decoded (mapping rating)) ≡ some result
      → HasField k (text v) (fields_or_none (get_field (codes "verdicts") rating))
      → contains (criterion_keys readers rules) k ≡ true
      → has_evidence rating k v ≡ true
  unfolding grade_service grade_decoded grade_block validate_rating block_problems problem_groups
  grade_service_rests svc rating result k v e at c = elim (Bool-cases svc.custom) [
    | inl u ↦ elim (unrated result (sym (rw u refl) ∙ e)) [ ]
    | inr u ↦ elim (Bool-cases (is_nil (block_problems readers rules svc rating))) [
      | inr p ↦ elim (unrated result (sym (rw (u, p) refl) ∙ e)) [ ]
      | inl p ↦ evidence_of_none rating k v (
          no_problem_at (cited readers rules (get_field (codes "cons") rating))
            (cited readers rules (get_field (codes "pros") rating))
            (notes_of (get_field (codes "notes") rating)) k (text v)
            (fields_or_none (get_field (codes "verdicts") rating)) at c
            (evidence_checked svc rating p))
    ]
  ]
