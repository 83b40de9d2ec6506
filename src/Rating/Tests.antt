-- ===== src/Rating/Tests.antt =====
-- A method with two criteria, and a provider that is good at one and poor at the other.
use cash_pilot_desktop.Base.{
  ℕ, ◌*◌, ◌/◌, max, true, false, none, some, [], ◌∷◌, ◌≡◌, refl, Text, codes, pos, leb, texts,
}
use cash_pilot_desktop.Catalog.{no_service}
use cash_pilot_desktop.Rating.{
  Value, text, sequence, mapping, no_values, value_then, Fields, no_fields, field_then, Readers,
  RatingRules, grade_index, index_in,
}
use cash_pilot_desktop.Rating.Check.{check_rules, check_defs}
use cash_pilot_desktop.Rating.Validate.{validate_rating, validate_defs, get_field}
use cash_pilot_desktop.Rating.Grade.{decoded, rank, graded, grade_service, grade_defs}
use cash_pilot_desktop.Rating.Worst.{worst_ceiling, graded-rank}
use cash_pilot_desktop.Rating.Allowed.{grade_service_typed}
use cash_pilot_desktop.Rating.Evidence.{HasField, has_evidence, grade_service_rests}

abbrev percents : Readers ℕ
percents = record {
  ge = λ a b. leb b a;
  share = λ score maximum. 100 * score / maximum;
  rounded = λ p. p;
  parse_date = λ s. s;
}

abbrev method : RatingRules ℕ
method = record {
  criteria =
      record { key = codes "payout_record"; title = codes "Payouts" }
      ∷ record { key = codes "terms_fit"; title = codes "Terms" }
      ∷ [];
  points =
      (codes "good", pos 2)
      ∷ (codes "fair", pos 1)
      ∷ (codes "poor", pos 0)
      ∷ (codes "unknown", pos 0)
      ∷ [];
  bands =
      record { grade = codes "A"; min_percent = 90 }
      ∷ record { grade = codes "C"; min_percent = 40 }
      ∷ [];
  caps =
      record {
        key = codes "poor_payout_or_safety";
        max_grade = codes "D";
        reason = codes "poor";
        min_unknown = pos 0;
      }
      ∷ [];
  kinds = (codes "review", codes "Review") ∷ [];
}

method_is_accepted : check_rules percents method ≡ none
unfolding check_defs texts grade_index index_in
method_is_accepted = refl

abbrev cite : Text → Value
cite criterion = sequence (
    value_then
      (mapping (
        field_then (codes "text") (text (codes "seen")) (
          field_then (codes "criterion") (text criterion) (
            field_then (codes "kind") (text (codes "review")) (
              field_then (codes "source") (text (codes "https://example.org"))
                (field_then (codes "checked_on") (text (codes "2026-01-01")) no_fields))))))
      no_values)

abbrev reviewed : Fields
reviewed = field_then (codes "reviewed_on") (text (codes "2026-01-01")) (
    field_then (codes "verdicts")
      (mapping (
        field_then (codes "payout_record") (text (codes "poor"))
          (field_then (codes "terms_fit") (text (codes "good")) no_fields)))
      (field_then (codes "cons") (cite (codes "payout_record"))
        (field_then (codes "pros") (cite (codes "terms_fit")) no_fields)))

is_valid : validate_rating percents method (mapping reviewed) no_service ≡ []
unfolding validate_defs texts
is_valid = refl

graded-rank_example :
    rank (graded percents method reviewed no_service).grade
    ≡ max
        (rank (graded percents method reviewed no_service).band_grade)
        (worst_ceiling false (graded percents method reviewed no_service).verdicts method.caps)
graded-rank_example = graded-rank percents method reviewed no_service

is_a_d : (graded percents method reviewed no_service).grade ≡ codes "D"
unfolding grade_defs texts get_field grade_index index_in
is_a_d = refl

grade_service_typed_example :
    grade_service percents
      (some method)
      no_service
      (decoded (mapping (field_then (codes "grade") (text (codes "A")) reviewed)))
    ≡ none
unfolding validate_defs texts
grade_service_typed_example =
    grade_service_typed percents (some method) no_service
      (field_then (codes "grade") (text (codes "A")) reviewed) (codes "grade") refl refl

grade_service_rests_example :
    has_evidence percents method reviewed (codes "payout_record") (codes "poor") ≡ true
unfolding validate_defs grade_defs texts
grade_service_rests_example =
    grade_service_rests percents method no_service reviewed
      (graded percents method reviewed no_service) (codes "payout_record") (codes "poor") refl
      HasField.here refl
