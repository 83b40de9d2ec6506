-- ===== src/Rating/Worst.antt =====
-- About GradeService of internal/catalog/rating.go: the grade of a provider that is rated.
use cash_pilot_desktop.Base.{
  ℕ, ◌≤◌, ◌<◌, max, Bool, true, false, List, [], ◌∷◌, ◌++◌, ◌≡◌, ◌∙◌, inl, inr, Text, if◌then◌else◌,
  ltb, Bool-cases, arith,
}
use cash_pilot_desktop.Catalog.{Service}
use cash_pilot_desktop.Rating.{Readers, Fields, RatingRules, Ceiling}
use cash_pilot_desktop.Rating.Grade.{RatingVerdict, RatingCap, rank, holds, cap_loop, graded}

-- The worst grade that a ceiling which holds allows; 0 where none holds.
abbrev pub worst_ceiling : Bool → List RatingVerdict → List Ceiling → ℕ
worst_ceiling prohibited verdicts [] = 0
worst_ceiling prohibited verdicts (c ∷ caps) =
    let rest = worst_ceiling prohibited verdicts caps in
    if holds prohibited verdicts c then max (rank c.max_grade) rest else rest

below : (a b : ℕ) → ltb a b ≡ true → a < b
below a b h = ground (arith, h)

not_below : (a b : ℕ) → ltb a b ≡ false → b ≤ a
not_below a b h = ground (arith, h)

lowered_le :
    (low : ℕ) (grade cap : Text)
    → low ≤ rank grade
    → low ≤ rank (if ltb (rank grade) (rank cap) then cap else grade)
lowered_le low grade cap h = elim (Bool-cases (ltb (rank grade) (rank cap))) [
  | inl l ↦ rw l (omega (arith, h, below (rank grade) (rank cap) l))
  | inr l ↦ rw l h
]

max_of_lowered :
    (grade cap : Text) (rest : ℕ)
    → max (rank (if ltb (rank grade) (rank cap) then cap else grade)) rest
      ≡ max (rank grade) (max (rank cap) rest)
max_of_lowered grade cap rest = elim (Bool-cases (ltb (rank grade) (rank cap))) [
  | inl l ↦ rw l (omega (arith, below (rank grade) (rank cap) l))
  | inr l ↦ rw l (omega (arith, not_below (rank grade) (rank cap) l))
]

cap_loop-rank :
    (prohibited : Bool) (verdicts : List RatingVerdict) (band grade : Text) (kept : List RatingCap)
    (caps : List Ceiling)
    → rank band ≤ rank grade
    → rank (cap_loop prohibited verdicts band grade kept caps).0
      ≡ max (rank grade) (worst_ceiling prohibited verdicts caps)
unfolding cap_loop
cap_loop-rank prohibited verdicts band grade kept [] h = omega arith
cap_loop-rank prohibited verdicts band grade kept (c ∷ caps) h =
    let cap : RatingCap = record { key = c.key; max_grade = c.max_grade; reason = c.reason } in
    let lowered = if ltb (rank grade) (rank c.max_grade) then c.max_grade else grade in
    let rest = worst_ceiling prohibited verdicts caps in
    elim (Bool-cases (holds prohibited verdicts c)) [
      | inr n ↦ rw n (cap_loop-rank prohibited verdicts band grade kept caps h)
      | inl n ↦ elim (Bool-cases (ltb (rank band) (rank c.max_grade))) [
        | inl l ↦
            rw (n, l)
              (cap_loop-rank prohibited verdicts band lowered (kept ++ cap ∷ []) caps
                  (lowered_le (rank band) grade c.max_grade h)
                ∙ max_of_lowered grade c.max_grade rest)
        | inr l ↦
            rw (n, l)
              (cap_loop-rank prohibited verdicts band grade kept caps h
                ∙ omega (arith, h, not_below (rank band) (rank c.max_grade) l))
      ]
    ]

-- The grade is the worst of the one that the score earns and those that the ceilings which hold
-- allow: no ceiling is passed by, and no other thing lowers it.
pub graded-rank :
    {F : Type 0}
    → (readers : Readers F) (rules : RatingRules F) (rating : Fields) (svc : Service)
    → let result = graded readers rules rating svc in
      rank result.grade
      ≡ max
          (rank result.band_grade)
          (worst_ceiling svc.requirements.container_prohibited result.verdicts rules.caps)
unfolding graded
graded-rank readers rules rating svc =
    let result = graded readers rules rating svc in
    cap_loop-rank svc.requirements.container_prohibited result.verdicts result.band_grade
      result.band_grade [] rules.caps (omega arith)
