-- ===== src/Drift/Sets.antt =====
-- About toSet and minus of internal/runtime/container_drift.go: sets of names as lists.
use cash_pilot_desktop.Base.{
  Bool, true, false, ◌&&◌, ◌||◌, not, List, [], ◌∷◌, ◌≡◌, refl, sym, ap, ◌∙◌, inl, inr, Text,
  text_eq, text_eq_iff, text_lt, contains, any, any-sort, keep, Bool-cases, arith, or_true,
  true_not_false,
}
use cash_pilot_desktop.Drift.{to_set, minus}
use cash_pilot_desktop.Drift.Judge.{is_nil}

or_again : (a b : Bool) → (a || (a || b)) ≡ (a || b)
or_again true b = refl
or_again false b = refl

or_other : (a b c : Bool) → (a || c) ≡ c → (a || (b || c)) ≡ (b || c)
or_other a true c h = or_true a
or_other a false c h = h

any_member :
    (test : Text → Bool) (values : List Text) (v : Text)
    → contains values v ≡ true
    → (test v || any test values) ≡ any test values
any_member test [] v h = elim (true_not_false (sym h)) [ ]
any_member test (w ∷ values) v h = elim (Bool-cases (text_eq w v)) [
  | inl e ↦ rw (sym ((text_eq_iff w v).0 e)) (or_again (test w) (any test values))
  | inr e ↦
      or_other (test v) (test w) (any test values) (any_member test values v (sym (rw e refl) ∙ h))
]

pub any-to_set :
    (test : Text → Bool) (values : List Text) → any test (to_set values) ≡ any test values
unfolding to_set
any-to_set test [] = refl
any-to_set test (v ∷ values) = elim (Bool-cases (contains values v)) [
  | inr c ↦ rw (c, any-to_set test values) refl
  | inl c ↦ rw (c, any-to_set test values) (sym (any_member test values v c))
]

-- Every one of the names is among the others.
abbrev pub within : List Text → List Text → Bool
within names others = not (any (λ n. not (contains others n)) names)

not_nil : (names : List Text) → is_nil names ≡ not (any (λ n. true) names)
not_nil [] = refl
not_nil (n ∷ names) = refl

any-keep :
    (test : Text → Bool) (names : List Text) → any (λ n. true) (keep test names) ≡ any test names
any-keep test [] = refl
any-keep test (n ∷ names) = ground (arith, any-keep test names)

pub any-keep_both :
    (test keeps : Text → Bool) (names : List Text)
    → any test (keep keeps names) ≡ any (λ n. keeps n && test n) names
any-keep_both test keeps [] = refl
any-keep_both test keeps (n ∷ names) = ground (arith, any-keep_both test keeps names)

pub is_nil-minus : (a b : List Text) → is_nil (minus a b) ≡ within a b
unfolding minus
is_nil-minus a b =
    not_nil (minus a b)
    ∙ ap not (
        any-sort text_lt (λ n. true) (keep (λ k. not (contains b k)) a)
        ∙ any-keep (λ k. not (contains b k)) a)

pub within-to_set : (names others : List Text) → within (to_set names) others ≡ within names others
within-to_set names others = ap not (any-to_set (λ n. not (contains others n)) names)

pub any_same :
    (test other : Text → Bool) (names : List Text)
    → ((n : Text) → test n ≡ other n)
    → any test names ≡ any other names
any_same test other [] h = refl
any_same test other (n ∷ names) h = rw (h n, any_same test other names h) refl

pub within_set : (names others : List Text) → within names (to_set others) ≡ within names others
within_set names others = ap not (
    any_same (λ n. not (contains (to_set others) n)) (λ n. not (contains others n)) names
      (λ n. ap not (any-to_set (λ v. text_eq v n) others)))

-- What is asked of a set may be asked of the list.
pub missing_nil :
    (names others : List Text) → is_nil (minus (to_set names) (to_set others)) ≡ within names others
missing_nil names others =
    is_nil-minus (to_set names) (to_set others)
    ∙ within-to_set names (to_set others)
    ∙ within_set names others

within_by :
    (names others : List Text)
    → ((n : Text) → contains names n ≡ true → contains others n ≡ true)
    → within names others ≡ true
within_by [] others h = refl
within_by (n ∷ names) others h =
    rw (h n (rw ((text_eq_iff n n).1 refl) refl))
      (within_by names others (λ m c. h m (rw c (or_true (text_eq n m)))))

pub within_self : (names : List Text) → within names names ≡ true
within_self names = within_by names names (λ n c. c)
