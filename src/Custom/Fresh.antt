-- ===== src/Custom/Fresh.antt =====
-- About MakeCustomSlug of internal/services/custom.go: the slug that a new service gets.
use cash_pilot_desktop.Base.{
  ℕ, zero, suc, pos, itoa, itoa_injective, true, false, not, Option, none, some, List, [], ◌∷◌,
  ◌++◌, ◌+◌, ◌≤◌, ◌<◌, ◌^◌, ◌≡◌, refl, sym, ap, ◌∙◌, inl, inr, Text, codes, text_eq, text_eq_iff,
  contains, has_prefix, keep, length, length-append, is_some, Bool-cases, Option-cases, arith,
  true_not_false,
}
use cash_pilot_desktop.Custom.{custom_prefix}
use cash_pilot_desktop.Custom.Slug.{candidate, free_slug, make_custom_slug, slug_base}

-- The taken slugs other than one.
abbrev others : Text → List Text → List Text
others slug taken = keep (λ v. not (text_eq v slug)) taken

contains-others :
    (slug other : Text) (taken : List Text)
    → text_eq slug other ≡ false
    → contains (others slug taken) other ≡ contains taken other
contains-others slug other [] h = refl
contains-others slug other (v ∷ taken) h = ground (
  arith,
  contains-others slug other taken h,
  text_eq_iff v slug,
  text_eq_iff v other,
  text_eq_iff slug other,
)

length-others_le : (slug : Text) (taken : List Text) → length (others slug taken) ≤ length taken
length-others_le slug [] = omega arith
length-others_le slug (v ∷ taken) = ground (arith, length-others_le slug taken)

length-others :
    (slug : Text) (taken : List Text)
    → contains taken slug ≡ true
    → length (others slug taken) < length taken
length-others slug [] h = elim (true_not_false (sym h)) [ ]
length-others slug (v ∷ taken) h =
    ground (arith, length-others slug taken, length-others_le slug taken, h)

suffix_injective : (c : ℕ) (s t : Text) → c ∷ s ≡ c ∷ t → s ≡ t
suffix_injective c s t e = cc

append_injective : (p s t : Text) → p ++ s ≡ p ++ t → s ≡ t
append_injective [] s t e = e
append_injective (c ∷ p) s t e = append_injective p s t (suffix_injective c (p ++ s) (p ++ t) e)

no_slug : (slug : Text) → ◌≡◌ {A = Option Text} none (some slug) → ⊥
no_slug slug e = cc

some_injective : (a b : Text) → some a ≡ some b → a ≡ b
some_injective a b e = cc

shorter : (a : Text) (c : ℕ) (s : Text) → a ≡ a ++ c ∷ s → ⊥
shorter a c s e = let same = ap length e in omega (arith, same, length-append a (c ∷ s))

-- Two turns of the loop try two slugs.
candidate_differs :
    (base : Text) (j k : ℕ) → j < k → k < 2 ^ 62 → candidate base j ≡ candidate base k → ⊥
unfolding candidate
candidate_differs base j zero h small e = omega (arith, h)
candidate_differs base zero (suc k) h small e =
    shorter base b'-' (b'v' ∷ itoa (pos (suc (suc k)))) (append_injective custom_prefix _ _ e)
candidate_differs base (suc j) (suc k) h small e =
    let printed =
      append_injective (codes "-v") _ _
        (append_injective base _ _ (append_injective custom_prefix _ _ e)) in
    let same =
      itoa_injective (suc (suc j)) (suc (suc k)) (omega (arith, h, small)) (omega (arith, small))
        printed in
    omega (arith, same, h)

differs_eq :
    (base : Text) (j k : ℕ)
    → j < k
    → k < 2 ^ 62
    → text_eq (candidate base j) (candidate base k) ≡ false
differs_eq base j k h small =
    let no = candidate_differs base j k h small in
    elim (Bool-cases (text_eq (candidate base j) (candidate base k))) [
      | inl e ↦ elim (no ((text_eq_iff (candidate base j) (candidate base k)).0 e)) [ ]
      | inr e ↦ e
    ]

-- A slug that no later turn tries may be left out of those that are taken.
free_slug-others :
    (fuel : ℕ) (base : Text) (j k : ℕ) (taken : List Text)
    → j < k
    → fuel + k < 2 ^ 62
    → free_slug fuel base k (others (candidate base j) taken) ≡ free_slug fuel base k taken
unfolding free_slug
free_slug-others zero base j k taken h small = refl
free_slug-others (suc fuel) base j k taken h small =
    let rest =
      free_slug-others fuel base j (suc k) taken (omega (arith, h)) (omega (arith, small)) in
    let same =
      contains-others (candidate base j) (candidate base k) taken
        (differs_eq base j k h (omega (arith, small))) in
    rw (rest, same) refl

free_slug-is_some :
    (fuel : ℕ) (base : Text) (k : ℕ) (taken : List Text)
    → length taken < fuel
    → fuel + k < 2 ^ 62
    → is_some (free_slug fuel base k taken) ≡ true
unfolding free_slug
free_slug-is_some zero base k taken h small = let no : ⊥ = omega (arith, h) in elim no [ ]
free_slug-is_some (suc fuel) base k taken h small =
    elim (Bool-cases (contains taken (candidate base k))) [
      | inr c ↦ rw c refl
      | inl c ↦
          let fewer = length-others (candidate base k) taken c in
          rw
            (
              c,
              sym (free_slug-others fuel base k (suc k) taken (omega arith) (omega (arith, small))),
            )
            (free_slug-is_some fuel base (suc k) (others (candidate base k) taken)
              (omega (arith, fewer, h)) (omega (arith, small)))
    ]

candidate-has_prefix : (base : Text) (k : ℕ) → has_prefix (candidate base k) custom_prefix ≡ true
unfolding candidate has_prefix
candidate-has_prefix base zero = refl
candidate-has_prefix base (suc k) = refl

-- A slug that may be given: it is marked as a custom one, and not taken.
abbrev pub IsFree : List Text → Text → Type 0
IsFree taken slug = (has_prefix slug custom_prefix ≡ true) × (contains taken slug ≡ false)

free_slug-IsFree :
    (fuel : ℕ) (base : Text) (k : ℕ) (taken : List Text) (slug : Text)
    → free_slug fuel base k taken ≡ some slug
    → IsFree taken slug
unfolding free_slug
free_slug-IsFree zero base k taken slug e = elim (no_slug slug e) [ ]
free_slug-IsFree (suc fuel) base k taken slug e =
    elim (Bool-cases (contains taken (candidate base k))) [
      | inl c ↦ free_slug-IsFree fuel base (suc k) taken slug (sym (rw (c, free_slug) refl) ∙ e)
      | inr c ↦
          let same : some (candidate base k) ≡ some slug = sym (rw c refl) ∙ e in
          rw (sym (some_injective (candidate base k) slug same)) (candidate-has_prefix base k, c)
    ]

-- A new service always gets a slug, after no more turns than there are slugs taken and one: it is
-- marked as a custom one and not taken.
pub make_custom_slug-IsFree :
    (name : Text) (taken : List Text)
    → length taken < 2 ^ 61
    → (slug : Text) × (make_custom_slug name taken ≡ some slug) × IsFree taken slug
unfolding make_custom_slug
make_custom_slug-IsFree name taken small =
    let found =
      free_slug-is_some (suc (length taken)) (slug_base name) zero taken (omega arith)
        (omega (arith, small)) in
    elim (Option-cases (make_custom_slug name taken)) [
      | inl e ↦ elim (true_not_false (sym found ∙ ap is_some e)) [ ]
      | inr (slug, e) ↦
          (slug, e, free_slug-IsFree (suc (length taken)) (slug_base name) zero taken slug e)
    ]
