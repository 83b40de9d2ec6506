-- ===== src/StateBackup/Paths.antt =====
-- About cleanParts of internal/statebackup/split.go: splitting, cleaning and joining a path.
use cash_pilot_desktop.Base.{
  append_nil, ℕ, Bool, false, ◌||◌, not, List, [], ◌∷◌, ◌++◌, ◌≡◌, refl, Text, codes, text_eq,
  is_empty, split, join, ◌==◌, keep, any, All, arith, Bool-cases, inl, inr, cons_head, keep-append,
}
use cash_pilot_desktop.StateBackup.{clean_parts, first_of}

-- A part that can stand between two slashes.
abbrev pub IsPart : Text → Type 0
IsPart p = (any (λ c. c == b'/') p ≡ false) × ((is_empty p || text_eq p (codes ".")) ≡ false)

abbrev has_slash : Text → Bool
has_slash p = any (λ c. c == b'/') p

split-cons : (s : Text) → (p : Text) × (ps : List Text) × (split b'/' s ≡ p ∷ ps)
unfolding split cons_head
split-cons [] = ([], [], refl)
split-cons (c ∷ s) = elim (Bool-cases (c == b'/')) [
  | inl e ↦ ([], split b'/' s, rw e refl)
  | inr e ↦ let (p, ps, q) = split-cons s in (c ∷ p, ps, rw (e, q) refl)
]

cons_head-has_slash :
    (c : ℕ)
    → (c == b'/') ≡ false
    → (ps : List Text) → All (λ p. has_slash p ≡ false) ps
    → All (λ p. has_slash p ≡ false) (cons_head c ps)
unfolding cons_head
cons_head-has_slash c e [] h = (rw e refl, tt)
cons_head-has_slash c e (p ∷ ps) h = (rw e h.0, h.1)

split-slash : (s t : Text) → split b'/' (s ++ b'/' ∷ t) ≡ split b'/' s ++ split b'/' t
unfolding split cons_head
split-slash [] t = refl
split-slash (c ∷ s) t = elim (Bool-cases (c == b'/')) [
  | inl e ↦ rw (e, split-slash s t) refl
  | inr e ↦ let (p, ps, q) = split-cons s in rw (e, split-slash s t, q) refl
]

split-part : (p : Text) → has_slash p ≡ false → split b'/' p ≡ p ∷ []
unfolding split cons_head
split-part [] h = refl
split-part (c ∷ p) h = ground (arith, split-part p)

-- Every part of a split has no slash.
split-has_slash : (s : Text) → All (λ p. has_slash p ≡ false) (split b'/' s)
unfolding split cons_head
split-has_slash [] = (refl, tt)
split-has_slash (c ∷ s) = elim (Bool-cases (c == b'/')) [
  | inl e ↦ rw e (refl, split-has_slash s)
  | inr e ↦ rw e (cons_head-has_slash c e (split b'/' s) (split-has_slash s))
]

keep-IsPart :
    (ps : List Text)
    → All (λ p. has_slash p ≡ false) ps
    → All IsPart (keep (λ p. not (is_empty p || text_eq p (codes "."))) ps)
keep-IsPart [] h = tt
keep-IsPart (p ∷ ps) h = elim (Bool-cases (is_empty p || text_eq p (codes "."))) [
  | inl e ↦ rw e (keep-IsPart ps h.1)
  | inr e ↦ rw e ((h.0, e), keep-IsPart ps h.1)
]

pub clean_parts-IsPart : (name : Text) → All IsPart (clean_parts name)
unfolding clean_parts
clean_parts-IsPart name = keep-IsPart (split b'/' name) (split-has_slash name)

keep_parts :
    (ps : List Text) → All IsPart ps → keep (λ p. not (is_empty p || text_eq p (codes "."))) ps ≡ ps
keep_parts [] h = refl
keep_parts (p ∷ ps) h = rw (h.0.1, keep_parts ps h.1) refl

pub split-join :
    (p : Text) (ps : List Text) → All IsPart (p ∷ ps) → split b'/' (join b'/' (p ∷ ps)) ≡ p ∷ ps
unfolding join
split-join p [] h = split-part p h.0.0
split-join p (q ∷ ps) h =
    rw (split-slash p (join b'/' (q ∷ ps)), split-part p h.0.0, split-join q ps h.1) refl

-- Joined parts clean to themselves.
pub clean_parts-join : (ps : List Text) → All IsPart ps → clean_parts (join b'/' ps) ≡ ps
unfolding clean_parts join split
clean_parts-join [] h = refl
clean_parts-join (p ∷ ps) h = rw (split-join p ps h) (keep_parts (p ∷ ps) h)

-- A slash at the end changes nothing.
pub clean_parts-slash : (s : Text) → clean_parts (s ++ b'/' ∷ []) ≡ clean_parts s
unfolding clean_parts split
clean_parts-slash s =
    let test = λ (p : Text). not (is_empty p || text_eq p (codes ".")) in
    rw (split-slash s [], keep-append test (split b'/' s) ([] ∷ [])) (append_nil _)

-- The first part of the joined parts is what stands before the first slash.
pub first_of-join :
    (ps : List Text) → All IsPart ps → first_of (split b'/' (join b'/' ps)) ≡ first_of ps
unfolding join split
first_of-join [] h = refl
first_of-join (p ∷ ps) h = rw (split-join p ps h) refl
