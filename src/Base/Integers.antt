-- ===== src/Base/Integers.antt =====
-- Signed integers over the native numbers, `strconv.Atoi` and `strconv.Itoa`.
use Prim.Native.Nat.{ℕ, zero, suc, ◌+◌, ◌-◌, ◌*◌, ◌/◌, ◌%◌, ◌^◌, ◌<◌}
use mathlib.Core.Bool.{Bool, true, false, not, ◌&&◌}
use mathlib.Core.Path.{◌≡◌, refl, sym, ap, ◌∙◌}
use native.Mathlib.Omega.{arith}
use mathlib.Core.Option.{Option, none, some}
use mathlib.Core.List.{[], ◌∷◌}
use cash_pilot_desktop.Base.Tests.{ltb, leb, ◌==◌, if◌then◌else◌}
use cash_pilot_desktop.Base.Strings.{Text, is_empty}
use cash_pilot_desktop.Base.Lists.{any}

-- `negsuc n` is -(n + 1).
pub data ℤ : Type 0 where
  pos : ℕ → ℤ
  negsuc : ℕ → ℤ

abbrev pub pos_part : ℤ → ℕ
pos_part (pos n) = n
pos_part (negsuc n) = 0

abbrev pub neg_part : ℤ → ℕ
neg_part (pos n) = 0
neg_part (negsuc n) = suc n

abbrev pub leb_ℤ : ℤ → ℤ → Bool
leb_ℤ a b = leb (pos_part a + neg_part b) (pos_part b + neg_part a)

abbrev pub eqb_ℤ : ℤ → ℤ → Bool
eqb_ℤ a b = pos_part a + neg_part b == pos_part b + neg_part a

-- `n > 0`
abbrev pub is_positive : ℤ → Bool
is_positive n = ltb 0 (pos_part n)

abbrev pub negate : ℕ → ℤ
negate zero = pos 0
negate (suc n) = negsuc n

abbrev pub is_digit : ℕ → Bool
is_digit c = leb b'0' c && leb c b'9'

read_digits : ℕ → Text → Option ℕ
read_digits acc [] = some acc
read_digits acc (c ∷ s) =
    let rest = read_digits (acc * 10 + (c - b'0')) s in if is_digit c then rest else none

read_magnitude : Text → Option ℕ
read_magnitude [] = none
read_magnitude (c ∷ s) = read_digits 0 (c ∷ s)

in_range : Bool → Option ℕ → Option ℤ
in_range minus none = none
in_range true (some n) = if leb n (2 ^ 63) then some (negate n) else none
in_range false (some n) = if ltb n (2 ^ 63) then some (pos n) else none

-- `strconv.Atoi` on 64-bit ints; `none` is its error.
unfoldable pub atoi : Text → Option ℤ
unfolding read_digits read_magnitude in_range
atoi [] = none
atoi (c ∷ s) =
    if c == b'-'
    then in_range true (read_magnitude s)
    else if c == b'+'
    then in_range false (read_magnitude s)
    else in_range false (read_magnitude (c ∷ s))

-- The digits of `n` before `rest`; a number below 10 ^ fuel has no more digits than the fuel.
digits : ℕ → ℕ → Text → Text
digits zero n rest = rest
digits (suc fuel) n rest =
    let shown = (b'0' + n % 10) ∷ rest in
    let more = digits fuel (n / 10) shown in if ltb n 10 then shown else more

-- `strconv.Itoa` on 64-bit ints, which have at most 19 digits.
unfoldable pub itoa : ℤ → Text
unfolding digits
itoa (pos n) = digits 20 n []
itoa (negsuc n) = b'-' ∷ digits 20 (suc n) []

-- `uint64(n)` of an int.
abbrev pub to_uint64 : ℤ → ℕ
to_uint64 (pos n) = n % 2 ^ 64
to_uint64 (negsuc n) = 2 ^ 64 - suc n

read_digits-digits :
    (fuel n : ℕ) (rest : Text)
    → n < 10 ^ fuel
    → read_digits 0 (digits fuel n rest) ≡ read_digits n rest
unfolding digits read_digits
read_digits-digits zero n rest h = let is_zero : n ≡ 0 = omega (arith, h) in rw is_zero refl
read_digits-digits (suc fuel) n rest h =
    let below : n / 10 < 10 ^ fuel = omega (arith, h) in
    ground (arith, read_digits-digits fuel (n / 10) ((b'0' + n % 10) ∷ rest) below)

starts_digit : Text → Bool
starts_digit [] = false
starts_digit (c ∷ s) = is_digit c

digits-starts_digit :
    (fuel n : ℕ) (rest : Text) → starts_digit rest ≡ true → starts_digit (digits fuel n rest) ≡ true
unfolding digits starts_digit
digits-starts_digit zero n rest h = h
digits-starts_digit (suc fuel) n rest h =
    ground (arith, digits-starts_digit fuel (n / 10) ((b'0' + n % 10) ∷ rest))

some_digits : (fuel n : ℕ) → starts_digit (digits (suc fuel) n []) ≡ true
unfolding digits starts_digit
some_digits fuel n = ground (arith, digits-starts_digit fuel (n / 10) ((b'0' + n % 10) ∷ []))

atoi_digits : (t : Text) → starts_digit t ≡ true → atoi t ≡ in_range false (read_digits 0 t)
unfolding atoi starts_digit read_magnitude
atoi_digits [] h = cc
atoi_digits (c ∷ s) h = ground arith

-- Printing an int that is not negative and reading it gives it back.
pub atoi-itoa : (n : ℕ) → n < 2 ^ 63 → atoi (itoa (pos n)) ≡ some (pos n)
unfolding itoa in_range read_digits
atoi-itoa n h =
    rw (atoi_digits (digits 20 n []) (some_digits 19 n))
      (rw (read_digits-digits 20 n [] (omega (arith, h))) (ground arith))

same_number : (m n : ℕ) → some (pos m) ≡ some (pos n) → m ≡ n
same_number m n e = cc

pub itoa_injective : (m n : ℕ) → m < 2 ^ 63 → n < 2 ^ 63 → itoa (pos m) ≡ itoa (pos n) → m ≡ n
itoa_injective m n hm hn e = same_number m n (sym (atoi-itoa m hm) ∙ ap atoi e ∙ atoi-itoa n hn)

not_empty : (t : Text) → starts_digit t ≡ true → is_empty t ≡ false
unfolding starts_digit
not_empty [] h = sym h
not_empty (c ∷ t) h = refl

other_than_digit-digits :
    (fuel n : ℕ) (rest : Text)
    → any (λ c. not (is_digit c)) (digits fuel n rest) ≡ any (λ c. not (is_digit c)) rest
unfolding digits
other_than_digit-digits zero n rest = refl
other_than_digit-digits (suc fuel) n rest =
    ground (arith, other_than_digit-digits fuel (n / 10) ((b'0' + n % 10) ∷ rest))

-- A number that is not negative is printed with digits, and at least one.
pub itoa_digits :
    (n : ℕ)
    → (any (λ c. not (is_digit c)) (itoa (pos n)) ≡ false) × (is_empty (itoa (pos n)) ≡ false)
unfolding itoa
itoa_digits n = (other_than_digit-digits 20 n [], not_empty (digits 20 n []) (some_digits 19 n))
