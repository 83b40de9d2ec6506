-- ===== src/Listing/Ports.antt =====
-- About IsPortRange of internal/catalog/envvalue.go: which ranges are accepted.
use cash_pilot_desktop.Base.{
  ℕ, pos, leb, ◌<◌, ◌^◌, true, false, ◌&&◌, not, some, [], ◌∷◌, ◌++◌, ◌≡◌, refl, sym, ◌∙◌, inl, inr,
  Text, any, itoa, atoi-itoa, itoa_digits, is_digit, Bool-cases, arith, true_not_false, ◌==◌,
}
use cash_pilot_desktop.Custom.Shown.{cut_at}
use cash_pilot_desktop.Listing.{is_port_range, is_range}

not_colon : (c : ℕ) → is_digit c ≡ true → (c == b':') ≡ false
not_colon c d = ground (arith, d)

cut_after_digits :
    (s rest : Text)
    → any (λ c. not (is_digit c)) s ≡ false
    → cut_at b':' (s ++ b':' ∷ rest) ≡ (s, some rest)
unfolding cut_at
cut_after_digits [] rest h = refl
cut_after_digits (c ∷ s) rest h = elim (Bool-cases (is_digit c)) [
  | inl d ↦ rw (not_colon c d, cut_after_digits s rest (sym (rw d refl) ∙ h)) refl
  | inr d ↦ elim (true_not_false (sym (rw d refl) ∙ h)) [ ]
]

-- Two ports that are printed with a colon between them are accepted exactly when the first is at
-- least 1, the second at most 65535, and they are in order.
pub is_port_range-itoa :
    (lo hi : ℕ)
    → lo < 2 ^ 63
    → hi < 2 ^ 63
    → is_port_range (itoa (pos lo) ++ b':' ∷ itoa (pos hi))
      ≡ (leb 1 lo && (leb lo hi && leb hi 65535))
unfolding is_port_range is_range
is_port_range-itoa lo hi small_lo small_hi =
    rw
      (
        cut_after_digits (itoa (pos lo)) (itoa (pos hi)) (itoa_digits lo).0,
        (itoa_digits lo).0,
        (itoa_digits lo).1,
        (itoa_digits hi).0,
        (itoa_digits hi).1,
        atoi-itoa lo small_lo,
        atoi-itoa hi small_hi,
      )
      (ground arith)
