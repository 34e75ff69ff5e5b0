-- ===== src/Inferrer/Numerals.antt =====
-- Which cells pass which test.
use data_table_viewer.Prelude.{
  ℕ, true, false, [], ◌∷◌, some, ◌≡◌, refl, inl, inr, Bool-cases, arith, leb, ◌==◌, if◌then◌else◌,
  is_empty, Bytes,
}
use data_table_viewer.Inferrer.{
  to_lower, lower, is_digit, is_sign, equal_bytes, is_special, is_integer, is_float, all_digits,
  without_sign, float_scan, Marks, no_marks,
}

-- Over digits alone the scan sees digits only.
float_scan-digits :
    (m : Marks) (s : Bytes)
    → all_digits s ≡ true
    → float_scan m s ≡ some (if is_empty s then m else record m { digits = true })
unfolding float_scan all_digits
float_scan-digits m [] h = refl
float_scan-digits m (c ∷ []) h = ground arith
float_scan-digits m (c ∷ d ∷ rest) h =
    ground (arith, float_scan-digits (record m { digits = true }) (d ∷ rest))

-- A digit is no letter, and no sign.
digit-letter : (c x : ℕ) → is_digit c ≡ true → leb b'a' x ≡ true → (to_lower c == x) ≡ false
unfolding is_digit to_lower
digit-letter c x h k = ground arith

digit-sign : (c x : ℕ) → is_digit c ≡ true → is_sign x ≡ true → (to_lower c == x) ≡ false
unfolding is_digit to_lower is_sign
digit-sign c x h k = ground arith

sign-letter : (c x : ℕ) → is_sign c ≡ true → leb b'a' x ≡ true → (to_lower c == x) ≡ false
unfolding is_sign to_lower
sign-letter c x h k = ground arith

special-signed :
    (a b : ℕ) (rest : Bytes)
    → is_sign a ≡ true
    → is_digit b ≡ true
    → is_special (a ∷ b ∷ rest) ≡ false
unfolding is_special lower equal_bytes
special-signed a b rest h k =
    ground (arith, sign-letter a b'n' h refl, sign-letter a b'i' h refl, digit-letter b b'i' k refl)

special-digit : (a : ℕ) (rest : Bytes) → is_digit a ≡ true → is_special (a ∷ rest) ≡ false
unfolding is_special lower equal_bytes is_sign
special-digit a rest h = ground (
  arith,
  digit-letter a b'n' h refl,
  digit-letter a b'i' h refl,
  digit-sign a b'-' h refl,
  digit-sign a b'+' h refl,
)

is_float-digits :
    (a : ℕ) (s : Bytes)
    → is_special (a ∷ s) ≡ false
    → all_digits (without_sign (a ∷ s)) ≡ true
    → is_empty (without_sign (a ∷ s)) ≡ false
    → is_float (a ∷ s) ≡ (true, false)
unfolding is_float
is_float-digits a s e d n = rw (e, float_scan-digits no_marks (without_sign (a ∷ s)) d, n) refl

-- A cell that passes as an integer passes as a float, and as one without a point or exponent.
pub integer-float : (s : Bytes) → is_integer s ≡ true → is_float s ≡ (true, false)
unfolding is_integer all_digits without_sign
integer-float [] h = unfold is_float in refl
integer-float (a ∷ []) h = elim (Bool-cases (is_sign a)) [
  | inl e ↦ absurd (ground arith)
  | inr e ↦
      let d : is_digit a ≡ true = ground arith in
      is_float-digits a [] (special-digit a [] d) (rw e (rw d)) (rw e)
]
integer-float (a ∷ b ∷ rest) h = elim (Bool-cases (is_sign a)) [
  | inl e ↦
      let d : is_digit b ≡ true = ground arith in
      is_float-digits a (b ∷ rest) (special-signed a b rest e d) (ground arith) (rw e)
  | inr e ↦
      let d : is_digit a ≡ true = ground arith in
      is_float-digits a (b ∷ rest) (special-digit a (b ∷ rest) d) (ground arith) (rw e)
]
