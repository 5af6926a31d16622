-- ===== src/Signing/Numerals.antt =====
-- A number printed and read back.
use agent_runs.Base.{
  ℕ, zero, suc, ◌+◌, ◌-◌, ◌*◌, ◌/◌, ◌%◌, ◌<◌, ◌≡◌, ◌≢◌, ap, ◌∙◌, true, false, [], ◌∷◌, arith, refl,
  ◌==◌, Bool-cases, inl, inr,
}
use agent_runs.Signing.{
  Text, print_digits, print_number, read_digits, is_digit, all_pass, is_empty, is_number,
}

digit_pushed :
    (n : ℕ) (later : Text)
    → all_pass is_digit later ≡ true
    → all_pass is_digit ((48 + n % 10) ∷ later) ≡ true
digit_pushed n later digits = ground arith

one_digit : (n : ℕ) → n / 10 == 0 ≡ true → 0 * 10 + ((48 + n % 10) - 48) ≡ n
one_digit n t = let none_left : n / 10 ≡ 0 = ground arith in omega (arith, none_left)

two_parts : (n : ℕ) → (n / 10) * 10 + ((48 + n % 10) - 48) ≡ n
two_parts n = omega arith

fewer_rounds : (n rounds : ℕ) → n < suc rounds → n / 10 == 0 ≡ false → n / 10 < rounds
fewer_rounds n rounds enough f = let left : n / 10 ≢ 0 = ground arith in omega (arith, enough, left)

read-print_digits :
    (rounds n : ℕ) (later : Text)
    → n < rounds
    → read_digits 0 (print_digits rounds n later) ≡ read_digits n later
unfolding print_digits read_digits
read-print_digits zero n later enough = absurd (omega (arith, enough))
read-print_digits (suc rounds) n later enough = elim (Bool-cases (n / 10 == 0)) [
  | inl t ↦ rw t (ap (λ k. read_digits k later) (one_digit n t))
  | inr f ↦ rw f (
      read-print_digits rounds (n / 10) ((48 + n % 10) ∷ later) (fewer_rounds n rounds enough f)
      ∙ ap (λ k. read_digits k later) (two_parts n))
]

print_digits-digits :
    (rounds n : ℕ) (later : Text)
    → all_pass is_digit later ≡ true
    → all_pass is_digit (print_digits rounds n later) ≡ true
unfolding print_digits
print_digits-digits zero n later digits = digits
print_digits-digits (suc rounds) n later digits = elim (Bool-cases (n / 10 == 0)) [
  | inl t ↦ rw t (digit_pushed n later digits)
  | inr f ↦
      rw f
        (print_digits-digits rounds (n / 10) ((48 + n % 10) ∷ later) (digit_pushed n later digits))
]

print_digits-nonempty :
    (rounds n c : ℕ) (later : Text) → is_empty (print_digits rounds n (c ∷ later)) ≡ false
unfolding print_digits
print_digits-nonempty zero n c later = refl
print_digits-nonempty (suc rounds) n c later = elim (Bool-cases (n / 10 == 0)) [
  | inl t ↦ rw t refl
  | inr f ↦ rw f (print_digits-nonempty rounds (n / 10) (48 + n % 10) (c ∷ later))
]

pub print_number-digits : (n : ℕ) → all_pass is_digit (print_number n) ≡ true
unfolding print_number
print_number-digits n = print_digits-digits (suc n) n [] refl

-- A printed number is one, and reads as it was.
pub print_number-number : (n : ℕ) → is_number (print_number n) ≡ true
unfolding is_number print_number print_digits
print_number-number n = elim (Bool-cases (n / 10 == 0)) [
  | inl t ↦ rw t (digit_pushed n [] refl)
  | inr f ↦ rw f (
      rw (print_digits-nonempty n (n / 10) (48 + n % 10) [])
        (print_digits-digits n (n / 10) ((48 + n % 10) ∷ []) (digit_pushed n [] refl)))
]

pub read-print_number : (n : ℕ) → read_digits 0 (print_number n) ≡ n
unfolding print_number read_digits
read-print_number n = read-print_digits (suc n) n [] (omega arith)
