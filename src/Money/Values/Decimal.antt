-- ===== src/Money/Values/Decimal.antt =====
-- `toCentsString` and the string case of `Money.of`: printing and reading decimal integers.
use financial_os.Base.{
  ℕ, zero, suc, ◌+◌, ◌-◌, ◌*◌, ◌/◌, ◌%◌, ◌<◌, ◌≤◌, ◌≡◌, ◌∙◌, ap, true, false, some, List, [], ◌∷◌,
  arith, ltb, leb, ◌==◌, ltb→lt, Bool-cases, inl, inr,
}
use financial_os.Base.Int.{ℤ, pos, negsuc, ◌-ℤ◌, int_laws}
use financial_os.Money.Values.{
  digits_value, integer_literal, print_digits, print_ℕ, to_cents_string, Money,
}

-- A digit is read as ten times the value so far, and the digit.
digits_value-digit :
    (a d : ℕ) (acc : List ℕ)
    → d < 10
    → digits_value a ((b'0' + d) ∷ acc) ≡ digits_value (a * 10 + d) acc
unfolding digits_value
digits_value-digit a d acc h =
    let low : leb b'0' (b'0' + d) ≡ true = ground arith in
    let high : leb (b'0' + d) b'9' ≡ true = ground arith in
    let value : b'0' + d - b'0' ≡ d = omega arith in rw (low, high, value)

-- Reading the digits of `n` from 0 is reading on from `n`.
digits_value-print_digits :
    (fuel n : ℕ) (acc : List ℕ)
    → n < fuel
    → digits_value 0 (print_digits fuel n acc) ≡ digits_value n acc
unfolding print_digits
digits_value-print_digits zero n acc h = elim h [ ]
digits_value-print_digits (suc f) n acc h = elim (Bool-cases (ltb n 10)) [
  | inl small ↦ rw small (
      digits_value-digit 0 (n % 10) acc (omega arith)
      ∙ ap (λ v. digits_value v acc) (omega (arith, ltb→lt n 10 small)))
  | inr large ↦ rw large (
      digits_value-print_digits f (n / 10) _ (ground arith)
      ∙ digits_value-digit (n / 10) (n % 10) acc (omega arith)
      ∙ ap (λ v. digits_value v acc) (omega arith))
]

-- The first character of a printed number is a digit.
abbrev StartsWithDigit : List ℕ → Type 0
StartsWithDigit [] = ⊥
StartsWithDigit (c ∷ s) = (b'0' ≤ c) × (c ≤ b'9')

print_digits-StartsWithDigit :
    (fuel n : ℕ) (acc : List ℕ) → n < fuel → StartsWithDigit (print_digits fuel n acc)
unfolding print_digits
print_digits-StartsWithDigit zero n acc h = elim h [ ]
print_digits-StartsWithDigit (suc f) n acc h = elim (Bool-cases (ltb n 10)) [
  | inl small ↦ rw small (omega arith)
  | inr large ↦ rw large (print_digits-StartsWithDigit f (n / 10) _ (ground arith))
]

unsigned_literal :
    (s : List ℕ) (n : ℕ)
    → StartsWithDigit s
    → digits_value 0 s ≡ some n
    → integer_literal s ≡ some (pos n)
unfolding integer_literal
unsigned_literal [] n d h = absurd d
unsigned_literal (c ∷ s) n d h = let sign : (c == b'-') ≡ false = ground arith in rw (sign, h)

signed_literal :
    (s : List ℕ) (n : ℕ)
    → StartsWithDigit s
    → digits_value 0 s ≡ some n
    → integer_literal (b'-' ∷ s) ≡ some (pos 0 -ℤ pos n)
unfolding integer_literal
signed_literal [] n d h = absurd d
signed_literal (c ∷ s) n d h = rw h

digits_value-print_ℕ : (n : ℕ) → digits_value 0 (print_ℕ n) ≡ some n
unfolding print_ℕ digits_value
digits_value-print_ℕ n = digits_value-print_digits (suc n) n [] (omega arith)

print_ℕ-StartsWithDigit : (n : ℕ) → StartsWithDigit (print_ℕ n)
unfolding print_ℕ
print_ℕ-StartsWithDigit n = print_digits-StartsWithDigit (suc n) n [] (omega arith)

-- The printed cents read back as the cents.
pub integer_literal-to_cents_string :
    (m : Money) → integer_literal (to_cents_string m) ≡ some m.amount_cents
unfolding to_cents_string
integer_literal-to_cents_string m = go m.amount_cents
  where
    go :
        (a : ℤ)
        → integer_literal (elim a [ pos n ↦ print_ℕ n | negsuc n ↦ b'-' ∷ print_ℕ (suc n) ])
          ≡ some a
    go (pos n) = unsigned_literal (print_ℕ n) n (print_ℕ-StartsWithDigit n) (digits_value-print_ℕ n)
    go (negsuc n) =
        signed_literal (print_ℕ (suc n)) (suc n) (print_ℕ-StartsWithDigit (suc n))
          (digits_value-print_ℕ (suc n))
        ∙ ap some (omega int_laws)
