-- ===== src/Money/Values.antt =====
-- The class `Money` of `common/money/money.ts`, method by method. `bigint` is ℤ.
pub mod Decimal
pub mod Laws
use financial_os.Base.{
  ℕ, zero, suc, ◌+◌, ◌-◌, ◌*◌, ◌/◌, ◌%◌, Bool, ◌&&◌, ◌⊎◌, inl, inr, Option, none, some, List, [],
  ◌∷◌, ltb, leb, ◌==◌, if◌then◌else◌,
}
use financial_os.Base.Int.{ℤ, pos, negsuc, ◌+ℤ◌, ◌-ℤ◌, ◌*ℤ◌, ltb_ℤ, leb_ℤ, eqb_ℤ}
use financial_os.Errors.{Attempt, returned, threw, type_error, mismatch, ◌>>=◌}
use financial_os.Money.Currency.{CurrencyCode, normalize_currency, str_eq}

-- A JavaScript `number`, as `Number.isInteger` sees it.
pub data Number : Type 0 where
  integer : ℤ → Number
  fractional : Number

-- `bigint | number | string`
pub data CentsInput : Type 0 where
  bigint : ℤ → CentsInput
  number : Number → CentsInput
  text : List ℕ → CentsInput

pub record Money : Type 0 where
  pub amount_cents : ℤ
  pub currency : CurrencyCode

abbrev pub money : ℤ → CurrencyCode → Money
money a c = record { amount_cents = a; currency = c }

-- `\d*`, and the value of the digits after `acc`.
digits_value : ℕ → List ℕ → Option ℕ
digits_value acc [] = some acc
digits_value acc (c ∷ s) =
    if leb b'0' c && leb c b'9' then digits_value (acc * 10 + (c - b'0')) s else none

-- `\d+`
nonempty_value : List ℕ → Option ℕ
unfolding digits_value
nonempty_value [] = none
nonempty_value (c ∷ s) = digits_value 0 (c ∷ s)

abbrev negated : ℕ → ℤ
negated n = pos 0 -ℤ pos n

abbrev map_value : (ℕ → ℤ) → Option ℕ → Option ℤ
map_value f none = none
map_value f (some n) = some (f n)

-- `/^-?\d+$/.test(s)`, then `BigInt(s)`.
pub integer_literal : List ℕ → Option ℤ
unfolding nonempty_value
integer_literal [] = none
integer_literal (c ∷ s) =
    if c == b'-'
    then map_value negated (nonempty_value s)
    else map_value pos (nonempty_value (c ∷ s))

abbrev pub to_cents : CentsInput → Attempt ℤ
to_cents (bigint n) = returned n
to_cents (number (integer n)) = returned n
to_cents (number fractional) = threw type_error
to_cents (text s) = elim (integer_literal s) [ none ↦ threw type_error | some n ↦ returned n ]

unfoldable pub of : CentsInput → CurrencyCode → Attempt Money
of input code = do
  cents ← to_cents input
  upper ← normalize_currency code
  returned (money cents upper)

pub zero_money : CurrencyCode → Attempt Money
zero_money code = do upper ← normalize_currency code; returned (money (pos 0) upper)

abbrev same_currency : {A : Type 0} → Money → Money → A → Attempt A
same_currency m other a = if str_eq m.currency other.currency then returned a else threw mismatch

pub plus : Money → Money → Attempt Money
plus m other = same_currency m other (money (m.amount_cents +ℤ other.amount_cents) m.currency)

pub minus : Money → Money → Attempt Money
minus m other = same_currency m other (money (m.amount_cents -ℤ other.amount_cents) m.currency)

-- `bigint | number`
abbrev pub to_factor : ℤ ⊎ Number → Attempt ℤ
to_factor (inl f) = returned f
to_factor (inr (integer f)) = returned f
to_factor (inr fractional) = threw type_error

pub times : Money → ℤ ⊎ Number → Attempt Money
times m factor = do f ← to_factor factor; returned (money (m.amount_cents *ℤ f) m.currency)

pub negate : Money → Money
negate m = money (pos 0 -ℤ m.amount_cents) m.currency

pub is_zero : Money → Bool
is_zero m = eqb_ℤ m.amount_cents (pos 0)

pub is_negative : Money → Bool
is_negative m = ltb_ℤ m.amount_cents (pos 0)

pub is_positive : Money → Bool
is_positive m = ltb_ℤ (pos 0) m.amount_cents

pub equals : Money → Money → Bool
equals m other = str_eq m.currency other.currency && eqb_ℤ m.amount_cents other.amount_cents

-- -1, 0 or 1.
abbrev pub order : ℤ → ℤ → ℤ
order a b = if ltb_ℤ a b then negsuc 0 else if ltb_ℤ b a then pos 1 else pos 0

pub compare_to : Money → Money → Attempt ℤ
compare_to m other = same_currency m other (order m.amount_cents other.amount_cents)

pub less_than : Money → Money → Attempt Bool
unfolding compare_to
less_than m other = do c ← compare_to m other; returned (ltb_ℤ c (pos 0))

pub less_than_or_equal : Money → Money → Attempt Bool
unfolding compare_to
less_than_or_equal m other = do c ← compare_to m other; returned (leb_ℤ c (pos 0))

pub greater_than : Money → Money → Attempt Bool
unfolding compare_to
greater_than m other = do c ← compare_to m other; returned (ltb_ℤ (pos 0) c)

pub greater_than_or_equal : Money → Money → Attempt Bool
unfolding compare_to
greater_than_or_equal m other = do c ← compare_to m other; returned (leb_ℤ (pos 0) c)

-- The decimal digits of `n` before `acc`, on fuel; `n + 1` is enough.
print_digits : ℕ → ℕ → List ℕ → List ℕ
print_digits zero n acc = acc
print_digits (suc fuel) n acc =
    let last : List ℕ = (b'0' + n % 10) ∷ acc in
    let rest = print_digits fuel (n / 10) last in if ltb n 10 then last else rest

pub print_ℕ : ℕ → List ℕ
unfolding print_digits
print_ℕ n = print_digits (suc n) n []

-- `amountCents.toString()`
pub to_cents_string : Money → List ℕ
unfolding print_ℕ
to_cents_string m = elim m.amount_cents [ pos n ↦ print_ℕ n | negsuc n ↦ b'-' ∷ print_ℕ (suc n) ]
