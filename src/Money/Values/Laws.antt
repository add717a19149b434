-- ===== src/Money/Values/Laws.antt =====
-- What the methods of `Money` promise: the decimal wire format reads back, money keeps a valid
-- currency, subtraction undoes addition, and the comparisons agree with one another.
use financial_os.Base.{
  subst, ℕ, ◌≡◌, ◌≢◌, refl, ap, Bool, true, false, ◌||◌, ◌⊎◌, some, arith, Bool-cases, inl, inr,
  List,
}
use financial_os.Base.Int.{ℤ, pos, negsuc, ◌+ℤ◌, int_laws, eqb_ℤ, ltb_ℤ}
use financial_os.Errors.{returned, threw, returned_injective, mismatch, >>=-eq-returned}
use financial_os.Money.Values.{
  to_cents_string, Money, money, of, plus, minus, compare_to, equals, less_than, less_than_or_equal,
  greater_than, greater_than_or_equal, text, CentsInput, to_cents, integer_literal,
}
use financial_os.Money.Values.Decimal.{integer_literal-to_cents_string}
use financial_os.Money.Currency.{
  CurrencyCode, normalize_currency, str_eq, str_eq_refl, str_eq_sound, normalize_currency_idem,
}

of-currency :
    (input : CentsInput) (code : CurrencyCode) {m : Money}
    → of input code ≡ returned m
    → normalize_currency m.currency ≡ returned m.currency
unfolding of
of-currency input code h =
    let (cents, _, h') = >>=-eq-returned (to_cents input) _ h in
    let (upper, normal, same) = >>=-eq-returned (normalize_currency code) _ h' in
    let e : money cents upper ≡ _ = returned_injective same in
    subst (λ (m : Money). normalize_currency m.currency ≡ returned m.currency) e
      (normalize_currency_idem code normal)

to_cents-text : (s : List ℕ) (n : ℤ) → integer_literal s ≡ some n → to_cents (text s) ≡ returned n
to_cents-text s n h = rw (h, to_cents)

-- Money that `of` built is rebuilt, amount and currency, from its wire format: the decimal string of
-- its cents and its currency code.
pub of-to_cents_string :
    (input : CentsInput) (code : CurrencyCode) {m : Money}
    → of input code ≡ returned m
    → of (text (to_cents_string m)) m.currency ≡ returned m
of-to_cents_string input code {m} h = rebuild m (of-currency input code h)
  where
    rebuild :
        (m : Money)
        → normalize_currency m.currency ≡ returned m.currency
        → of (text (to_cents_string m)) m.currency ≡ returned m
    rebuild m valid = unfold of in rw (to_cents-text _ _ (integer_literal-to_cents_string m), valid)

str_eq_of_eq : {s t : CurrencyCode} → s ≡ t → str_eq s t ≡ true
str_eq_of_eq {s} e = subst (λ t. str_eq s t ≡ true) e (str_eq_refl s)

-- Between two amounts, `minus` undoes `plus`, and both raise a mismatch exactly when the currencies
-- differ.
pub minus-plus :
    (m other : Money)
    → (plus m other ≡ threw mismatch)
        × (minus m other ≡ threw mismatch)
        × (m.currency ≢ other.currency)
      ⊎ (s : Money) × (plus m other ≡ returned s)
        × (minus s other ≡ returned m)
        × (m.currency ≡ other.currency)
unfolding plus minus
minus-plus m other = elim (Bool-cases (str_eq m.currency other.currency)) [
  | inl same ↦ inr (
    money (m.amount_cents +ℤ other.amount_cents) m.currency,
    rw same,
    rw same (ap (λ a. returned (money a m.currency)) (omega int_laws)),
    str_eq_sound _ _ same,
  )
  | inr differ ↦ inl (rw differ, rw differ, λ e. let clash = str_eq_of_eq e in cc)
]

-- The six comparisons of two amounts whose compareTo is `sign`.
abbrev pub Compares : Money → Money → ℤ → Bool → Bool → Bool → Type 0
Compares m other sign lt eq gt =
    (compare_to m other ≡ returned sign)
    × (less_than m other ≡ returned lt)
    × (less_than_or_equal m other ≡ returned (lt || eq))
    × (greater_than m other ≡ returned gt)
    × (greater_than_or_equal m other ≡ returned (gt || eq))
    × (equals m other ≡ eq)

-- Within one currency exactly one of three cases holds, and all six comparisons tell it: the first
-- amount is lower (compareTo -1), the two Money values are the same (0), or the first is higher (1).
pub comparisons_agree :
    (m other : Money)
    → m.currency ≡ other.currency
    → ((ltb_ℤ m.amount_cents other.amount_cents ≡ true)
        × Compares m other (negsuc 0) true false false)
      ⊎ ((m ≡ other) × Compares m other (pos 0) false true false)
      ⊎ ((ltb_ℤ other.amount_cents m.amount_cents ≡ true)
          × Compares m other (pos 1) false false true)
unfolding compare_to less_than less_than_or_equal greater_than greater_than_or_equal equals
comparisons_agree m other same =
    let code = str_eq_of_eq same in
    let a = m.amount_cents in
    let b = other.amount_cents in
    elim (Bool-cases (ltb_ℤ a b)) [
      | inl lower ↦
          let apart : eqb_ℤ a b ≡ false = ground arith in
          inl (lower, rw (code, lower, apart) (refl, refl, refl, refl, refl, refl))
      | inr not_lower ↦ elim (Bool-cases (ltb_ℤ b a)) [
        | inl higher ↦
            let apart : eqb_ℤ a b ≡ false = ground arith in
            inr (
              inr
                (higher, rw (code, not_lower, higher, apart) (refl, refl, refl, refl, refl, refl)))
        | inr not_higher ↦
            let equal : a ≡ b = ground arith in
            let tie : eqb_ℤ a b ≡ true = ground arith in
            inr (
              inl (
                λ i. money (equal i) (same i),
                rw (code, not_lower, not_higher, tie) (refl, refl, refl, refl, refl, refl),
              ))
      ]
    ]
