-- ===== src/Money/Currency.antt =====
-- `normalizeCurrency` of `common/money/money.ts`, and `ensureProfileCurrency` of
-- `modules/shared-elements/domain/currency-guard.ts`. A currency code is the list of its
-- characters' codes, of which `toUpperCase` changes the ASCII letters.
use financial_os.Base.{
  ℕ, ◌-◌, ◌≡◌, refl, sym, ap, ◌∙◌, Bool, true, false, ◌&&◌, List, [], ◌∷◌, map, arith, leb, ◌==◌,
  if◌then◌else◌, Bool-cases, inl, inr,
}
use financial_os.Errors.{
  Result, ok, fail, currency_mismatch, Attempt, returned, threw, invalid_currency,
  returned_injective,
}

abbrev pub CurrencyCode : Type 0
CurrencyCode = List ℕ

unfoldable pub is_upper : ℕ → Bool
is_upper c = leb b'A' c && leb c b'Z'

unfoldable pub upper_char : ℕ → ℕ
upper_char c = if leb b'a' c && leb c b'z' then c - 32 else c

-- `code.toUpperCase()`
unfoldable pub to_upper : CurrencyCode → CurrencyCode
unfolding upper_char
to_upper = map upper_char

-- `/^[A-Z]{3}$/.test(code)`
unfoldable pub is_alpha3 : CurrencyCode → Bool
unfolding is_upper
is_alpha3 (a ∷ b ∷ c ∷ []) = is_upper a && is_upper b && is_upper c
is_alpha3 _ = false

unfoldable pub normalize_currency : CurrencyCode → Attempt CurrencyCode
unfolding to_upper is_alpha3
normalize_currency code =
    if is_alpha3 (to_upper code) then returned (to_upper code) else threw invalid_currency

-- `===` on strings.
abbrev pub str_eq : CurrencyCode → CurrencyCode → Bool
str_eq [] [] = true
str_eq (a ∷ s) (b ∷ t) = a == b && str_eq s t
str_eq _ _ = false

unfoldable pub ensure_profile_currency : CurrencyCode → CurrencyCode → Result (Unit {0})
unfolding to_upper
ensure_profile_currency base candidate =
    if str_eq (to_upper base) (to_upper candidate) then ok tt else fail currency_mismatch

pub str_eq_refl : (s : CurrencyCode) → str_eq s s ≡ true
str_eq_refl [] = refl
str_eq_refl (c ∷ s) = ground (arith, str_eq_refl s)

pub str_eq_sound : (s t : CurrencyCode) → str_eq s t ≡ true → s ≡ t
str_eq_sound [] [] h = refl
str_eq_sound [] (b ∷ t) h = cc
str_eq_sound (a ∷ s) [] h = cc
str_eq_sound (a ∷ s) (b ∷ t) h = ground (arith, str_eq_sound s t)

upper_char_idem : (c : ℕ) → upper_char (upper_char c) ≡ upper_char c
unfolding upper_char
upper_char_idem c = ground arith

pub to_upper_idem : (s : CurrencyCode) → to_upper (to_upper s) ≡ to_upper s
unfolding to_upper
to_upper_idem [] = refl
to_upper_idem (c ∷ s) = ground (arith, upper_char_idem c, to_upper_idem s)

pub normalize_currency_value :
    (code : CurrencyCode) {upper : CurrencyCode}
    → normalize_currency code ≡ returned upper
    → (upper ≡ to_upper code) × (is_alpha3 (to_upper code) ≡ true)
unfolding normalize_currency
normalize_currency_value code h = elim (Bool-cases (is_alpha3 (to_upper code))) [
  | inl valid ↦ (sym (returned_injective (rw valid at h)), valid)
  | inr invalid ↦ let bad = rw invalid at h in cc
]

pub normalize_currency_valid :
    (code : CurrencyCode)
    → is_alpha3 (to_upper code) ≡ true
    → normalize_currency code ≡ returned (to_upper code)
unfolding normalize_currency
normalize_currency_valid code h = rw h

-- A normalized code is valid, and normalizing it again changes nothing.
pub normalize_currency_idem :
    (code : CurrencyCode) {upper : CurrencyCode}
    → normalize_currency code ≡ returned upper
    → normalize_currency upper ≡ returned upper
normalize_currency_idem code h =
    let (same, valid) = normalize_currency_value code h in
    let fixed = to_upper_idem code in
    rw same
      (normalize_currency_valid (to_upper code) (ap is_alpha3 fixed ∙ valid) ∙ ap returned fixed)
