-- ===== src/Pagination.antt =====
-- Cursor pagination, `common/graphql/pagination.ts`. The runtime's base64url coding, `Buffer.from` and
-- `toString`, is a parameter; it does not throw on a string, so the `catch` of `decodeCursor` is dead.
-- Strings are lists of character codes.
pub mod Walk
use financial_os.Base.{
  ℕ, zero, suc, ◌+◌, ◌≤◌, ◌<◌, ◌≡◌, refl, Bool, true, false, Option, none, some, List, [], ◌∷◌,
  ◌++◌, arith, if◌then◌else◌, ltb, min, take, length,
}
use financial_os.Base.Int.{ℤ, pos, negsuc, ltb_ℤ, pos_part}
use financial_os.Money.Currency.{str_eq}
use financial_os.Money.Values.{Number, integer, fractional}

abbrev pub Text : Type 0
Text = List ℕ

abbrev pub default_page_size : ℕ
default_page_size = 50

abbrev pub max_page_size : ℕ
max_page_size = 100

pub record PageArgs : Type 0 where
  pub first : Option Number
  pub after : Option Text

unfoldable pub clamp_page_size : Option Number → ℕ
clamp_page_size none = default_page_size
clamp_page_size (some fractional) = default_page_size
clamp_page_size (some (integer first)) =
    if ltb_ℤ first (pos 1) then default_page_size else min (pos_part first) max_page_size

-- An empty string counts as absent.
abbrev pub non_empty : Text → Option Text
non_empty [] = none
non_empty (c ∷ s) = some (c ∷ s)

unfoldable pub decode_cursor : (Text → Text) → Option Text → Option Text
decode_cursor decode none = none
decode_cursor decode (some []) = none
decode_cursor decode (some (c ∷ s)) = non_empty (decode (c ∷ s))

-- `findIndex(…) + 1`: 0, when no item has the identifier.
abbrev pub start_after {ℓ} : {A : Type ℓ} → (A → Text) → Text → List A → ℕ
start_after id after [] = 0
start_after id after (x ∷ xs) =
    let rest = start_after id after xs in
    if str_eq (id x) after then 1 else elim rest [ zero ↦ 0 | suc i ↦ suc (suc i) ]

-- The entries from an index on.
abbrev pub drop {ℓ} : {A : Type ℓ} → ℕ → List A → List A
drop zero xs = xs
drop (suc n) [] = []
drop (suc n) (x ∷ xs) = drop n xs

abbrev pub start_of {ℓ} : {A : Type ℓ} → (A → Text) → List A → Option Text → ℕ
start_of id items none = 0
start_of id items (some after) = start_after id after items

unfoldable pub page_slice {ℓ} :
    {A : Type ℓ} → (Text → Text) → (A → Text) → List A → PageArgs → List A
page_slice decode id items args =
    take (clamp_page_size args.first)
      (drop (start_of id items (decode_cursor decode args.after)) items)

-- The arguments of `findMany`.
pub record PrismaPage : Type 0 where
  pub size : ℕ
  pub skip : Option ℕ
  pub cursor : Option Text

abbrev pub prisma_page : (Text → Text) → PageArgs → PrismaPage
prisma_page decode args = elim (decode_cursor decode args.after) [
  | none ↦ record { size = clamp_page_size args.first; skip = none; cursor = none }
  | some after ↦ record { size = clamp_page_size args.first; skip = some 1; cursor = some after }
]

-- Every page size is from 1 to 100.
pub clamp_page_size_range :
    (first : Option Number) → (1 ≤ clamp_page_size first) × (clamp_page_size first ≤ 100)
unfolding clamp_page_size
clamp_page_size_range none = omega arith
clamp_page_size_range (some fractional) = omega arith
clamp_page_size_range (some (integer z)) = ground arith
