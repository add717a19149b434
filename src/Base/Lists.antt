-- ===== src/Base/Lists.antt =====
-- Lists over the native numbers: length, sums, membership and distinctness of keys as recursions,
-- and the JavaScript array methods `filter`, `some` and `every` by a Boolean test.
use Prim.Native.Nat.{ℕ, zero, suc, ◌+◌, ◌≤◌}
use mathlib.Core.Path.{◌≡◌, refl, ap}
use mathlib.Core.Logic.{◌≢◌, inl, inr}
use mathlib.Core.Bool.{Bool, true, false, ◌&&◌, ◌||◌}
use mathlib.Core.List.{List, [], ◌∷◌, ◌++◌, map}
use native.Mathlib.Omega.{arith}
use financial_os.Base.Tests.{if◌then◌else◌, ◌==◌, Bool-cases}

module _ {ℓ} {A : Type ℓ} where
  abbrev pub length : List A → ℕ
  length [] = 0
  length (x ∷ xs) = suc (length xs)

  -- `xs.filter(test)`
  abbrev pub filter : (A → Bool) → List A → List A
  filter test [] = []
  filter test (x ∷ xs) = if test x then x ∷ filter test xs else filter test xs

  -- The first `n` entries.
  abbrev pub take : ℕ → List A → List A
  take zero xs = []
  take (suc n) [] = []
  take (suc n) (x ∷ xs) = x ∷ take n xs

  -- `xs.some(test)`
  abbrev pub any : (A → Bool) → List A → Bool
  any test [] = false
  any test (x ∷ xs) = test x || any test xs

  -- `xs.every(test)`
  abbrev pub all : (A → Bool) → List A → Bool
  all test [] = true
  all test (x ∷ xs) = test x && all test xs

  -- The sum of a measure over a list.
  abbrev pub sum_by : (A → ℕ) → List A → ℕ
  sum_by f [] = 0
  sum_by f (x ∷ xs) = f x + sum_by f xs

  abbrev pub All {κ} : (A → Type κ) → List A → Type κ
  All P [] = Unit
  All P (x ∷ xs) = P x × All P xs

  pub length-append : (xs ys : List A) → length (xs ++ ys) ≡ length xs + length ys
  length-append [] ys = omega arith
  length-append (x ∷ xs) ys = omega (arith, length-append xs ys)

  pub length-filter-le : (test : A → Bool) (xs : List A) → length (filter test xs) ≤ length xs
  length-filter-le test [] = omega arith
  length-filter-le test (x ∷ xs) = ground (arith, length-filter-le test xs)

  pub filter-append :
      (test : A → Bool) (xs ys : List A) → filter test (xs ++ ys) ≡ filter test xs ++ filter test ys
  filter-append test [] ys = refl
  filter-append test (x ∷ xs) ys = elim (Bool-cases (test x)) [
    | inl e ↦ rw e (ap (λ zs. x ∷ zs) (filter-append test xs ys))
    | inr e ↦ rw e (filter-append test xs ys)
  ]

  pub sum_by-append : (f : A → ℕ) (xs ys : List A) → sum_by f (xs ++ ys) ≡ sum_by f xs + sum_by f ys
  sum_by-append f [] ys = omega arith
  sum_by-append f (x ∷ xs) ys = omega (arith, sum_by-append f xs ys)

  pub All-append {κ} : (P : A → Type κ) (xs ys : List A) → All P xs → All P ys → All P (xs ++ ys)
  All-append P [] ys p q = q
  All-append P (x ∷ xs) ys p q = (p.0, All-append P xs ys p.1 q)

  pub All-filter {κ} :
      (P : A → Type κ) (test : A → Bool) (xs : List A) → All P xs → All P (filter test xs)
  All-filter P test [] h = tt
  All-filter P test (x ∷ xs) h = elim (Bool-cases (test x)) [
    | inl e ↦ rw e (h.0, All-filter P test xs h.1)
    | inr e ↦ rw e (All-filter P test xs h.1)
  ]

  pub All-map_into {κ μ} :
      (P : A → Type κ) (Q : A → Type μ)
      → ((x : A) → P x → Q x)
      → (xs : List A) → All P xs
      → All Q xs
  All-map_into P Q f [] h = tt
  All-map_into P Q f (x ∷ xs) h = (f x h.0, All-map_into P Q f xs h.1)

  pub All-of {κ} : (P : A → Type κ) → ((x : A) → P x) → (xs : List A) → All P xs
  All-of P f [] = tt
  All-of P f (x ∷ xs) = (f x, All-of P f xs)

  pub All-zip {κ μ ν} :
      (P : A → Type κ) (Q : A → Type μ) (R : A → Type ν)
      → ((x : A) → P x → Q x → R x)
      → (xs : List A) → All P xs
      → All Q xs
      → All R xs
  All-zip P Q R f [] h k = tt
  All-zip P Q R f (x ∷ xs) h k = (f x h.0 k.0, All-zip P Q R f xs h.1 k.1)

  -- Every element is found by its key.
  pub any_own : (key : A → ℕ) (xs : List A) → All (λ x. any (λ y. key y == key x) xs ≡ true) xs
  any_own key [] = tt
  any_own key (x ∷ xs) = (
    ground arith,
    All-map_into (λ z. any (λ y. key y == key z) xs ≡ true)
        (λ z. any (λ y. key y == key z) (x ∷ xs) ≡ true) (λ z h. ground arith) xs (any_own key xs),
  )

  -- `key` is absent from the keys of the list.
  abbrev pub IsAbsent : (A → ℕ) → ℕ → List A → Type 0
  IsAbsent key k = All (λ x. key x ≢ k)

  -- No two entries have the same key.
  abbrev pub IsDistinct : (A → ℕ) → List A → Type 0
  IsDistinct key [] = Unit
  IsDistinct key (x ∷ xs) = IsAbsent key (key x) xs × IsDistinct key xs

  pub All-take {κ} : (P : A → Type κ) (n : ℕ) (xs : List A) → All P xs → All P (take n xs)
  All-take P zero xs h = tt
  All-take P (suc n) [] h = tt
  All-take P (suc n) (x ∷ xs) h = (h.0, All-take P n xs h.1)

  pub take-IsDistinct :
      (key : A → ℕ) (n : ℕ) (xs : List A) → IsDistinct key xs → IsDistinct key (take n xs)
  take-IsDistinct key zero xs d = tt
  take-IsDistinct key (suc n) [] d = tt
  take-IsDistinct key (suc n) (x ∷ xs) d =
      (All-take (λ y. key y ≢ key x) n xs d.0, take-IsDistinct key n xs d.1)

  pub filter-IsAbsent :
      (key : A → ℕ) (k : ℕ) (test : A → Bool) (xs : List A)
      → IsAbsent key k xs
      → IsAbsent key k (filter test xs)
  filter-IsAbsent key k test = All-filter (λ x. key x ≢ k) test

  pub filter-IsDistinct :
      (key : A → ℕ) (test : A → Bool) (xs : List A)
      → IsDistinct key xs
      → IsDistinct key (filter test xs)
  filter-IsDistinct key test [] h = tt
  filter-IsDistinct key test (x ∷ xs) h = elim (Bool-cases (test x)) [
    | inl e ↦ rw e (filter-IsAbsent key (key x) test xs h.0, filter-IsDistinct key test xs h.1)
    | inr e ↦ rw e (filter-IsDistinct key test xs h.1)
  ]

module _ {ℓ κ} {A : Type ℓ} {B : Type κ} where
  pub length-map : (f : A → B) (xs : List A) → length (map f xs) ≡ length xs
  length-map f [] = refl
  length-map f (x ∷ xs) = ap suc (length-map f xs)

  pub All-map {μ} :
      (P : B → Type μ) (f : A → B) (xs : List A) → All (λ x. P (f x)) xs → All P (map f xs)
  All-map P f [] h = tt
  All-map P f (x ∷ xs) h = (h.0, All-map P f xs h.1)

  pub All-map_conv {μ} :
      (P : B → Type μ) (f : A → B) (xs : List A) → All P (map f xs) → All (λ x. P (f x)) xs
  All-map_conv P f [] h = tt
  All-map_conv P f (x ∷ xs) h = (h.0, All-map_conv P f xs h.1)

  pub map-IsAbsent :
      (key : B → ℕ) (f : A → B) (k : ℕ) (xs : List A)
      → IsAbsent (λ x. key (f x)) k xs
      → IsAbsent key k (map f xs)
  map-IsAbsent key f k [] h = tt
  map-IsAbsent key f k (x ∷ xs) h = (h.0, map-IsAbsent key f k xs h.1)

  pub map-IsDistinct :
      (key : B → ℕ) (f : A → B) (xs : List A)
      → IsDistinct (λ x. key (f x)) xs
      → IsDistinct key (map f xs)
  map-IsDistinct key f [] h = tt
  map-IsDistinct key f (x ∷ xs) h = (map-IsAbsent key f _ xs h.0, map-IsDistinct key f xs h.1)

  pub map-IsDistinct_conv :
      (key : B → ℕ) (f : A → B) (xs : List A)
      → IsDistinct key (map f xs)
      → IsDistinct (λ x. key (f x)) xs
  map-IsDistinct_conv key f [] h = tt
  map-IsDistinct_conv key f (x ∷ xs) h =
      (All-map_conv (λ y. key y ≢ key (f x)) f xs h.0, map-IsDistinct_conv key f xs h.1)

-- A UUID: the code compares identifiers by `===` and `<` and does nothing else with them.
abbrev pub Uuid : Type 0
Uuid = ℕ
