-- ===== src/Store/Inserted.antt =====
-- Lemmas on a row that is inserted under a new key, behind all others.
use financial_os.Base.{
  ℕ, ◌≡◌, ◌≢◌, refl, sym, ap, Bool, true, false, none, some, List, [], ◌∷◌, ◌++◌, All, All-append,
  IsAbsent, IsDistinct, Bool-cases, inl, inr,
}
use financial_os.Store.Memberships.{find_first, update_first}

module _ {ℓ} {A : Type ℓ} where
  -- No row passes, if every row fails.
  pub find_first-absent :
      (test : A → Bool) (xs : List A) → All (λ x. test x ≡ false) xs → find_first test xs ≡ none
  find_first-absent test [] h = refl
  find_first-absent test (x ∷ xs) (miss, h) = rw miss (find_first-absent test xs h)

  pub find_first-append_new :
      (test : A → Bool) (xs : List A) (x : A)
      → find_first test xs ≡ none
      → test x ≡ true
      → find_first test (xs ++ (x ∷ [])) ≡ some x
  find_first-append_new test [] x h hit = rw hit refl
  find_first-append_new test (y ∷ xs) x h hit = elim (Bool-cases (test y)) [
    | inl other ↦ let found = rw other at h in cc
    | inr miss ↦ rw miss (find_first-append_new test xs x (rw miss at h) hit)
  ]

  pub append-IsDistinct :
      (key : A → ℕ) (xs : List A) (x : A)
      → IsDistinct key xs
      → IsAbsent key (key x) xs
      → IsDistinct key (xs ++ (x ∷ []))
  append-IsDistinct key [] x d absent = (tt, tt)
  append-IsDistinct key (y ∷ xs) x (away, d) (ne, absent) = (
    All-append (λ z. key z ≢ key y) xs (x ∷ []) away ((λ e. ne (sym e)), tt),
    append-IsDistinct key xs x d absent,
  )

  pub find_first-append_other :
      (test : A → Bool) (xs : List A) (x : A)
      → test x ≡ false
      → find_first test (xs ++ (x ∷ [])) ≡ find_first test xs
  find_first-append_other test [] x miss = rw miss refl
  find_first-append_other test (y ∷ xs) x miss = elim (Bool-cases (test y)) [
    | inl hit ↦ rw hit refl
    | inr other ↦ rw other (find_first-append_other test xs x miss)
  ]

  -- Searches of a list in which the first row that passes a test is changed by `f`: one for other
  -- rows is not touched, and one by the same test finds the changed row.
  module _ (test : A → Bool) (f : A → A) where
    pub find_first-update_other :
        (other : A → Bool) (xs : List A)
        → ((x : A) → test x ≡ true → other x ≡ false)
        → ((x : A) → other (f x) ≡ other x)
        → find_first other (update_first test f xs) ≡ find_first other xs
    find_first-update_other other [] apart keeps = refl
    find_first-update_other other (x ∷ xs) apart keeps = elim (Bool-cases (test x)) [
      | inl hit ↦ rw (hit, keeps x, apart x hit) refl
      | inr miss ↦ rw miss (elim (Bool-cases (other x)) [
        | inl found ↦ rw found refl
        | inr not_yet ↦ rw not_yet (find_first-update_other other xs apart keeps)
      ])
    ]

    pub find_first-update_same :
        (xs : List A) {r : A}
        → ((x : A) → test (f x) ≡ test x)
        → find_first test xs ≡ some r
        → find_first test (update_first test f xs) ≡ some (f r)
    find_first-update_same [] keeps h = cc
    find_first-update_same (x ∷ xs) {r} keeps h = elim (Bool-cases (test x)) [
      | inl hit ↦
          let same : some x ≡ some r = rw hit at h in
          let e : x ≡ r = cc in rw (hit, keeps x, hit) (ap (λ y. some (f y)) e)
      | inr miss ↦ rw (miss, miss) (find_first-update_same xs keeps (rw miss at h))
    ]
