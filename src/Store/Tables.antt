-- ===== src/Store/Tables.antt =====
-- Lemmas on rows found and changed by a key.
use financial_os.Base.{
  ℕ, ◌+◌, ◌≡◌, ◌≢◌, refl, sym, ap, subst, ◌∙◌, Bool, true, false, ◌&&◌, some, List, [], ◌∷◌, arith,
  ◌==◌, filter, sum_by, All, IsAbsent, IsDistinct, All-zip, Bool-cases, inl, inr,
}
use financial_os.Store.Memberships.{find_first, update_first}

module _ {ℓ} {A : Type ℓ} where
  pub find_first-test :
      (test : A → Bool) (xs : List A) {r : A} → find_first test xs ≡ some r → test r ≡ true
  find_first-test test [] h = cc
  find_first-test test (x ∷ xs) {r} h = elim (Bool-cases (test x)) [
    | inl hit ↦ let same : some x ≡ some r = rw hit at h in subst (λ y. test y ≡ true) (cc) hit
    | inr miss ↦ find_first-test test xs (rw miss at h)
  ]

  pub find_first-All {κ} :
      (P : A → Type κ) (test : A → Bool) (xs : List A) {r : A}
      → All P xs
      → find_first test xs ≡ some r
      → P r
  find_first-All P test [] hs h = absurd (cc)
  find_first-All P test (x ∷ xs) {r} (p, ps) h = elim (Bool-cases (test x)) [
    | inl hit ↦ let same : some x ≡ some r = rw hit at h in subst P (cc) p
    | inr miss ↦ find_first-All P test xs ps (rw miss at h)
  ]

  pub find_first-filter :
      (test keep : A → Bool) (xs : List A)
      → find_first test (filter keep xs) ≡ find_first (λ x. keep x && test x) xs
  find_first-filter test keep [] = refl
  find_first-filter test keep (x ∷ xs) = ground (arith, find_first-filter test keep xs)

  -- Changing the row that is found changes a sum by what the row counts.
  pub sum_by-update_first :
      (g : A → ℕ) (test : A → Bool) (f : A → A) (xs : List A) {r : A}
      → find_first test xs ≡ some r
      → sum_by g (update_first test f xs) + g r ≡ sum_by g xs + g (f r)
  sum_by-update_first g test f [] h = cc
  sum_by-update_first g test f (x ∷ xs) {r} h = elim (Bool-cases (test x)) [
    | inl hit ↦
        let same : some x ≡ some r = rw hit at h in let e : x ≡ r = cc in rw (hit, e) (omega arith)
    | inr miss ↦ rw miss (omega (arith, sum_by-update_first g test f xs (rw miss at h)))
  ]

  pub All-update_first {κ} :
      (P : A → Type κ) (test : A → Bool) (f : A → A) (xs : List A) {r : A}
      → All P xs
      → find_first test xs ≡ some r
      → P (f r)
      → All P (update_first test f xs)
  All-update_first P test f [] hs h p = tt
  All-update_first P test f (x ∷ xs) {r} (q, qs) h p = elim (Bool-cases (test x)) [
    | inl hit ↦
        let same : some x ≡ some r = rw hit at h in
        let e : r ≡ x = cc in rw hit (subst (λ y. P (f y)) e p, qs)
    | inr miss ↦ rw miss (q, All-update_first P test f xs qs (rw miss at h) p)
  ]

  module _ (key : A → ℕ) where
    abbrev keyed : ℕ → A → Bool
    keyed k x = key x == k

    -- Every row is found by its key, as long as keys are distinct.
    pub find_first-own :
        (xs : List A) → IsDistinct key xs → All (λ x. find_first (keyed (key x)) xs ≡ some x) xs
    find_first-own [] d = tt
    find_first-own (x ∷ xs) (absent, d) = (
      ground arith,
      All-zip _ _ _ (λ y ne own. ground (arith, own)) xs absent (find_first-own xs d),
    )

    pub find_first-key :
        (test : A → Bool) (xs : List A) {r : A}
        → IsDistinct key xs
        → find_first test xs ≡ some r
        → find_first (keyed (key r)) xs ≡ some r
    find_first-key test [] d h = cc
    find_first-key test (x ∷ xs) {r} (absent, d) h = elim (Bool-cases (test x)) [
      | inl hit ↦
          let same : some x ≡ some r = rw hit at h in
          let e : x ≡ r = cc in
          let own : keyed (key r) x ≡ true = ground arith in rw own (ap some e)
      | inr miss ↦
          let later = rw miss at h in
          let ne : key x ≢ key r = λ e. absent_found xs absent later (sym e) in
          let other : keyed (key r) x ≡ false = ground arith in
          rw other (find_first-key test xs d later)
    ]
      where
        absent_found :
            (ys : List A) {y : A} {k : ℕ}
            → IsAbsent key k ys
            → find_first test ys ≡ some y
            → key y ≢ k
        absent_found ys a e = find_first-All (λ y. key y ≢ _) test ys a e

    module _ (f : A → A) (keeps : (x : A) → key (f x) ≡ key x) where
      update_first-IsAbsent :
          (k : ℕ) (test : A → Bool) (xs : List A)
          → IsAbsent key k xs
          → IsAbsent key k (update_first test f xs)
      update_first-IsAbsent k test [] a = tt
      update_first-IsAbsent k test (x ∷ xs) (ne, a) = elim (Bool-cases (test x)) [
        | inl hit ↦ rw hit ((λ e. ne (sym (keeps x) ∙ e)), a)
        | inr miss ↦ rw miss (ne, update_first-IsAbsent k test xs a)
      ]

      pub update_first-IsDistinct :
          (test : A → Bool) (xs : List A)
          → IsDistinct key xs
          → IsDistinct key (update_first test f xs)
      update_first-IsDistinct test [] d = tt
      update_first-IsDistinct test (x ∷ xs) (a, d) = elim (Bool-cases (test x)) [
        | inl hit ↦ rw hit (rw (keeps x) a, d)
        | inr miss ↦
            rw miss (update_first-IsAbsent (key x) test xs a, update_first-IsDistinct test xs d)
      ]

      pub find_first-update_first :
          (k j : ℕ) (xs : List A)
          → j ≢ k
          → find_first (keyed j) (update_first (keyed k) f xs) ≡ find_first (keyed j) xs
      find_first-update_first k j [] ne = refl
      find_first-update_first k j (x ∷ xs) ne =
          ground (arith, keeps x, find_first-update_first k j xs ne)

      pub find_first-update_first_self :
          (k : ℕ) (xs : List A) {r : A}
          → find_first (keyed k) xs ≡ some r
          → find_first (keyed k) (update_first (keyed k) f xs) ≡ some (f r)
      find_first-update_first_self k [] h = cc
      find_first-update_first_self k (x ∷ xs) {r} h = elim (Bool-cases (keyed k x)) [
        | inl hit ↦
            let same : some x ≡ some r = rw hit at h in
            let e : x ≡ r = cc in
            let still : keyed k (f x) ≡ true = ground (arith, keeps x) in
            rw (hit, still) (ap (λ y. some (f y)) e)
        | inr miss ↦ rw (miss, miss) (find_first-update_first_self k xs (rw miss at h))
      ]
