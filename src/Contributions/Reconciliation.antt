-- ===== src/Contributions/Reconciliation.antt =====
-- The reconciliation of `contribution-period.ts`: the pool of a period against the contributions
-- that its snapshot expects. A `Map<string, bigint>` is the list of its entries, its keys distinct.
use financial_os.Base.{
  ◌≡◌, ◌↔◌, inl, inr, refl, sym, ap, subst, ◌∙◌, Bool, true, false, List, [], ◌∷◌, arith,
  if◌then◌else◌, ◌==◌, any, All, IsAbsent, IsDistinct, Uuid, Bool-cases,
}
use financial_os.Base.Int.{
  ℤ, pos, ◌+ℤ◌, ◌-ℤ◌, ltb_ℤ, eqb_ℤ, int_laws, sum_ℤ, +ℤ_assoc, +ℤ_zero, zero_+ℤ,
}
use financial_os.Errors.{Attempt, returned, ◌>>=◌}
use financial_os.Money.Values.{Number}
use financial_os.Contributions.Analytics.{
  ContributionStanding, expected_contribution_cents, compute_standing,
}

pub record MemberSnapshot : Type 0 where
  pub membership_id : Uuid
  pub income_cents : ℤ
  pub percentage_bp : Number

pub record Reconciliation : Type 0 where
  pub pool_expected_cents : ℤ
  pub pool_actual_cents : ℤ
  pub variance_cents : ℤ
  pub shortfall_cents : ℤ
  pub reconciled : Bool

abbrev pub Amounts : Type 0
Amounts = List (Uuid × ℤ)

unfoldable pub expected_for_member : MemberSnapshot → Attempt ℤ
expected_for_member m = expected_contribution_cents m.income_cents m.percentage_bp

pub member_standing : MemberSnapshot → ℤ → Attempt ContributionStanding
unfolding expected_for_member
member_standing m actual =
    expected_for_member m >>= λ expected. returned (compute_standing expected actual)

-- `actualByMember.get(id) ?? 0n`
abbrev pub get_or_zero : Amounts → Uuid → ℤ
get_or_zero [] id = pos 0
get_or_zero ((k, v) ∷ es) id = if k == id then v else get_or_zero es id

-- The first loop: expected and actual sums over the members.
unfoldable pub sum_members : Amounts → List MemberSnapshot → ℤ → ℤ → Attempt (ℤ × ℤ)
sum_members amounts [] expected actual = returned (expected, actual)
sum_members amounts (m ∷ ms) expected actual = expected_for_member m >>= λ e.
    sum_members amounts ms (expected +ℤ e) (actual +ℤ get_or_zero amounts m.membership_id)

-- `members.some((m) => m.membershipId === id)`
abbrev pub is_member : List MemberSnapshot → Uuid → Bool
is_member ms id = any (λ m. m.membership_id == id) ms

-- The second loop: records of those who are not in the snapshot.
unfoldable pub sum_others : List MemberSnapshot → Amounts → ℤ → ℤ
sum_others ms [] actual = actual
sum_others ms ((k, v) ∷ es) actual =
    sum_others ms es (if is_member ms k then actual else actual +ℤ v)

abbrev summary : ℤ → ℤ → Reconciliation
summary expected actual =
    let variance = actual -ℤ expected in
    record {
      pool_expected_cents = expected;
      pool_actual_cents = actual;
      variance_cents = variance;
      shortfall_cents = if ltb_ℤ variance (pos 0) then pos 0 -ℤ variance else pos 0;
      reconciled = eqb_ℤ variance (pos 0);
    }

unfoldable pub reconcile : List MemberSnapshot → Amounts → Attempt Reconciliation
unfolding sum_members sum_others
reconcile members amounts = sum_members amounts members (pos 0) (pos 0) >>= λ sums.
    returned (summary sums.0 (sum_others members amounts sums.1))

-- The expectation of a member whose percentage is in range.
abbrev pub IsExpected : (MemberSnapshot → ℤ) → MemberSnapshot → Type 0
IsExpected expected m = expected_for_member m ≡ returned (expected m)

module _ (expected : MemberSnapshot → ℤ) (amounts : Amounts) where
  sum_members_lem :
      (ms : List MemberSnapshot) (e a : ℤ)
      → All (IsExpected expected) ms
      → sum_members amounts ms e a
        ≡ returned
            (e +ℤ sum_ℤ expected ms, a +ℤ sum_ℤ (λ m. get_or_zero amounts m.membership_id) ms)
  unfolding sum_members
  sum_members_lem [] e a h = simp +ℤ_zero
  sum_members_lem (m ∷ ms) e a (h, hs) = rw h (sum_members_lem ms _ _ hs ∙ simp +ℤ_assoc)

-- The amount of one entry, if its key is not among the members.
abbrev outside : List MemberSnapshot → Uuid × ℤ → ℤ
outside ms (k, v) = if is_member ms k then pos 0 else v

sum_others_lem :
    (ms : List MemberSnapshot) (es : Amounts) (a : ℤ)
    → sum_others ms es a ≡ a +ℤ sum_ℤ (outside ms) es
unfolding sum_others
sum_others_lem ms [] a = simp +ℤ_zero
sum_others_lem ms ((k, v) ∷ es) a = elim (Bool-cases (is_member ms k)) [
  | inl inside ↦ rw inside (sum_others_lem ms es a ∙ omega int_laws)
  | inr other ↦ rw other (sum_others_lem ms es (a +ℤ v) ∙ simp +ℤ_assoc)
]

-- What the members find in the map.
abbrev found : Amounts → List MemberSnapshot → ℤ
found es = sum_ℤ (λ m. get_or_zero es m.membership_id)

get_or_zero-absent : (k : Uuid) (es : Amounts) → IsAbsent (λ e. e.0) k es → get_or_zero es k ≡ pos 0
get_or_zero-absent k [] h = refl
get_or_zero-absent k ((j, v) ∷ es) (ne, h) = ground (arith, get_or_zero-absent k es h)

found_absent :
    (k : Uuid) (v : ℤ) (es : Amounts) (ms : List MemberSnapshot)
    → IsAbsent (λ m. m.membership_id) k ms
    → (found ((k, v) ∷ es) ms ≡ found es ms) × (is_member ms k ≡ false)
found_absent k v es [] h = (refl, refl)
found_absent k v es (m ∷ ms) (ne, h) =
    let (same, none_is) = found_absent k v es ms h in (ground arith, ground arith)

regroup : (g x y z w : ℤ) → x +ℤ y ≡ z +ℤ w → g +ℤ x +ℤ y ≡ g +ℤ z +ℤ w
regroup g x y z w h = +ℤ_assoc g x y ∙ ap (λ t. g +ℤ t) h ∙ sym (+ℤ_assoc g z w)

-- One entry more is found once, if its key is a member's, and is counted outside otherwise.
found_entry :
    (k : Uuid) (v : ℤ) (es : Amounts) (ms : List MemberSnapshot)
    → IsDistinct (λ m. m.membership_id) ms
    → IsAbsent (λ e. e.0) k es
    → found ((k, v) ∷ es) ms +ℤ outside ms (k, v) ≡ found es ms +ℤ v
found_entry k v es [] d a = refl
found_entry k v es (m ∷ ms) (absent, d) a = elim (Bool-cases (k == m.membership_id)) [
  | inl same ↦
      let e : m.membership_id ≡ k = ground arith in
      let (others, _) =
        found_absent k v es ms (subst (λ i. IsAbsent (λ m. m.membership_id) i ms) e absent) in
      let inside : (m.membership_id == k) ≡ true = ground arith in
      let nothing : get_or_zero es m.membership_id ≡ pos 0 =
        ap (get_or_zero es) e ∙ get_or_zero-absent k es a in
      rw (same, inside, nothing, others) (omega int_laws)
  | inr other ↦
      let apart : (m.membership_id == k) ≡ false = ground arith in
      rw (other, apart)
        (regroup (get_or_zero es m.membership_id) _ _ _ _ (found_entry k v es ms d a))
]

found_nothing : (ms : List MemberSnapshot) → found [] ms ≡ pos 0
found_nothing [] = refl
found_nothing (m ∷ ms) = rw (found_nothing ms) (zero_+ℤ (pos 0))

swap : (f v s : ℤ) → f +ℤ v +ℤ s ≡ v +ℤ (f +ℤ s)
swap f v s = omega int_laws

-- Members and others together find every entry once.
found-outside :
    (ms : List MemberSnapshot) (es : Amounts)
    → IsDistinct (λ m. m.membership_id) ms
    → IsDistinct (λ e. e.0) es
    → found es ms +ℤ sum_ℤ (outside ms) es ≡ sum_ℤ (λ e. e.1) es
found-outside ms [] d h = simp (found_nothing ms, +ℤ_zero)
found-outside ms ((k, v) ∷ es) d (absent, h) =
    sym (+ℤ_assoc (found ((k, v) ∷ es) ms) _ _)
    ∙ ap (λ t. t +ℤ sum_ℤ (outside ms) es) (found_entry k v es ms d absent)
    ∙ swap (found es ms) v _
    ∙ ap (λ t. v +ℤ t) (found-outside ms es d h)

-- The summary of a period: what is expected, what was paid, and how they compare.
pub record Reconciles (expected actual : ℤ) (r : Reconciliation) : Type 0 where
  pub expects : r.pool_expected_cents ≡ expected
  pub pays : r.pool_actual_cents ≡ actual
  pub varies : r.variance_cents +ℤ expected ≡ actual
  pub short : r.shortfall_cents ≡ (if ltb_ℤ actual expected then expected -ℤ actual else pos 0)
  pub meets : (r.reconciled ≡ true) ↔ (actual ≡ expected)

summary-Reconciles : (e a : ℤ) → Reconciles e a (summary e a)
unfolding ◌+ℤ◌ ◌-ℤ◌
summary-Reconciles e a = ground arith

-- Zero-variance reconciliation: for distinct members with percentages in range and a map of amounts
-- with distinct keys, `reconcile` returns, the pool is exactly the sum of all amounts in the map
-- (members' and others'), the expectation is the sum of the members' expectations, the variance is
-- the difference, the shortfall is the unmet part, and the period is reconciled exactly when the two
-- sums are equal.
pub reconcile-Reconciles :
    (expected : MemberSnapshot → ℤ) (ms : List MemberSnapshot) (amounts : Amounts)
    → All (IsExpected expected) ms
    → IsDistinct (λ m. m.membership_id) ms
    → IsDistinct (λ e. e.0) amounts
    → (r : Reconciliation) × (reconcile ms amounts ≡ returned r)
      × Reconciles (sum_ℤ expected ms) (sum_ℤ (λ e. e.1) amounts) r
unfolding reconcile
reconcile-Reconciles expected ms amounts h dm de =
    let pool : sum_others ms amounts (pos 0 +ℤ found amounts ms) ≡ sum_ℤ (λ e. e.1) amounts =
      sum_others_lem ms amounts _
      ∙ ap (λ t. t +ℤ sum_ℤ (outside ms) amounts) (zero_+ℤ (found amounts ms))
      ∙ found-outside ms amounts dm de in
    (
      summary (sum_ℤ expected ms) (sum_ℤ (λ e. e.1) amounts),
      rw (sum_members_lem expected amounts ms (pos 0) (pos 0) h, pool, zero_+ℤ (sum_ℤ expected ms)),
      summary-Reconciles _ _,
    )
