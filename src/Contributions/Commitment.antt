-- ===== src/Contributions/Commitment.antt =====
-- What the members of a tenant commit over all their profiles: `committedByUser` as a sum over
-- memberships, and the rule by which a change in one profile keeps everybody within 100%.
use financial_os.Base.{
  ◌≡◌, ◌⊎◌, inl, inr, refl, sym, ap, ◌∙◌, Bool, true, false, not, Option, none, some, Option-cases,
  List, [], ◌∷◌, arith, if◌then◌else◌, filter, All, IsDistinct, Uuid, Bool-cases,
}
use financial_os.Base.Int.{ℤ, pos, ◌+ℤ◌, ◌≤ℤ◌, int_laws, sum_ℤ, zero_+ℤ, +ℤ_assoc}
use financial_os.Profiles.Invariant.{row_id}
use financial_os.Store.{DomainEvent, AuditEntry, Store, MembershipRow, PlanRow, AllocationRow}
use financial_os.Store.Memberships.{find_first, in_profile, is_of}
use financial_os.Contributions.Cap.{committed_total_bp, is_other, ProfileCommitment}
use financial_os.Contributions.Repository.{
  current_plan, percentage_or_zero, is_allocation, is_active_of, commitments, commitment_of,
  committed_by_user,
}

-- What a membership commits: nothing without a plan or an allocation in it.
abbrev pub bp_in : Option PlanRow → Uuid → List AllocationRow → ℤ
bp_in none member rows = pos 0
bp_in (some plan) member rows = percentage_or_zero (find_first (is_allocation plan.id member) rows)

unfoldable pub committed : Store → MembershipRow → ℤ
committed s m = bp_in (current_plan m.shared_profile_id s) m.id s.allocations

-- A user has at most one membership of a profile.
abbrev pub IsUniqueMember : List MembershipRow → Type 0
IsUniqueMember [] = Unit
IsUniqueMember (x ∷ xs) =
    All (λ y. is_of x.shared_profile_id x.user_id y ≡ false) xs × IsUniqueMember xs

abbrev pub IsNonnegative : AllocationRow → Type 0
IsNonnegative a = pos 0 ≤ℤ a.percentage_bp

-- Nobody commits more than 100% over all the profiles.
pub record IsCapped (s : Store) : Type 0 where
  pub keys : IsDistinct row_id s.memberships
  pub unique : IsUniqueMember s.memberships
  pub nonnegative : All IsNonnegative s.allocations
  pub capped : (user : Uuid) → committed_total_bp (committed_by_user user s) ≤ℤ pos 10000

-- Events and audit entries do not matter to it.
pub recorded-IsCapped :
    (s : Store) (outbox : List DomainEvent) (audit : List AuditEntry)
    → IsCapped s
    → IsCapped (record s { outbox = outbox; audit = audit })
recorded-IsCapped s outbox audit c = record {
  keys = c.keys;
  unique = c.unique;
  nonnegative = c.nonnegative;
  capped = c.capped;
}

abbrev pub outside : Uuid → MembershipRow → Bool
outside profile m = not (in_profile profile m)

abbrev pub sum_bp : List ProfileCommitment → ℤ
sum_bp = sum_ℤ (λ c. c.percentage_bp)

module _ (s : Store) where
  entry-sum :
      (m : MembershipRow) (rest : List ProfileCommitment)
      → sum_bp (commitment_of s m rest) ≡ committed s m +ℤ sum_bp rest
  unfolding committed
  entry-sum m rest = elim (Option-cases (current_plan m.shared_profile_id s)) [
    | inl absent ↦ rw (commitment_of, absent) (sym (zero_+ℤ _))
    | inr (p, found) ↦ rw (commitment_of, found) refl
  ]

  entry_others :
      (profile : Uuid) (m : MembershipRow) (rest : List ProfileCommitment)
      → sum_bp (filter (is_other profile) (commitment_of s m rest))
        ≡ (if outside profile m then committed s m else pos 0)
          +ℤ sum_bp (filter (is_other profile) rest)
  unfolding committed
  entry_others profile m rest = elim (Bool-cases (in_profile profile m)) [
    | inl here ↦ elim (Option-cases (current_plan m.shared_profile_id s)) [
      | inl absent ↦ rw (commitment_of, absent, here) (sym (zero_+ℤ _))
      | inr (p, found) ↦ rw (commitment_of, found, here) (sym (zero_+ℤ _))
    ]
    | inr away ↦ elim (Option-cases (current_plan m.shared_profile_id s)) [
      | inl absent ↦ rw (commitment_of, absent, away) (sym (zero_+ℤ _))
      | inr (p, found) ↦ rw (commitment_of, found, away) refl
    ]
  ]

  pub commitments-sum :
      (ms : List MembershipRow) → sum_bp (commitments s ms) ≡ sum_ℤ (committed s) ms
  commitments-sum [] = refl
  commitments-sum (m ∷ ms) =
      entry-sum m (commitments s ms) ∙ ap (λ z. committed s m +ℤ z) (commitments-sum ms)

  pub others-sum :
      (profile : Uuid) (ms : List MembershipRow)
      → sum_bp (filter (is_other profile) (commitments s ms))
        ≡ sum_ℤ (committed s) (filter (outside profile) ms)
  others-sum profile [] = refl
  others-sum profile (m ∷ ms) =
      entry_others profile m (commitments s ms) ∙ elim (Bool-cases (in_profile profile m)) [
        | inl here ↦ rw here (zero_+ℤ _ ∙ others-sum profile ms)
        | inr away ↦ rw away (ap (λ z. committed s m +ℤ z) (others-sum profile ms))
      ]

swap_first : (a b c : ℤ) → a +ℤ (b +ℤ c) ≡ b +ℤ (a +ℤ c)
swap_first a b c = omega int_laws

pub sum_ℤ-split :
    (f : MembershipRow → ℤ) (profile : Uuid) (ms : List MembershipRow)
    → sum_ℤ f ms ≡ sum_ℤ f (filter (in_profile profile) ms) +ℤ sum_ℤ f (filter (outside profile) ms)
sum_ℤ-split f profile [] = sym (zero_+ℤ _)
sum_ℤ-split f profile (m ∷ ms) =
    ap (λ z. f m +ℤ z) (sum_ℤ-split f profile ms) ∙ elim (Bool-cases (in_profile profile m)) [
      | inl here ↦ rw here (sym (+ℤ_assoc (f m) _ _))
      | inr away ↦ rw away (swap_first (f m) _ _)
    ]

pub sum_ℤ-same :
    (f g : MembershipRow → ℤ) (ms : List MembershipRow)
    → All (λ m. f m ≡ g m) ms
    → sum_ℤ f ms ≡ sum_ℤ g ms
sum_ℤ-same f g [] h = refl
sum_ℤ-same f g (m ∷ ms) (e, es) = rw (e, sum_ℤ-same f g ms es) refl

pub filter-test :
    (test : MembershipRow → Bool) (ms : List MembershipRow)
    → All (λ m. test m ≡ true) (filter test ms)
filter-test test [] = tt
filter-test test (m ∷ ms) = elim (Bool-cases (test m)) [
  | inl hit ↦ rw hit (hit, filter-test test ms)
  | inr miss ↦ rw miss (filter-test test ms)
]

abbrev pub own_in : Uuid → Uuid → List MembershipRow → List MembershipRow
own_in profile user ms = filter (in_profile profile) (filter (is_active_of user) ms)

none_left :
    (profile user : Uuid) (ms : List MembershipRow)
    → All (λ y. is_of profile user y ≡ false) ms
    → own_in profile user ms ≡ []
none_left profile user [] h = refl
none_left profile user (m ∷ ms) (h, hs) = ground (arith, none_left profile user ms hs)

pub at_most_one :
    (profile user : Uuid) (ms : List MembershipRow)
    → IsUniqueMember ms
    → (own_in profile user ms ≡ []) ⊎ ((r : MembershipRow) × (own_in profile user ms ≡ r ∷ []))
at_most_one profile user [] u = inl refl
at_most_one profile user (m ∷ ms) (only, u) = elim (Bool-cases (is_active_of user m)) [
  | inl mine ↦ elim (Bool-cases (in_profile profile m)) [
    | inl here ↦
        let p : m.shared_profile_id ≡ profile = ground arith in
        let q : m.user_id ≡ user = ground arith in
        let alone = rw (p, q) at only in
        rw (mine, here, none_left profile user ms alone) (inr (m, refl))
    | inr away ↦ rw (mine, away) (at_most_one profile user ms u)
  ]
  | inr other ↦ rw other (at_most_one profile user ms u)
]
