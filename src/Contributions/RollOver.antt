-- ===== src/Contributions/RollOver.antt =====
-- `rolloverForTenant`, one period at a time: it is closed, and its successor starts where it ended.
use financial_os.Base.{
  ℕ, ◌<◌, ◌≡◌, ◌≢◌, ◌⊎◌, inl, inr, refl, sym, subst, ◌∙◌, true, false, Option, none, some, List, [],
  ◌∷◌, ◌++◌, arith, ◌==◌, ==_refl, map, All, All-filter, Uuid, Bool-cases,
}
use financial_os.Base.Int.{ℤ, pos, negsuc, ◌≤ℤ◌, ◌+ℤ◌}
use financial_os.Errors.{◌>>=◌, returned, Attempt}
use financial_os.Money.Values.{integer}
use financial_os.Money.Percentage.{from_basis_points, from_basis_points_valid}
use financial_os.Profiles.SharedProfile.{is_writable}
use financial_os.Store.{
  DomainEvent, Store, ProfileRow, PlanRow, AllocationRow, PeriodRow, open_period, closed_period,
}
use financial_os.Store.Memberships.{find_first, find_shared_profile}
use financial_os.Store.Tables.{find_first-All}
use financial_os.Store.Inserted.{find_first-append_other, find_first-append_new}
use financial_os.Store.Post.{Post}
use financial_os.Store.Table.{
  find_unique, change, find_unique-change, find_unique-change_other, update_unique-Post,
}
use financial_os.Contributions.Windows.{next_period_window, next_window_lem}
use financial_os.Contributions.Analytics.{expected_contribution_cents}
use financial_os.Contributions.Reconciliation.{
  get_or_zero, MemberSnapshot, Reconciliation, Amounts, reconcile, sum_members, expected_for_member,
}
use financial_os.Contributions.Repository.{
  periods, closed, percentage_or_zero, plan_by_version, actual_by_member,
}
use financial_os.Contributions.Period.{
  opened, open_period_tx, snapshot_members, snapshot_of, allocations_of, successor, roll_over,
}

-- A stored percentage from 0 to 10000.
abbrev pub IsStored : AllocationRow → Type 0
IsStored a = (pos 0 ≤ℤ a.percentage_bp) × (a.percentage_bp ≤ℤ pos 10000)

abbrev IsExpecting : MemberSnapshot → Type 0
IsExpecting m = (c : ℤ) × (expected_for_member m ≡ returned c)

bind_returns :
    {A B : Type 0} (m : Attempt A) (f : A → Attempt B) {a : A}
    → m ≡ returned a
    → ((b : B) × (f a ≡ returned b))
    → (b : B) × ((m >>= f) ≡ returned b)
bind_returns m f h k = rw h k

expects :
    (income bp : ℤ)
    → pos 0 ≤ℤ bp
    → bp ≤ℤ pos 10000
    → (c : ℤ) × (expected_contribution_cents income (integer bp) ≡ returned c)
unfolding expected_contribution_cents
expects income (pos bp) low high =
    bind_returns (from_basis_points (integer (pos bp))) _ (from_basis_points_valid bp (omega arith))
      (_, refl)
expects income (negsuc bp) low high = absurd (omega arith)

sum_members-returns :
    (amounts : Amounts) (ms : List MemberSnapshot) (e a : ℤ)
    → All IsExpecting ms
    → (r : ℤ × ℤ) × (sum_members amounts ms e a ≡ returned r)
unfolding sum_members
sum_members-returns amounts [] e a h = (_, refl)
sum_members-returns amounts (m ∷ ms) e a ((c, is), hs) =
    bind_returns (expected_for_member m) _ is
      (sum_members-returns amounts ms (e +ℤ c) (a +ℤ get_or_zero amounts m.membership_id) hs)

snapshot_IsExpecting :
    (rows : List AllocationRow)
    → All IsStored rows
    → (es : List (Uuid × ℤ)) → All IsExpecting (map (snapshot_of rows) es)
unfolding expected_for_member
snapshot_IsExpecting rows h [] = tt
snapshot_IsExpecting rows h ((member, cents) ∷ es) =
    (share (find_first (λ a. a.membership_id == member) rows) refl, snapshot_IsExpecting rows h es)
  where
    share :
        (o : Option AllocationRow)
        → find_first (λ a. a.membership_id == member) rows ≡ o
        → (c : ℤ) × (expected_contribution_cents cents
              (integer (percentage_or_zero (find_first (λ a. a.membership_id == member) rows)))
            ≡ returned c)
    share none e = rw e (expects cents (pos 0) (omega arith) (omega arith))
    share (some a) e =
        let (low, high) = find_first-All IsStored _ rows h e in
        rw e (expects cents a.percentage_bp low high)

allocations_of-All :
    (o : Option PlanRow) (s : Store)
    → All IsStored s.allocations
    → All IsStored (allocations_of o s)
allocations_of-All none s h = tt
allocations_of-All (some plan) s h = All-filter IsStored _ s.allocations h

-- The reconciliation of a stored period does not throw.
reconciles :
    (period : PeriodRow) (amounts : Amounts) (s : Store)
    → All IsStored s.allocations
    → (r : Reconciliation) × (reconcile (snapshot_members period s) amounts ≡ returned r)
unfolding reconcile snapshot_members
reconciles period amounts s h =
    let rows =
      allocations_of (plan_by_version period.shared_profile_id period.plan_version_snapshot s) s in
    let (r, e) =
      sum_members-returns amounts (map (snapshot_of rows) period.income_snapshot) (pos 0) (pos 0)
        (snapshot_IsExpecting rows (allocations_of-All _ s h) period.income_snapshot) in
    bind_returns
      (sum_members amounts (map (snapshot_of rows) period.income_snapshot) (pos 0) (pos 0)) _ e
      (_, refl)

-- The successor of a period: open, from the end of the period until later.
pub record IsNext (profile : ProfileRow) (period next : PeriodRow) (fresh : Uuid) : Type 0 where
  pub id : next.id ≡ fresh
  pub of_profile : next.shared_profile_id ≡ period.shared_profile_id
  pub is_open : next.status ≡ open_period
  pub start : next.start_date ≡ period.end_date
  pub window : next.end_date ≡ (next_period_window period.end_date profile.period_length).end_date
  pub later : next.start_date < next.end_date

-- A profile that is gone or archived.
abbrev pub IsOver : Option ProfileRow → Type 0
IsOver none = Unit
IsOver (some profile) = is_writable profile.status ≡ false

-- One period rolled over: it is closed; if its profile is active the next period is there, and counts,
-- and no other period has changed; nor has any contribution, allocation or profile.
pub record IsRolled (period : PeriodRow) (fresh : Uuid) (s : Store) (n : ℕ) (s' : Store)
    : Type 0 where
  pub is_closed : find_unique periods period.id s' ≡ some (record period { status = closed_period })
  pub followed :
      (((profile : ProfileRow) × (find_shared_profile period.shared_profile_id s ≡ some profile)
          × (is_writable profile.status ≡ true)
          × ((next : PeriodRow) × (find_unique periods fresh s' ≡ some next)
              × IsNext profile period next fresh)
          × (n ≡ 1))
        ⊎ (IsOver (find_shared_profile period.shared_profile_id s) × (n ≡ 0)))
  pub others :
      (id : Uuid)
      → id ≢ period.id
      → id ≢ fresh
      → find_unique periods id s' ≡ find_unique periods id s
  pub kept :
      (s'.records ≡ s.records) × (s'.allocations ≡ s.allocations) × (s'.profiles ≡ s.profiles)

module _ (period : PeriodRow) (fresh : Uuid) (s : Store)
    (found : find_unique periods period.id s ≡ some period)
    (new : find_unique periods fresh s ≡ none) where
  apart : fresh ≢ period.id
  apart e = let there = subst (λ i. find_unique periods i s ≡ none) e new in absurd (cc)

  -- The store in which the period is closed.
  abbrev pub shut : Store
  shut = change periods period.id closed s

  shut-closed : find_unique periods period.id shut ≡ some (closed period)
  shut-closed = find_unique-change periods period.id closed s (λ p. refl) found

  shut-others :
      (id : Uuid) → id ≢ period.id → find_unique periods id shut ≡ find_unique periods id s
  shut-others id ne = find_unique-change_other periods period.id id closed s (λ p. refl) ne

  abbrev next_of : ProfileRow → Store → PeriodRow
  next_of profile s' =
      opened period.shared_profile_id (next_period_window period.end_date profile.period_length)
        fresh s'

  successor-IsNext :
      (profile : ProfileRow) (s' : Store) → IsNext profile period (next_of profile s') fresh
  successor-IsNext profile s' =
      let (start, later, due) = next_window_lem period.end_date profile.period_length in
      record {
        id = refl;
        of_profile = refl;
        is_open = refl;
        start = refl;
        window = refl;
        later = later;
      }

  -- A period behind the others is found, and they are found as before.
  appended-others :
      (next : PeriodRow) (id : Uuid)
      → next.id ≢ id
      → find_first (λ p. p.id == id) (shut.periods ++ (next ∷ [])) ≡ find_unique periods id shut
  appended-others next id ne =
      find_first-append_other (λ p. p.id == id) shut.periods next (ground arith)

  appended-next :
      (next : PeriodRow)
      → next.id ≡ fresh
      → find_first (λ p. p.id == fresh) (shut.periods ++ (next ∷ [])) ≡ some next
  appended-next next e =
      find_first-append_new (λ p. p.id == fresh) shut.periods next (shut-others fresh apart ∙ new)
        (rw e (==_refl fresh))

  successor-IsRolled :
      (outbox : List DomainEvent) (o : Option ProfileRow)
      → find_shared_profile period.shared_profile_id s ≡ o
      → Post
          (IsRolled period fresh s)
          (λ s'. ⊥)
          ⊥
          (successor o period fresh (record shut { outbox = outbox }))
  unfolding successor open_period_tx
  successor-IsRolled outbox none e = record {
    is_closed = shut-closed;
    followed = inr (rw e tt, refl);
    others = λ id ne away. shut-others id ne;
    kept = (refl, refl, refl);
  }
  successor-IsRolled outbox (some profile) e = elim (Bool-cases (is_writable profile.status)) [
    | inl writable ↦
        let next = next_of profile (record shut { outbox = outbox }) in
        rw writable (record {
          is_closed = appended-others next period.id apart ∙ shut-closed;
          followed = inl (
            profile,
            e,
            writable,
            (
              next,
              appended-next next refl,
              successor-IsNext profile (record shut { outbox = outbox }),
            ),
            refl,
          );
          others =
              λ id ne away. appended-others next id (λ same. away (sym same)) ∙ shut-others id ne;
          kept = (refl, refl, refl);
        })
    | inr archived ↦ rw archived (record {
      is_closed = shut-closed;
      followed = inr (rw e archived, refl);
      others = λ id ne away. shut-others id ne;
      kept = (refl, refl, refl);
    })
  ]

  pub roll_over-IsRolled :
      All IsStored s.allocations
      → Post (IsRolled period fresh s) (λ s'. ⊥) ⊥ (roll_over period fresh s)
  unfolding roll_over
  roll_over-IsRolled h =
      let (r, e) = reconciles period (actual_by_member period.id s) s h in
      rw e (
        update_unique-Post periods _ _ _ period.id closed _ s found
          (successor-IsRolled _ (find_shared_profile period.shared_profile_id s) refl))
