-- ===== src/Contributions/Redistribute.antt =====
-- `redistribute` as a whole, and the snapshots of periods that it leaves alone.
use financial_os.Base.{
  ◌+◌, inr, All-append, inl, Option-cases, any_own, true, any, ◌≡◌, ◌≢◌, refl, sym, ap, ◌∙◌, Option,
  none, some, List, [], ◌∷◌, arith, ◌==◌, map, filter, All, All-map_into, IsAbsent, IsDistinct,
  Uuid,
}
use financial_os.Profiles.Service.{checked_member}
use financial_os.Store.{
  DomainEvent, AuditEntry, Store, PlanRow, AllocationRow, PeriodRow, Principal,
  percentage_redistributed,
}
use financial_os.Store.Memberships.{find_first, find_by_profile_and_user, find_shared_profile}
use financial_os.Store.Tables.{find_first-own, find_first-All}
use financial_os.Store.Inserted.{find_first-append_other}
use financial_os.Store.Post.{Post, lift-Post, reading-Post, Recorded}
use financial_os.Contributions.Redistribution.{
  RedistributionAllocation, id_of, next_plan_version, validate_redistribution,
  validate_redistribution_iff,
}
use financial_os.Contributions.Repository.{
  upserted, is_allocation, current_plan, plan_by_version, percentage_or_zero, allocation_for,
}
use financial_os.Base.Int.{ℤ}
use financial_os.Store.Tables.{All-update_first}
use financial_os.Contributions.Repository.Upsert.{filter-upserted}
use financial_os.Contributions.Repository.NextPlan.{with_plan, create_plan_lem, version_of}
use financial_os.Contributions.Commitment.{recorded-IsCapped, IsCapped}
use financial_os.Contributions.Period.{snapshot_members, snapshot_of, allocations_of}
use financial_os.Contributions.Redistributing.{
  upserted_all, upsert_all_lem, upserted_all-own, check_targets-IsChecked,
}
use financial_os.Contributions.ForwardOnly.{
  redistributed, plan_made, redistributed-IsCapped, current_plan-redistributed,
}
use financial_os.Contributions.Service.{open_profile, bp_of, redistribute_tx}

-- A new identifier: of no plan, and in no allocation.
abbrev pub IsFreshPlan : Uuid → Store → Type 0
IsFreshPlan fresh s =
    IsAbsent (λ p. p.id) fresh s.plans × IsAbsent (λ a. a.contribution_plan_id) fresh s.allocations

-- What a redistribution ensures. Everybody stays within 100%; the new version is the current plan and
-- has the shares given, and no others; and a period that froze an older version still reads the same snapshot.
pub record IsRedistributed (profile : Uuid) (as' : List RedistributionAllocation) (s : Store)
    (plan : PlanRow) (s' : Store) : Type 0 where
  pub capped : IsCapped s'
  pub current : current_plan profile s' ≡ some plan
  pub next : plan.version ≡ next_plan_version (version_of (current_plan profile s))
  pub shares :
      All
        (λ a.
          percentage_or_zero (allocation_for plan.id a.membership_id s') ≡ bp_of a.percentage_bp)
        as'
  pub only :
      All
        (λ a.
          a.contribution_plan_id ≡ plan.id
          → any (λ x. x.membership_id == a.membership_id) as' ≡ true)
        s'.allocations
  pub forward_only :
      (period : PeriodRow)
      → (period.shared_profile_id ≡ profile → period.plan_version_snapshot ≢ plan.version)
      → snapshot_members period s' ≡ snapshot_members period s
  pub recorded : Recorded percentage_redistributed s s'

filter-upserted_all :
    (plan plan' : Uuid) (as' : List RedistributionAllocation) (rows : List AllocationRow)
    → plan' ≢ plan
    → filter (λ a. a.contribution_plan_id == plan) (upserted_all plan' as' rows)
      ≡ filter (λ a. a.contribution_plan_id == plan) rows
filter-upserted_all plan plan' [] rows ne = refl
filter-upserted_all plan plan' (a ∷ as') rows ne =
    filter-upserted_all plan plan' as' _ ne
    ∙ filter-upserted plan plan' a.membership_id (bp_of a.percentage_bp) rows ne

module _ (profile creator fresh : Uuid) (s : Store) (as' : List RedistributionAllocation)
    (new : IsAbsent (λ p. p.id) fresh s.plans) where
  allocations-kept :
      (o : Option PlanRow)
      → ((q : PlanRow) → o ≡ some q → q.id ≢ fresh)
      → allocations_of o (redistributed profile creator fresh s as') ≡ allocations_of o s
  allocations-kept none h = refl
  allocations-kept (some q) h =
      filter-upserted_all q.id fresh as' s.allocations (λ e. h q refl (sym e))

  -- An older period reads the snapshot that it read before.
  snapshot-kept :
      (period : PeriodRow)
      → (period.shared_profile_id ≡ profile
          → period.plan_version_snapshot ≢ (plan_made profile creator fresh s as').version)
      → snapshot_members period (redistributed profile creator fresh s as')
        ≡ snapshot_members period s
  unfolding snapshot_members
  snapshot-kept period older =
      ap (λ allocations. map (snapshot_of allocations) period.income_snapshot)
        (ap (λ o. allocations_of o (redistributed profile creator fresh s as')) same_plan
          ∙ allocations-kept _ not_new)
    where
      same_plan :
          plan_by_version period.shared_profile_id period.plan_version_snapshot
            (redistributed profile creator fresh s as')
          ≡ plan_by_version period.shared_profile_id period.plan_version_snapshot s
      same_plan = find_first-append_other _ s.plans _ (ground (arith, older))

      not_new :
          (q : PlanRow)
          → plan_by_version period.shared_profile_id period.plan_version_snapshot s ≡ some q
          → q.id ≢ fresh
      not_new q h = find_first-All (λ p. p.id ≢ fresh) _ s.plans new h

-- Events and audit entries are no part of a snapshot.
snapshot-recorded :
    (period : PeriodRow) (s : Store) (outbox : List DomainEvent) (audit : List AuditEntry)
    → snapshot_members period (record s { outbox = outbox; audit = audit })
      ≡ snapshot_members period s
unfolding snapshot_members
snapshot-recorded period s outbox audit =
    ap (λ o. map (snapshot_of o) period.income_snapshot)
      (same (plan_by_version period.shared_profile_id period.plan_version_snapshot s))
  where
    same :
        (o : Option PlanRow)
        → allocations_of o (record s { outbox = outbox; audit = audit }) ≡ allocations_of o s
    same none = refl
    same (some plan) = refl

-- What holds of the members given, and of those that the plan had already, holds of all members that it
-- has then.
module _ (plan : Uuid) (Q : Uuid → Type 0) where
  abbrev IsGiven : AllocationRow → Type 0
  IsGiven a = a.contribution_plan_id ≡ plan → Q a.membership_id

  upserted-IsGiven :
      (member : Uuid) (bp : ℤ) (rows : List AllocationRow)
      → Q member
      → All IsGiven rows
      → All IsGiven (upserted plan member bp rows)
  upserted-IsGiven member bp rows q h =
      elim (Option-cases (find_first (is_allocation plan member) rows)) [
        | inl new ↦ rw (upserted, new) (All-append IsGiven rows _ h ((λ e. q), tt))
        | inr (a, old) ↦
            rw (upserted, old)
              (All-update_first IsGiven (is_allocation plan member)
                (λ x. record x { percentage_bp = bp; version = x.version + 1 }) rows h old
                (find_first-All IsGiven (is_allocation plan member) rows h old))
      ]

  upserted_all-IsGiven :
      (as' : List RedistributionAllocation) (rows : List AllocationRow)
      → All (λ a. Q a.membership_id) as'
      → All IsGiven rows
      → All IsGiven (upserted_all plan as' rows)
  upserted_all-IsGiven [] rows q h = h
  upserted_all-IsGiven (a ∷ as') rows (q, qs) h =
      upserted_all-IsGiven as' _ qs
        (upserted-IsGiven a.membership_id (bp_of a.percentage_bp) rows q h)

only_given :
    (plan : Uuid) (as' : List RedistributionAllocation) (rows : List AllocationRow)
    → IsAbsent (λ a. a.contribution_plan_id) plan rows
    → All
        (λ a.
          a.contribution_plan_id ≡ plan → any (λ x. x.membership_id == a.membership_id) as' ≡ true)
        (upserted_all plan as' rows)
only_given plan as' rows absent =
    upserted_all-IsGiven plan (λ m. any (λ x. x.membership_id == m) as' ≡ true) as' rows
      (any_own id_of as') (All-map_into _ _ (λ a ne e. absurd (ne e)) rows absent)

shares_stored :
    (plan : Uuid) (as' : List RedistributionAllocation) (rows : List AllocationRow)
    → IsDistinct id_of as'
    → All
        (λ a.
          percentage_or_zero
            (find_first (is_allocation plan a.membership_id) (upserted_all plan as' rows))
          ≡ bp_of a.percentage_bp)
        as'
shares_stored plan as' rows d =
    All-map_into _ _ (λ a own. upserted_all-own plan a.membership_id as' rows d own) as'
      (find_first-own id_of as' d)

-- `redistribute` never throws and, after an error, has changed nothing. If it returns a plan, this is
-- the profile's current one, of the next version, in which each member given has the share given and
-- nobody else has an allocation; no user of the tenant commits more than 100% over all profiles; and every period that did not freeze this very
-- version reads the snapshot that it read before. This is for a store in which nobody is above 100%,
-- and an identifier of the plan that is new.
pub redistribute-IsRedistributed :
    (principal : Principal) (profile : Uuid) (as' : List RedistributionAllocation) (fresh : Uuid)
    (s : Store)
    → IsCapped s
    → IsFreshPlan fresh s
    → Post
        (IsRedistributed profile as' s)
        (λ s'. s' ≡ s)
        ⊥
        (redistribute_tx principal profile as' fresh s)
unfolding redistribute_tx
redistribute-IsRedistributed principal profile as' fresh s c (new, absent) =
    lift-Post _ _ _ (checked_member (find_by_profile_and_user profile principal.user_id s) _) _ s
      refl
      (λ actor allowed.
        lift-Post _ _ _ (open_profile (find_shared_profile profile s)) _ s refl (λ p is_open.
          lift-Post _ _ _ (validate_redistribution as') _ s refl (λ (u : Unit {0}) valid.
            let distinct = ((validate_redistribution_iff as').0 valid).1 in
            reading-Post _ _ _ _ _ _ s (check_targets-IsChecked profile as' s) refl
              (λ (u' : Unit {0}) checked.
                let made = create_plan_lem (plan_made profile actor.id fresh s as') s refl in
                let stored =
                  upsert_all_lem fresh as' (with_plan (plan_made profile actor.id fresh s as') s) in
                rw (made, stored)
                  (record {
                    capped = recorded-IsCapped _ _ _ (
                        redistributed-IsCapped profile actor.id fresh s as' c absent distinct
                          checked);
                    current =
                        current_plan-redistributed profile actor.id fresh s as' c absent distinct
                          checked;
                    next = refl;
                    shares = shares_stored fresh as' s.allocations distinct;
                    only = only_given fresh as' s.allocations absent;
                    forward_only = λ period older.
                        snapshot-recorded period _ _ _
                        ∙ snapshot-kept profile actor.id fresh s as' new period older;
                    recorded = record { events = (_, refl, refl); entries = (_, refl, refl) };
                  })))))
