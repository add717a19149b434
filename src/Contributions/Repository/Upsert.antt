-- ===== src/Contributions/Repository/Upsert.antt =====
-- What a read of the allocations finds after an upsert, and of the plans after a new one.
use financial_os.Base.{
  ◌≡◌, ◌≢◌, inl, inr, refl, ap, Bool, true, false, ◌&&◌, Option-cases, List, [], ◌∷◌, ◌++◌, arith,
  ◌==◌, filter, All, All-append, Uuid, Bool-cases,
}
use financial_os.Base.Int.{ℤ}
use financial_os.Store.{Store, PlanRow, AllocationRow}
use financial_os.Store.Memberships.{find_first, update_first}
use financial_os.Store.Tables.{All-update_first}
use financial_os.Store.Inserted.{
  find_first-append_new, find_first-append_other, find_first-update_other, find_first-update_same,
}
use financial_os.Contributions.Repository.{
  highest, plan_of, current_plan, is_allocation, upserted, percentage_or_zero,
}

apart :
    (plan plan' member other : Uuid) (a : AllocationRow)
    → other ≢ member
    → is_allocation plan member a ≡ true
    → is_allocation plan' other a ≡ false
apart plan plan' member other a ne h = ground arith

-- The allocation of another member is found as before.
pub upserted-other :
    (plan plan' member other : Uuid) (bp : ℤ) (rows : List AllocationRow)
    → other ≢ member
    → find_first (is_allocation plan' other) (upserted plan member bp rows)
      ≡ find_first (is_allocation plan' other) rows
upserted-other plan plan' member other bp rows ne =
    elim (Option-cases (find_first (is_allocation plan member) rows)) [
      | inl new ↦ rw (upserted, new) (find_first-append_other _ rows _ (ground arith))
      | inr (a, old) ↦
          rw (upserted, old)
            (find_first-update_other _ _ _ rows (λ x h. apart plan plan' member other x ne h)
              (λ x. refl))
    ]

-- The member's own is the percentage stored.
pub upserted-own :
    (plan member : Uuid) (bp : ℤ) (rows : List AllocationRow)
    → percentage_or_zero (find_first (is_allocation plan member) (upserted plan member bp rows))
      ≡ bp
upserted-own plan member bp rows =
    elim (Option-cases (find_first (is_allocation plan member) rows)) [
      | inl new ↦
          let self : plan == plan && member == member ≡ true = ground arith in
          rw (upserted, new) (ap percentage_or_zero (find_first-append_new _ rows _ new self))
      | inr (a, old) ↦
          rw (upserted, old)
            (ap percentage_or_zero (find_first-update_same _ _ rows (λ x. refl) old))
    ]

pub upserted-All :
    (P : ℤ → Type 0) (plan member : Uuid) (bp : ℤ) (rows : List AllocationRow)
    → P bp
    → All (λ a. P a.percentage_bp) rows
    → All (λ a. P a.percentage_bp) (upserted plan member bp rows)
upserted-All P plan member bp rows p ps =
    elim (Option-cases (find_first (is_allocation plan member) rows)) [
      | inl new ↦ rw (upserted, new) (All-append _ rows _ ps (p, tt))
      | inr (a, old) ↦ rw (upserted, old) (All-update_first _ _ _ rows ps old p)
    ]

filter-append_other :
    (profile : Uuid) (plans : List PlanRow) (plan : PlanRow)
    → plan_of profile plan ≡ false
    → filter (plan_of profile) (plans ++ (plan ∷ [])) ≡ filter (plan_of profile) plans
filter-append_other profile [] plan h = rw h refl
filter-append_other profile (p ∷ ps) plan h = ground (arith, filter-append_other profile ps plan h)

-- A plan of one profile does not change that of another.
pub current_plan-other :
    (profile : Uuid) (plan : PlanRow) (s : Store)
    → plan.shared_profile_id ≢ profile
    → current_plan profile (record s { plans = s.plans ++ (plan ∷ []) }) ≡ current_plan profile s
current_plan-other profile plan s ne =
    ap highest (filter-append_other profile s.plans plan (ground arith))

abbrev of_plan : Uuid → AllocationRow → Bool
of_plan plan a = a.contribution_plan_id == plan

filter-appended :
    (plan : Uuid) (rows : List AllocationRow) (a : AllocationRow)
    → of_plan plan a ≡ false
    → filter (of_plan plan) (rows ++ (a ∷ [])) ≡ filter (of_plan plan) rows
filter-appended plan [] a h = rw h refl
filter-appended plan (r ∷ rows) a h = ground (arith, filter-appended plan rows a h)

filter-update_first :
    (plan plan' member : Uuid) (f : AllocationRow → AllocationRow) (rows : List AllocationRow)
    → plan' ≢ plan
    → ((a : AllocationRow) → (f a).contribution_plan_id ≡ a.contribution_plan_id)
    → filter (of_plan plan) (update_first (is_allocation plan' member) f rows)
      ≡ filter (of_plan plan) rows
filter-update_first plan plan' member f [] ne keeps = refl
filter-update_first plan plan' member f (r ∷ rows) ne keeps =
    elim (Bool-cases (is_allocation plan' member r)) [
      | inl hit ↦
          let away : of_plan plan r ≡ false = not_of r hit in
          let away' : of_plan plan (f r) ≡ false = rw (keeps r) away in rw (hit, away', away) refl
      | inr miss ↦ rw miss (elim (Bool-cases (of_plan plan r)) [
        | inl own ↦
            rw own (ap (λ rs. r ∷ rs) (filter-update_first plan plan' member f rows ne keeps))
        | inr other ↦ rw other (filter-update_first plan plan' member f rows ne keeps)
      ])
    ]
  where
    not_of : (r : AllocationRow) → is_allocation plan' member r ≡ true → of_plan plan r ≡ false
    not_of r h = ground arith

-- The allocations of another plan stay.
pub filter-upserted :
    (plan plan' member : Uuid) (bp : ℤ) (rows : List AllocationRow)
    → plan' ≢ plan
    → filter (of_plan plan) (upserted plan' member bp rows) ≡ filter (of_plan plan) rows
filter-upserted plan plan' member bp rows ne =
    elim (Option-cases (find_first (is_allocation plan' member) rows)) [
      | inl new ↦ rw (upserted, new) (filter-appended plan rows _ (ground arith))
      | inr (a, old) ↦
          rw (upserted, old) (filter-update_first plan plan' member _ rows ne (λ x. refl))
    ]
