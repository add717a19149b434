-- ===== src/Contributions/FirstPlan.antt =====
-- The plan that `setAllocation` stores in: the current one, or a first one.
use financial_os.Base.{
  ◌≡◌, ◌≢◌, inl, inr, refl, sym, ap, subst, ◌∙◌, false, Option, none, some, Option-cases, List, [],
  ◌∷◌, ◌++◌, arith, ◌==◌, ==_iff, All-map_into, IsAbsent, Uuid, Bool-cases,
}
use financial_os.Base.Int.{pos}
use financial_os.Store.{Store, PlanRow, AllocationRow, Tx, and_then}
use financial_os.Store.Inserted.{find_first-absent}
use financial_os.Store.Post.{Post}
use financial_os.Contributions.Repository.{current_plan, is_allocation, percentage_or_zero}
use financial_os.Contributions.Repository.Upsert.{current_plan-other}
use financial_os.Contributions.Repository.NextPlan.{
  create_plan_lem, current_plan-with_plan, with_plan, version_of,
}
use financial_os.Contributions.Redistribution.{next_plan_version}
use financial_os.Contributions.Commitment.{bp_in}
use financial_os.Contributions.Service.{plan_or_first, first_plan}

-- The plans after a current plan was found or made: it is the current one, and nobody's commitment
-- has changed.
pub record IsPlanned (profile : Uuid) (s : Store) (xs : List PlanRow) (plan : PlanRow)
    : Type 0 where
  pub current : current_plan profile (record s { plans = xs }) ≡ some plan
  pub unchanged :
      (q member : Uuid)
      → bp_in (current_plan q (record s { plans = xs })) member s.allocations
        ≡ bp_in (current_plan q s) member s.allocations

-- A plan without allocations gives nobody a percentage.
pub bp_in-absent :
    (plan : PlanRow) (member : Uuid) (rows : List AllocationRow)
    → IsAbsent (λ a. a.contribution_plan_id) plan.id rows
    → bp_in (some plan) member rows ≡ pos 0
bp_in-absent plan member rows absent =
    ap percentage_or_zero
      (find_first-absent _ rows (All-map_into _ _ (λ a ne. other a ne) rows absent))
  where
    other :
        (a : AllocationRow)
        → a.contribution_plan_id ≢ plan.id
        → is_allocation plan.id member a ≡ false
    other a ne = ground arith

first_version : (o : Option PlanRow) → o ≡ none → 1 ≡ next_plan_version (version_of o)
unfolding next_plan_version
first_version none h = refl
first_version (some p) h = cc

abbrev IsSame : List PlanRow → Store → Uuid → Uuid → Type 0
IsSame xs s member q =
    bp_in (current_plan q (record s { plans = xs })) member s.allocations
    ≡ bp_in (current_plan q s) member s.allocations

first_plan-IsPlanned :
    (profile creator fresh : Uuid) (s : Store)
    → IsAbsent (λ a. a.contribution_plan_id) fresh s.allocations
    → current_plan profile s ≡ none
    → IsPlanned profile s
        (s.plans ++ (first_plan profile creator fresh ∷ []))
        (first_plan profile creator fresh)
first_plan-IsPlanned profile creator fresh s absent missing =
    let plan = first_plan profile creator fresh in
    record {
      current = becomes;
      unchanged = λ q member. elim (Bool-cases (profile == q)) [
        | inl own ↦ subst (IsSame (s.plans ++ (plan ∷ [])) s member) ((==_iff profile q).0 own) (
            ap (λ o. bp_in o member s.allocations) becomes
            ∙ bp_in-absent plan member s.allocations absent
            ∙ sym (ap (λ o. bp_in o member s.allocations) missing))
        | inr other ↦
            ap (λ o. bp_in o member s.allocations) (current_plan-other q plan s (away q other))
      ];
    }
  where
    becomes :
        current_plan profile (with_plan (first_plan profile creator fresh) s)
        ≡ some (first_plan profile creator fresh)
    becomes =
        current_plan-with_plan (first_plan profile creator fresh) s
          (first_version (current_plan profile s) missing)

    away : (q : Uuid) → profile == q ≡ false → profile ≢ q
    away q h = ground arith

module _ {B : Type 0} (Q : B → Store → Type 0) (E : Store → Type 0) (R : Type 0) where
  pub plan-Post :
      (profile creator fresh : Uuid) (f : PlanRow → Tx B) (s : Store)
      → IsAbsent (λ a. a.contribution_plan_id) fresh s.allocations
      → ((plan : PlanRow) (xs : List PlanRow)
          → IsPlanned profile s xs plan
          → Post Q E R (f plan (record s { plans = xs })))
      → Post Q E R (and_then (plan_or_first profile creator fresh (current_plan profile s) s) f)
  unfolding plan_or_first
  plan-Post profile creator fresh f s absent k = elim (Option-cases (current_plan profile s)) [
    | inl missing ↦
        let made =
          create_plan_lem (first_plan profile creator fresh) s
            (first_version (current_plan profile s) missing) in
        rw (missing, plan_or_first, made)
          (k _ _ (first_plan-IsPlanned profile creator fresh s absent missing))
    | inr (plan, found) ↦
        rw (found, plan_or_first)
          (k plan s.plans (record { current = found; unchanged = λ q member. refl }))
  ]
