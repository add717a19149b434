-- ===== src/Contributions/Repository/NextPlan.antt =====
-- A plan whose version follows the current one is stored, and becomes the current one.
use financial_os.Base.{
  ℕ, ◌+◌, ◌≤◌, ◌<◌, ◌≡◌, inl, inr, refl, sym, ap, subst, ◌∙◌, true, false, Option, none, some,
  Option-cases, List, [], ◌∷◌, ◌++◌, arith, if◌then◌else◌, ltb, ◌==◌, filter, All, All-map_into,
  Uuid, Bool-cases,
}
use financial_os.Errors.{ok}
use financial_os.Store.{Store, PlanRow, done}
use financial_os.Store.Tables.{find_first-filter}
use financial_os.Store.Inserted.{find_first-absent}
use financial_os.Contributions.Redistribution.{next_plan_version}
use financial_os.Contributions.Repository.{
  highest, plan_of, current_plan, plan_by_version, create_plan,
}

-- `current?.version ?? null`
abbrev pub version_of : Option PlanRow → Option ℕ
version_of none = none
version_of (some plan) = some plan.version

abbrev pub with_plan : PlanRow → Store → Store
with_plan plan s = record s { plans = s.plans ++ (plan ∷ []) }

abbrev IsBelow : ℕ → PlanRow → Type 0
IsBelow v p = p.version < v

-- The first row in the order, against the highest of the others.
abbrev pub higher : PlanRow → Option PlanRow → PlanRow
higher p none = p
higher p (some q) = if ltb p.version q.version then q else p

highest-step : (p : PlanRow) (ps : List PlanRow) → highest (p ∷ ps) ≡ some (higher p (highest ps))
highest-step p ps = elim (Option-cases (highest ps)) [
  | inl alone ↦ rw (highest, alone) refl
  | inr (q, top) ↦ elim (Bool-cases (ltb p.version q.version)) [
    | inl less ↦ rw (highest, top, less) refl
    | inr more ↦ rw (highest, top, more) refl
  ]
]

highest-none : (ps : List PlanRow) → highest ps ≡ none → ps ≡ []
highest-none [] h = refl
highest-none (p ∷ ps) h = let step = highest-step p ps in absurd (cc)

raised : (v w : ℕ) (ps : List PlanRow) → v ≤ w → All (IsBelow v) ps → All (IsBelow w) ps
raised v w ps le = All-map_into _ _ (λ p h. omega arith) ps

higher-max :
    (p : PlanRow) (ps : List PlanRow) (o : Option PlanRow)
    → highest ps ≡ o
    → ((q : PlanRow) → o ≡ some q → All (IsBelow (q.version + 1)) ps)
    → All (IsBelow ((higher p o).version + 1)) (p ∷ ps)
higher-max p ps none alone k = rw (highest-none ps alone) (omega arith, tt)
higher-max p ps (some r) top k = elim (Bool-cases (ltb p.version r.version)) [
  | inl less ↦
      let e : higher p (some r) ≡ r = rw less refl in
      subst (λ z. All (IsBelow (z.version + 1)) (p ∷ ps)) (sym e) (ground arith, k r refl)
  | inr more ↦
      let e : higher p (some r) ≡ p = rw more refl in
      let le : r.version ≤ p.version = ground arith in
      subst (λ z. All (IsBelow (z.version + 1)) (p ∷ ps)) (sym e)
        (omega arith, raised _ _ ps (omega arith) (k r refl))
]

highest-max :
    (ps : List PlanRow) {q : PlanRow} → highest ps ≡ some q → All (IsBelow (q.version + 1)) ps
highest-max [] h = tt
highest-max (p ∷ ps) {q} h =
    let is_q : some (higher p (highest ps)) ≡ some q = sym (highest-step p ps) ∙ h in
    let e : higher p (highest ps) ≡ q = cc in
    subst (λ r. All (IsBelow (r.version + 1)) (p ∷ ps)) e
      (higher-max p ps (highest ps) refl (λ r top. highest-max ps top))

-- Every plan of the profile is below the next version.
IsBelow-next : (ps : List PlanRow) → All (IsBelow (next_plan_version (version_of (highest ps)))) ps
unfolding next_plan_version
IsBelow-next ps = elim (Option-cases (highest ps)) [
  | inl none_yet ↦ rw (highest-none ps none_yet) tt
  | inr (q, top) ↦ rw top (highest-max ps top)
]

highest-append :
    (ps : List PlanRow) (plan : PlanRow)
    → All (IsBelow plan.version) ps
    → highest (ps ++ (plan ∷ [])) ≡ some plan
highest-append [] plan h = refl
highest-append (p ∷ ps) plan (low, h) =
    let less : ltb p.version plan.version ≡ true = ground arith in
    highest-step p (ps ++ (plan ∷ [])) ∙ rw (highest-append ps plan h, less) refl

filter-append_own :
    (profile : Uuid) (plans : List PlanRow) (plan : PlanRow)
    → plan_of profile plan ≡ true
    → filter (plan_of profile) (plans ++ (plan ∷ []))
      ≡ filter (plan_of profile) plans ++ (plan ∷ [])
filter-append_own profile [] plan h = rw h refl
filter-append_own profile (p ∷ ps) plan h = elim (Bool-cases (plan_of profile p)) [
  | inl own ↦ rw own (ap (λ qs. p ∷ qs) (filter-append_own profile ps plan h))
  | inr other ↦ rw other (filter-append_own profile ps plan h)
]

module _ (plan : PlanRow) (s : Store)
    (next : plan.version
      ≡ next_plan_version (version_of (current_plan plan.shared_profile_id s))) where
  below : All (IsBelow plan.version) (filter (plan_of plan.shared_profile_id) s.plans)
  below = rw next (IsBelow-next (filter (plan_of plan.shared_profile_id) s.plans))

  pub create_plan_lem : create_plan plan s ≡ done (ok plan) (with_plan plan s)
  create_plan_lem =
      let free : plan_by_version plan.shared_profile_id plan.version s ≡ none =
        sym (find_first-filter _ _ s.plans)
        ∙ find_first-absent _ _ (All-map_into _ _ (λ p low. not_same p low) _ below) in
      rw (create_plan, free) refl
    where
      not_same : (p : PlanRow) → p.version < plan.version → p.version == plan.version ≡ false
      not_same p low = ground arith

  pub current_plan-with_plan : current_plan plan.shared_profile_id (with_plan plan s) ≡ some plan
  current_plan-with_plan =
      ap highest (filter-append_own _ s.plans plan (ground arith)) ∙ highest-append _ plan below
