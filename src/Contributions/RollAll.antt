-- ===== src/Contributions/RollAll.antt =====
-- `rolloverForTenant` as a whole.
use financial_os.Base.{
  leb, ◌≤◌, ◌&&◌, take, ℕ, ◌≡◌, ◌≢◌, ◌⊎◌, inl, inr, refl, sym, subst, ◌∙◌, true, none, some, List,
  [], ◌∷◌, arith, filter, All, All-filter, All-take, All-map_into, All-zip, IsAbsent, IsDistinct,
  filter-IsDistinct, take-IsDistinct, Uuid, Bool-cases,
}
use financial_os.Profiles.Membership.{Instant}
use financial_os.Profiles.SharedProfile.{is_writable}
use financial_os.Store.{Store, ProfileRow, PeriodRow, closed_period, open_period, PeriodStatus}
use financial_os.Store.Memberships.{find_shared_profile}
use financial_os.Store.Tables.{find_first-own}
use financial_os.Store.Post.{Post, bind-Post}
use financial_os.Store.Table.{find_unique}
use financial_os.Contributions.Windows.{is_period_due}
use financial_os.Contributions.Repository.{periods, is_due_period, due_periods, is_open}
use financial_os.Contributions.Period.{roll_over, roll_over_all, rollover_for_tenant}
use financial_os.Contributions.RollOver.{IsStored, IsNext, IsOver, IsRolled, roll_over-IsRolled}

abbrev pub period_id : PeriodRow → Uuid
period_id p = p.id

-- A period has a successor, unless its profile is gone or archived.
abbrev pub IsFollowed : (Uuid → Uuid) → Store → Store → PeriodRow → Type 0
IsFollowed fresh s s' p =
    ((profile : ProfileRow) × (find_shared_profile p.shared_profile_id s ≡ some profile)
      × (is_writable profile.status ≡ true)
      × ((next : PeriodRow) × (find_unique periods (fresh p.id) s' ≡ some next)
          × IsNext profile p next (fresh p.id)))
    ⊎ IsOver (find_shared_profile p.shared_profile_id s)

-- What the sweep of periods ensures.
pub record IsRolledOver (fresh : Uuid → Uuid) (ps : List PeriodRow) (s s' : Store) : Type 0 where
  pub all_closed :
      All (λ p. find_unique periods p.id s' ≡ some (record p { status = closed_period })) ps
  pub followed : All (IsFollowed fresh s s') ps
  pub others :
      (id : Uuid)
      → IsAbsent period_id id ps
      → All (λ p. id ≢ fresh p.id) ps
      → find_unique periods id s' ≡ find_unique periods id s
  pub kept :
      (s'.records ≡ s.records) × (s'.allocations ≡ s.allocations) × (s'.profiles ≡ s.profiles)

-- The new identifiers are of no period, and differ among themselves.
pub record IsFreshFor (fresh : Uuid → Uuid) (ps : List PeriodRow) (s : Store) : Type 0 where
  pub unused : All (λ p. find_unique periods (fresh p.id) s ≡ none) ps
  pub apart : All (λ p. All (λ q. q.id ≢ fresh p.id) ps) ps
  pub injective : (a b : Uuid) → fresh a ≡ fresh b → a ≡ b

module _ (fresh : Uuid → Uuid) where
  -- The later periods against the first one.
  rows :
      {p : PeriodRow} {ps : List PeriodRow} {s : Store}
      → IsAbsent period_id p.id ps
      → IsFreshFor fresh (p ∷ ps) s
      → All (λ q. (p.id ≢ fresh q.id) × (q.id ≢ p.id) × (fresh q.id ≢ fresh p.id)) ps
  rows {p} {ps} absent f =
      All-zip _ _ _ (λ q row ne. (row.0, ne, λ e. ne (f.injective q.id p.id e))) ps f.apart.1 absent

  kept_profiles :
      (ps : List PeriodRow) (s s1 s2 : Store)
      → s1.profiles ≡ s.profiles
      → All (IsFollowed fresh s1 s2) ps
      → All (IsFollowed fresh s s2) ps
  kept_profiles ps s s1 s2 same h =
      subst (λ prs. All (IsFollowed fresh (record s1 { profiles = prs }) s2) ps) same h

  -- The first period and the later ones, one after the other.
  joined :
      (p : PeriodRow) (ps : List PeriodRow) (s s1 s2 : Store) (n : ℕ)
      → IsAbsent period_id p.id ps
      → IsFreshFor fresh (p ∷ ps) s
      → IsRolled p (fresh p.id) s n s1
      → IsRolledOver fresh ps s1 s2
      → IsRolledOver fresh (p ∷ ps) s s2
  joined p ps s s1 s2 n absent f one rest =
      let against = rows absent f in
      record {
        all_closed = (
          rest.others p.id absent (All-map_into _ _ (λ q row. row.0) ps against) ∙ one.is_closed,
          rest.all_closed,
        );
        followed = (
          elim one.followed [
            | inl (profile, there, writable, (next, at, is_next), counted) ↦ inl (
              profile,
              there,
              writable,
              (
                next,
                rest.others (fresh p.id) f.apart.0.1
                      (All-map_into _ _ (λ q row e. row.2 (sym e)) ps against)
                    ∙ at,
                is_next,
              ),
            )
            | inr (over, counted) ↦ inr over
          ],
          kept_profiles ps s s1 s2 one.kept.2 rest.followed,
        );
        others = λ id a b. rest.others id a.1 b.1 ∙ one.others id (λ e. a.0 (sym e)) b.0;
        kept = (rest.kept.0 ∙ one.kept.0, rest.kept.1 ∙ one.kept.1, rest.kept.2 ∙ one.kept.2);
      }

module _ (now : Instant) (fresh : Uuid → Uuid) where
  sweep-IsRolledOver :
      (ps : List PeriodRow) (s : Store)
      → IsDistinct period_id ps
      → IsFreshFor fresh ps s
      → All (λ p. is_period_due p.end_date now ≡ true) ps
      → All (λ p. find_unique periods p.id s ≡ some p) ps
      → All IsStored s.allocations
      → Post (λ n s'. IsRolledOver fresh ps s s') (λ s'. ⊥) ⊥ (roll_over_all now fresh ps s)
  unfolding roll_over_all
  sweep-IsRolledOver [] s d f due own h = record {
    all_closed = tt;
    followed = tt;
    others = λ id a b. refl;
    kept = (refl, refl, refl);
  }
  sweep-IsRolledOver (p ∷ ps) s (absent, d) f (is_due, due) (found, own) h = rw is_due (
      bind-Post _ _ _ _ (roll_over p (fresh p.id) s) _
        (roll_over-IsRolled p (fresh p.id) s found f.unused.0 h)
        (λ n s1 one.
          bind-Post _ _ _ _ (roll_over_all now fresh ps s1) _
            (sweep-IsRolledOver ps s1 d (fresh_later one) due (own_later one) (rw one.kept.1 h))
            (λ k s2 rest. joined fresh p ps s s1 s2 n absent f one rest)))
    where
      fresh_later : {s1 : Store} {n : ℕ} → IsRolled p (fresh p.id) s n s1 → IsFreshFor fresh ps s1
      fresh_later one = record {
        unused =
            All-zip _ _ _
              (λ q row none_there. one.others (fresh q.id) (λ e. row.0 (sym e)) row.2 ∙ none_there)
              ps (rows fresh absent f) f.unused.1;
        apart = All-map_into _ _ (λ q row. row.1) ps f.apart.1;
        injective = f.injective;
      }

      own_later :
          {s1 : Store} {n : ℕ}
          → IsRolled p (fresh p.id) s n s1
          → All (λ q. find_unique periods q.id s1 ≡ some q) ps
      own_later {s1} one =
          All-zip _ _ _ (λ q same here. same ∙ here) ps
            (All-zip _ _ (λ q. find_unique periods q.id s1 ≡ find_unique periods q.id s)
              (λ q ne away. one.others q.id ne away) ps absent f.apart.0.1)
            own

due-All :
    (now : Instant) (ps : List PeriodRow)
    → All (λ p. is_due_period now p ≡ true) (filter (is_due_period now) ps)
due-All now [] = tt
due-All now (p ∷ ps) = elim (Bool-cases (is_due_period now p)) [
  | inl is ↦ rw is (is, due-All now ps)
  | inr is_not ↦ rw is_not (due-All now ps)
]

-- The first 500 periods that are open and have reached their end.
abbrev pub first_due : Instant → Store → List PeriodRow
first_due now s = take 500 (filter (λ p. is_open p.status && leb p.end_date now) s.periods)

is_open_lem :
    (now : Instant) (p : PeriodRow)
    → is_due_period now p ≡ true
    → (p.status ≡ open_period) × (p.end_date ≤ now)
is_open_lem now p h = (opens p.status (ground arith), ground arith)
  where
    opens : (st : PeriodStatus) → is_open st ≡ true → st ≡ open_period
    opens open_period e = refl
    opens closed_period e = cc

is_due_lem :
    (now : Instant) (p : PeriodRow)
    → is_due_period now p ≡ true
    → is_period_due p.end_date now ≡ true
is_due_lem now p h = ground arith

-- The rollover always succeeds: each of the first 500 periods that are OPEN and have reached their end is
-- CLOSED and otherwise as before; unless its profile is gone or archived, a period follows that is open, starts exactly where
-- the last one ended, and ends later; no other period, and no contribution, allocation or profile, is
-- changed; for periods with distinct identifiers, percentages from 0 to 10000, and new identifiers.
pub rollover_for_tenant-IsRolledOver :
    (now : Instant) (fresh : Uuid → Uuid) (s : Store)
    → IsDistinct period_id s.periods
    → IsFreshFor fresh (first_due now s) s
    → All IsStored s.allocations
    → All (λ p. (p.status ≡ open_period) × (p.end_date ≤ now)) (first_due now s)
      × Post
          (λ n s'. IsRolledOver fresh (first_due now s) s s')
          (λ s'. ⊥)
          ⊥
          (rollover_for_tenant now fresh s)
unfolding rollover_for_tenant
rollover_for_tenant-IsRolledOver now fresh s d f h =
    let due = All-take _ 500 _ (due-All now s.periods) in
    (
      All-map_into _ _ (is_open_lem now) (first_due now s) due,
      sweep-IsRolledOver now fresh (due_periods now s) s
          (take-IsDistinct period_id 500 _
            (filter-IsDistinct period_id (is_due_period now) s.periods d))
          f (All-map_into _ _ (is_due_lem now) _ due)
          (All-take _ 500 _
            (All-filter _ (is_due_period now) _ (find_first-own period_id s.periods d)))
          h,
    )
