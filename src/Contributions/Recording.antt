-- ===== src/Contributions/Recording.antt =====
-- `ensureOpenPeriod` and `recordContribution`: what they ensure of the store.
use financial_os.Base.{
  filter-append, ◌≡◌, ◌⊎◌, inl, inr, refl, ap, ◌∙◌, true, ◌&&◌, Option, none, some, Option-cases,
  List, [], ◌∷◌, ◌++◌, arith, if◌then◌else◌, ltb, ◌==◌, ==_refl, filter, Uuid, Bool-cases,
}
use financial_os.Base.Int.{ℤ, pos, ◌≤ℤ◌, ◌+ℤ◌, leb_ℤ, sum_ℤ, sum_ℤ-append, +ℤ_zero}
use financial_os.Errors.{ok, fail, validation}
use financial_os.Profiles.Membership.{Instant}
use financial_os.Profiles.SharedProfile.{is_writable, active_profile}
use financial_os.Store.{
  Store, ProfileRow, PeriodRow, RecordRow, DomainEvent, Principal, contribution_period_opened,
  contribution_recorded,
}
use financial_os.Store.Memberships.{find_by_id, find_shared_profile}
use financial_os.Store.Post.{Post, lift-Post, bind-Post, Recorded}
use financial_os.Contributions.Windows.{first_period_window}
use financial_os.Contributions.Repository.{latest, is_open_of, find_open_period, actual_for_member}
use financial_os.Contributions.Period.{opened, open_period_tx, ensure_open_period}
use financial_os.Contributions.Service.{
  self_member, open_profile, new_record, record_contribution_tx,
}

abbrev pub event_opened : Uuid → DomainEvent
event_opened period = record {
  event_type = contribution_period_opened;
  aggregate_id = period;
  actor_membership_id = none;
}

-- The store in which a period was opened now.
abbrev pub with_period : PeriodRow → Store → Store
with_period period s = record s {
  periods = s.periods ++ (period ∷ []);
  outbox = event_opened period.id ∷ s.outbox;
}

-- The open period that there was, or else a first one, from `now` on.
abbrev pub IsEnsured : ProfileRow → Instant → Uuid → Store → PeriodRow → Store → Type 0
IsEnsured profile now fresh s period s' =
    ((find_open_period profile.id s ≡ some period) × (s' ≡ s))
    ⊎ ((find_open_period profile.id s ≡ none)
        × (period ≡ opened profile.id (first_period_window now profile.period_length) fresh s)
        × (s' ≡ with_period period s))

pub ensure-IsEnsured :
    (E : Store → Type 0) (R : Type 0) (profile : ProfileRow) (now : Instant) (fresh : Uuid)
    (s : Store)
    → Post (IsEnsured profile now fresh s) E R (ensure_open_period profile now fresh s)
unfolding ensure_open_period open_period_tx
ensure-IsEnsured E R profile now fresh s = elim (Option-cases (find_open_period profile.id s)) [
  | inl missing ↦ rw missing (inr (missing, refl, refl))
  | inr (period, found) ↦ rw found (inl (found, refl))
]

latest-none : (ps : List PeriodRow) → latest ps ≡ none → ps ≡ []
latest-none [] h = refl
latest-none (p ∷ ps) h = elim (Option-cases (latest ps)) [
  | inl alone ↦ let found = rw (latest, alone) at h in absurd (cc)
  | inr (q, top) ↦ elim (Bool-cases (ltb p.start_date q.start_date)) [
    | inl less ↦ let found = rw (latest, top, less) at h in absurd (cc)
    | inr more ↦ let found = rw (latest, top, more) at h in absurd (cc)
  ]
]

-- Either way it is the open period afterwards.
pub IsEnsured-open :
    (profile : ProfileRow) (now : Instant) (fresh : Uuid) (s s' : Store) (period : PeriodRow)
    → IsEnsured profile now fresh s period s'
    → find_open_period profile.id s' ≡ some period
IsEnsured-open profile now fresh s s' period (inl (found, same)) = rw same found
IsEnsured-open profile now fresh s s' period (inr (missing, is_new, e)) =
    let is_open : is_open_of profile.id period ≡ true = rw (is_new, ==_refl profile.id) refl in
    let alone = latest-none (filter (is_open_of profile.id) s.periods) missing in
    let last : filter (is_open_of profile.id) s.periods
          ++ filter (is_open_of profile.id) (period ∷ [])
        ≡ period ∷ [] =
      rw (alone, is_open) refl in
    rw e (ap latest (filter-append (is_open_of profile.id) s.periods (period ∷ []) ∙ last))

-- No contribution is touched by it.
pub IsEnsured-records :
    (profile : ProfileRow) (now : Instant) (fresh : Uuid) (s s' : Store) (period : PeriodRow)
    → IsEnsured profile now fresh s period s'
    → s'.records ≡ s.records
IsEnsured-records profile now fresh s s' period (inl (found, same)) = ap (λ z. z.records) same
IsEnsured-records profile now fresh s s' period (inr (missing, is_new, e)) = ap (λ z. z.records) e

-- What a recorded contribution ensures: a positive amount, in the profile's open period, is one record
-- more, and counts in that period for that member and in full.
pub record IsRecorded (principal : Principal) (profile_id member : Uuid) (cents : ℤ)
    (source : Option Uuid) (now : Instant) (fresh_period : Uuid) (s : Store) (row : RecordRow)
    (s' : Store) : Type 0 where
  pub profile : ProfileRow
  pub period : PeriodRow
  pub between : Store
  pub writable :
      (find_shared_profile profile_id s ≡ some profile) × (profile.status ≡ active_profile)
  pub ensured : IsEnsured profile now fresh_period s period between
  pub is_open : find_open_period profile.id between ≡ some period
  pub fields :
      (row.shared_profile_id ≡ profile_id)
      × (row.period_id ≡ period.id)
      × (row.membership_id ≡ member)
      × (row.amount ≡ cents)
      × (row.source_account_id ≡ source)
  pub positive : pos 1 ≤ℤ cents
  pub records : s'.records ≡ s.records ++ (row ∷ [])
  pub counted :
      (q : Uuid)
      → actual_for_member q member s'
        ≡ actual_for_member q member s +ℤ (if period.id == q then cents else pos 0)
  pub recorded : Recorded contribution_recorded between s'

module _ (row : RecordRow) (member period : Uuid) where
  actual-append :
      (rows : List RecordRow)
      → sum_ℤ
          (λ r. r.amount)
          (filter
            (λ r. r.membership_id == member)
            (filter (λ r. r.period_id == period) (rows ++ (row ∷ []))))
        ≡ sum_ℤ
            (λ r. r.amount)
            (filter (λ r. r.membership_id == member) (filter (λ r. r.period_id == period) rows))
          +ℤ (if row.period_id == period && row.membership_id == member then row.amount else pos 0)
  actual-append rows =
      ap (λ rs. sum_ℤ (λ r. r.amount) (filter (λ r. r.membership_id == member) rs))
        (filter-append (λ r. r.period_id == period) rows (row ∷ []))
      ∙ ap (sum_ℤ (λ r. r.amount)) (
          filter-append (λ r. r.membership_id == member) (filter (λ r. r.period_id == period) rows)
            _)
      ∙ sum_ℤ-append (λ r. r.amount)
          (filter (λ r. r.membership_id == member) (filter (λ r. r.period_id == period) rows)) _
      ∙ ap
          (λ z.
            sum_ℤ (λ r. r.amount)
              (filter (λ r. r.membership_id == member) (filter (λ r. r.period_id == period) rows))
            +ℤ z)
          single
    where
      single :
          sum_ℤ
            (λ r. r.amount)
            (filter
              (λ r. r.membership_id == member)
              (filter (λ r. r.period_id == period) (row ∷ [])))
          ≡ (if row.period_id == period && row.membership_id == member then row.amount else pos 0)
      single = elim (Bool-cases (row.period_id == period)) [
        | inl here ↦ elim (Bool-cases (row.membership_id == member)) [
          | inl own ↦ rw (here, own) (+ℤ_zero _)
          | inr other ↦ rw (here, other) refl
        ]
        | inr away ↦ rw away refl
      ]

pub open_profile_lem :
    (o : Option ProfileRow) {p : ProfileRow}
    → open_profile o ≡ ok p
    → (o ≡ some p) × (p.status ≡ active_profile)
unfolding open_profile is_writable
open_profile_lem none h = cc
open_profile_lem (some p) h = ground arith

-- `recordContribution` never throws and, after an error, has changed nothing. Otherwise the amount is
-- positive, the profile exists and is active, and there is exactly one record more, of this member and
-- amount, in the profile's open period (opened now if there was none); what counts as the member's
-- contribution rises by the amount in that period and stays in every other; and one event and one
-- audit entry are written for it.
pub record_contribution-IsRecorded :
    (principal : Principal) (profile member : Uuid) (cents : ℤ) (source : Option Uuid)
    (now : Instant) (fresh_period fresh : Uuid) (s : Store)
    → Post
        (IsRecorded principal profile member cents source now fresh_period s)
        (λ s'. s' ≡ s)
        ⊥
        (record_contribution_tx principal profile member cents source now fresh_period fresh s)
unfolding record_contribution_tx
record_contribution-IsRecorded principal profile member cents source now fresh_period fresh s =
    lift-Post _ _ _ (self_member _ _ _ (find_by_id member s)) _ s refl (λ r allowed.
      lift-Post _ _ _ (if leb_ℤ cents (pos 0) then fail validation else ok tt) _ s refl
        (λ (u : Unit {0}) positive.
          lift-Post _ _ _ (open_profile (find_shared_profile profile s)) _ s refl (λ p is_open.
            bind-Post (IsEnsured p now fresh_period s) _ _ _
              (ensure_open_period p now fresh_period s) _
              (ensure-IsEnsured _ _ p now fresh_period s)
              (λ period between ensured. record {
                profile = p;
                period = period;
                between = between;
                writable = open_profile_lem _ is_open;
                ensured = ensured;
                is_open = IsEnsured-open p now fresh_period s between period ensured;
                fields = (refl, refl, refl, refl, refl);
                positive = positive_lem cents positive;
                records =
                    ap (λ rs. rs ++ (new_record profile member cents source fresh period.id ∷ []))
                      (IsEnsured-records p now fresh_period s between period ensured);
                counted = λ q.
                    counted_lem period.id between.records s.records q
                      (IsEnsured-records p now fresh_period s between period ensured);
                recorded = record { events = (_, refl, refl); entries = (_, refl, refl) };
              }))))
  where
    positive_lem :
        (cents : ℤ) {u : Unit {0}}
        → (if leb_ℤ cents (pos 0) then fail validation else ok tt) ≡ ok u
        → pos 1 ≤ℤ cents
    positive_lem cents h = ground arith

    counted_lem :
        (period : Uuid) (rows before : List RecordRow) (q : Uuid)
        → rows ≡ before
        → sum_ℤ
            (λ r. r.amount)
            (filter
              (λ r. r.membership_id == member)
              (filter
                (λ r. r.period_id == q)
                (rows ++ (new_record profile member cents source fresh period ∷ []))))
          ≡ sum_ℤ
              (λ r. r.amount)
              (filter (λ r. r.membership_id == member) (filter (λ r. r.period_id == q) before))
            +ℤ (if period == q then cents else pos 0)
    counted_lem period rows before q same = rw same (
        actual-append (new_record profile member cents source fresh period) member q before
        ∙ ap
            (λ z.
              sum_ℤ (λ r. r.amount)
                (filter (λ r. r.membership_id == member) (filter (λ r. r.period_id == q) before))
              +ℤ z)
            (rw (==_refl member)
              (elim (Bool-cases (period == q)) [ inl e ↦ rw e refl | inr e ↦ rw e refl ])))
