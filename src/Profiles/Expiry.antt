-- ===== src/Profiles/Expiry.antt =====
-- The job that expires unanswered invitations: `runForTenant` of
-- `application/jobs/invitation-expiry.job.ts`. The search for tenants with due invitations across
-- the whole database is left out.
use financial_os.Base.{
  ℕ, ◌+◌, ◌≡◌, refl, sym, subst, ◌∙◌, Bool, true, ◌&&◌, none, some, List, [], ◌∷◌, arith,
  if◌then◌else◌, leb, ◌==◌, length, filter, take, All, All-zip, IsDistinct, filter-IsDistinct,
  take-IsDistinct, All-take, All-filter, IsAbsent, Bool-cases, inl, inr, Uuid,
}
use financial_os.Errors.{ok, err}
use financial_os.Profiles.Membership.{
  MembershipStatus, active, is_invitation_expired, invited, expired, status_eq, Instant, no_delta,
  expire,
}
use financial_os.Profiles.Invariant.{IsValid, row_id, IsSoundOwner, update-IsValid}
use financial_os.Store.{
  Store, MembershipRow, Tx, Outcome, ◌>>=◌, ◌>>◌, lift, emit, log, of_event, invitation_expired,
  and_then, done, rolled_back,
}
use financial_os.Store.Memberships.{to_membership_state, find_by_id, has_id, update_first}
use financial_os.Store.Tables.{
  find_first-update_first, find_first-update_first_self, find_first-All, find_first-own,
}
use financial_os.Store.Post.{Post}

-- `status: 'INVITED', invitationExpiresAt: { lte: now }`
abbrev pub is_due : Instant → MembershipRow → Bool
is_due now m = status_eq m.status invited && leb m.invitation_expires_at now

-- `findMany` with `take: 500`, in the order of the table.
abbrev pub due_rows : Instant → Store → List MembershipRow
due_rows now s = take 500 (filter (is_due now) s.memberships)

abbrev pub expired_row : MembershipRow → MembershipRow
expired_row m = record m { status = expired }

-- `updateMany` of the row, if it is still INVITED: the number of affected rows.
abbrev pub expire_if_invited : Uuid → Tx ℕ
expire_if_invited id s = elim (find_by_id id s) [
  | none ↦ done (ok 0) s
  | some r ↦
      if status_eq r.status invited
      then done (ok 1)
          (record s { memberships = update_first (has_id id) expired_row s.memberships })
      else done (ok 0) s
]

-- The loop over the due rows: how many it has expired.
unfoldable pub sweep : Instant → List MembershipRow → Tx ℕ
sweep now [] = lift (ok 0)
sweep now (row ∷ rows) =
    let rest = sweep now rows in
    elim (expire (to_membership_state row) now) [
      | err e ↦ rest
      | ok d ↦ do
        affected ← expire_if_invited row.id
        if affected == 0
            then rest
            else emit invitation_expired row.id none
              >> log row.shared_profile_id none (of_event invitation_expired)
              >> (rest >>= λ n. lift (ok (n + 1)))
    ]

unfoldable pub run_for_tenant : Instant → Tx ℕ
unfolding sweep
run_for_tenant now s = sweep now (due_rows now s) s

-- What the sweep of rows does: they are expired, nobody else's row is touched, and each has its event
-- and its audit entry.
pub record Swept (rows : List MembershipRow) (s : Store) (n : ℕ) (s' : Store) : Type 0 where
  pub valid : IsValid s'
  pub done_all : All (λ r. find_by_id r.id s' ≡ some (record r { status = expired })) rows
  pub others : (id : Uuid) → IsAbsent row_id id rows → find_by_id id s' ≡ find_by_id id s
  pub counted : n ≡ length rows
  pub events : length s'.outbox ≡ length s.outbox + n
  pub entries : length s'.audit ≡ length s.audit + n

due_expires :
    (now : Instant) (r : MembershipRow)
    → is_due now r ≡ true
    → (expire (to_membership_state r) now ≡ ok (record no_delta { status = some expired }))
      × (status_eq r.status invited ≡ true)
unfolding expire is_invitation_expired
due_expires now r h = ground arith

-- Work that surely ends well, and what comes after it.
then-Post :
    {A B : Type 0} (P : A → Store → Type 0) (Q : B → Store → Type 0) (f : A → Tx B) (o : Outcome A)
    → Post P (λ _. ⊥) ⊥ o
    → ((a : A) (s : Store) → P a s → Post Q (λ _. ⊥) ⊥ (f a s))
    → Post Q (λ _. ⊥) ⊥ (and_then o f)
then-Post P Q f (done (ok a) s) p k = k a s p
then-Post P Q f (done (err e) s) p k = absurd p
then-Post P Q f (rolled_back x) p k = absurd p

-- The row that is due now, expired and recorded.
abbrev one_swept : MembershipRow → Store → Store
one_swept r s = record s {
  memberships = update_first (has_id r.id) expired_row s.memberships;
  outbox =
      record { event_type = invitation_expired; aggregate_id = r.id; actor_membership_id = none }
      ∷ s.outbox;
  audit =
      record {
        shared_profile_id = r.shared_profile_id;
        actor_membership_id = none;
        action = of_event invitation_expired;
      }
      ∷ s.audit;
}

not_both : (st : MembershipStatus) → status_eq st invited ≡ true → status_eq st active ≡ true → ⊥
not_both st h k = ground arith

one_swept-IsValid :
    (r : MembershipRow) (s : Store)
    → IsValid s
    → find_by_id r.id s ≡ some r
    → status_eq r.status invited ≡ true
    → IsValid (one_swept r s)
one_swept-IsValid r s v found pending =
    let sound = find_first-All IsSoundOwner (has_id r.id) s.memberships v.sound found in
    let kept =
      update-IsValid expired_row (λ x. refl) r.id s v found
        (λ owns. let (up, _) = sound owns in absurd (not_both r.status pending up)) (λ p. refl) in
    record { keys = kept.keys; sound = kept.sound; single = kept.single }

sweep-step :
    (now : Instant) (r : MembershipRow) (rows : List MembershipRow) (s : Store)
    → expire (to_membership_state r) now ≡ ok (record no_delta { status = some expired })
    → find_by_id r.id s ≡ some r
    → status_eq r.status invited ≡ true
    → sweep now (r ∷ rows) s ≡ and_then (sweep now rows (one_swept r s)) (λ n. lift (ok (n + 1)))
unfolding sweep
sweep-step now r rows s decided found pending =
    rw (decided, sweep) (rw (found, ◌>>=◌, expire_if_invited, pending) refl)

sweep-Swept :
    (now : Instant) (rows : List MembershipRow) (s : Store)
    → IsValid s
    → All (λ r. find_by_id r.id s ≡ some r) rows
    → All (λ r. is_due now r ≡ true) rows
    → IsDistinct row_id rows
    → Post (λ n s'. Swept rows s n s') (λ _. ⊥) ⊥ (sweep now rows s)
unfolding sweep
sweep-Swept now [] s v found due d = record {
  valid = v;
  done_all = tt;
  others = λ id h. refl;
  counted = refl;
  events = omega arith;
  entries = omega arith;
}
sweep-Swept now (r ∷ rows) s v (found, founds) (due, dues) (absent, d) =
    let (decided, pending) = due_expires now r due in
    let s' = one_swept r s in
    let next =
      sweep-Swept now rows s' (one_swept-IsValid r s v found pending)
        (All-zip _ _ _
          (λ q ne own.
            find_first-update_first row_id expired_row (λ x. refl) r.id q.id s.memberships ne ∙ own)
          rows absent founds)
        dues d in
    subst (λ o. Post (λ n t. Swept (r ∷ rows) s n t) (λ _. ⊥) ⊥ o)
      (sym (sweep-step now r rows s decided found pending))
      (then-Post (λ n t. Swept rows s' n t) _ (λ n. lift (ok (n + 1))) (sweep now rows s') next
        λ n t swept. record {
          valid = swept.valid;
          done_all = (
            swept.others r.id absent
                ∙ find_first-update_first_self row_id expired_row (λ x. refl) r.id s.memberships
                    found,
            swept.done_all,
          );
          others = λ id (ne, away).
              swept.others id away
              ∙ find_first-update_first row_id expired_row (λ x. refl) r.id id s.memberships
                  (λ e. ne (sym e));
          counted = omega (arith, swept.counted);
          events = omega (arith, swept.events);
          entries = omega (arith, swept.entries);
        })

due-All :
    (now : Instant) (rows : List MembershipRow)
    → All (λ r. is_due now r ≡ true) (filter (is_due now) rows)
due-All now [] = tt
due-All now (r ∷ rows) = elim (Bool-cases (is_due now r)) [
  | inl due ↦ rw due (due, due-All now rows)
  | inr later ↦ rw later (due-All now rows)
]

-- The expiry job, from a store in which every profile has exactly one owner, who is active and no
-- nominee, neither throws nor returns an error: the store still is so, each of the first 500 members who
-- are INVITED and whose invitation has run out is EXPIRED and otherwise as before, no other row is
-- touched, the number of these comes back, and there are as many events and audit entries more.
pub run_for_tenant-Swept :
    (now : Instant) (s : Store)
    → IsValid s
    → Post
        (λ n s'.
          Swept
            (take 500 (
              filter
                (λ m. status_eq m.status invited && leb m.invitation_expires_at now)
                s.memberships))
            s
            n
            s')
        (λ _. ⊥)
        ⊥
        (run_for_tenant now s)
unfolding run_for_tenant
run_for_tenant-Swept now s v =
    let kept = filter-IsDistinct row_id (is_due now) s.memberships v.keys in
    let own =
      All-filter (λ r. find_by_id r.id s ≡ some r) (is_due now) s.memberships
        (find_first-own row_id s.memberships v.keys) in
    sweep-Swept now (due_rows now s) s v (All-take (λ r. find_by_id r.id s ≡ some r) 500 _ own)
      (All-take (λ r. is_due now r ≡ true) 500 _ (due-All now s.memberships))
      (take-IsDistinct row_id 500 _ kept)
