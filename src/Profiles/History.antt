-- ===== src/Profiles/History.antt =====
-- Whole histories of requests to `ProfilesService`, each served in a tenant's transaction.
use financial_os.Base.{
  ℕ, ◌+◌, ◌≡◌, refl, true, subst, sym, Option, none, some, List, [], length, ◌⊎◌, arith, Uuid,
  IsAbsent,
}
use financial_os.Errors.{ok, err}
use financial_os.Money.Currency.{CurrencyCode}
use financial_os.Permissions.{MemberRole}
use financial_os.Profiles.Membership.{Instant, is_terminal, invited, active, declined, left}
use financial_os.Profiles.Invariant.{IsValid, row_id}
use financial_os.Profiles.Service.{
  create_shared_profile_tx, invite_member_tx, accept_invitation_tx, decline_invitation_tx,
  leave_profile_tx, change_member_role_tx, nominate_owner_tx, accept_ownership_tx,
  archive_profile_tx,
}
use financial_os.Profiles.Governance.{
  accept_invitation-Governs, decline_invitation-Governs, leave_profile-Governs, Moves,
}
use financial_os.Profiles.Roles.{
  nominate_owner-Governs, change_member_role-Governs, ChangesRole, Nominates,
}
use financial_os.Profiles.Ownership.{HandsOver, accept_ownership-Governs}
use financial_os.Profiles.Lifecycle.{
  IsInvited, IsArchived, invite_member-Governs, archive_profile-Governs,
}
use financial_os.Profiles.Founding.{IsFounded, create_shared_profile-Governs}
use financial_os.Store.{
  PeriodLength, Store, MembershipRow, ProfileRow, Principal, Tx, Outcome, done, rolled_back,
  with_tenant, ended, EventType, shared_profile_created, member_invited, invitation_accepted,
  invitation_declined, member_left, member_role_changed, owner_nominated, ownership_transferred,
  profile_archived,
}
use financial_os.Store.Memberships.{find_shared_profile, find_by_profile_and_user}
use financial_os.Store.Post.{Post, Recorded}

-- The service's methods, each with the clock's reading and the identifiers that new rows get.
pub data Request : Type 0 where
  create_profile : CurrencyCode → PeriodLength → Instant → Uuid → Uuid → Request
  invite : Uuid → Uuid → MemberRole → Instant → Uuid → Request
  accept_invitation : Uuid → Instant → Request
  decline_invitation : Uuid → Request
  leave_profile : Uuid → Instant → Request
  change_role : Uuid → MemberRole → ℕ → Request
  nominate : Uuid → Uuid → Request
  take_ownership : Uuid → Request
  close_profile : Uuid → Instant → Request

-- The store behind a unit of work in the principal's tenant.
abbrev committed : {A : Type 0} → Principal → Tx A → Store → Store
committed principal m s = (with_tenant principal.tenant_id m s).1

abbrev pub submit : Principal → Request → Store → Store
submit by (create_profile base period now profile_id owner_id) =
    committed by (create_shared_profile_tx by base period now profile_id owner_id)
submit by (invite profile user role now fresh) =
    committed by (invite_member_tx by profile user role now fresh)
submit by (accept_invitation id now) = committed by (accept_invitation_tx by id now)
submit by (decline_invitation id) = committed by (decline_invitation_tx by id)
submit by (leave_profile id now) = committed by (leave_profile_tx by id now)
submit by (change_role id role expected) = committed by (change_member_role_tx by id role expected)
submit by (nominate profile nominee) = committed by (nominate_owner_tx by profile nominee)
submit by (take_ownership profile) = committed by (accept_ownership_tx by profile)
submit by (close_profile profile now) = committed by (archive_profile_tx by profile now)

-- The identifiers for new rows are new.
abbrev pub IsFresh : Request → Store → Type 0
IsFresh (create_profile base period now profile_id owner_id) s =
    IsAbsent (λ (p : ProfileRow). p.id) profile_id s.profiles
    × IsAbsent (λ m. m.shared_profile_id) profile_id s.memberships
    × IsAbsent row_id owner_id s.memberships
IsFresh (invite profile user role now fresh) s = IsAbsent row_id fresh s.memberships
IsFresh _ s = Unit

-- The stores that requests, by anybody and in any order, lead to.
pub data History (start : Store) : Store → Type 0 where
  begin : History start start
  next :
      {s : Store}
      → History start s
      → (by : Principal) (r : Request) → IsFresh r s
      → History start (submit by r s)

-- One request keeps the invariant, and commits an event and an audit entry together or neither.
record Served (s s' : Store) : Type 0 where
  valid : IsValid s'
  paired : length s'.outbox + length s.audit ≡ length s.outbox + length s'.audit

unchanged : (s : Store) → IsValid s → Served s s
unchanged s v = record { valid = v; paired = omega arith }

recorded : {event : EventType} (s s' : Store) → IsValid s' → Recorded event s s' → Served s s'
recorded s s' v r =
    let (e, more_events, _) = r.events in
    let (a, more_entries, _) = r.entries in
    record { valid = v; paired = rw (more_events, more_entries) (omega arith) }

ended-Served :
    {A : Type 0} (event : EventType) (E : Store → Type 0) (R : Type 0) (X : A → Store → Type 0)
    (s : Store)
    → IsValid s
    → ((s' : Store) → E s' → s' ≡ s)
    → (o : Outcome A) → Post (λ a s'. (IsValid s' × Recorded event s s') × X a s') E R o
    → Served s (ended s o).1
ended-Served event E R X s v keeps (done (ok a) s') p = recorded s s' p.0.0 p.0.1
ended-Served event E R X s v keeps (done (err e) s') p =
    subst (Served s) (sym (keeps s' p)) (unchanged s v)
ended-Served event E R X s v keeps (rolled_back x) p = unchanged s v

tenanted :
    {A : Type 0} (tenant : Option Uuid) (m : Tx A) (s : Store)
    → IsValid s
    → Served s (ended s (m s)).1
    → Served s (with_tenant tenant m s).1
unfolding with_tenant
tenanted none m s v h = unchanged s v
tenanted (some t) m s v h = h

abbrev Taken : Uuid → Uuid → Store → Type 0
Taken profile user s =
    (IsAbsent (λ u. u) user s.users)
    ⊎ ((m : MembershipRow) × (find_by_profile_and_user profile user s ≡ some m)
        × (is_terminal m.status ≡ true))

submit-Served :
    (by : Principal) (r : Request) (s : Store) → IsValid s → IsFresh r s → Served s (submit by r s)
submit-Served by (create_profile base period now profile_id owner_id) s v (new, no_rows, fresh) =
    let m = create_shared_profile_tx by base period now profile_id owner_id in
    tenanted _ m s v (
      ended-Served shared_profile_created _ (IsAbsent (λ u. u) by.user_id s.users)
        (λ p s'. IsFounded by owner_id s' p) s v (λ s' e. absurd e) (m s)
        (create_shared_profile-Governs by base period now profile_id owner_id s v new no_rows
          fresh))
submit-Served by (invite profile user role now fresh) s v absent =
    let m = invite_member_tx by profile user role now fresh in
    tenanted _ m s v (
      ended-Served member_invited _ (Taken profile user s)
        (λ m s'. IsInvited profile user role fresh s s' m) s v (λ s' e. e) (m s)
        (invite_member-Governs by profile user role now fresh s v absent))
submit-Served by (accept_invitation id now) s v _ =
    let m = accept_invitation_tx by id now in
    tenanted _ m s v (
      ended-Served invitation_accepted _ ⊥ (λ row s'. Moves by.user_id id invited active s s' row) s
        v (λ s' e. e) (m s) (accept_invitation-Governs by id now s v))
submit-Served by (decline_invitation id) s v _ =
    let m = decline_invitation_tx by id in
    tenanted _ m s v (
      ended-Served invitation_declined _ ⊥ (λ row s'. Moves by.user_id id invited declined s s' row)
        s v (λ s' e. e) (m s) (decline_invitation-Governs by id s v))
submit-Served by (leave_profile id now) s v _ =
    let m = leave_profile_tx by id now in
    tenanted _ m s v (
      ended-Served member_left _ ⊥ (λ row s'. Moves by.user_id id active left s s' row) s v
        (λ s' e. e) (m s) (leave_profile-Governs by id now s v))
submit-Served by (change_role id role expected) s v _ =
    let m = change_member_role_tx by id role expected in
    tenanted _ m s v (
      ended-Served member_role_changed _ ⊥ (λ row s'. ChangesRole id role expected s s' row) s v
        (λ s' e. e) (m s) (change_member_role-Governs by id role expected s v))
submit-Served by (nominate profile nominee) s v _ =
    let m = nominate_owner_tx by profile nominee in
    tenanted _ m s v (
      ended-Served owner_nominated _ ⊥ (λ row s'. Nominates by.user_id profile nominee s s' row) s v
        (λ s' e. e) (m s) (nominate_owner-Governs by profile nominee s v))
submit-Served by (take_ownership profile) s v _ =
    let m = accept_ownership_tx by profile in
    tenanted _ m s v (
      ended-Served ownership_transferred _ (find_shared_profile profile s ≡ none)
        (λ p s'. HandsOver by.user_id profile s s' p) s v (λ s' e. e) (m s)
        (accept_ownership-Governs by profile s v))
submit-Served by (close_profile profile now) s v _ =
    let m = archive_profile_tx by profile now in
    tenanted _ m s v (
      ended-Served profile_archived _ ⊥ (λ p s'. IsArchived profile now s' p) s v (λ s' e. e) (m s)
        (archive_profile-Governs by profile now s v))

abbrev pub empty_store : List Uuid → Store
empty_store users = record {
  users = users;
  profiles = [];
  memberships = [];
  plans = [];
  allocations = [];
  periods = [];
  records = [];
  personal_profiles = [];
  accounts = [];
  goals = [];
  debts = [];
  responsibilities = [];
  investments = [];
  budgets = [];
  outbox = [];
  audit = [];
}

-- Whatever requests are served, by anybody and in any order, with fresh identifiers for new rows:
-- from a store on that is empty but for users, every profile has at all times exactly one owner, who is active and no
-- nominee, and there are as many events as audit entries.
pub History-IsValid :
    {users : List Uuid} {s : Store}
    → History (empty_store users) s
    → IsValid s × (length s.outbox ≡ length s.audit)
History-IsValid begin = (record { keys = tt; sound = tt; single = tt }, refl)
History-IsValid (next {s} h by r fresh) =
    let (v, even) = History-IsValid h in
    let served = submit-Served by r s v fresh in
    let paired = served.paired in (served.valid, omega (arith, paired, even))
