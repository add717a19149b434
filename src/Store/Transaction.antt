-- ===== src/Store/Transaction.antt =====
-- A unit of work in a transaction. A returned `Result`, an error too, commits what was written; an
-- exception rolls it back.
use financial_os.Base.{ℕ, Option, none, some, ◌∷◌, if◌then◌else◌, ◌==◌, Uuid}
use financial_os.Errors.{
  Result, ok, err, fail, DomainErrorCode, conflict, Exception, constraint, no_tenant, Attempt,
  returned, threw,
}
use financial_os.Store.Rows.{Store, EventType, AuditAction}

pub data Outcome (A : Type 0) : Type 0 where
  done : Result A → Store → Outcome A
  rolled_back : Exception → Outcome A

abbrev pub Tx : Type 0 → Type 0
Tx A = Store → Outcome A

-- `if (isErr(r)) return r`, and an exception ends the work.
abbrev pub and_then : {A B : Type 0} → Outcome A → (A → Tx B) → Outcome B
and_then (done (ok a) s) f = f a s
and_then (done (err e) s) f = done (err e) s
and_then (rolled_back x) f = rolled_back x

infixl 5 ◌>>=◌ ◌>>◌
abbrev pub ◌>>=◌ : {A B : Type 0} → Tx A → (A → Tx B) → Tx B
◌>>=◌ m f s = and_then (m s) f

abbrev pub ◌>>◌ : {B : Type 0} → Tx (Unit {0}) → Tx B → Tx B
m >> k = m >>= λ _. k

abbrev pub lift : {A : Type 0} → Result A → Tx A
lift r s = done r s

-- What the domain throws ends the work.
abbrev pub attempt : {A : Type 0} → Attempt A → Tx A
attempt (returned a) s = done (ok a) s
attempt (threw x) s = rolled_back x

abbrev pub read : {A : Type 0} → (Store → A) → Tx A
read f s = done (ok (f s)) s

-- A row that must be there: `if (!row) return err(…)`.
abbrev pub require : {A : Type 0} → Option A → DomainErrorCode → Tx A
require none code s = done (fail code) s
require (some a) code s = done (ok a) s

-- `find(…)!`: a row that the code knows to be there.
abbrev pub expect : {A : Type 0} → Option A → Tx A
expect none s = rolled_back constraint
expect (some a) s = done (ok a) s

abbrev pub write : (Store → Store) → Tx (Unit {0})
write f s = done (ok tt) (f s)

-- The end of a transaction that began at a store: an exception rolls back, and nothing else does.
abbrev pub ended : {A : Type 0} → Store → Outcome A → Attempt (Result A) × Store
ended before (done r after) = (returned r, after)
ended before (rolled_back x) = (threw x, before)

-- `TenancyService.withTenant`
unfoldable pub with_tenant : {A : Type 0} → Option Uuid → Tx A → Store → Attempt (Result A) × Store
with_tenant none m s = (threw no_tenant, s)
with_tenant (some tenant) m s = ended s (m s)

-- `OutboxWriter.write`: the newest event comes first.
abbrev pub emit : EventType → Uuid → Option Uuid → Tx (Unit {0})
emit event_type aggregate actor = write (λ s. record s {
  outbox =
      record { event_type = event_type; aggregate_id = aggregate; actor_membership_id = actor }
      ∷ s.outbox;
})

-- `AuditWriter.write`
abbrev pub log : Uuid → Option Uuid → AuditAction → Tx (Unit {0})
log profile actor action = write (λ s. record s {
  audit =
      record { shared_profile_id = profile; actor_membership_id = actor; action = action }
      ∷ s.audit;
})

-- `updateWithOptimisticLock`: no affected row is a conflict.
abbrev pub update_with_optimistic_lock : {A : Type 0} → Tx ℕ → Tx A → Tx A
update_with_optimistic_lock conditional_update reload =
    conditional_update >>= λ affected. if affected == 0 then lift (fail conflict) else reload
