-- ===== src/Store/Post.antt =====
-- What a unit of work ensures: `P` of a result, `E` of the store after a returned error, and `R` if
-- it throws; with one rule for each kind of step.
use financial_os.Base.{
  ◌≡◌, refl, sym, subst, Option, none, some, Uuid, ◌∷◌, ◌==◌, Option-cases, inl, inr,
}
use financial_os.Errors.{Result, ok, err, DomainErrorCode}
use financial_os.Store.{
  Store, MembershipRow, ProfileRow, Tx, Outcome, done, rolled_back, and_then, lift, require, expect,
  DomainEvent, AuditEntry, EventType, of_event,
}
use financial_os.Store.Memberships.{
  find_by_id, has_id, update_first, apply_delta_to, apply_to_row, find_shared_profile,
  update_profile,
}
use financial_os.Profiles.Membership.{MembershipDelta}

abbrev pub Post :
    {A : Type 0} → (A → Store → Type 0) → (Store → Type 0) → Type 0 → Outcome A → Type 0
Post P E R (done (ok a) s) = P a s
Post P E R (done (err e) s) = E s
Post P E R (rolled_back x) = R

module _ {A B : Type 0} (Q : B → Store → Type 0) (E : Store → Type 0) (R : Type 0) where
  pub lift-Post :
      (r : Result A) (f : A → Tx B) (s : Store)
      → E s
      → ((a : A) → r ≡ ok a → Post Q E R (f a s))
      → Post Q E R (and_then (lift r s) f)
  lift-Post (ok a) f s e k = k a refl
  lift-Post (err x) f s e k = e

  pub require-Post :
      (o : Option A) (code : DomainErrorCode) (f : A → Tx B) (s : Store)
      → E s
      → ((a : A) → o ≡ some a → Post Q E R (f a s))
      → Post Q E R (and_then (require o code s) f)
  require-Post none code f s e k = e
  require-Post (some a) code f s e k = k a refl

module _ {A : Type 0} (Q : A → Store → Type 0) (E : Store → Type 0) (R : Type 0) where
  pub expect-Post :
      (o : Option A) (s : Store) {a : A} → o ≡ some a → Q a s → Post Q E R (expect o s)
  expect-Post none s h q = absurd (cc)
  expect-Post (some b) s {a} h q = subst (λ x. Q x s) (cc) q

module _ {B : Type 0} (Q : B → Store → Type 0) (E : Store → Type 0) (R : Type 0) where
  -- A membership that is found by its identifier, changed by a delta.
  pub delta-Post :
      (id : Uuid) (d : MembershipDelta) (f : Unit {0} → Tx B) (s : Store) {r : MembershipRow}
      → find_by_id id s ≡ some r
      → Post Q E R (
          f tt (record s { memberships = update_first (has_id id) (apply_to_row d) s.memberships }))
      → Post Q E R (and_then (apply_delta_to id d s) f)
  delta-Post id d f s found p = rw (found, apply_delta_to) p

  -- A profile row that is changed, or missing.
  pub profile-Post :
      (id : Uuid) (g : ProfileRow → ProfileRow) (f : Unit {0} → Tx B) (s : Store)
      → (find_shared_profile id s ≡ none → R)
      → ((p : ProfileRow)
          → find_shared_profile id s ≡ some p
          → Post Q E R (f tt (record s { profiles = update_first (λ p. p.id == id) g s.profiles })))
      → Post Q E R (and_then (update_profile id g s) f)
  profile-Post id g f s missing k = elim (Option-cases (find_shared_profile id s)) [
    | inl absent ↦ rw (absent, update_profile) (missing absent)
    | inr (p, found) ↦ rw (found, update_profile) (k p found)
  ]

-- What a unit of work ensures serves what comes after it.
module _ {A B : Type 0} (P : A → Store → Type 0) (Q : B → Store → Type 0) (E : Store → Type 0)
    (R : Type 0) where
  pub bind-Post :
      (o : Outcome A) (f : A → Tx B)
      → Post P E R o
      → ((a : A) (s : Store) → P a s → Post Q E R (f a s))
      → Post Q E R (and_then o f)
  bind-Post (done (ok a) s) f p k = k a s p
  bind-Post (done (err e) s) f p k = p
  bind-Post (rolled_back x) f p k = p

-- Work that does not write: its store is the one it began with.
module _ {A B : Type 0} (P : A → Type 0) (Q : B → Store → Type 0) (E : Store → Type 0)
    (R : Type 0) where
  pub reading-Post :
      (o : Outcome A) (f : A → Tx B) (s : Store)
      → Post (λ a s'. (s' ≡ s) × P a) (λ s'. s' ≡ s) ⊥ o
      → E s
      → ((a : A) → P a → Post Q E R (f a s))
      → Post Q E R (and_then o f)
  reading-Post (done (ok a) s') f s (same, p) e k =
      subst (λ z. Post Q E R (f a z)) (sym same) (k a p)
  reading-Post (done (err x) s') f s same e k = subst E (sym same) e
  reading-Post (rolled_back x) f s p e k = absurd p

-- What a committed use case has done beside the rows: one event more, and one audit entry, for it.
pub record Recorded (event : EventType) (before after : Store) : Type 0 where
  pub events : (e : DomainEvent) × (after.outbox ≡ e ∷ before.outbox) × (e.event_type ≡ event)
  pub entries : (a : AuditEntry) × (after.audit ≡ a ∷ before.audit) × (a.action ≡ of_event event)
