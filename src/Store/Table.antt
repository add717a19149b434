-- ===== src/Store/Table.antt =====
-- A table of rows with an `id`, and the operations on it that the repositories use: `findUnique`,
-- `create`, and the version-guarded `updateMany` of `prismaVersionedUpdate`.
use financial_os.Base.{
  ℕ, ◌≡◌, ◌≢◌, ap, ◌∙◌, Option, none, some, List, [], ◌∷◌, ◌++◌, if◌then◌else◌, ◌==◌, Bool-cases,
  inl, inr, Uuid, ==_iff,
}
use financial_os.Errors.{ok, constraint}
use financial_os.Store.{
  Store, Tx, done, rolled_back, and_then, ◌>>=◌, write, update_with_optimistic_lock,
}
use financial_os.Store.Memberships.{find_first, update_first}
use financial_os.Store.Tables.{find_first-update_first, find_first-update_first_self}
use financial_os.Store.Post.{Post}

pub record Table (A : Type 0) : Type 0 where
  pub rows : Store → List A
  pub put : List A → Store → Store
  pub key : A → Uuid
  -- What is put is there.
  pub put_rows : (xs : List A) (s : Store) → rows (put xs s) ≡ xs

module _ {A : Type 0} (t : Table A) where
  abbrev pub find_unique : Uuid → Store → Option A
  find_unique id s = find_first (λ x. t.key x == id) (t.rows s)

  -- Behind all other rows.
  abbrev pub create : A → Tx (Unit {0})
  create x = write (λ s. t.put (t.rows s ++ (x ∷ [])) s)

  -- The row with the identifier, changed.
  abbrev pub change : Uuid → (A → A) → Store → Store
  change id f s = t.put (update_first (λ x. t.key x == id) f (t.rows s)) s

  -- `update` of a row that is not there throws.
  abbrev pub update_unique : Uuid → (A → A) → Tx (Unit {0})
  update_unique id f s = elim (find_unique id s) [
    | none ↦ rolled_back constraint
    | some x ↦ done (ok tt) (change id f s)
  ]

  -- The row is changed if its version is the expected one; the number of affected rows comes back.
  -- `f` raises the version.
  abbrev pub versioned_update : (A → ℕ) → (A → A) → Uuid → ℕ → Tx ℕ
  versioned_update version f id expected s = elim (find_unique id s) [
    | none ↦ done (ok 0) s
    | some x ↦ if version x == expected then done (ok 1) (change id f s) else done (ok 0) s
  ]

  pub find_unique-change :
      (id : Uuid) (f : A → A) (s : Store) {x : A}
      → ((y : A) → t.key (f y) ≡ t.key y)
      → find_unique id s ≡ some x
      → find_unique id (change id f s) ≡ some (f x)
  find_unique-change id f s keeps found =
      ap (find_first (λ y. t.key y == id)) (t.put_rows _ s)
      ∙ find_first-update_first_self t.key f keeps id (t.rows s) found

  pub find_unique-change_other :
      (id other : Uuid) (f : A → A) (s : Store)
      → ((y : A) → t.key (f y) ≡ t.key y)
      → other ≢ id
      → find_unique other (change id f s) ≡ find_unique other s
  find_unique-change_other id other f s keeps ne =
      ap (find_first (λ y. t.key y == other)) (t.put_rows _ s)
      ∙ find_first-update_first t.key f keeps id other (t.rows s) ne

  module _ {C : Type 0} (Q : C → Store → Type 0) (E : Store → Type 0) (R : Type 0) where
    pub update_unique-Post :
        (id : Uuid) (f : A → A) (k : Unit {0} → Tx C) (s : Store) {x : A}
        → find_unique id s ≡ some x
        → Post Q E R (k tt (change id f s))
        → Post Q E R (and_then (update_unique id f s) k)
    update_unique-Post id f k s found p = rw (found, update_unique) p

  module _ {B C : Type 0} (Q : C → Store → Type 0) (E : Store → Type 0) (R : Type 0) where
    -- Under the optimistic lock: the expected version and the changed row, or a conflict.
    pub versioned-Post :
        (version : A → ℕ) (f : A → A) (id : Uuid) (expected : ℕ) (reload : Tx B) (k : B → Tx C)
        (s : Store) {x : A}
        → find_unique id s ≡ some x
        → E s
        → (version x ≡ expected → Post Q E R (and_then (reload (change id f s)) k))
        → Post Q E R (
            and_then
              (update_with_optimistic_lock (versioned_update version f id expected) reload s)
              k)
    versioned-Post version f id expected reload k s {x} found e next =
        elim (Bool-cases (version x == expected)) [
          | inl current ↦
              rw (update_with_optimistic_lock, ◌>>=◌, versioned_update, found, current)
                (next ((==_iff _ _).0 current))
          | inr stale ↦ rw (update_with_optimistic_lock, ◌>>=◌, versioned_update, found, stale) e
        ]
