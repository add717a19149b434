-- ===== src/Store/Commit.antt =====
-- The optimistic lock, on the abstract view of a table: a finite map from identifiers to rows.
use financial_os.Base.{ℕ, ◌≡◌, ◌≢◌, refl, Option, some, Uuid}
use financial_os.Store.{Store, Tx, and_then, ◌>>=◌, read, expect, update_with_optimistic_lock}
use financial_os.Store.Post.{Post}
use financial_os.Store.Table.{
  Table, find_unique, change, versioned_update, find_unique-change, find_unique-change_other,
  versioned-Post,
}

abbrev pub View : Type 0 → Type 0
View A = Uuid → Option A

abbrev pub view : {A : Type 0} → Table A → Store → View A
view t s id = find_unique t id s

-- The specification of an update under the lock, on maps: the row had the expected version, it is
-- replaced by `f` of it, which comes back, and nothing else has changed.
pub record IsCommitted {A : Type 0} (version : A → ℕ) (f : A → A) (id : Uuid) (expected : ℕ)
    (before : View A) (row : A) (after : View A) : Type 0 where
  pub old : A
  pub found : before id ≡ some old
  pub current : version old ≡ expected
  pub changed : row ≡ f old
  pub stored : after id ≡ some row
  pub others : (other : Uuid) → other ≢ id → after other ≡ before other

-- The updates of the repositories meet it.
module _ {A B : Type 0} (t : Table A) (Q : B → Store → Type 0) (E : Store → Type 0)
    (R : Type 0) where
  pub commit-Post :
      (version : A → ℕ) (f : A → A) (id : Uuid) (expected : ℕ) (k : A → Tx B) (s : Store) {x : A}
      → ((y : A) → t.key (f y) ≡ t.key y)
      → find_unique t id s ≡ some x
      → E s
      → (IsCommitted version f id expected (view t s) (f x) (view t (change t id f s))
          → Post Q E R (k (f x) (change t id f s)))
      → Post Q E R (
          and_then
            (update_with_optimistic_lock
              (versioned_update t version f id expected)
              (read (find_unique t id) >>= expect)
              s)
            k)
  commit-Post version f id expected k s {x} keeps found e next =
      versioned-Post t Q E R version f id expected _ k s found e (λ same.
        let stored = find_unique-change t id f s keeps found in
        rw stored (
          next (record {
            old = x;
            found = found;
            current = same;
            changed = refl;
            stored = stored;
            others = λ other ne. find_unique-change_other t id other f s keeps ne;
          })))
