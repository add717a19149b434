-- ===== src/Money/Allocation/Ranking.antt =====
-- The second step: the ranking holds the same entries as the list it sorts, in descending order of
-- remainder with ties in ascending order of identifier.
use financial_os.Base.{
  ℕ, suc, ◌+◌, ◌≤◌, ◌<◌, ◌≡◌, ◌≢◌, ◌⊎◌, inl, inr, refl, sym, true, false, List, [], ◌∷◌, arith,
  sum_by, length, All, All-map_into, IsAbsent, IsDistinct, Bool-cases, Uuid,
}
use financial_os.Money.Allocation.{Provisional, insert, ranking, ranks_before}

abbrev pub id_of : Provisional → Uuid
id_of p = p.membership_id

-- `p` may stand before `q` in a ranking.
abbrev pub Outranks : Provisional → Provisional → Type 0
Outranks p q = ranks_before q p ≡ false

-- What `ranks_before` decides: a larger remainder, or an equal one and a smaller identifier.
pub ranks_before_lem :
    (p q : Provisional)
    → ranks_before p q ≡ true
    → (q.remainder < p.remainder)
      ⊎ ((q.remainder ≡ p.remainder) × (p.membership_id < q.membership_id))
ranks_before_lem p q h = ground arith

pub Outranks-of_before : (p q : Provisional) → ranks_before p q ≡ true → Outranks p q
Outranks-of_before p q h = ground arith

pub Outranks-trans : (p q r : Provisional) → Outranks p q → Outranks q r → Outranks p r
Outranks-trans p q r h k = ground arith

pub remainder-le : (p q : Provisional) → Outranks p q → q.remainder ≤ p.remainder
remainder-le p q h = ground arith

pub before_of_Outranks :
    (p q : Provisional) → Outranks p q → id_of p ≢ id_of q → ranks_before p q ≡ true
before_of_Outranks p q h ne = ground arith

abbrev pub IsRanked : List Provisional → Type 0
IsRanked [] = Unit
IsRanked (p ∷ ps) = All (Outranks p) ps × IsRanked ps

module _ {ℓ} (P : Provisional → Type ℓ) where
  insert-All : (p : Provisional) (ps : List Provisional) → P p → All P ps → All P (insert p ps)
  unfolding insert
  insert-All p [] h hs = (h, tt)
  insert-All p (q ∷ qs) h (hq, hqs) = elim (Bool-cases (ranks_before q p)) [
    | inl before ↦ rw before (hq, insert-All p qs h hqs)
    | inr after ↦ rw after (h, (hq, hqs))
  ]

  pub ranking-All : (ps : List Provisional) → All P ps → All P (ranking ps)
  unfolding ranking
  ranking-All [] h = tt
  ranking-All (p ∷ ps) (h, hs) = insert-All p (ranking ps) h (ranking-All ps hs)

  insert-All_conv : (p : Provisional) (ps : List Provisional) → All P (insert p ps) → P p × All P ps
  unfolding insert
  insert-All_conv p [] h = h
  insert-All_conv p (q ∷ qs) h = elim (Bool-cases (ranks_before q p)) [
    | inl before ↦
        let (hq, hs) = rw before at h in let (hp, hqs) = insert-All_conv p qs hs in (hp, (hq, hqs))
    | inr after ↦ rw after at h
  ]

  -- Whatever holds of every ranked entry holds of every entry.
  pub ranking-All_conv : (ps : List Provisional) → All P (ranking ps) → All P ps
  unfolding ranking
  ranking-All_conv [] h = tt
  ranking-All_conv (p ∷ ps) h =
      let (hp, hs) = insert-All_conv p (ranking ps) h in (hp, ranking-All_conv ps hs)

insert-IsRanked : (p : Provisional) (ps : List Provisional) → IsRanked ps → IsRanked (insert p ps)
unfolding insert
insert-IsRanked p [] h = (tt, tt)
insert-IsRanked p (q ∷ qs) (h, hs) = elim (Bool-cases (ranks_before q p)) [
  | inl before ↦
      rw before
        (insert-All (Outranks q) p qs (Outranks-of_before q p before) h, insert-IsRanked p qs hs)
  | inr after ↦ rw after ((after, All-map_into _ _ (λ r. Outranks-trans p q r after) qs h), (h, hs))
]

-- The ranking is in order.
pub ranking-IsRanked : (ps : List Provisional) → IsRanked (ranking ps)
unfolding ranking
ranking-IsRanked [] = tt
ranking-IsRanked (p ∷ ps) = insert-IsRanked p (ranking ps) (ranking-IsRanked ps)

module _ (f : Provisional → ℕ) where
  insert-sum :
      (p : Provisional) (ps : List Provisional) → sum_by f (insert p ps) ≡ f p + sum_by f ps
  unfolding insert
  insert-sum p [] = refl
  insert-sum p (q ∷ qs) = ground (arith, insert-sum p qs)

  -- Sums do not depend on the order.
  pub ranking-sum : (ps : List Provisional) → sum_by f (ranking ps) ≡ sum_by f ps
  unfolding ranking
  ranking-sum [] = refl
  ranking-sum (p ∷ ps) = omega (arith, insert-sum p (ranking ps), ranking-sum ps)

insert-length : (p : Provisional) (ps : List Provisional) → length (insert p ps) ≡ suc (length ps)
unfolding insert
insert-length p [] = refl
insert-length p (q ∷ qs) = ground (arith, insert-length p qs)

pub ranking-length : (ps : List Provisional) → length (ranking ps) ≡ length ps
unfolding ranking
ranking-length [] = refl
ranking-length (p ∷ ps) = omega (arith, insert-length p (ranking ps), ranking-length ps)

insert-IsAbsent :
    (k : Uuid) (p : Provisional) (ps : List Provisional)
    → id_of p ≢ k
    → IsAbsent id_of k ps
    → IsAbsent id_of k (insert p ps)
unfolding insert
insert-IsAbsent k p [] h hs = (h, tt)
insert-IsAbsent k p (q ∷ qs) h (hq, hqs) = elim (Bool-cases (ranks_before q p)) [
  | inl before ↦ rw before (hq, insert-IsAbsent k p qs h hqs)
  | inr after ↦ rw after (h, (hq, hqs))
]

ranking-IsAbsent :
    (k : Uuid) (ps : List Provisional) → IsAbsent id_of k ps → IsAbsent id_of k (ranking ps)
unfolding ranking
ranking-IsAbsent k [] h = tt
ranking-IsAbsent k (p ∷ ps) (h, hs) = insert-IsAbsent k p (ranking ps) h (ranking-IsAbsent k ps hs)

insert-IsDistinct :
    (p : Provisional) (ps : List Provisional)
    → IsAbsent id_of (id_of p) ps
    → IsDistinct id_of ps
    → IsDistinct id_of (insert p ps)
unfolding insert
insert-IsDistinct p [] h hs = (tt, tt)
insert-IsDistinct p (q ∷ qs) (hq, hqs) (a, d) = elim (Bool-cases (ranks_before q p)) [
  | inl before ↦
      rw before (insert-IsAbsent (id_of q) p qs (λ e. hq (sym e)) a, insert-IsDistinct p qs hqs d)
  | inr after ↦ rw after ((hq, hqs), (a, d))
]

-- Distinct identifiers stay distinct.
pub ranking-IsDistinct :
    (ps : List Provisional) → IsDistinct id_of ps → IsDistinct id_of (ranking ps)
unfolding ranking
ranking-IsDistinct [] h = tt
ranking-IsDistinct (p ∷ ps) (a, d) =
    insert-IsDistinct p (ranking ps) (ranking-IsAbsent (id_of p) ps a) (ranking-IsDistinct ps d)
