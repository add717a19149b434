-- ===== src/Money/Allocation/Fairness.antt =====
-- Who gets the cents that rounding leaves over: the largest remainders, ties by identifier.
use financial_os.Base.{
  ◌*◌, ◌-◌, ◌/◌, sum_by, ℕ, zero, suc, ◌<◌, ◌⊎◌, ◌≡◌, ◌≢◌, sym, ◌∙◌, true, false, List, [], ◌∷◌,
  arith, All, All-zip, All-of, All-map_into, All-map_conv, IsAbsent, IsDistinct, map-IsDistinct,
  Uuid,
}
use financial_os.Money.Allocation.{Share, Provisional, provisional, ranking, bump, has, bumped_of}
use financial_os.Money.Allocation.Ranking.{
  id_of, ranks_before_lem, IsRanked, before_of_Outranks, ranking-All_conv, ranking-IsRanked,
  ranking-IsDistinct,
}

pub has-skip : (k i : Uuid) (bumped : List Uuid) → i ≢ k → has i (k ∷ bumped) ≡ has i bumped
has-skip k i bumped ne = ground arith

has-head : (i : Uuid) (bumped : List Uuid) → has i (i ∷ bumped) ≡ true
has-head i bumped = ground arith

-- Whoever gets a cent has the larger remainder, or an equal one and the smaller identifier.
abbrev pub IsFair : List Uuid → Provisional → Provisional → Type 0
IsFair bumped p q =
    has p.membership_id bumped ≡ true
    → has q.membership_id bumped ≡ false
    → (q.remainder < p.remainder)
      ⊎ ((q.remainder ≡ p.remainder) × (p.membership_id < q.membership_id))

IsFair-skip :
    (k : Uuid) (bumped : List Uuid) (ps : List Provisional)
    → IsAbsent id_of k ps
    → All (λ p. All (IsFair bumped p) ps) ps
    → All (λ p. All (IsFair (k ∷ bumped) p) ps) ps
IsFair-skip k bumped ps absent =
    All-zip (λ p. id_of p ≢ k) (λ p. All (IsFair bumped p) ps) (λ p. All (IsFair (k ∷ bumped) p) ps)
      (λ p np.
        All-zip (λ q. id_of q ≢ k) (IsFair bumped p) (IsFair (k ∷ bumped) p)
          (λ q nq fair hp hq.
            fair (sym (has-skip k (id_of p) bumped np) ∙ hp)
              (sym (has-skip k (id_of q) bumped nq) ∙ hq))
          ps absent)
      ps absent

nobody-IsFair : (ps qs : List Provisional) → All (λ p. All (IsFair [] p) qs) ps
nobody-IsFair ps qs =
    All-of (λ p. All (IsFair [] p) qs) (λ p. All-of (IsFair [] p) (λ q h. cc) qs) ps

bumped_first : (i : Uuid) (bumped : List Uuid) → has i (i ∷ bumped) ≡ false → ⊥
bumped_first i bumped h = let yes_has = has-head i bumped in cc

bump-IsFair :
    (ps : List Provisional) (r : ℕ)
    → IsRanked ps
    → IsDistinct id_of ps
    → All (λ p. All (IsFair (bump ps r) p) ps) ps
unfolding bump
bump-IsFair [] r ranked distinct = tt
bump-IsFair (p ∷ ps) zero ranked distinct = nobody-IsFair (p ∷ ps) (p ∷ ps)
bump-IsFair (p ∷ ps) (suc r) (first, ranked) (absent, distinct) =
    let rest = IsFair-skip (id_of p) (bump ps r) ps absent (bump-IsFair ps r ranked distinct) in
    (
      (
        (λ hp hq. absurd (bumped_first (id_of p) (bump ps r) hq)),
        All-zip _ _ _
            (λ q outranked ne hp hq.
              ranks_before_lem p q (before_of_Outranks p q outranked (λ e. ne (sym e))))
            ps first absent,
      ),
      All-map_into _ _ (λ q fair. ((λ hp hq. absurd (bumped_first (id_of p) (bump ps r) hq)), fair))
          ps rest,
    )

-- A member's whole cents of the exact quota, total times weight over all weights, and what is left over.
abbrev pub part : ℕ → List Share → Share → Provisional
part total shares s =
    let all_weights = sum_by (λ (x : Share). x.weight) shares in
    record {
      membership_id = s.membership_id;
      amount_cents = total * s.weight / all_weights;
      remainder = total * s.weight - total * s.weight / all_weights * all_weights;
    }

-- Fairness of the leftover cents, for shares of distinct members: if one share gets an extra cent and another does not, the first
-- has the larger remainder, or an equal remainder and the smaller membership identifier.
pub bumped-IsFair :
    (total : ℕ) (shares : List Share)
    → IsDistinct (λ s. s.membership_id) shares
    → All
        (λ s.
          All
            (λ t. IsFair (bumped_of total shares) (part total shares s) (part total shares t))
            shares)
        shares
bumped-IsFair total shares distinct =
    let parts = provisional total shares in
    let bumped = bumped_of total shares in
    let ordered = ranking parts in
    let d : IsDistinct id_of parts = map-IsDistinct id_of _ shares distinct in
    let fair = bump-IsFair ordered _ (ranking-IsRanked parts) (ranking-IsDistinct parts d) in
    All-map_conv (λ p. All (λ t. IsFair bumped p (part total shares t)) shares) _ shares
      (All-map_into _ _ (λ p. All-map_conv (IsFair bumped p) _ shares) parts
        (ranking-All_conv (λ p. All (IsFair bumped p) parts) parts
          (All-map_into _ _ (λ p. ranking-All_conv (IsFair bumped p) parts) ordered fair)))
