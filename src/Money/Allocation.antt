-- ===== src/Money/Allocation.antt =====
-- `allocateByLargestRemainder` of `common/money/percentage.ts`: a total in whole cents is split by
-- weight, and the cents that rounding leaves over go to the largest remainders.
-- After the two guards every quantity is non-negative, so from there on a `bigint` is an ℕ.
pub mod Quota
pub mod Ranking
pub mod Total
pub mod Fairness
pub mod QuotaRule
pub mod Members
use financial_os.Base.{
  ℕ, zero, suc, ◌+◌, ◌-◌, ◌*◌, ◌/◌, Bool, true, false, ◌||◌, List, [], ◌∷◌, map, ltb, ◌==◌,
  if◌then◌else◌, sum_by, Uuid,
}
use financial_os.Base.Int.{ℤ, pos, negsuc, ltb_ℤ}
use financial_os.Errors.{Attempt, returned, threw, range_error, ◌>>=◌}
use financial_os.Money.Values.{Number, integer, fractional}

pub record AllocationWeight : Type 0 where
  pub membership_id : Uuid
  pub weight_bp : Number

pub record AllocationResult : Type 0 where
  pub membership_id : Uuid
  pub amount_cents : ℕ

-- An `AllocationWeight` whose weight passed the check.
pub record Share : Type 0 where
  pub membership_id : Uuid
  pub weight : ℕ

pub record Provisional : Type 0 where
  pub membership_id : Uuid
  pub amount_cents : ℕ
  pub remainder : ℕ

abbrev checked_weight : Number → Attempt ℕ
checked_weight (integer (pos w)) = returned w
checked_weight _ = threw range_error

-- The loop that checks and sums the weights: the first bad one throws.
unfoldable pub checked_shares : List AllocationWeight → Attempt (List Share)
checked_shares [] = returned []
checked_shares (s ∷ shares) =
    let rest = checked_shares shares in
    checked_weight s.weight_bp >>= λ w.
    rest >>= λ checked. returned (record { membership_id = s.membership_id; weight = w } ∷ checked)

abbrev pub total_weight : List Share → ℕ
total_weight = sum_by (λ s. s.weight)

abbrev pub provisional_of : ℕ → ℕ → Share → Provisional
provisional_of total weight s =
    let numerator = total * s.weight in
    let floor_share = numerator / weight in
    record {
      membership_id = s.membership_id;
      amount_cents = floor_share;
      remainder = numerator - floor_share * weight;
    }

abbrev pub provisional : ℕ → List Share → List Provisional
provisional total shares = map (provisional_of total (total_weight shares)) shares

abbrev pub allocated : List Provisional → ℕ
allocated = sum_by (λ p. p.amount_cents)

-- The comparator: a negative number when `a` comes first.
abbrev pub compare_provisional : Provisional → Provisional → ℤ
compare_provisional a b =
    if a.remainder == b.remainder
    then if ltb a.membership_id b.membership_id
      then negsuc 0
      else if ltb b.membership_id a.membership_id
      then pos 1
      else pos 0
    else if ltb b.remainder a.remainder
    then negsuc 0
    else pos 1

abbrev pub ranks_before : Provisional → Provisional → Bool
ranks_before a b = ltb_ℤ (compare_provisional a b) (pos 0)

-- `Array.prototype.sort`, which is stable: an entry goes behind those that rank before it.
unfoldable pub insert : Provisional → List Provisional → List Provisional
insert p [] = p ∷ []
insert p (q ∷ qs) = if ranks_before q p then q ∷ insert p qs else p ∷ q ∷ qs

unfoldable pub ranking : List Provisional → List Provisional
unfolding insert
ranking [] = []
ranking (p ∷ ps) = insert p (ranking ps)

-- The loop over the ranking, while cents are left: the members that get one more.
unfoldable pub bump : List Provisional → ℕ → List Uuid
bump [] residual = []
bump (p ∷ ps) zero = []
bump (p ∷ ps) (suc residual) = p.membership_id ∷ bump ps residual

-- `bump.has(id)`
abbrev pub has : Uuid → List Uuid → Bool
has id [] = false
has id (b ∷ bs) = b == id || has id bs

abbrev pub settle : List Uuid → Provisional → AllocationResult
settle bumped p = record {
  membership_id = p.membership_id;
  amount_cents = if has p.membership_id bumped then p.amount_cents + 1 else p.amount_cents;
}

abbrev pub bumped_of : ℕ → List Share → List Uuid
bumped_of total shares =
    let parts = provisional total shares in bump (ranking parts) (total - allocated parts)

-- The body behind the guards, for a total weight that is not zero.
unfoldable pub distribute : ℕ → List Share → List AllocationResult
unfolding ranking bump
distribute total shares = map (settle (bumped_of total shares)) (provisional total shares)

abbrev pub nothing : Share → AllocationResult
nothing s = record { membership_id = s.membership_id; amount_cents = 0 }

-- No shares at all have a total weight of 0 too, and give no results.
unfoldable pub allocate_shares : ℕ → List Share → List AllocationResult
unfolding distribute
allocate_shares total shares =
    if total_weight shares == 0 then map nothing shares else distribute total shares

unfoldable pub allocate_by_largest_remainder :
    ℤ → List AllocationWeight → Attempt (List AllocationResult)
unfolding checked_shares allocate_shares
allocate_by_largest_remainder (negsuc n) shares = threw range_error
allocate_by_largest_remainder (pos total) shares = do
  checked ← checked_shares shares
  returned (allocate_shares total checked)
