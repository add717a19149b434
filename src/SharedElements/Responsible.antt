-- ===== src/SharedElements/Responsible.antt =====
-- `setDebtResponsibility`: what it ensures of the store.
use financial_os.Base.{
  All, ap, false, any, ◌+◌, ℕ, ◌≤◌, ◌≡◌, ◌≢◌, inl, inr, refl, sym, subst, true, List, [], ◌∷◌,
  arith, map, filter, All-filter, IsAbsent, filter-IsDistinct, Uuid, Bool-cases, some,
}
use financial_os.Base.Int.{pos, negsuc}
use financial_os.Errors.{ok}
use financial_os.Money.Values.{Number, integer, fractional}
use financial_os.Permissions.{set_debt_responsibility}
use financial_os.Store.Memberships.{is_membership, has_id}
use financial_os.Profiles.Invariant.{row_id}
use financial_os.Store.{MembershipRow, Store, DebtRow, Principal, debt_responsibility_set}
use financial_os.Store.Post.{Post, lift-Post, require-Post, reading-Post, Recorded}
use financial_os.Store.Table.{find_unique-change, versioned-Post}
use financial_os.SharedElements.Responsibility.{
  ResponsibilityShare, stays, IsNonneg, validate_sum_to_100,
}
use financial_os.SharedElements.Repository.{debts, find_debt, list_responsibilities, touched}
use financial_os.SharedElements.Shares.{
  all_members_lem, list-IsMember, ids-IsMember, IsMember, IsFull, IsShared, IsSplit-nonnegative,
  IsSplit-IsDistinct, share_id, repeats-IsDistinct, list-replaced, replaced-IsShared,
}
use financial_os.SharedElements.Rescaling.{rescaled_exact}
use financial_os.SharedElements.Guarded.{IsGuarded, guard-IsGuarded}
use financial_os.SharedElements.Service.{checked_share, check_sole, set_debt_responsibility_tx}

-- What a share that was set ensures.
pub record IsAssigned (user id member : Uuid) (percentage : Number) (expected : ℕ) (s : Store)
    (debt : DebtRow) (s' : Store) : Type 0 where
  -- The debt had the version that the caller expected, and has the next one, and nothing else of it has
  -- changed.
  pub old : DebtRow
  pub found : find_debt id s ≡ some old
  pub guarded : (m : _) × IsGuarded old.shared_profile_id user set_debt_responsibility s m
  pub current :
      (old.version ≡ expected)
      × (debt ≡ record old { version = expected + 1 })
      × (find_debt id s' ≡ some debt)
  -- The member has the share, the other members are those who were there, and it adds up to 100%.
  pub bp : ℕ
  pub is_bp : percentage ≡ integer (pos bp)
  pub others : List ResponsibilityShare
  pub shares :
      list_responsibilities id s'
      ≡ record { membership_id = member; percentage_bp = pos bp } ∷ others
  pub same_others :
      map share_id others ≡ map share_id (filter (stays member) (list_responsibilities id s))
  pub full : IsFull (list_responsibilities id s')
  pub shared : IsShared s'
  pub recorded : Recorded debt_responsibility_set s s'

checked_share_lem :
    (n : Number) {bp : ℕ} → checked_share n ≡ ok bp → (n ≡ integer (pos bp)) × (bp ≤ 10000)
unfolding checked_share
checked_share_lem fractional h = cc
checked_share_lem (integer (pos b)) h = ground arith
checked_share_lem (integer (negsuc b)) h = ground arith

stranger_lem :
    (member : Uuid) (ms : List MembershipRow)
    → any (has_id member) ms ≡ false
    → IsAbsent row_id member ms
stranger_lem member [] h = tt
stranger_lem member (m ∷ ms) h = (ground arith, stranger_lem member ms (ground arith))

pub stays-IsAbsent :
    (member : Uuid) (shares : List ResponsibilityShare)
    → IsAbsent share_id member (filter (stays member) shares)
stays-IsAbsent member [] = tt
stays-IsAbsent member (s ∷ ss) = elim (Bool-cases (stays member s)) [
  | inl is ↦ rw is (apart s is, stays-IsAbsent member ss)
  | inr is_not ↦ rw is_not (stays-IsAbsent member ss)
]
  where
    apart : (s : ResponsibilityShare) → stays member s ≡ true → share_id s ≢ member
    apart s h = ground arith

-- `setDebtResponsibility` throws only if no membership has the identifier given and, after an error, has
-- changed nothing. Otherwise the debt had the expected version and has the next one, and is otherwise
-- the same, the member's share is the one asked for, the other members are those who were there before,
-- the shares add up to exactly 100%, and one event and one audit entry are written; for a store in which every debt is unshared or shared out in full among
-- memberships that exist, and then this still holds.
pub set_debt_responsibility-IsAssigned :
    (principal : Principal) (id member : Uuid) (percentage : Number) (expected : ℕ) (s : Store)
    → IsShared s
    → Post
        (IsAssigned principal.user_id id member percentage expected s)
        (λ s'. s' ≡ s)
        (IsAbsent row_id member s.memberships)
        (set_debt_responsibility_tx principal id member percentage expected s)
unfolding set_debt_responsibility_tx
set_debt_responsibility-IsAssigned principal id member percentage expected s h =
    require-Post _ _ _ (find_debt id s) _ _ s refl (λ old found.
      reading-Post _ _ _ _ _ _ s
        (guard-IsGuarded old.shared_profile_id principal.user_id set_debt_responsibility s) refl
        (λ m guarded. lift-Post _ _ _ (checked_share percentage) _ s refl (λ bp checked.
          let (is_bp, most) = checked_share_lem percentage checked in
          let current = list_responsibilities id s in
          lift-Post _ _ _ (check_sole bp (filter (stays member) current)) _ s refl
            (λ (u : Unit {0}) sole.
              let (out, rescale, same, verdict) =
                rescaled_exact member bp (filter (stays member) current) most
                  (All-filter IsNonneg (stays member) current
                    (IsSplit-nonnegative current (h.0 id)))
                  (filter-IsDistinct share_id (stays member) current
                    (IsSplit-IsDistinct current (h.0 id)))
                  (stays-IsAbsent member current) in
              let shares : List ResponsibilityShare =
                record { membership_id = member; percentage_bp = pos bp } ∷ out in
              rw rescale (
                lift-Post _ _ _ (validate_sum_to_100 shares) _ s refl (λ (v : Unit {0}) valid.
                  let full : IsFull shares = elim verdict [
                    | inl good ↦ good.2
                    | inr bad ↦ absurd (bad.2 valid)
                  ] in
                  versioned-Post debts _ _ _ (λ d. d.version) touched id expected _ _ s found refl
                    (λ version.
                      let reloaded = find_unique-change debts id touched s (λ d. refl) found in
                      let unique = repeats-IsDistinct shares full.distinct in
                      elim (Bool-cases (is_membership member s)) [
                        | inr stranger ↦
                            rw (reloaded, unique, stranger)
                              (stranger_lem member s.memberships stranger)
                        | inl member_there ↦
                            rw
                              (
                                reloaded,
                                unique,
                                member_there,
                                all_members_lem out s (others_known out same),
                              )
                              (record {
                                old = old;
                                found = found;
                                guarded = (m, guarded);
                                current = (version, next_version old version, reloaded);
                                bp = bp;
                                is_bp = is_bp;
                                others = out;
                                shares = list-replaced id shares s;
                                same_others = same;
                                full = subst IsFull (sym (list-replaced id shares s)) full;
                                shared =
                                    replaced-IsShared id shares s h (inr full)
                                      (member_there, others_known out same);
                                recorded = record {
                                  events = (_, refl, refl);
                                  entries = (_, refl, refl);
                                };
                              })
                      ])))))))
  where
    next_version :
        (d : DebtRow) → d.version ≡ expected → touched d ≡ record d { version = expected + 1 }
    next_version d e = ap (λ v. record d { version = v + 1 }) e

    others_known :
        (out : List ResponsibilityShare)
        → map share_id out ≡ map share_id (filter (stays member) (list_responsibilities id s))
        → All (λ x. IsMember s x.membership_id) out
    others_known out same =
        ids-IsMember s out _ same
          (All-filter (λ x. IsMember s x.membership_id) (stays member) _ (list-IsMember id s h))
