-- ===== src/SharedElements/Leaving.antt =====
-- `reassignForLeftMember`: the leaver is gone from every debt of the profile.
use financial_os.SharedElements.Remaining.{reassign-IsSplit, absent_shares, all_stay, IsAbsent-ids}
use financial_os.Base.{
  All-filter, All-zip, ℕ, ◌≡◌, ◌≢◌, inl, inr, refl, sym, ap, subst, ◌∙◌, false, List, [], ◌∷◌, ◌==◌,
  map, filter, All, IsDistinct, IsAbsent, filter-IsDistinct, Uuid, Bool-cases,
}
use financial_os.Errors.{err, ok}
use financial_os.Store.{rolled_back, Store, DebtRow, Outcome, done}
use financial_os.Store.Post.{Post, bind-Post}
use financial_os.SharedElements.Responsibility.{stays}
use financial_os.SharedElements.Repository.{list_responsibilities, debts_for_profile}
use financial_os.SharedElements.Shares.{
  all_members_lem, list-IsMember, IsMember, ids-IsMember, IsShared, IsSplit-IsDistinct, share_id,
  repeats-IsDistinct, list-replaced, list-replaced_other, replaced-IsShared,
}
use financial_os.SharedElements.Reassignment.{
  shares_has, reassign_debt, reassign_all, reassign_for_left_member,
}

-- One debt: the leaver has no share of it, the other debts have the shares they had, and all stay split.
pub record IsReassigned (leaving debt : Uuid) (s s' : Store) : Type 0 where
  pub shared : IsShared s'
  pub gone : shares_has leaving (list_responsibilities debt s') ≡ false
  pub members :
      map share_id (list_responsibilities debt s')
      ≡ map share_id (filter (stays leaving) (list_responsibilities debt s))
  pub others :
      (other : Uuid) → other ≢ debt → list_responsibilities other s' ≡ list_responsibilities other s
  pub debts : s'.debts ≡ s.debts

reassign_debt-IsReassigned :
    (leaving : Uuid) (debt : DebtRow) (s : Store)
    → IsShared s
    → Post (λ n s'. IsReassigned leaving debt.id s s') (λ s'. ⊥) ⊥ (reassign_debt leaving debt s)
unfolding reassign_debt
reassign_debt-IsReassigned leaving debt s h =
    elim (Bool-cases (shares_has leaving (list_responsibilities debt.id s))) [
      | inl there ↦
          let (out, e, same, split) =
            reassign-IsSplit (list_responsibilities debt.id s) leaving (h.0 debt.id) in
          let unique = repeats-IsDistinct out (IsSplit-IsDistinct out split) in
          let known = ids-IsMember s out _ same (
            All-filter (λ x. IsMember s x.membership_id) (stays leaving) _
              (list-IsMember debt.id s h)) in
          rw (there, e, unique, all_members_lem out s known)
            (record {
              shared = replaced-IsShared debt.id out s h split known;
              gone =
                  rw (list-replaced debt.id out s)
                    (absent_shares leaving out (IsAbsent-ids leaving out _ same));
              members = rw (list-replaced debt.id out s) same;
              others = λ other ne. list-replaced_other debt.id other out s ne;
              debts = refl;
            })
      | inr missing ↦ rw missing (record {
        shared = h;
        gone = missing;
        members =
            ap (map share_id) (sym (all_stay leaving (list_responsibilities debt.id s) missing));
        others = λ other ne. refl;
        debts = refl;
      })
    ]

-- The debts of a list: none has the leaver, and those outside of it have the shares they had.
pub record IsSwept (leaving : Uuid) (ds : List DebtRow) (s s' : Store) : Type 0 where
  pub shared : IsShared s'
  pub gone : All (λ d. shares_has leaving (list_responsibilities d.id s') ≡ false) ds
  pub members :
      All
        (λ d.
          map share_id (list_responsibilities d.id s')
          ≡ map share_id (filter (stays leaving) (list_responsibilities d.id s)))
        ds
  pub others :
      (other : Uuid)
      → IsAbsent (λ d. d.id) other ds
      → list_responsibilities other s' ≡ list_responsibilities other s
  pub debts : s'.debts ≡ s.debts

-- What is gone from a debt stays gone, whatever happens to other debts.
module _ (leaving : Uuid) where
  IsSwept-more :
      (debt : DebtRow) (ds : List DebtRow) (s s1 s2 : Store)
      → IsDistinct (λ d. d.id) (debt ∷ ds)
      → IsReassigned leaving debt.id s s1
      → IsSwept leaving ds s1 s2
      → IsSwept leaving (debt ∷ ds) s s2
  IsSwept-more debt ds s s1 s2 (absent, d) one rest = record {
    shared = rest.shared;
    gone = (
      subst (λ ss. shares_has leaving ss ≡ false) (sym (rest.others debt.id absent)) one.gone,
      rest.gone,
    );
    members = (
      ap (map share_id) (rest.others debt.id absent) ∙ one.members,
      All-zip _ _ _
          (λ x ne kept.
            kept ∙ ap (λ ss. map share_id (filter (stays leaving) ss)) (one.others x.id ne))
          ds absent rest.members,
    );
    others = λ other (ne, aside). rest.others other aside ∙ one.others other (λ e. ne (sym e));
    debts = rest.debts ∙ one.debts;
  }

  reassign_all-IsSwept :
      (ds : List DebtRow) (s : Store)
      → IsDistinct (λ d. d.id) ds
      → IsShared s
      → Post (λ n s'. IsSwept leaving ds s s') (λ s'. ⊥) ⊥ (reassign_all leaving ds s)
  unfolding reassign_all
  reassign_all-IsSwept [] s d h = record {
    shared = h;
    gone = tt;
    members = tt;
    others = λ other a. refl;
    debts = refl;
  }
  reassign_all-IsSwept (debt ∷ ds) s d h =
      bind-Post _ _ _ _ (reassign_debt leaving debt s) _
        (reassign_debt-IsReassigned leaving debt s h)
        (λ n s1 one.
          bind-Post _ _ _ _ (reassign_all leaving ds s1) _
            (reassign_all-IsSwept ds s1 d.1 one.shared)
            (λ k s2 rest. IsSwept-more debt ds s s1 s2 d one rest))

  -- Where the leaver is gone, there is nothing left to do.
  reassign_all-gone :
      (ds : List DebtRow) (s : Store)
      → All (λ d. shares_has leaving (list_responsibilities d.id s) ≡ false) ds
      → reassign_all leaving ds s ≡ done (ok 0) s
  unfolding reassign_all reassign_debt
  reassign_all-gone [] s h = refl
  reassign_all-gone (debt ∷ ds) s (h, hs) = rw (h, reassign_all-gone ds s hs) refl

-- When a member has left, the consumer of the event always succeeds: of every debt of the profile the
-- leaver has no share any more and the other members, the same as before, have shares that add up to
-- exactly 100% (or nobody is left), the debts of other profiles are as before, and delivering the event
-- once more changes nothing; for debts with distinct identifiers, each unshared or shared out in full
-- among memberships that exist.
pub reassign_for_left_member-IsSwept :
    (profile leaving : Uuid) (s : Store)
    → IsDistinct (λ d. d.id) s.debts
    → IsShared s
    → Post
        (λ n s'.
          IsSwept leaving (debts_for_profile profile s) s s'
          × (reassign_for_left_member profile leaving s' ≡ done (ok 0) s'))
        (λ s'. ⊥)
        ⊥
        (reassign_for_left_member profile leaving s)
unfolding reassign_for_left_member
reassign_for_left_member-IsSwept profile leaving s d h =
    again (reassign_all leaving (debts_for_profile profile s) s) (
      reassign_all-IsSwept leaving (debts_for_profile profile s) s
        (filter-IsDistinct (λ d. d.id) (λ d. d.shared_profile_id == profile) s.debts d) h)
  where
    again :
        (o : Outcome ℕ)
        → Post (λ n s'. IsSwept leaving (debts_for_profile profile s) s s') (λ s'. ⊥) ⊥ o
        → Post
            (λ n s'.
              IsSwept leaving (debts_for_profile profile s) s s'
              × (reassign_all leaving (debts_for_profile profile s') s' ≡ done (ok 0) s'))
            (λ s'. ⊥)
            ⊥
            o
    again (done (ok n) s') swept =
        let same : debts_for_profile profile s' ≡ debts_for_profile profile s =
          ap (filter (λ d. d.shared_profile_id == profile)) swept.debts in
        (swept, rw same (reassign_all-gone leaving (debts_for_profile profile s) s' swept.gone))
    again (done (err e) s') p = p
    again (rolled_back x) p = p
