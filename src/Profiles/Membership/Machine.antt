-- ===== src/Profiles/Membership/Machine.antt =====
-- The status machine as a relation: INVITED → ACTIVE | DECLINED | EXPIRED, ACTIVE → LEFT.
use financial_os.Base.{
  ◌+◌, ◌*◌, ◌≤◌, ◌<◌, ◌≡◌, ◌⊎◌, ◌↔◌, inl, inr, refl, Bool, true, false, some, arith, leb,
  Bool-cases,
}
use financial_os.Errors.{Result, ok, fail, invariant}
use financial_os.Permissions.{MemberRole, owner}
use financial_os.Profiles.Membership.{
  MembershipStatus, invited, active, declined, expired, left, Instant, MembershipState,
  MembershipDelta, is_terminal, invitation_expiry, accept, decline, expire, leave, change_role,
  nominate_owner, apply_delta, no_delta,
}

-- The domain functions that decide on one membership.
pub data Command : Type 0 where
  accept_it : Instant → Command
  decline_it : Command
  expire_it : Instant → Command
  leave_it : Instant → Command
  change_it : MemberRole → Command
  nominate_it : Command

abbrev pub decide : Command → MembershipState → Result MembershipDelta
decide (accept_it now) m = accept m now
decide decline_it m = decline m
decide (expire_it now) m = expire m now
decide (leave_it now) m = leave m now
decide (change_it role) m = change_role m role
decide nominate_it m = nominate_owner m

-- The transitions that the status machine documents, staying included.
pub data Transition : MembershipStatus → MembershipStatus → Type 0 where
  stays : (s : MembershipStatus) → is_terminal s ≡ false → Transition s s
  accepted : Transition invited active
  declines : Transition invited declined
  expires : Transition invited expired
  leaves : Transition active left

abbrev allowed : MembershipStatus → MembershipStatus → Bool
allowed invited invited = true
allowed invited active = true
allowed invited declined = true
allowed invited expired = true
allowed active active = true
allowed active left = true
allowed _ _ = false

allowed-Transition : (s t : MembershipStatus) → allowed s t ≡ true → Transition s t
unfolding is_terminal
allowed-Transition invited invited h = stays invited refl
allowed-Transition invited active h = accepted
allowed-Transition invited declined h = declines
allowed-Transition invited expired h = expires
allowed-Transition active active h = stays active refl
allowed-Transition active left h = leaves
allowed-Transition _ _ h = cc

abbrev Keeps : MembershipState → MembershipDelta → Type 0
Keeps m d =
    (allowed m.status (apply_delta d m).status ≡ true)
    × ((apply_delta d m).role ≡ owner → m.role ≡ owner)
    × (m.role ≡ owner → (apply_delta d m).role ≡ owner)

decide-Keeps :
    (c : Command) (m : MembershipState) {d : MembershipDelta} → decide c m ≡ ok d → Keeps m d
unfolding accept decline expire leave change_role nominate_owner apply_delta
decide-Keeps (accept_it now) m h = ground arith
decide-Keeps decline_it m h = ground arith
decide-Keeps (expire_it now) m h = ground arith
decide-Keeps (leave_it now) m h = ground arith
decide-Keeps (change_it role) m h = ground arith
decide-Keeps nominate_it m h = ground arith

-- Whatever a command decides, the new status is reached by a documented transition: none leaves a
-- terminal status, and no command makes an owner or unmakes one.
pub decide-Transition :
    (c : Command) (m : MembershipState) {d : MembershipDelta}
    → decide c m ≡ ok d
    → Transition m.status (apply_delta d m).status
      × (((apply_delta d m).role ≡ owner) ↔ (m.role ≡ owner))
      × ((apply_delta d m).version ≡ m.version)
unfolding apply_delta
decide-Transition c m h =
    let (step, from_owner, to_owner) = decide-Keeps c m h in
    (allowed-Transition _ _ step, (from_owner, to_owner), refl)

-- At every instant exactly one of accepting and expiring succeeds for a pending invitation: accepting
-- before the expiry instant, expiring from it on; and that instant is 14 days after the invitation.
pub accept_or_expire :
    (m : MembershipState) (invited_at now : Instant)
    → m.status ≡ invited
    → m.invitation_expires_at ≡ invitation_expiry invited_at
    → ((now < invited_at + 14 * 86_400_000)
        × ((d : MembershipDelta) × (accept m now ≡ ok d) × ((apply_delta d m).status ≡ active))
        × (expire m now ≡ fail invariant))
      ⊎ ((invited_at + 14 * 86_400_000 ≤ now)
          × (accept m now ≡ fail invariant)
          × ((d : MembershipDelta) × (expire m now ≡ ok d) × ((apply_delta d m).status ≡ expired)))
unfolding accept expire apply_delta invitation_expiry
accept_or_expire m at now pending until = elim (Bool-cases (leb m.invitation_expires_at now)) [
  | inl late ↦
      inr (
        ground arith,
        ground arith,
        (record no_delta { status = some expired }, ground arith, refl),
      )
  | inr early ↦ inl (
    ground arith,
    (record no_delta { status = some active; joined_at = some now }, ground arith, refl),
    ground arith,
  )
]

-- A terminal membership refuses every command.
pub terminal_refuses :
    (c : Command) (m : MembershipState) → is_terminal m.status ≡ true → decide c m ≡ fail invariant
unfolding accept decline expire leave change_role nominate_owner is_terminal
terminal_refuses (accept_it now) m h = ground arith
terminal_refuses c m h = ground arith
