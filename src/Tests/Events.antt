-- ===== src/Tests/Events.antt =====
-- The delivery of an event to two handlers, the second of which throws at first.
use financial_os.Base.{
  some, Bool, true, false, ◌≡◌, ◌≢◌, refl, [], ◌∷◌, ◌==◌, ◌&&◌, if◌then◌else◌, arith, ℕ, suc,
  Bool-cases, inl, inr,
}
use financial_os.Errors.{type_error}
use financial_os.Events.{Key, Envelope, EventHandler, finished, threw_in, Redis}
use financial_os.Events.Redelivery.{Stands, deliver_again, deliver_again-Stands}

abbrev same_key : Key → Key → Bool
same_key k l = (k.0 == l.0) && (k.1 == l.1)

same_key_refl : (k : Key) → same_key k k ≡ true
same_key_refl k = ground arith

same_key-other : (k l : Key) → k ≢ l → same_key k l ≡ false
same_key-other (a, b) (c, d) ne = elim (Bool-cases (same_key (a, b) (c, d))) [
  | inl same ↦
      let e : a ≡ c = ground arith in let f : b ≡ d = ground arith in absurd (ne (rw (e, f) refl))
  | inr other ↦ other
]

-- A Redis with its keys as a test.
abbrev memory : Redis (Key → Bool)
memory = record {
  has = λ k r. r k;
  set_nx = λ k r.
      if r k then (false, r) else (true, λ other. if same_key other k then true else r other);
  del = λ k r. λ other. if same_key other k then false else r other;
  set_taken = λ k r h. rw h refl;
  set_free = λ k r h. rw h refl;
  set_has =
      λ k r. elim (Bool-cases (r k)) [ inl h ↦ rw h h | inr h ↦ rw (h, same_key_refl k) refl ];
  set_other = λ k other r ne. elim (Bool-cases (r k)) [
    | inl h ↦ rw h refl
    | inr h ↦ rw (h, same_key-other other k ne) refl
  ];
  del_has = λ k r. rw (same_key_refl k) refl;
  del_other = λ k other r ne. rw (same_key-other other k ne) refl;
}

abbrev counting : EventHandler ℕ
counting = record { name = 1; event_types = 4 ∷ []; handle = λ e w. finished (suc w) }

abbrev unsteady : EventHandler ℕ
unsteady = record {
  name = 2;
  event_types = 4 ∷ [];
  handle = λ e w. if w == 1 then threw_in type_error (suc w) else finished w;
}

abbrev event : Envelope
event = record {
  event_id = 9;
  event_type = 4;
  schema_version = 1;
  tenant_id = 5;
  aggregate_type = 6;
  aggregate_id = 7;
  occurred_at = 0;
  actor_membership_id = some 3;
}

deliver_again-Stands_example :
    Stands memory event
      (counting ∷ unsteady ∷ [])
      (deliver_again memory event (counting ∷ unsteady ∷ []) 1 (λ k. false) 0)
deliver_again-Stands_example =
    deliver_again-Stands memory event (counting ∷ unsteady ∷ []) 1 (λ k. false) 0
      ((omega arith, tt), (tt, tt)) (refl, (refl, tt))
