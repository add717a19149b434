-- ===== src/Events.antt =====
-- `modules/events/registry`: the handlers of each type of event (event-registry.ts), and the worker that
-- delivers an event to them (domain-events.worker.ts). Redis is a parameter; its markers are taken
-- not to expire between the deliveries of an event, and its calls to answer.
use financial_os.Base.{
  ℕ, Option, Bool, true, false, ◌≡◌, ◌≢◌, List, [], ◌∷◌, ◌++◌, ◌==◌, if◌then◌else◌, Uuid,
}
use financial_os.Errors.{Exception}
use financial_os.Profiles.Membership.{Instant}
pub mod Claims
pub mod Redelivery

-- An envelope, less its payload.
pub record Envelope : Type 0 where
  pub event_id : Uuid
  pub event_type : Uuid
  pub schema_version : ℕ
  pub tenant_id : Uuid
  pub aggregate_type : Uuid
  pub aggregate_id : Uuid
  pub occurred_at : Instant
  pub actor_membership_id : Option Uuid

-- What a handler leaves of the world `W`, whether it finishes or throws.
pub data Handled (W : Type 0) : Type 0 where
  finished : W → Handled W
  threw_in : Exception → W → Handled W

pub record EventHandler (W : Type 0) : Type 0 where
  pub name : Uuid
  pub event_types : List Uuid
  pub handle : Envelope → W → Handled W

-- The entries of `byType`.
abbrev pub Registry : Type 0 → Type 0
Registry W = List (Uuid × List (EventHandler W))

unfoldable pub handlers_for : {W : Type 0} → Uuid → Registry W → List (EventHandler W)
handlers_for type [] = []
handlers_for type ((t, hs) ∷ entries) = if t == type then hs else handlers_for type entries

-- One round of the loop in `register`: `list.push(handler)` under a type.
unfoldable pub push : {W : Type 0} → EventHandler W → Uuid → Registry W → Registry W
push handler type [] = (type, handler ∷ []) ∷ []
push handler type ((t, hs) ∷ entries) =
    let rest = push handler type entries in
    if t == type then (t, hs ++ (handler ∷ [])) ∷ entries else (t, hs) ∷ rest

unfoldable pub register_under : {W : Type 0} → EventHandler W → List Uuid → Registry W → Registry W
register_under handler [] registry = registry
register_under handler (type ∷ types) registry =
    register_under handler types (push handler type registry)

unfoldable pub register : {W : Type 0} → EventHandler W → Registry W → Registry W
register handler = register_under handler handler.event_types

-- `processed:${handler.name}:${eventId}`
abbrev pub Key : Type 0
Key = Uuid × Uuid

-- Redis, as far as the worker uses it: `SET key NX` stores a key that is free and answers whether it did;
-- `DEL key` removes it; neither touches another key.
pub record Redis (R : Type 0) : Type 0 where
  pub has : Key → R → Bool
  pub set_nx : Key → R → Bool × R
  pub del : Key → R → R
  pub set_taken : (k : Key) (r : R) → has k r ≡ true → set_nx k r ≡ (false, r)
  pub set_free : (k : Key) (r : R) → has k r ≡ false → (set_nx k r).0 ≡ true
  pub set_has : (k : Key) (r : R) → has k (set_nx k r).1 ≡ true
  pub set_other : (k other : Key) (r : R) → other ≢ k → has other (set_nx k r).1 ≡ has other r
  pub del_has : (k : Key) (r : R) → has k (del k r) ≡ false
  pub del_other : (k other : Key) (r : R) → other ≢ k → has other (del k r) ≡ has other r

-- How a delivery ends: normally, or with a handler's exception, after which the queue tries again.
pub data Delivery (R W : Type 0) : Type 0 where
  delivered : R → W → Delivery R W
  rejected : Exception → R → W → Delivery R W

abbrev pub key_of : {W : Type 0} → Envelope → EventHandler W → Key
key_of envelope handler = (handler.name, envelope.event_id)

-- The loop of `process`: claim, handle, and give the claim back if the handler throws.
unfoldable pub process_all :
    {R W : Type 0} → Redis R → Envelope → List (EventHandler W) → R → W → Delivery R W
process_all redis envelope [] r w = delivered r w
process_all redis envelope (handler ∷ handlers) r w =
    let (claimed, r') = redis.set_nx (key_of envelope handler) r in
    elim claimed [
      | false ↦ process_all redis envelope handlers r' w
      | true ↦ elim (handler.handle envelope w) [
        | finished w' ↦ process_all redis envelope handlers r' w'
        | threw_in x w' ↦ rejected x (redis.del (key_of envelope handler) r') w'
      ]
    ]

unfoldable pub process : {R W : Type 0} → Redis R → Registry W → Envelope → R → W → Delivery R W
process redis registry envelope =
    process_all redis envelope (handlers_for envelope.event_type registry)
