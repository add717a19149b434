-- ===== src/Events/Redelivery.antt =====
-- `process`, delivered again and again: each handler finishes at most once.
use financial_os.Events.Claims.{
  logged, IsAbsent-append, map-append, IsClaimed, IsFree, IsSplitAt, IsRun, Ran, process_all-Ran,
  process_all-claimed,
}
use financial_os.Base.{
  ℕ, zero, suc, ◌≡◌, inr, refl, sym, ap, subst, ◌∙◌, List, [], ◌∷◌, ◌++◌, map, append_assoc, All,
  All-append, IsDistinct, IsAbsent, Uuid,
}
use financial_os.Events.{Envelope, EventHandler, Redis, Delivery, delivered, rejected, process_all}

module _ {R W : Type 0} (redis : Redis R) (envelope : Envelope) where
  -- After a delivery: all handlers are done, or one that threw is the first of those to do.
  abbrev pub Stands : List (EventHandler W) → Delivery R (W × List Uuid) → Type 0
  Stands hs (delivered r s) = IsSplitAt redis envelope hs hs [] s.1 r
  Stands hs (rejected x r s) =
      (done : List (EventHandler W)) × (h : EventHandler W) × (rest : List (EventHandler W))
      × IsSplitAt redis envelope hs done (h ∷ rest) s.1 r

  IsRun-IsSplitAt :
      (hs done todo ran rest : List (EventHandler W)) {log log' : List Uuid} {r r' : R}
      → IsSplitAt redis envelope hs done todo log r
      → All (λ h. IsAbsent (λ x. x.name) h.name todo) done
      → IsRun redis envelope todo ran rest log log' r r'
      → IsSplitAt redis envelope hs (done ++ ran) rest log' r'
  IsRun-IsSplitAt hs done todo ran rest {r = r} {r' = r'} at apart run = record {
    whole = at.whole ∙ ap (λ xs. done ++ xs) run.whole ∙ sym (append_assoc done ran rest);
    ran =
        run.ran
        ∙ ap (λ l. l ++ map (λ h. h.name) ran) at.ran
        ∙ sym (map-append (λ h. h.name) done ran);
    claimed =
        All-append (IsClaimed redis envelope r') done ran (kept done apart at.claimed) run.claimed;
    free = run.free;
  }
    where
      kept :
          (xs : List (EventHandler W))
          → All (λ h. IsAbsent (λ x. x.name) h.name todo) xs
          → All (IsClaimed redis envelope r) xs
          → All (IsClaimed redis envelope r') xs
      kept [] a c = tt
      kept (x ∷ xs) (a, as') (c, cs) =
          (run.aside (x.name, envelope.event_id) (inr a) ∙ c, kept xs as' cs)

  Ran-Stands :
      (hs done todo : List (EventHandler W)) (log : List Uuid) (r : R)
      (d : Delivery R (W × List Uuid))
      → IsSplitAt redis envelope hs done todo log r
      → All (λ h. IsAbsent (λ x. x.name) h.name todo) done
      → Ran redis envelope todo log r d
      → Stands hs d
  Ran-Stands hs done todo log r (delivered r' s) at apart run =
      subst (λ xs. IsSplitAt redis envelope hs xs [] s.1 r') (sym at.whole)
        (IsRun-IsSplitAt hs done todo todo [] at apart run)
  Ran-Stands hs done todo log r (rejected x r' s) at apart (ran, h, rest, run) =
      (done ++ ran, h, rest, IsRun-IsSplitAt hs done todo ran (h ∷ rest) at apart run)

  process_all-Stands :
      (hs done todo : List (EventHandler W)) (log : List Uuid) (r : R) (w : W)
      → IsDistinct (λ h. h.name) hs
      → IsSplitAt redis envelope hs done todo log r
      → Stands hs (process_all redis envelope (map logged hs) r (w, log))
  process_all-Stands hs done todo log r w d at =
      let (apart, distinct) =
        IsAbsent-append (λ h. h.name) done todo (subst (IsDistinct (λ h. h.name)) at.whole d) in
      let same : process_all redis envelope (map logged hs) r (w, log)
          ≡ process_all redis envelope (map logged todo) r (w, log) =
        ap (λ xs. process_all redis envelope (map logged xs) r (w, log)) at.whole
        ∙ process_all-claimed redis envelope done todo r (w, log) at.claimed in
      Ran-Stands hs done todo log r _ at apart (
        subst (Ran redis envelope todo log r) (sym same)
          (process_all-Ran redis envelope todo log r w distinct at.free))

  -- What a delivery leaves behind.
  abbrev pub left_by : Delivery R (W × List Uuid) → R × (W × List Uuid)
  left_by (delivered r s) = (r, s)
  left_by (rejected x r s) = (r, s)

  -- One delivery more, where so many went before, whether they were rejected or not.
  abbrev pub deliver_again : List (EventHandler W) → ℕ → R → W → Delivery R (W × List Uuid)
  deliver_again hs zero r w = process_all redis envelope (map logged hs) r (w, [])
  deliver_again hs (suc n) r w =
      let (r', s) = left_by (deliver_again hs n r w) in
      process_all redis envelope (map logged hs) r' s

  Stands-again :
      (hs : List (EventHandler W)) (d : Delivery R (W × List Uuid))
      → IsDistinct (λ h. h.name) hs
      → Stands hs d
      → Stands hs (process_all redis envelope (map logged hs) (left_by d).0 (left_by d).1)
  Stands-again hs (delivered r s) distinct at = process_all-Stands hs hs [] s.1 r s.0 distinct at
  Stands-again hs (rejected x r s) distinct (done, h, rest, at) =
      process_all-Stands hs done (h ∷ rest) s.1 r s.0 distinct at

  -- However often an event is delivered, each of its handlers finishes at most once: after every
  -- delivery those that have finished are the first ones of the list, once each and in its order, and
  -- exactly these are marked in Redis; after one that is not rejected they are all of the handlers,
  -- and after one that is rejected there is a handler left. This is for handlers with distinct names, none
  -- of which is marked before the first delivery.
  pub deliver_again-Stands :
      (hs : List (EventHandler W)) (n : ℕ) (r : R) (w : W)
      → IsDistinct (λ h. h.name) hs
      → All (IsFree redis envelope r) hs
      → Stands hs (deliver_again hs n r w)
  deliver_again-Stands hs zero r w d free =
      process_all-Stands hs [] hs [] r w d
        (record { whole = refl; ran = refl; claimed = tt; free = free })
  deliver_again-Stands hs (suc n) r w d free =
      Stands-again hs (deliver_again hs n r w) d (deliver_again-Stands hs n r w d free)
