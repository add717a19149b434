-- ===== src/Events/Claims.antt =====
-- One delivery of `process`: which handlers it runs, and what it marks in Redis.
use financial_os.Base.{
  ℕ, ◌≡◌, ◌≢◌, ◌⊎◌, inl, inr, refl, sym, ap, ◌∙◌, true, false, List, [], ◌∷◌, ◌++◌, map, append-nil,
  append_assoc, All, IsDistinct, IsAbsent, Uuid,
}
use financial_os.Errors.{Exception}
use financial_os.Events.{
  Envelope, Handled, finished, threw_in, EventHandler, Redis, Delivery, delivered, rejected,
  process_all,
}

-- A world that also keeps the names of the handlers that finished, in their order.
abbrev pub noted : {W : Type 0} → Uuid → List Uuid → Handled W → Handled (W × List Uuid)
noted name log (finished w) = finished (w, log ++ (name ∷ []))
noted name log (threw_in x w) = threw_in x (w, log)

abbrev pub logged : {W : Type 0} → EventHandler W → EventHandler (W × List Uuid)
logged handler = record {
  name = handler.name;
  event_types = handler.event_types;
  handle = λ envelope state. noted handler.name state.1 (handler.handle envelope state.0);
}

Handled-cases :
    {W : Type 0} (o : Handled W)
    → ((w : W) × (o ≡ finished w)) ⊎ ((x : Exception) × (w : W) × (o ≡ threw_in x w))
Handled-cases (finished w) = inl (w, refl)
Handled-cases (threw_in x w) = inr (x, w, refl)

pub IsAbsent-append :
    {A : Type 0} (key : A → ℕ) (xs ys : List A)
    → IsDistinct key (xs ++ ys)
    → All (λ x. IsAbsent key (key x) ys) xs × IsDistinct key ys
IsAbsent-append key [] ys d = (tt, d)
IsAbsent-append {A = A} key (x ∷ xs) ys d =
    let (apart, rest) = IsAbsent-append key xs ys d.1 in ((after xs d.0, apart), rest)
  where
    after : (zs : List A) → IsAbsent key (key x) (zs ++ ys) → IsAbsent key (key x) ys
    after [] h = h
    after (z ∷ zs) h = after zs h.1

pub map-append :
    {A B : Type 0} (f : A → B) (xs ys : List A) → map f (xs ++ ys) ≡ map f xs ++ map f ys
map-append f [] ys = refl
map-append f (x ∷ xs) ys = ap (λ zs. f x ∷ zs) (map-append f xs ys)

module _ {R W : Type 0} (redis : Redis R) (envelope : Envelope) where
  abbrev pub IsClaimed : R → EventHandler W → Type 0
  IsClaimed r h = redis.has (h.name, envelope.event_id) r ≡ true

  abbrev pub IsFree : R → EventHandler W → Type 0
  IsFree r h = redis.has (h.name, envelope.event_id) r ≡ false

  -- Where the handlers stand: those in front have finished, once each and in their order, and are marked as
  -- such; the others have not finished and are not marked.
  pub record IsSplitAt (hs done todo : List (EventHandler W)) (log : List Uuid) (r : R)
      : Type 0 where
    pub whole : hs ≡ done ++ todo
    pub ran : log ≡ map (λ h. h.name) done
    pub claimed : All (IsClaimed r) done
    pub free : All (IsFree r) todo

  -- Nothing else in Redis has changed.
  abbrev pub IsAside : List (EventHandler W) → R → R → Type 0
  IsAside hs r r' =
      (k : Uuid × Uuid)
      → (k.1 ≢ envelope.event_id) ⊎ IsAbsent (λ h. h.name) k.0 hs
      → redis.has k r' ≡ redis.has k r

  -- One delivery to handlers that are all free.
  pub record IsRun (todo done rest : List (EventHandler W)) (log log' : List Uuid) (r r' : R)
      : Type 0 where
    pub whole : todo ≡ done ++ rest
    pub ran : log' ≡ log ++ map (λ h. h.name) done
    pub claimed : All (IsClaimed r') done
    pub free : All (IsFree r') rest
    pub aside : IsAside todo r r'

  abbrev pub Ran : List (EventHandler W) → List Uuid → R → Delivery R (W × List Uuid) → Type 0
  Ran todo log r (delivered r' s) = IsRun todo todo [] log s.1 r r'
  Ran todo log r (rejected x r' s) =
      (done : List (EventHandler W)) × (h : EventHandler W) × (rest : List (EventHandler W)) × IsRun
        todo done (h ∷ rest) log s.1 r r'

  -- A key that is aside is not the first handler's.
  away :
      (h : EventHandler W) (hs : List (EventHandler W)) (k : Uuid × Uuid)
      → (k.1 ≢ envelope.event_id) ⊎ IsAbsent (λ x. x.name) k.0 (h ∷ hs)
      → k ≢ (h.name, envelope.event_id)
  away h hs k (inl ne) e = ne (ap (λ x. x.1) e)
  away h hs k (inr (ne, absent)) e = ne (sym (ap (λ x. x.0) e))

  module _ (h : EventHandler W) (hs : List (EventHandler W)) (log : List Uuid) (r : R)
      (absent : IsAbsent (λ x. x.name) h.name hs) where
    abbrev key : Uuid × Uuid
    key = (h.name, envelope.event_id)

    abbrev taken : R
    taken = (redis.set_nx key r).1

    still-IsFree : All (IsFree r) hs → All (IsFree taken) hs
    still-IsFree free = All-map_both hs absent free
      where
        All-map_both :
            (xs : List (EventHandler W))
            → IsAbsent (λ x. x.name) h.name xs
            → All (IsFree r) xs
            → All (IsFree taken) xs
        All-map_both [] a f = tt
        All-map_both (x ∷ xs) (ne, a) (f, fs) = (
          redis.set_other key (x.name, envelope.event_id) r (λ e. ne (ap (λ y. y.0) e)) ∙ f,
          All-map_both xs a fs,
        )

    IsRun-cons :
        {done rest : List (EventHandler W)} {log' : List Uuid} {r' : R}
        → IsRun hs done rest (log ++ (h.name ∷ [])) log' taken r'
        → IsRun (h ∷ hs) (h ∷ done) rest log log' r r'
    IsRun-cons {done} run = record {
      whole = ap (λ xs. h ∷ xs) run.whole;
      ran = run.ran ∙ append_assoc log (h.name ∷ []) (map (λ x. x.name) done);
      claimed = (run.aside key (inr absent) ∙ redis.set_has key r, run.claimed);
      free = run.free;
      aside = λ k o. run.aside k (rest_of k o) ∙ redis.set_other key k r (away h hs k o);
    }
      where
        rest_of :
            (k : Uuid × Uuid)
            → (k.1 ≢ envelope.event_id) ⊎ IsAbsent (λ x. x.name) k.0 (h ∷ hs)
            → (k.1 ≢ envelope.event_id) ⊎ IsAbsent (λ x. x.name) k.0 hs
        rest_of k (inl ne) = inl ne
        rest_of k (inr (ne, a)) = inr a

    Ran-cons :
        (d : Delivery R (W × List Uuid))
        → Ran hs (log ++ (h.name ∷ [])) taken d
        → Ran (h ∷ hs) log r d
    Ran-cons (delivered r' s) run = IsRun-cons run
    Ran-cons (rejected x r' s) (done, g, rest, run) = (h ∷ done, g, rest, IsRun-cons run)

    -- The handler throws: its claim is given back.
    Ran-threw : All (IsFree r) hs → IsRun (h ∷ hs) [] (h ∷ hs) log log r (redis.del key taken)
    Ran-threw free = record {
      whole = refl;
      ran = sym (append-nil log);
      claimed = tt;
      free = (redis.del_has key taken, given_back hs absent (still-IsFree free));
      aside = λ k o.
          redis.del_other key k taken (away h hs k o) ∙ redis.set_other key k r (away h hs k o);
    }
      where
        given_back :
            (xs : List (EventHandler W))
            → IsAbsent (λ x. x.name) h.name xs
            → All (IsFree taken) xs
            → All (IsFree (redis.del key taken)) xs
        given_back [] a f = tt
        given_back (x ∷ xs) (ne, a) (f, fs) = (
          redis.del_other key (x.name, envelope.event_id) taken (λ e. ne (ap (λ y. y.0) e)) ∙ f,
          given_back xs a fs,
        )

  pub process_all-Ran :
      (todo : List (EventHandler W)) (log : List Uuid) (r : R) (w : W)
      → IsDistinct (λ h. h.name) todo
      → All (IsFree r) todo
      → Ran todo log r (process_all redis envelope (map logged todo) r (w, log))
  unfolding process_all
  process_all-Ran [] log r w d f = record {
    whole = refl;
    ran = sym (append-nil log);
    claimed = tt;
    free = tt;
    aside = λ k o. refl;
  }
  process_all-Ran (h ∷ hs) log r w (absent, d) (f, fs) =
      let first = redis.set_free (h.name, envelope.event_id) r f in
      elim (Handled-cases (h.handle envelope w)) [
        | inl (w', e) ↦
            rw (first, e)
              (Ran-cons h hs log r absent _ (
                process_all-Ran hs (log ++ (h.name ∷ [])) _ w' d
                  (still-IsFree h hs log r absent fs)))
        | inr (x, w', e) ↦ rw (first, e) ([], h, hs, Ran-threw h hs log r absent fs)
      ]

  -- Handlers that are marked are passed over.
  pub process_all-claimed :
      (done todo : List (EventHandler W)) (r : R) (s : W × List Uuid)
      → All (IsClaimed r) done
      → process_all redis envelope (map logged (done ++ todo)) r s
        ≡ process_all redis envelope (map logged todo) r s
  unfolding process_all
  process_all-claimed [] todo r s c = refl
  process_all-claimed (h ∷ hs) todo r s (c, cs) =
      let same = redis.set_taken (h.name, envelope.event_id) r c in
      rw (ap (λ a. a.0) same, ap (λ a. a.1) same) (process_all-claimed hs todo r s cs)
