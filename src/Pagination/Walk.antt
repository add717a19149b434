-- ===== src/Pagination/Walk.antt =====
-- A client that asks for page after page.
use financial_os.Base.{
  ℕ, zero, suc, ◌≤◌, ◌<◌, ◌≡◌, ◌≢◌, refl, sym, ap, subst, ◌∙◌, Option, none, some, List, [], ◌∷◌,
  ◌++◌, arith, take, length, append_assoc, All, Bool-cases, inl, inr,
}
use financial_os.Money.Currency.{str_eq, str_eq_refl, str_eq_sound}
use financial_os.Money.Values.{Number}
use financial_os.Pagination.{
  Text, clamp_page_size, clamp_page_size_range, non_empty, decode_cursor, start_after, drop,
  page_slice,
}

-- The last of one or more items.
abbrev pub last_of {ℓ} : {A : Type ℓ} → A → List A → A
last_of x [] = x
last_of x (y ∷ ys) = last_of y ys

-- A page, and what the request for the next one yields; an empty page ends the walk.
abbrev pub turn {ℓ} :
    {A : Type ℓ} → (A → Text) → (Text → Text) → (Option Text → List A) → List A → List A
turn id encode next [] = []
turn id encode next (x ∷ xs) = (x ∷ xs) ++ next (some (encode (id (last_of x xs))))

-- All that the pages hold, each after the last item of the page before. On fuel, of which the number
-- of items plus one is enough.
abbrev pub walk {ℓ} :
    {A : Type ℓ}
    → (Text → Text)
    → (Text → Text)
    → (A → Text)
    → List A
    → Option Number
    → ℕ
    → Option Text
    → List A
walk encode decode id items first zero after = []
walk encode decode id items first (suc fuel) after =
    turn id encode (walk encode decode id items first fuel)
      (page_slice decode id items (record { first = first; after = after }))

-- No two items have the same identifier, and none has an empty one.
abbrev pub IsKeyed {ℓ} : {A : Type ℓ} → (A → Text) → List A → Type 0
IsKeyed id [] = Unit
IsKeyed id (x ∷ xs) = (id x ≢ []) × All (λ y. id y ≢ id x) xs × IsKeyed id xs

-- What the walk relies on: text comes back from its cursor, which is not empty.
pub record IsCoding (encode decode : Text → Text) : Type 0 where
  pub back : (s : Text) → decode (encode s) ≡ s
  pub cursor : (s : Text) → s ≢ [] → encode s ≢ []

module _ {ℓ} {A : Type ℓ} (id : A → Text) where
  start_after_lem :
      (before : List A) (y : A) (rest : List A)
      → IsKeyed id (before ++ (y ∷ rest))
      → start_after id (id y) (before ++ (y ∷ rest)) ≡ suc (length before)
  start_after_lem [] y rest k = rw (str_eq_refl (id y)) refl
  start_after_lem (x ∷ before) y rest (_, ne, k) = elim (Bool-cases (str_eq (id x) (id y))) [
    | inl same ↦ absurd (differs before ne (sym (str_eq_sound (id x) (id y) same)))
    | inr other ↦ rw (other, start_after_lem before y rest k) refl
  ]
    where
      differs : (before : List A) → All (λ z. id z ≢ id x) (before ++ (y ∷ rest)) → id y ≢ id x
      differs [] h = h.0
      differs (z ∷ zs) h = differs zs h.1

  drop-append :
      (before : List A) (y : A) (rest : List A)
      → drop (suc (length before)) (before ++ (y ∷ rest)) ≡ rest
  drop-append [] y rest = refl
  drop-append (x ∷ before) y rest = drop-append before y rest

  -- A page of n + 1 of one or more items: its last item, and what follows it.
  page_split :
      (n : ℕ) (z : A) (zs : List A)
      → (mid : List A) × (w : A) × (rest : List A) × (z ∷ zs ≡ mid ++ (w ∷ rest))
        × (last_of z (take n zs) ≡ w)
        × ((z ∷ take n zs) ++ rest ≡ z ∷ zs)
        × (length rest ≤ length zs)
  page_split zero z zs = ([], z, zs, refl, refl, refl, omega arith)
  page_split (suc n) z [] = ([], z, [], refl, refl, refl, omega arith)
  page_split (suc n) z (y ∷ ys) =
      let (mid, w, rest, e, l, whole, short) = page_split n y ys in
      (z ∷ mid, w, rest, ap (λ l. z ∷ l) e, l, ap (λ l. z ∷ l) whole, omega (arith, short))

  keyed-at :
      (before : List A) (y : A) (rest : List A) → IsKeyed id (before ++ (y ∷ rest)) → id y ≢ []
  keyed-at [] y rest k = k.0
  keyed-at (x ∷ before) y rest (_, _, k) = keyed-at before y rest k

  module _ (encode decode : Text → Text) (coding : IsCoding encode decode) (items : List A)
      (first : Option Number) where
    decoded : (s : Text) → s ≢ [] → decode_cursor decode (some (encode s)) ≡ some s
    unfolding decode_cursor
    decoded s ne = go (encode s) refl
      where
        named : (t : Text) → t ≡ s → non_empty t ≡ some s
        named [] e = absurd (ne (sym e))
        named (c ∷ t) e = ap some e

        go : (t : Text) → encode s ≡ t → decode_cursor decode (some t) ≡ some s
        go [] e = absurd (coding.cursor s ne e)
        go (c ∷ t) e = named (decode (c ∷ t)) (ap decode (sym e) ∙ coding.back s)

    page_after :
        (before : List A) (y : A) (rest : List A)
        → items ≡ before ++ (y ∷ rest)
        → IsKeyed id items
        → page_slice decode id items (record { first = first; after = some (encode (id y)) })
          ≡ take (clamp_page_size first) rest
    unfolding page_slice
    page_after before y rest e k =
        let k' = subst (IsKeyed id) e k in
        rw
          (
            decoded (id y) (keyed-at before y rest k'),
            e,
            start_after_lem before y rest k',
            drop-append before y rest,
          )
          refl

    take_none : (n : ℕ) → take {A = A} n [] ≡ []
    take_none zero = refl
    take_none (suc n) = refl

    some_page : (n : ℕ) × (clamp_page_size first ≡ suc n)
    some_page = go (clamp_page_size first) (clamp_page_size_range first).0
      where
        go : (m : ℕ) → 1 ≤ m → (n : ℕ) × (m ≡ suc n)
        go zero h = absurd (omega (arith, h))
        go (suc m) h = (m, refl)

    -- From a page on, with fuel for what is left, the walk yields just that.
    walk_from :
        (fuel : ℕ) (before rest : List A) (after : Option Text)
        → items ≡ before ++ rest
        → IsKeyed id items
        → page_slice decode id items (record { first = first; after = after })
          ≡ take (clamp_page_size first) rest
        → length rest < fuel
        → walk encode decode id items first fuel after ≡ rest
    walk_from zero before rest after e k p h = absurd (omega (arith, h))
    walk_from (suc fuel) before [] after e k p h =
        ap (turn id encode (walk encode decode id items first fuel))
          (p ∙ take_none (clamp_page_size first))
    walk_from (suc fuel) before (z ∷ zs) after e k p h =
        let (n, size) = some_page in
        let (mid, w, rest, split, l, whole, short) = page_split n z zs in
        let here : items ≡ (before ++ mid) ++ (w ∷ rest) =
          e ∙ ap (λ l. before ++ l) split ∙ sym (append_assoc before mid (w ∷ rest)) in
        let onward =
          walk_from fuel ((before ++ mid) ++ (w ∷ [])) rest (some (encode (id w)))
            (here ∙ sym (append_assoc (before ++ mid) (w ∷ []) rest)) k
            (page_after (before ++ mid) w rest here k) (omega (arith, h, short)) in
        ap (turn id encode (walk encode decode id items first fuel)) p ∙ rw (size, l, onward) whole

    -- The pages of a list, each asked for with the cursor of the last item of the one before, make up
    -- the list, in its order: for items with distinct identifiers that are not empty, a coding that
    -- gives text back from its cursor, any page size, and fuel for one page more than there are items.
    pub walk_covers :
        IsKeyed id items → walk encode decode id items first (suc (length items)) none ≡ items
    unfolding page_slice decode_cursor
    walk_covers k = walk_from (suc (length items)) [] items none refl k refl (omega arith)
