-- ===== src/Ledger/Ordering.antt =====
-- ledger/reader.py: rows in the order of a key, and what comes above a key.
use invoice_ops.Prelude.{
  ◌≡◌, refl, sym, ap, ◌∙◌, Bool, true, false, List, [], ◌∷◌, ◌++◌, All, All-map, ◌⊎◌, arith,
  if◌then◌else◌, Bool-cases, inl, inr,
}
use invoice_ops.Ledger.Paging.{insert_in_order, in_order, above}

-- An order on keys.
pub record IsOrder {K : Type 0} (precedes : K → K → Bool) : Type 0 where
  pub irreflexive : (a : K) → precedes a a ≡ false
  pub transitive : (a b c : K) → precedes a b ≡ true → precedes b c ≡ true → precedes a c ≡ true

module _ {A K : Type 0} (key : A → K) (precedes : K → K → Bool) where
  -- Each element comes before all that follow it.
  unfoldable pub IsIncreasing : List A → Type 0
  IsIncreasing [] = Unit {0}
  IsIncreasing (x ∷ xs) = All (λ (y : A). precedes (key x) (key y) ≡ true) xs × IsIncreasing xs

  pub above-insert :
      IsOrder precedes
      → (k : K) (a : A) (xs : List A)
      → above key precedes k (insert_in_order key precedes a xs) ≡ (
          if precedes k (key a)
          then insert_in_order key precedes a (above key precedes k xs)
          else above key precedes k xs)
  unfolding above insert_in_order
  above-insert o k a [] = ground arith
  above-insert o k a (x ∷ xs) =
      let ih = above-insert o k a xs in
      let t = o.transitive k (key a) (key x) in
      elim (Bool-cases (precedes (key a) (key x))) [
        | inl e ↦ elim (Bool-cases (precedes k (key a))) [
          | inl f ↦ rw (e, f, t f e, e) refl
          | inr f ↦ rw (e, f) refl
        ]
        | inr e ↦ elim (Bool-cases (precedes k (key x))) [
          | inl f ↦ ground (arith, ih)
          | inr f ↦ ground (arith, ih)
        ]
      ]

  pub above-in_order :
      IsOrder precedes
      → (k : K) (xs : List A)
      → above key precedes k (in_order key precedes xs)
        ≡ in_order key precedes (above key precedes k xs)
  unfolding in_order above
  above-in_order o k [] = refl
  above-in_order o k (x ∷ xs) =
      above-insert o k x (in_order key precedes xs) ∙ elim (Bool-cases (precedes k (key x))) [
        | inl f ↦ rw f (ap (insert_in_order key precedes x) (above-in_order o k xs))
        | inr f ↦ rw f (above-in_order o k xs)
      ]

  pub above_none :
      (k : K) (xs : List A)
      → All (λ (y : A). precedes k (key y) ≡ false) xs
      → above key precedes k xs ≡ []
  unfolding above
  above_none k [] h = refl
  above_none k (x ∷ xs) h = rw h.0 (above_none k xs h.1)

  pub above-All :
      (k : K) (xs : List A)
      → All (λ (y : A). precedes k (key y) ≡ true) xs
      → above key precedes k xs ≡ xs
  unfolding above
  above-All k [] h = refl
  above-All k (x ∷ xs) h = rw h.0 (ap (λ ys. x ∷ ys) (above-All k xs h.1))

  pub All-here :
      (k : K) (xs : List A) (x : A) (rest : List A)
      → All (λ (y : A). precedes k (key y) ≡ true) (xs ++ x ∷ rest)
      → precedes k (key x) ≡ true
  All-here k [] x rest h = h.0
  All-here k (y ∷ xs) x rest h = All-here k xs x rest h.1

  -- What follows an element of an increasing list is what comes above its key.
  pub above_rest :
      IsOrder precedes
      → (xs : List A) (x : A) (rest : List A) → IsIncreasing (xs ++ x ∷ rest)
      → above key precedes (key x) (xs ++ x ∷ rest) ≡ rest
  unfolding above IsIncreasing
  above_rest o [] x rest h = rw (o.irreflexive (key x)) (above-All (key x) rest h.0)
  above_rest o (y ∷ xs) x rest h =
      let first = All-here (key y) xs x rest h.0 in
      let back = Bool-cases (precedes (key x) (key y)) in
      elim back [
        | inl b ↦
            (let loop =
                sym (o.irreflexive (key y)) ∙ o.transitive (key y) (key x) (key y) first b in
              ground arith)
        | inr b ↦ rw b (above_rest o xs x rest h.1)
      ]

-- `ORDER BY` keeps the rows and puts them in order.
module _ {A K : Type 0} (key : A → K) (precedes : K → K → Bool) where
  -- Two keys of which one comes first.
  abbrev pub IsApart : A → A → Type 0
  IsApart a b = (precedes (key a) (key b) ≡ true) ⊎ (precedes (key b) (key a) ≡ true)

  pub All-insert :
      (P : A → Type 0) (a : A) (xs : List A)
      → P a
      → All P xs
      → All P (insert_in_order key precedes a xs)
  unfolding insert_in_order
  All-insert P a [] p h = (p, tt)
  All-insert P a (x ∷ xs) p h = elim (Bool-cases (precedes (key a) (key x))) [
    | inl e ↦ rw e (p, h)
    | inr e ↦ rw e (h.0, All-insert P a xs p h.1)
  ]

  pub All-in_order : (P : A → Type 0) (xs : List A) → All P xs → All P (in_order key precedes xs)
  unfolding in_order
  All-in_order P [] h = tt
  All-in_order P (x ∷ xs) h = All-insert P x (in_order key precedes xs) h.0 (All-in_order P xs h.1)

  pub insert-IsIncreasing :
      IsOrder precedes
      → (a : A) (xs : List A) → All (IsApart a) xs
      → IsIncreasing key precedes xs
      → IsIncreasing key precedes (insert_in_order key precedes a xs)
  unfolding insert_in_order IsIncreasing
  insert-IsIncreasing o a [] d h = (tt, tt)
  insert-IsIncreasing o a (x ∷ xs) d h = elim (Bool-cases (precedes (key a) (key x))) [
    | inl e ↦ rw e (
      (
        e,
        All-map
            (λ y (later : precedes (key x) (key y) ≡ true).
              o.transitive (key a) (key x) (key y) e later)
            xs h.0,
      ),
      h,
    )
    | inr e ↦
        let first : precedes (key x) (key a) ≡ true = elim d.0 [
          | inl f ↦ ground arith
          | inr f ↦ f
        ] in
        rw e (
          All-insert (λ (y : A). precedes (key x) (key y) ≡ true) a xs first h.0,
          insert-IsIncreasing o a xs d.1 h.1,
        )
  ]

  -- Each two of the rows have keys of which one comes first.
  unfoldable pub AreApart : List A → Type 0
  AreApart [] = Unit {0}
  AreApart (x ∷ xs) = All (IsApart x) xs × AreApart xs

  pub in_order-IsIncreasing :
      IsOrder precedes
      → (xs : List A) → AreApart xs
      → IsIncreasing key precedes (in_order key precedes xs)
  unfolding in_order AreApart
  in_order-IsIncreasing o [] d = unfold IsIncreasing in tt
  in_order-IsIncreasing o (x ∷ xs) d =
      insert-IsIncreasing o x (in_order key precedes xs) (All-in_order (IsApart x) xs d.0)
        (in_order-IsIncreasing o xs d.1)
