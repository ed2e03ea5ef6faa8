-- ===== src/Ledger/Pages.antt =====
-- Pages cut from an ordered history, and the history put together again.
use invoice_ops.Prelude.{
  ℕ, zero, suc, ◌+◌, ◌<◌, ◌≤◌, ◌≡◌, refl, sym, ap, ◌∙◌, Bool, true, false, Option, some, List, [],
  ◌∷◌, ◌++◌, length, ltb, ltb→lt, arith, Bool-cases, inl, inr,
}
use mathlib.Core.Path.{subst}
use mathlib.Core.List.{append_assoc}
use invoice_ops.Ledger.{LedgerEvent}
use invoice_ops.Ledger.Paging.{take, drop, last, above, page_of}
use invoice_ops.Ledger.Reader.{Read, page, follow, read_pages}
use invoice_ops.Ledger.Ordering.{IsOrder, IsIncreasing, above_rest}

module _ {ℓ} {A : Type ℓ} where
  take-take : (n : ℕ) (xs : List A) → take n (take (suc n) xs) ≡ take n xs
  take-take zero xs = refl
  take-take (suc n) [] = refl
  take-take (suc n) (x ∷ xs) = ap (λ ys. x ∷ ys) (take-take n xs)

  take-drop : (n : ℕ) (xs : List A) → take n xs ++ drop n xs ≡ xs
  take-drop zero xs = refl
  take-drop (suc n) [] = refl
  take-drop (suc n) (x ∷ xs) = ap (λ ys. x ∷ ys) (take-drop n xs)

  longer-take : (n : ℕ) (xs : List A) → ltb n (length (take (suc n) xs)) ≡ ltb n (length xs)
  longer-take zero [] = refl
  longer-take zero (x ∷ xs) = ground arith
  longer-take (suc n) [] = refl
  longer-take (suc n) (x ∷ xs) = ground (arith, longer-take n xs)

  take_all : (n : ℕ) (xs : List A) → ltb n (length xs) ≡ false → take n xs ≡ xs
  take_all zero [] h = refl
  take_all zero (x ∷ xs) h = ground arith
  take_all (suc n) [] h = refl
  take_all (suc n) (x ∷ xs) h = ground (arith, take_all n xs)

  length-drop : (n : ℕ) (xs : List A) → n < length xs → length (drop n xs) + n ≡ length xs
  length-drop zero xs h = omega arith
  length-drop (suc n) [] h = omega arith
  length-drop (suc n) (x ∷ xs) h = omega (arith, length-drop n xs (omega arith))

  rejoin :
      (xs ys : List A) (x : A) (zs : List A) → xs ++ ((ys ++ x ∷ []) ++ zs) ≡ (xs ++ ys) ++ x ∷ zs
  rejoin xs ys x zs =
      ap (λ ts. xs ++ ts) (append_assoc ys (x ∷ []) zs) ∙ sym (append_assoc xs ys (x ∷ zs))

  -- A list that is not empty ends with its last element.
  ends :
      (x : A) (xs : List A)
      → (ys : List A) × (y : A) × (x ∷ xs ≡ ys ++ y ∷ []) × (last (x ∷ xs) ≡ some y)
  ends x [] = ([], x, refl, refl)
  ends x (z ∷ xs) = let (ys, y, e, l) = ends z xs in (x ∷ ys, y, ap (λ t. x ∷ t) e, l)

  take_ends :
      (n : ℕ) (xs : List A)
      → 1 ≤ n
      → n < length xs
      → (ys : List A) × (y : A) × (take n xs ≡ ys ++ y ∷ []) × (last (take n xs) ≡ some y)
  take_ends zero xs h k = absurd (omega arith)
  take_ends (suc n) [] h k = absurd (omega arith)
  take_ends (suc n) (x ∷ xs) h k = ends x (take n xs)

-- A reader that answers with the pages of an ordered history.
module _ {K C : Type 0} (key : LedgerEvent → K) (precedes : K → K → Bool) (cursor : LedgerEvent → C)
    (limit : ℕ) (history : List LedgerEvent) (read : Option C → Read C) where
  -- The answer for the rest of the history.
  abbrev pub answer : List LedgerEvent → Read C
  answer rest = page (page_of cursor limit (take (suc limit) rest))

  last_page :
      (n : ℕ) (after : Option C) (rest : List LedgerEvent)
      → read after ≡ answer rest
      → ltb limit (length rest) ≡ false
      → read_pages read (suc n) after ≡ some rest
  unfolding read_pages page_of
  last_page n after rest r h =
      ap (follow (λ (c : C). read_pages read n (some c))) r
      ∙ (rw (longer-take limit rest, h) (ap some (take-take limit rest ∙ take_all limit rest h)))

  next_page :
      (n : ℕ) (after : Option C) (rest : List LedgerEvent) (event : LedgerEvent)
      → read after ≡ answer rest
      → ltb limit (length rest) ≡ true
      → last (take limit rest) ≡ some event
      → read_pages read n (some (cursor event)) ≡ some (drop limit rest)
      → read_pages read (suc n) after ≡ some rest
  unfolding read_pages page_of
  next_page n after rest event r h l s =
      ap (follow (λ (c : C). read_pages read n (some c))) r
      ∙ (rw (longer-take limit rest, h, take-take limit rest, l, s)
          (ap some (take-drop limit rest)))

  pub read_rest :
      IsOrder precedes
      → 1 ≤ limit
      → IsIncreasing key precedes history
      → ((event : LedgerEvent)
          → read (some (cursor event)) ≡ answer (above key precedes (key event) history))
      → (n : ℕ) (after : Option C) (before rest : List LedgerEvent) → history ≡ before ++ rest
      → read after ≡ answer rest
      → length rest < n
      → read_pages read n after ≡ some rest
  read_rest o one inc step zero after before rest e r b = absurd (omega arith)
  read_rest o one inc step (suc n) after before rest e r b =
      elim (Bool-cases (ltb limit (length rest))) [
        | inl h ↦
            let more = ltb→lt limit (length rest) h in
            let (xs, x, t, l) = take_ends limit rest one more in
            let cut : history ≡ (before ++ xs) ++ x ∷ drop limit rest =
              e
              ∙ (ap (λ ys. before ++ ys)
                    (sym (take-drop limit rest) ∙ ap (λ ys. ys ++ drop limit rest) t)
                  ∙ rejoin before xs x (drop limit rest)) in
            let remains : above key precedes (key x) history ≡ drop limit rest =
              ap (above key precedes (key x)) cut
              ∙ above_rest key precedes o (before ++ xs) x (drop limit rest)
                  (subst (IsIncreasing key precedes) cut inc) in
            next_page n after rest x r h l (
              read_rest o one inc step n (some (cursor x)) ((before ++ xs) ++ x ∷ [])
                (drop limit rest)
                (cut ∙ sym (append_assoc (before ++ xs) (x ∷ []) (drop limit rest)))
                (step x ∙ ap answer remains) (omega (arith, length-drop limit rest more)))
        | inr h ↦ last_page n after rest r h
      ]
