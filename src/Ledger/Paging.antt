-- ===== src/Ledger/Paging.antt =====
-- The query of a page of ledger/reader.py, for a key that orders the rows: `WHERE key > cursor ORDER BY key LIMIT n + 1`,
-- and the page that is made of its rows.
use invoice_ops.Prelude.{
  ℕ, zero, suc, Bool, Option, none, some, List, [], ◌∷◌, length, ltb, if◌then◌else◌,
}

module _ {ℓ} {A : Type ℓ} where
  abbrev pub take : ℕ → List A → List A
  take zero xs = []
  take (suc n) [] = []
  take (suc n) (x ∷ xs) = x ∷ take n xs

  abbrev pub drop : ℕ → List A → List A
  drop zero xs = xs
  drop (suc n) [] = []
  drop (suc n) (x ∷ xs) = drop n xs

  -- `xs[-1]`, where there is one.
  abbrev pub last : List A → Option A
  last [] = none
  last (x ∷ []) = some x
  last (x ∷ y ∷ xs) = last (y ∷ xs)

module _ {A K : Type 0} (key : A → K) (precedes : K → K → Bool) where
  unfoldable pub insert_in_order : A → List A → List A
  insert_in_order a [] = a ∷ []
  insert_in_order a (x ∷ xs) =
      let rest = insert_in_order a xs in if precedes (key a) (key x) then a ∷ x ∷ xs else x ∷ rest

  -- `ORDER BY key ASC`
  unfoldable pub in_order : List A → List A
  in_order [] = []
  in_order (x ∷ xs) = insert_in_order x (in_order xs)

  -- `WHERE key > k`
  unfoldable pub above : K → List A → List A
  above k [] = []
  above k (x ∷ xs) = let rest = above k xs in if precedes k (key x) then x ∷ rest else rest

  -- `WHERE key > cursor`, where there is a cursor.
  abbrev pub beyond : Option K → List A → List A
  beyond none xs = xs
  beyond (some k) xs = above k xs

-- `RunPage` and `InvoicePage`
pub record Page (A C : Type 0) : Type 0 where
  pub events : List A
  pub next_cursor : Option C

abbrev pub cursor_at : {A C : Type 0} → (A → C) → Option A → Option C
cursor_at cursor none = none
cursor_at cursor (some a) = some (cursor a)

-- The page of at most `limit` events, for the rows of a query that asked for one more.
unfoldable pub page_of : {A C : Type 0} → (A → C) → ℕ → List A → Page A C
page_of cursor limit rows = record {
  events = take limit rows;
  next_cursor = if ltb limit (length rows) then cursor_at cursor (last (take limit rows)) else none;
}
