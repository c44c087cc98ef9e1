-- ===== src/Paging.antt =====
-- The lists of the admin services (apps/api/src/admin/*/admin-*.service.ts): one page of the rows of
-- a query, and the cursor of the next one.
pub mod Follow
use orbit_exchange.Base.{
  ℕ, zero, suc, ◌≡◌, min, Bool, true, false, List, [], ◌∷◌, ◌++◌, Option, none, some, ltb, ◌==◌,
  if◌then◌else◌, length, take,
}
use orbit_exchange.Base.Outcome.{Result, ok, err, ◌>>=◌, type_error}

-- `{ items, nextCursor }`
pub record Page (A : Type 0) : Type 0 where
  pub items : List A
  pub next_cursor : Option ℕ

-- `Math.min(opts.take ?? usual, most)`
abbrev pub page_size : Option ℕ → ℕ → ℕ → ℕ
page_size none usual most = min usual most
page_size (some n) usual most = min n most

-- Newest first.
abbrev pub reverse {ℓ} : {A : Type ℓ} → List A → List A
reverse [] = []
reverse (x ∷ xs) = reverse xs ++ x ∷ []

module _ {A : Type 0} (id : A → ℕ) where
  -- The rows after the one that the cursor names: `cursor: { id }, skip: 1`.
  abbrev pub after : ℕ → List A → List A
  after c [] = []
  after c (x ∷ xs) = if id x == c then xs else after c xs

  abbrev pub from_cursor : Option ℕ → List A → List A
  from_cursor none rows = rows
  from_cursor (some c) rows = after c rows

  -- `items[items.length - 1].id`
  abbrev pub last_id : List A → Result ℕ
  last_id [] = err type_error
  last_id (x ∷ []) = ok (id x)
  last_id (x ∷ y ∷ xs) = last_id (y ∷ xs)

  abbrev pub present : Bool → ℕ → List A → Result (Page A)
  present true n rows = do
    c ← last_id (take n rows)
    ok (record { items = take n rows; next_cursor = some c })
  present false n rows = ok (record { items = rows; next_cursor = none })

  -- From `take` to the answer: `rows` are the rows that match, in the order of the query, of which
  -- one more is fetched than is shown.
  unfoldable pub page : ℕ → Option ℕ → List A → Result (Page A)
  page n cursor rows =
      let fetched = take (suc n) (from_cursor cursor rows) in
      present (ltb n (length fetched)) n fetched
