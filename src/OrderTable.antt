-- ===== src/OrderTable.antt =====
-- The Order table: look-ups and updates by the primary key; and the look-up of a market.
pub mod Reserved
pub mod Edits
use orbit_exchange.Base.{
  ℕ, ◌≡◌, Bool, true, false, List, [], ◌∷◌, Option, none, some, arith, ◌==◌, if◌then◌else◌, ◌++◌,
  refl, ==-refl, ◌≢◌, inl, inr, Bool-cases, find_if, sum_by, ◌+◌,
}
use orbit_exchange.Base.Outcome.{Result, ok, err, ◌>>=◌, record_not_found, Result-cases}
use orbit_exchange.Shared.{
  OrderId, MarketSymbol, OrderStatus, opened, partial, filled, cancelled, rejected,
}
use orbit_exchange.Schema.{Order, Market, Db}

-- `order.findUnique({ where: { id } })`
unfoldable pub find : OrderId → List Order → Option Order
find i [] = none
find i (o ∷ os) = if o.id == i then some o else find i os

-- `order.update({ where: { id }, data })`: a missing row is an error.
unfoldable pub update : OrderId → (Order → Order) → List Order → Result (List Order)
update i f [] = err record_not_found
update i f (o ∷ os) =
    let rest = update i f os in if o.id == i then ok (f o ∷ os) else (do os' ← rest; ok (o ∷ os'))

abbrev with_orders : Db → Result (List Order) → Result Db
with_orders db (ok os) = ok (record db { orders = os })
with_orders db (err e) = err e

-- `tx.order.update`
abbrev pub update_order : OrderId → (Order → Order) → Db → Result Db
update_order i f db = with_orders db (update i f db.orders)

-- `status === 'FILLED' || status === 'CANCELLED'`
abbrev pub is_terminal : OrderStatus → Bool
is_terminal opened = false
is_terminal partial = false
is_terminal filled = true
is_terminal cancelled = true
is_terminal rejected = false

-- `status: { in: ['OPEN', 'PARTIAL'] }`
abbrev pub is_active : OrderStatus → Bool
is_active opened = true
is_active partial = true
is_active filled = false
is_active cancelled = false
is_active rejected = false

-- The table after an update that goes through.
abbrev pub put : OrderId → (Order → Order) → List Order → List Order
put i f [] = []
put i f (o ∷ os) = if o.id == i then f o ∷ os else o ∷ put i f os

pub update-put :
    (i : ℕ) (f : Order → Order) (os os' : List Order) → update i f os ≡ ok os' → os' ≡ put i f os
unfolding update
update-put i f [] os' h = cc
update-put i f (o ∷ os) os' h = elim (Result-cases (update i f os)) [
  | inl (rest, e) ↦ ground (arith, e, update-put i f os rest e)
  | inr (_, e) ↦ ground (arith, e)
]

pub find-id : (i : ℕ) (os : List Order) (o : Order) → find i os ≡ some o → o.id ≡ i
unfolding find
find-id i [] o h = cc
find-id i (x ∷ os) o h = ground (arith, find-id i os o)

-- An update leaves the other rows alone, if it keeps the key.
pub find-update_ne :
    (i j : ℕ) (f : Order → Order) (os os' : List Order)
    → ((o : Order) → (f o).id ≡ o.id)
    → i ≢ j
    → update i f os ≡ ok os'
    → find j os' ≡ find j os
unfolding find update
find-update_ne i j f [] os' k ne h = cc
find-update_ne i j f (o ∷ os) os' k ne h = elim (Result-cases (update i f os)) [
  | inl (rest, e) ↦ ground (arith, e, k o, find-update_ne i j f os rest k ne e)
  | inr (_, e) ↦ ground (arith, e, k o)
]

pub find-update_self :
    (i : ℕ) (f : Order → Order) (os os' : List Order) (o : Order)
    → ((o : Order) → (f o).id ≡ o.id)
    → find i os ≡ some o
    → update i f os ≡ ok os'
    → find i os' ≡ some (f o)
unfolding find update
find-update_self i f [] os' o k e h = cc
find-update_self i f (x ∷ os) os' o k e h = elim (Result-cases (update i f os)) [
  | inl (rest, r) ↦ ground (arith, r, k x, find-update_self i f os rest o k)
  | inr (_, r) ↦ ground (arith, r, k x)
]

-- A row that is found can be updated.
pub update-ok :
    (i : ℕ) (f : Order → Order) (os : List Order) (o : Order)
    → find i os ≡ some o
    → (os' : List Order) × (update i f os ≡ ok os')
unfolding find update
update-ok i f [] o e = cc
update-ok i f (x ∷ os) o e = elim (Bool-cases (x.id == i)) [
  | inl hit ↦ (f x ∷ os, rw hit)
  | inr miss ↦ let (rest, r) = update-ok i f os o (ground arith) in (x ∷ rest, ground (arith, r))
]

-- `market.findUnique({ where: { symbol } })`
abbrev pub find_market : MarketSymbol → List Market → Option Market
find_market symbol = find_if (λ m. m.symbol == symbol)

-- A sum over the table exchanges the old row's share for the new one's.
pub sum_by-update :
    (g : Order → ℕ) (i : ℕ) (f : Order → Order) (os os' : List Order) (o : Order)
    → find i os ≡ some o
    → update i f os ≡ ok os'
    → sum_by g os' + g o ≡ sum_by g os + g (f o)
unfolding find update
sum_by-update g i f [] os' o e h = cc
sum_by-update g i f (y ∷ os) os' o e h = elim (Result-cases (update i f os)) [
  | inl (rest, r) ↦ ground (arith, r, sum_by-update g i f os rest o)
  | inr (_, r) ↦ ground (arith, r)
]

pub update_order-ok :
    (i : ℕ) (f : Order → Order) (db db' : Db)
    → update_order i f db ≡ ok db'
    → (os : List Order) × (update i f db.orders ≡ ok os) × (record db { orders = os } ≡ db')
update_order-ok i f db db' h = elim (Result-cases (update i f db.orders)) [
  | inl (os, e) ↦ (os, e, ground (arith, e))
  | inr (_, e) ↦ ground (arith, e)
]

-- A row whose id is new is found once it is there.
pub find-append :
    (os : List Order) (o : Order) → find o.id os ≡ none → find o.id (os ++ o ∷ []) ≡ some o
unfolding find
find-append [] o h = rw (==-refl o.id) refl
find-append (p ∷ os) o h = elim (Bool-cases (p.id == o.id)) [
  | inl e ↦ ground (arith, rw e at h)
  | inr e ↦ rw e (find-append os o (rw e at h))
]
