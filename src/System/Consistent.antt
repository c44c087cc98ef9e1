-- ===== src/System/Consistent.antt =====
-- What holds of the database between any two steps of the services.
use orbit_exchange.Base.{
  ℕ, ◌≡◌, ◌<◌, refl, sym, ◌∙◌, List, [], ◌∷◌, none, some, false, true, Every, Every-map, ◌==◌,
  ==-eq, Bool-cases, inl, inr, arith,
}
use mathlib.Core.Path.{subst, subst₂}
use orbit_exchange.Shared.{OrderSubmitCommand, OrderStatus}
use orbit_exchange.Schema.{Order, Db}
use orbit_exchange.Schema.Submits.{submits}
use orbit_exchange.OrderTable.{find, is_active, is_terminal}
use orbit_exchange.OrderTable.Edits.{is_rejected, IsBalanced, Edited, Edits, find-Edits}
use orbit_exchange.Ledger.{IsBacked}
use orbit_exchange.Settler.Settlement.Gap.{IsPriceOf}
use orbit_exchange.Settler.Keeps.{Keeps}

-- A row whose id has been drawn, that is not rejected, whose price fits its type, and of which what
-- is filled and what is left make up the quantity.
pub record IsPlaced (next : ℕ) (o : Order) : Type 0 where
  pub below : o.id < next
  pub live : is_rejected o.status ≡ false
  pub priced : IsPriceOf o.type o.price
  pub balanced : IsBalanced o

-- A SUBMIT command whose row is in the table, on the command's market.
pub record IsSent (os : List Order) (c : OrderSubmitCommand) : Type 0 where
  pub row : Order
  pub found : find c.order_id os ≡ some row
  pub same_symbol : row.symbol ≡ c.symbol

pub record IsConsistent (db : Db) : Type 0 where
  pub backed : IsBacked db
  pub placed : Every (IsPlaced db.next_order_id) db.orders
  pub sent : Every (IsSent db.orders) (submits db.outbox)

IsPlaced-Edited : (next : ℕ) (o p : Order) → Edited o p → IsPlaced next o → IsPlaced next p
IsPlaced-Edited next o p e i = record {
  below = subst (λ n. n < next) (sym e.same_id) i.below;
  live = e.live i.live;
  priced = subst₂ IsPriceOf (sym e.same_type) (sym e.same_price) i.priced;
  balanced = e.balanced i.balanced;
}

IsPlaced-Edits :
    (next : ℕ) (os ps : List Order)
    → Edits os ps
    → Every (IsPlaced next) os
    → Every (IsPlaced next) ps
IsPlaced-Edits next [] [] es h = tt
IsPlaced-Edits next [] (p ∷ ps) es h = absurd es
IsPlaced-Edits next (o ∷ os) [] es h = absurd es
IsPlaced-Edits next (o ∷ os) (p ∷ ps) (e, es) (i, h) =
    (IsPlaced-Edited next o p e i, IsPlaced-Edits next os ps es h)

IsSent-Edits :
    (os ps : List Order) → Edits os ps → (c : OrderSubmitCommand) → IsSent os c → IsSent ps c
IsSent-Edits os ps es c i =
    let (p, found, e) = find-Edits c.order_id os ps i.row es i.found in
    record { row = p; found = found; same_symbol = e.same_symbol ∙ i.same_symbol }

-- A step that edits rows and sends no command.
pub Keeps-IsConsistent :
    (db db' : Db) → Keeps db db' → IsBacked db' → IsConsistent db → IsConsistent db'
Keeps-IsConsistent db db' k backed i = record {
  backed = backed;
  placed =
      subst (λ n. Every (IsPlaced n) db'.orders) (sym k.same_next)
        (IsPlaced-Edits db.next_order_id db.orders db'.orders k.edits i.placed);
  sent =
      subst (Every (IsSent db'.orders)) (sym k.same_submits)
        (Every-map (IsSent-Edits db.orders db'.orders k.edits) (submits db.outbox) i.sent);
}

-- A row that is found is placed.
pub found-IsPlaced :
    (next i : ℕ) (os : List Order) (o : Order)
    → Every (IsPlaced next) os
    → find i os ≡ some o
    → IsPlaced next o
unfolding find
found-IsPlaced next i [] o h e = cc
found-IsPlaced next i (x ∷ os) o (p, h) e = elim (Bool-cases (x.id == i)) [
  | inl hit ↦ ground (arith, rw hit at e)
  | inr miss ↦ found-IsPlaced next i os o h (rw miss at e)
]

-- The next id is new.
pub find-next : (next : ℕ) (os : List Order) → Every (IsPlaced next) os → find next os ≡ none
unfolding find
find-next next [] h = refl
find-next next (o ∷ os) (p, h) = elim (Bool-cases (o.id == next)) [
  | inl e ↦ ground (arith, p.below, ==-eq o.id next e)
  | inr e ↦ rw e (find-next next os h)
]

pub active_unless :
    (t : OrderStatus) → is_terminal t ≡ false → is_rejected t ≡ false → is_active t ≡ true
active_unless t e live = ground arith
