-- ===== src/Settler/Keeps.antt =====
-- What the settler leaves of the database, whatever the engine does: rows are only edited, and no
-- market, no order id and no command changes.
use orbit_exchange.Base.{ℕ, ◌≡◌, refl, ◌∙◌, some}
use orbit_exchange.Base.Outcome.{ok}
use mathlib.Core.Path.{subst}
use orbit_exchange.Schema.{Order, Db}
use orbit_exchange.Schema.Submits.{submits}
use orbit_exchange.Wallets.{Change, update_wallet, update_wallet-ok}
use orbit_exchange.OrderTable.{find, update_order, update_order-ok}
use orbit_exchange.OrderTable.Edits.{Edited, Edits, Edits-refl, Edits-trans, Edits-update}

pub record Keeps (db db' : Db) : Type 0 where
  pub edits : Edits db.orders db'.orders
  pub same_markets : db'.markets ≡ db.markets
  pub same_submits : submits db'.outbox ≡ submits db.outbox
  pub same_next : db'.next_order_id ≡ db.next_order_id

pub Keeps-refl : (db : Db) → Keeps db db
Keeps-refl db = record {
  edits = Edits-refl db.orders;
  same_markets = refl;
  same_submits = refl;
  same_next = refl;
}

pub Keeps-trans : {a b c : Db} → Keeps a b → Keeps b c → Keeps a c
Keeps-trans {a} {b} {c} k l = record {
  edits = Edits-trans a.orders b.orders c.orders k.edits l.edits;
  same_markets = l.same_markets ∙ k.same_markets;
  same_submits = l.same_submits ∙ k.same_submits;
  same_next = l.same_next ∙ k.same_next;
}

-- Statements on the wallets.
pub update_wallet-Keeps :
    (u a : ℕ) (b l : Change) (db db' : Db) → update_wallet u a b l db ≡ ok db' → Keeps db db'
update_wallet-Keeps u a b l db db' h =
    let (ws, wrote, is) = update_wallet-ok u a b l db db' h in
    subst (Keeps db) is (record {
      edits = Edits-refl db.orders;
      same_markets = refl;
      same_submits = refl;
      same_next = refl;
    })

-- A statement on one order.
pub update_order-Keeps :
    (i : ℕ) (f : Order → Order) (db db' : Db)
    → ((o : Order) → find i db.orders ≡ some o → Edited o (f o))
    → update_order i f db ≡ ok db'
    → Keeps db db'
update_order-Keeps i f db db' edit h =
    let (os, put, is) = update_order-ok i f db db' h in
    subst (Keeps db) is (record {
      edits = Edits-update i f db.orders os edit put;
      same_markets = refl;
      same_submits = refl;
      same_next = refl;
    })
