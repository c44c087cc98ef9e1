-- ===== src/Settler/Events/Rows.antt =====
-- Publishing writes outbox rows and nothing else.
use orbit_exchange.Base.{ℕ, ◌≡◌, refl, ◌∙◌, List, [], ◌∷◌}
use orbit_exchange.Schema.{Order, Trade, Db, publish}
use orbit_exchange.Ledger.{Moves}
use orbit_exchange.Engine.{Engine}
use orbit_exchange.Settler.Work.{Work}
use orbit_exchange.Settler.Events.{
  Draw, publish_trade, publish_trades, publish_submit_events, publish_cancel_events,
}

-- The tables that publishing leaves alone.
pub record SameRows (db db' : Db) : Type 0 where
  pub same_wallets : db'.wallets ≡ db.wallets
  pub same_orders : db'.orders ≡ db.orders
  pub same_markets : db'.markets ≡ db.markets
  pub same_trades : db'.trades ≡ db.trades

SameRows-trans : {a b c : Db} → SameRows a b → SameRows b c → SameRows a c
SameRows-trans p q = record {
  same_wallets = q.same_wallets ∙ p.same_wallets;
  same_orders = q.same_orders ∙ p.same_orders;
  same_markets = q.same_markets ∙ p.same_markets;
  same_trades = q.same_trades ∙ p.same_trades;
}

publish_trade-SameRows :
    (s : ℕ) (d : Draw) (t : Trade) (db : Db) → SameRows db (publish_trade s d t db)
unfolding publish_trade publish
publish_trade-SameRows s d t db = record {
  same_wallets = refl;
  same_orders = refl;
  same_markets = refl;
  same_trades = refl;
}

pub publish_trades-SameRows :
    (s : ℕ) (d : Draw) (ts : List Trade) (db : Db) → SameRows db (publish_trades s d ts db)
unfolding publish_trades
publish_trades-SameRows s d [] db = record {
  same_wallets = refl;
  same_orders = refl;
  same_markets = refl;
  same_trades = refl;
}
publish_trades-SameRows s d (t ∷ ts) db =
    SameRows-trans (publish_trade-SameRows s d t db) (publish_trades-SameRows s d ts _)

module _ {B : Type 0} (E : Engine B) where
  pub publish_submit_events-SameRows :
      (o : Order) (ts : List Trade) (s : ℕ) (d : Draw) (w : Work B)
      → SameRows w.db (publish_submit_events E o ts s d w).1.db
  unfolding publish_submit_events publish
  publish_submit_events-SameRows o ts s d w =
      let r = publish_trades-SameRows s d ts _ in
      record {
        same_wallets = r.same_wallets;
        same_orders = r.same_orders;
        same_markets = r.same_markets;
        same_trades = r.same_trades;
      }

  pub publish_cancel_events-SameRows :
      (o : Order) (d : Draw) (w : Work B) → SameRows w.db (publish_cancel_events E o d w).1.db
  unfolding publish_cancel_events publish
  publish_cancel_events-SameRows o d w = record {
    same_wallets = refl;
    same_orders = refl;
    same_markets = refl;
    same_trades = refl;
  }

-- So what was moved before stays moved.
pub Moves-SameRows : {v x f : ℕ} {a b c : Db} → Moves v x f a b → SameRows b c → Moves v x f a c
Moves-SameRows {v} {x} {f} {a} {b} {c} m r = record {
  gap = rw (r.same_wallets, r.same_orders, r.same_markets) m.gap;
  supplied = rw r.same_wallets m.supplied;
  same_markets = r.same_markets ∙ m.same_markets;
}
