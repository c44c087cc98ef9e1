-- ===== src/Settler/Events/Commands.antt =====
-- Publishing sends no command: it keeps every row but those of the outbox.
use orbit_exchange.Base.{ℕ, ◌≡◌, refl, List, [], ◌∷◌}
use orbit_exchange.Shared.{KafkaTopic, Payload}
use orbit_exchange.Schema.{Order, Trade, Db, publish}
use orbit_exchange.Schema.Submits.{submit_of, submits-publish_event}
use orbit_exchange.Engine.{Engine}
use orbit_exchange.OrderTable.Edits.{Edits-refl}
use orbit_exchange.Settler.Work.{Work}
use orbit_exchange.Settler.Keeps.{Keeps, Keeps-refl, Keeps-trans}
use orbit_exchange.Settler.Events.{
  Draw, publish_trade, publish_trades, publish_submit_events, publish_cancel_events,
}

publish-Keeps :
    (topic : KafkaTopic) (key : ℕ) (p : Payload) (db : Db)
    → submit_of p ≡ []
    → Keeps db (publish topic key p db)
unfolding publish
publish-Keeps topic key p db event = record {
  edits = Edits-refl db.orders;
  same_markets = refl;
  same_submits = submits-publish_event topic key p db event;
  same_next = refl;
}

publish_trade-Keeps : (s : ℕ) (d : Draw) (t : Trade) (db : Db) → Keeps db (publish_trade s d t db)
unfolding publish_trade
publish_trade-Keeps s d t db =
    Keeps-trans (publish-Keeps _ _ _ db refl)
      (Keeps-trans (publish-Keeps _ _ _ _ refl) (publish-Keeps _ _ _ _ refl))

publish_trades-Keeps :
    (s : ℕ) (d : Draw) (ts : List Trade) (db : Db) → Keeps db (publish_trades s d ts db)
unfolding publish_trades
publish_trades-Keeps s d [] db = Keeps-refl db
publish_trades-Keeps s d (t ∷ ts) db =
    Keeps-trans (publish_trade-Keeps s d t db) (publish_trades-Keeps s d ts _)

module _ {B : Type 0} (E : Engine B) where
  pub publish_submit_events-Keeps :
      (o : Order) (ts : List Trade) (s : ℕ) (d : Draw) (w : Work B)
      → Keeps w.db (publish_submit_events E o ts s d w).1.db
  unfolding publish_submit_events
  publish_submit_events-Keeps o ts s d w =
      Keeps-trans (publish-Keeps _ _ _ w.db refl)
        (Keeps-trans (publish_trades-Keeps s d ts _) (publish-Keeps _ _ _ _ refl))

  pub publish_cancel_events-Keeps :
      (o : Order) (d : Draw) (w : Work B) → Keeps w.db (publish_cancel_events E o d w).1.db
  unfolding publish_cancel_events
  publish_cancel_events-Keeps o d w =
      Keeps-trans (publish-Keeps _ _ _ w.db refl)
        (Keeps-trans (publish-Keeps _ _ _ _ refl) (publish-Keeps _ _ _ _ refl))
