-- ===== src/Schema/Submits.antt =====
-- The SUBMIT commands that the outbox has ever held.
use orbit_exchange.Base.{ℕ, ◌≡◌, refl, sym, ◌∙◌, ap, List, [], ◌∷◌, ◌++◌, append_assoc, append-nil}
use orbit_exchange.Shared.{
  KafkaTopic, Payload, command, submit, cancel, OrderSubmitCommand, order_event, trade_event,
  user_event, orderbook_event,
}
use orbit_exchange.Schema.{OutboxEvent, Db, publish}

abbrev pub submit_of : Payload → List OrderSubmitCommand
submit_of (command (submit c)) = c ∷ []
submit_of (command (cancel c)) = []
submit_of (order_event e) = []
submit_of (trade_event e) = []
submit_of (user_event e) = []
submit_of (orderbook_event e) = []

abbrev pub submits : List OutboxEvent → List OrderSubmitCommand
submits [] = []
submits (ev ∷ evs) = submit_of ev.payload ++ submits evs

submits-append : (evs fs : List OutboxEvent) → submits (evs ++ fs) ≡ submits evs ++ submits fs
submits-append [] fs = refl
submits-append (ev ∷ evs) fs =
    ap (λ cs. submit_of ev.payload ++ cs) (submits-append evs fs)
    ∙ sym (append_assoc (submit_of ev.payload) (submits evs) (submits fs))

pub submits-publish :
    (topic : KafkaTopic) (key : ℕ) (p : Payload) (db : Db)
    → submits (publish topic key p db).outbox ≡ submits db.outbox ++ submit_of p
unfolding publish
submits-publish topic key p db =
    submits-append db.outbox _ ∙ ap (λ cs. submits db.outbox ++ cs) (append-nil (submit_of p))

-- An event that is no command.
pub submits-publish_event :
    (topic : KafkaTopic) (key : ℕ) (p : Payload) (db : Db)
    → submit_of p ≡ []
    → submits (publish topic key p db).outbox ≡ submits db.outbox
submits-publish_event topic key p db none =
    submits-publish topic key p db
    ∙ ap (λ cs. submits db.outbox ++ cs) none
    ∙ append-nil (submits db.outbox)
