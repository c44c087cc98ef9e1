-- ===== src/System/Runs.antt =====
-- Runs of the services, of which the book and the table are in step at each settlement.
use orbit_exchange.Base.{
  ℕ, ◌≡◌, ◌≤◌, ◌+◌, sym, ◌∙◌, ap, List, ◌++◌, sum_by-append, arith, eq_of_some,
}
use orbit_exchange.Base.Int.{ℤ, pos_part, neg_part}
use mathlib.Core.Path.{subst}
use orbit_exchange.Schema.{Wallet, Db, publish}
use orbit_exchange.Engine.{Engine}
use orbit_exchange.MatchingEngine.{State, on_module_init}
use orbit_exchange.Wallets.Locked.{locked, locks, same}
use orbit_exchange.Wallets.Supply.{supply}
use orbit_exchange.OrderTable.Reserved.{reserved}
use orbit_exchange.OrderService.Reservation.{submit_order-Moves}
use orbit_exchange.OrderService.Commands.{cancel_order-ok}
use orbit_exchange.OutboxRelay.Payloads.{submits-drain_once}
use orbit_exchange.Admin.AdminOutbox.{retry-submits, skip-submits}
use orbit_exchange.Admin.AdminOrders.{force_cancel-found, force_cancel-cancel_order}
use orbit_exchange.Admin.AdminUsers.{set_frozen-users}
use orbit_exchange.Admin.AdminMarkets.{update_market-ok}
use orbit_exchange.Admin.AdminWallets.{Field, balance, locked_part, adjust-moves}
use orbit_exchange.Auth.{Crypto, new_wallets, signup-wallets}
use orbit_exchange.System.Consistent.{IsConsistent}
use orbit_exchange.System.Steps.{
  IsSoundStep, IsSoundFunding, IsSoundTrading, IsSoundRun, Step, place, withdraw, settle, close,
  restart, relay, force, rearm, pass, freeze, reterm, Funding, register, fund, Trading, idle,
  onward, Reach, here, step, funding,
}
use orbit_exchange.System.Preserved.{
  submit_order-IsConsistent, cancel_order-IsConsistent, force_cancel-IsConsistent,
  marks-IsConsistent, set_frozen-IsConsistent, update_market-IsConsistent,
}
use orbit_exchange.System.Settled.{
  settled-Moves, closed-Moves, settled-IsConsistent, closed-IsConsistent,
}

locked-new_wallets :
    (v x unit id : ℕ) (ws : List Wallet) → locked v x (ws ++ new_wallets unit id) ≡ locked v x ws
locked-new_wallets v x unit id ws =
    sum_by-append (locks v x) ws (new_wallets unit id) ∙ ground arith

balance-IsBacked :
    (v x u a : ℕ) (f : Field) (d : ℤ) (ws : List Wallet) (db : Db)
    → f ≡ balance
    → locked v x ws + same u a v x (locked_part f (neg_part d))
      ≡ locked v x db.wallets + same u a v x (locked_part f (pos_part d))
    → locked v x db.wallets ≡ reserved db.markets v x db.orders
    → locked v x ws ≡ reserved db.markets v x db.orders
balance-IsBacked v x u a f d ws db is moved backed =
    let gone = ap (λ g. locked_part g (neg_part d)) is in
    let come = ap (λ g. locked_part g (pos_part d)) is in ground (arith, moved, gone, come, backed)

module _ {B : Type 0} (E : Engine B) where
  Step-IsConsistent :
      {s t : State B} (h : Step E s t) → IsSoundStep E h → IsConsistent s.db → IsConsistent t.db
  unfolding on_module_init
  Step-IsConsistent {s} (place u dto c now o db h) sound i =
      submit_order-IsConsistent u dto c now s.db db o h i
  Step-IsConsistent {s} (withdraw u id c now o db h) sound i =
      cancel_order-IsConsistent u id c now s.db db o h i
  Step-IsConsistent {s} (settle c d there) matchable i =
      settled-IsConsistent E c d s i there matchable
  Step-IsConsistent {s} (close c d) sound i = closed-IsConsistent E c d s i
  Step-IsConsistent {s} restart sound i = i
  Step-IsConsistent {s} (relay now how n kafka) sound i =
      marks-IsConsistent s.db _ (submits-drain_once now how n _) i
  Step-IsConsistent {s} (force id c now o db h) sound i =
      force_cancel-IsConsistent id c now s.db db o h i
  Step-IsConsistent {s} (rearm id evs h) sound i =
      marks-IsConsistent s.db evs (retry-submits id s.db.outbox evs h) i
  Step-IsConsistent {s} (pass now text id evs h) sound i =
      marks-IsConsistent s.db evs (skip-submits now text id s.db.outbox evs h) i
  Step-IsConsistent {s} (freeze id frozen db h) sound i =
      set_frozen-IsConsistent id frozen s.db db h i
  Step-IsConsistent {s} (reterm symbol input m db h) sound i =
      update_market-IsConsistent symbol input s.db db m h i

  -- New wallets have nothing locked, and an adjusted balance locks nothing.
  Funding-IsConsistent :
      {T : Type 0} (C : Crypto T) {s t : State B} (h : Funding E C s t)
      → IsSoundFunding E C h
      → IsConsistent s.db
      → IsConsistent t.db
  Funding-IsConsistent C {s} (register unit id email password t db h) sound i =
      subst IsConsistent (signup-wallets C unit id email password s.db db t h) (record {
        backed = λ v x. locked-new_wallets v x unit id s.db.wallets ∙ i.backed v x;
        placed = i.placed;
        sent = i.sent;
      })
  Funding-IsConsistent C {s} (fund u a input ws h) field i = record {
    backed = λ v x.
        let (f, d, is, _, _, _, moved) = adjust-moves v x u a input s.db.wallets ws h in
        balance-IsBacked v x u a f d ws s.db (eq_of_some (sym is ∙ field)) moved (i.backed v x);
    placed = i.placed;
    sent = i.sent;
  }

  -- Runs of the users, the operators, the relay and the matcher, in any order, with commands that are
  -- delivered any number of times, with rollbacks, restarts and sign-ups. The condition on a run is
  -- that, whenever it settles a SUBMIT command that is not passed over, the book in memory is in step
  -- with the table (the trades that the book returns name active rows on the other side of that
  -- market, none of them the order's own, with enough left, and their quantities and what is left add
  -- up) and the row of a market order is one that nothing has filled yet; and that operators adjust no locked amount. The services do not keep the
  -- book in step by themselves: a settlement that is rolled back can break it. Over a run with that
  -- condition a consistent database stays consistent: every locked amount is the sum of what the
  -- user's active orders reserve, every row has an id that was drawn, is not REJECTED and has what is
  -- filled and what is left make up its quantity, and every SUBMIT command finds its row.
  pub Reach-IsConsistent :
      {T : Type 0} (C : Crypto T) {s t : State B} (r : Reach E C s t)
      → IsSoundRun E C r
      → IsConsistent s.db
      → IsConsistent t.db
  Reach-IsConsistent C here sound i = i
  Reach-IsConsistent C (step r h) (before, sound) i =
      Step-IsConsistent h sound (Reach-IsConsistent C r before i)
  Reach-IsConsistent C (funding r h) (before, sound) i =
      Funding-IsConsistent C h sound (Reach-IsConsistent C r before i)

  Trading-IsConsistent :
      {s t : State B} (r : Trading E s t)
      → IsSoundTrading E r
      → IsConsistent s.db
      → IsConsistent t.db
  Trading-IsConsistent idle sound i = i
  Trading-IsConsistent (onward r h) (before, sound) i =
      Step-IsConsistent h sound (Trading-IsConsistent r before i)

  Step-supply :
      (x : ℕ) {s t : State B} (h : Step E s t)
      → IsSoundStep E h
      → IsConsistent s.db
      → supply x t.db.wallets ≤ supply x s.db.wallets
  unfolding on_module_init publish
  Step-supply x {s} (place u dto c now o db h) sound i =
      omega (arith, (submit_order-Moves 0 x u dto c now s.db db o h).supplied)
  Step-supply x {s} (withdraw u id c now o db h) sound i =
      let (_, _, _, is) = cancel_order-ok u id c now s.db db o h in
      omega (arith, ap (λ (y : Db). supply x y.wallets) is)
  Step-supply x {s} (settle c d there) matchable i =
      omega (arith, (settled-Moves E 0 x c d s i there matchable).supplied)
  Step-supply x {s} (close c d) sound i = omega (arith, (closed-Moves E 0 x c d s i).supplied)
  Step-supply x {s} restart sound i = omega arith
  Step-supply x {s} (relay now how n kafka) sound i = omega arith
  Step-supply x {s} (force id c now o db h) sound i =
      let (p, found, _) = force_cancel-found id c now s.db db o h in
      let (_, _, _, is) =
        cancel_order-ok p.user_id id c now s.db db o
          (sym (force_cancel-cancel_order id c now s.db p found) ∙ h) in
      omega (arith, ap (λ (y : Db). supply x y.wallets) is)
  Step-supply x {s} (rearm id evs h) sound i = omega arith
  Step-supply x {s} (pass now text id evs h) sound i = omega arith
  Step-supply x {s} (freeze id frozen db h) sound i =
      omega (arith, ap (λ (y : Db). supply x y.wallets) (set_frozen-users id frozen s.db db h))
  Step-supply x {s} (reterm symbol input m db h) sound i =
      omega (arith, ap (λ (y : Db). supply x y.wallets) (update_market-ok symbol input s.db db m h))

  -- Over a run of the users, the operators, the relay and the matcher, without sign-ups and
  -- adjustments, from a consistent database, the supply of no asset grows. The condition is that,
  -- whenever a SUBMIT command is settled and not passed over, the book in memory is in step with the
  -- table (the trades that the book returns name active rows on the other side of that market, none
  -- of them the order's own, with enough left, and their quantities and what is left add up) and the
  -- row of a market order is one that nothing has
  -- filled yet; a settlement that is rolled back can break it.
  pub Trading-supply :
      (x : ℕ) {s t : State B} (r : Trading E s t)
      → IsSoundTrading E r
      → IsConsistent s.db
      → supply x t.db.wallets ≤ supply x s.db.wallets
  Trading-supply x idle sound i = omega arith
  Trading-supply x (onward r h) (before, sound) i =
      omega (
        arith,
        Trading-supply x r before i,
        Step-supply x h sound (Trading-IsConsistent r before i),
      )
