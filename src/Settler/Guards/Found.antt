-- ===== src/Settler/Guards/Found.antt =====
-- What a SUBMIT command that is not passed over has found.
use orbit_exchange.Base.{
  ◌≡◌, ◌∙◌, ap, false, some, Option-cases, Bool-cases, eq_of_some, inl, inr, arith,
}
use mathlib.Core.Path.{subst}
use orbit_exchange.Shared.{OrderSubmitCommand}
use orbit_exchange.Schema.{Market, Order, Db}
use orbit_exchange.OrderTable.{find, find-id, find_market, is_terminal}
use orbit_exchange.Settler.Guards.{to_settle, is_other_command}

pub record Found (cmd : OrderSubmitCommand) (db : Db) (m : Market) (o : Order) : Type 0 where
  pub on_market : find_market cmd.symbol db.markets ≡ some m
  pub found : find o.id db.orders ≡ some o
  pub same_id : o.id ≡ cmd.order_id
  pub live : is_terminal o.status ≡ false

pub to_settle-Found :
    (cmd : OrderSubmitCommand) (db : Db) (m : Market) (o : Order)
    → to_settle cmd db ≡ some (m, o)
    → Found cmd db m o
unfolding to_settle
to_settle-Found cmd db m o h = elim (Option-cases (find_market cmd.symbol db.markets)) [
  | inl e ↦ ground (arith, rw e at h)
  | inr (n, e) ↦ elim (Option-cases (find cmd.order_id db.orders)) [
    | inl f ↦ ground (arith, rw (e, f) at h)
    | inr (p, f) ↦ elim (Bool-cases (is_other_command p.command_id cmd.command_id)) [
      | inl other ↦ ground (arith, rw (e, f, other) at h)
      | inr mine ↦ elim (Bool-cases (is_terminal p.status)) [
        | inl ended ↦ ground (arith, rw (e, f, mine, ended) at h)
        | inr live ↦
            let both : (n, p) ≡ (m, o) = eq_of_some (rw (e, f, mine, live) at h) in
            let id_is = find-id cmd.order_id db.orders p f in
            subst (λ (r : Market × Order). Found cmd db r.0 r.1) both
              (record {
                on_market = e;
                found = ap (λ i. find i db.orders) id_is ∙ f;
                same_id = id_is;
                live = live;
              })
      ]
    ]
  ]
]
