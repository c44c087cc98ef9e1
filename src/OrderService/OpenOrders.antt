-- ===== src/OrderService/OpenOrders.antt =====
-- `OrderService.listOpen` and `.listHistory`: what a user sees of the orders.
use orbit_exchange.Base.{Bool, true, ◌&&◌, List, Option, none, some, ◌==◌, keep_if, take}
use orbit_exchange.Shared.{UserId, MarketSymbol}
use orbit_exchange.Schema.{Order}
use orbit_exchange.OrderTable.{is_active}
use orbit_exchange.Paging.{reverse}

-- `...(market ? { market } : {})`
abbrev on_market : Option MarketSymbol → Order → Bool
on_market none o = true
on_market (some m) o = o.symbol == m

abbrev pub is_open_of : UserId → Option MarketSymbol → Order → Bool
is_open_of u market o = o.user_id == u && is_active o.status && on_market market o

unfoldable pub list_open : UserId → Option MarketSymbol → List Order → List Order
list_open u market orders = reverse (keep_if (is_open_of u market) orders)

abbrev is_of : UserId → Option MarketSymbol → Order → Bool
is_of u market o = o.user_id == u && on_market market o

pub list_history : UserId → Option MarketSymbol → List Order → List Order
list_history u market orders = take 100 (reverse (keep_if (is_of u market) orders))
