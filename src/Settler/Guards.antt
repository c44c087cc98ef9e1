-- ===== src/Settler/Guards.antt =====
-- What `settleSubmit` reads before its transaction, and its early returns.
pub mod Found
use orbit_exchange.Base.{Bool, true, false, not, Option, none, some, ◌==◌}
use orbit_exchange.Shared.{CommandId, OrderSubmitCommand}
use orbit_exchange.Schema.{Market, Order, Db}
use orbit_exchange.OrderTable.{find, find_market, is_terminal}

infixl 5 ◌>>=◌ ◌>>◌
abbrev ◌>>=◌ : {A B : Type 0} → Option A → (A → Option B) → Option B
none >>= f = none
some a >>= f = f a

abbrev ◌>>◌ : {A B : Type 0} → Option A → Option B → Option B
m >> k = m >>= λ _. k

abbrev skip_if : Bool → Option (Unit {0})
skip_if true = none
skip_if false = some tt

-- `order.commandId && order.commandId !== cmd.commandId`
abbrev is_other_command : Option CommandId → CommandId → Bool
is_other_command none c = false
is_other_command (some d) c = not (d == c)

-- The market and the row to settle; `none` is `return null`.
unfoldable pub to_settle : OrderSubmitCommand → Db → Option (Market × Order)
to_settle cmd db = do
  m ← find_market cmd.symbol db.markets
  o ← find cmd.order_id db.orders
  skip_if (is_other_command o.command_id cmd.command_id)
  skip_if (is_terminal o.status)
  some (m, o)
