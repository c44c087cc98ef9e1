-- ===== src/Ledger.antt =====
-- What an operation on the database does to the money, seen from one user and one asset.
pub mod Closing
use orbit_exchange.Base.{ℕ, ◌+◌, ◌≡◌, refl, ◌∙◌, arith}
use orbit_exchange.Schema.{Db}
use orbit_exchange.Wallets.Supply.{supply}
use orbit_exchange.Wallets.Locked.{locked}
use orbit_exchange.OrderTable.Reserved.{reserved}

-- What the user `v` has locked of the asset `x`, and what the active orders of that user reserve
-- of it, change by the same amount; and of the supply of `x` exactly `fee` is gone.
pub record Moves (v x fee : ℕ) (db db' : Db) : Type 0 where
  pub gap :
      locked v x db'.wallets + reserved db.markets v x db.orders
      ≡ locked v x db.wallets + reserved db'.markets v x db'.orders
  pub supplied : supply x db'.wallets + fee ≡ supply x db.wallets
  pub same_markets : db'.markets ≡ db.markets

pub Moves-trans :
    {v x f g : ℕ} {a b c : Db} → Moves v x f a b → Moves v x g b c → Moves v x (f + g) a c
Moves-trans m n = record {
  gap = omega (arith, m.gap, n.gap);
  supplied = omega (arith, m.supplied, n.supplied);
  same_markets = n.same_markets ∙ m.same_markets;
}

-- Every locked amount is the sum of what the user's active orders reserve.
abbrev pub IsBacked : Db → Type 0
IsBacked db = (v x : ℕ) → locked v x db.wallets ≡ reserved db.markets v x db.orders

pub Moves-IsBacked :
    {db db' : Db} (fee : ℕ → ℕ)
    → ((v x : ℕ) → Moves v x (fee x) db db')
    → IsBacked db
    → IsBacked db'
Moves-IsBacked fee m backed v x = omega (arith, (m v x).gap, backed v x)

pub Moves-refl : (v x : ℕ) {db : Db} → Moves v x 0 db db
Moves-refl v x = record { gap = refl; supplied = omega arith; same_markets = refl }
