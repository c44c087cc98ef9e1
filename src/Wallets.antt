-- ===== src/Wallets.antt =====
-- The Wallet table: the statements that apps/api and apps/matcher send to it, with the CHECK
-- constraints `balance >= 0` and `locked >= 0` of the wallet_non_negative migration.
pub mod Supply
pub mod Locked
use orbit_exchange.Base.{
  ℕ, ◌+◌, ◌-◌, ◌≡◌, inl, inr, arith, Bool, true, false, ◌&&◌, List, [], ◌∷◌, leb, ◌==◌,
  if◌then◌else◌,
}
use orbit_exchange.Base.Outcome.{
  Result, ok, err, Result-cases, ◌>>=◌, record_not_found, check_violation, insufficient_balance,
}
use orbit_exchange.Shared.{UserId, AssetId}
use orbit_exchange.Schema.{Wallet, Db}

-- `{ increment: inc - dec }`
pub record Change : Type 0 where
  pub inc : ℕ
  pub dec : ℕ

abbrev pub keep : Change
keep = record { inc = 0; dec = 0 }

abbrev pub increment : ℕ → Change
increment n = record { inc = n; dec = 0 }

abbrev pub decrement : ℕ → Change
decrement n = record { inc = 0; dec = n }

-- The new value of a column under its CHECK.
abbrev pub changed : ℕ → Change → Result ℕ
changed v c = if leb c.dec (v + c.inc) then ok (v + c.inc - c.dec) else err check_violation

abbrev pub owns : UserId → AssetId → Wallet → Bool
owns u a w = w.user_id == u && w.asset == a

abbrev change_row : Change → Change → Wallet → Result Wallet
change_row balance locked w = do
  b ← changed w.balance balance
  l ← changed w.locked locked
  ok (record w { balance = b; locked = l })

-- `wallet.update`: a missing row is an error.
unfoldable pub update : UserId → AssetId → Change → Change → List Wallet → Result (List Wallet)
update u a balance locked [] = err record_not_found
update u a balance locked (w ∷ ws) =
    let rest = update u a balance locked ws in
    if owns u a w
    then (do w' ← change_row balance locked w; ok (w' ∷ ws))
    else (do ws' ← rest; ok (w ∷ ws'))

-- `creditWallet`: an upsert of a balance; a new row has nothing locked.
unfoldable pub credit : UserId → AssetId → Change → List Wallet → Result (List Wallet)
credit u a amount [] = do
  b ← changed 0 amount
  ok (record { user_id = u; asset = a; balance = b; locked = 0 } ∷ [])
credit u a amount (w ∷ ws) =
    let rest = credit u a amount ws in
    if owns u a w
    then (do w' ← change_row amount keep w; ok (w' ∷ ws))
    else (do ws' ← rest; ok (w ∷ ws'))

-- `atomicLock`: the UPDATE with its WHERE clause, and the test of the row count.
unfoldable pub atomic_lock : UserId → AssetId → ℕ → List Wallet → Result (List Wallet)
atomic_lock u a amount [] = err insufficient_balance
atomic_lock u a amount (w ∷ ws) =
    let rest = atomic_lock u a amount ws in
    if owns u a w && leb amount w.balance
    then ok (record w { balance = w.balance - amount; locked = w.locked + amount } ∷ ws)
    else (do ws' ← rest; ok (w ∷ ws'))

abbrev with_wallets : Db → Result (List Wallet) → Result Db
with_wallets db (ok ws) = ok (record db { wallets = ws })
with_wallets db (err e) = err e

-- `tx.wallet.update`
abbrev pub update_wallet : UserId → AssetId → Change → Change → Db → Result Db
update_wallet u a balance locked db = with_wallets db (update u a balance locked db.wallets)

pub update_wallet-ok :
    (u a : ℕ) (b l : Change) (db db' : Db)
    → update_wallet u a b l db ≡ ok db'
    → (ws : List Wallet) × (update u a b l db.wallets ≡ ok ws) × (record db { wallets = ws } ≡ db')
update_wallet-ok u a b l db db' h = elim (Result-cases (update u a b l db.wallets)) [
  | inl (ws, e) ↦ (ws, e, ground (arith, e))
  | inr (_, e) ↦ ground (arith, e)
]
