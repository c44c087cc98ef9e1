-- ===== src/Wallets/Supply.antt =====
-- How much of an asset the wallets hold in all, under each statement on the table.
use orbit_exchange.Base.{ℕ, ◌+◌, ◌≡◌, List, [], ◌∷◌, inl, inr, arith, ◌==◌, on, sum_by}
use orbit_exchange.Base.Outcome.{ok, Result-cases}
use orbit_exchange.Shared.{AssetId}
use orbit_exchange.Schema.{Wallet}
use orbit_exchange.Wallets.{Change, update, credit, atomic_lock}

abbrev pub held : AssetId → Wallet → ℕ
held x w = on (w.asset == x) (w.balance + w.locked)

-- Balances and locked amounts of an asset, over all users.
abbrev pub supply : AssetId → List Wallet → ℕ
supply x = sum_by (held x)

pub supply-update :
    (x u a : ℕ) (b l : Change) (ws ws' : List Wallet)
    → update u a b l ws ≡ ok ws'
    → supply x ws' + on (a == x) (b.dec + l.dec) ≡ supply x ws + on (a == x) (b.inc + l.inc)
unfolding update
supply-update x u a b l [] ws' h = cc
supply-update x u a b l (w ∷ ws) ws' h = elim (Result-cases (update u a b l ws)) [
  | inl (rest, e) ↦ ground (arith, e, supply-update x u a b l ws rest e)
  | inr (_, e) ↦ ground (arith, e)
]

pub supply-credit :
    (x u a : ℕ) (b : Change) (ws ws' : List Wallet)
    → credit u a b ws ≡ ok ws'
    → supply x ws' + on (a == x) b.dec ≡ supply x ws + on (a == x) b.inc
unfolding credit
supply-credit x u a b [] ws' h = ground arith
supply-credit x u a b (w ∷ ws) ws' h = elim (Result-cases (credit u a b ws)) [
  | inl (rest, e) ↦ ground (arith, e, supply-credit x u a b ws rest e)
  | inr (_, e) ↦ ground (arith, e)
]

-- A reservation moves funds within a wallet.
pub supply-atomic_lock :
    (x u a n : ℕ) (ws ws' : List Wallet)
    → atomic_lock u a n ws ≡ ok ws'
    → supply x ws' ≡ supply x ws
unfolding atomic_lock
supply-atomic_lock x u a n [] ws' h = cc
supply-atomic_lock x u a n (w ∷ ws) ws' h = elim (Result-cases (atomic_lock u a n ws)) [
  | inl (rest, e) ↦ ground (arith, e, supply-atomic_lock x u a n ws rest e)
  | inr (_, e) ↦ ground (arith, e)
]
