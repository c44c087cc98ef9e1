-- ===== src/Wallets/Locked.antt =====
-- How much of an asset a user has locked, under each statement on the table.
use orbit_exchange.Base.{ℕ, ◌+◌, ◌≡◌, ◌&&◌, List, [], ◌∷◌, inl, inr, arith, ◌==◌, on, sum_by}
use orbit_exchange.Base.Outcome.{ok, Result-cases}
use orbit_exchange.Shared.{UserId, AssetId}
use orbit_exchange.Schema.{Wallet}
use orbit_exchange.Wallets.{Change, owns, update, credit, atomic_lock}

abbrev pub locks : UserId → AssetId → Wallet → ℕ
locks v x w = on (owns v x w) w.locked

abbrev pub locked : UserId → AssetId → List Wallet → ℕ
locked v x = sum_by (locks v x)

-- The pair (u, a) is the pair (v, x).
abbrev pub same : UserId → AssetId → UserId → AssetId → ℕ → ℕ
same u a v x n = on (u == v && a == x) n

pub locked-update :
    (v x u a : ℕ) (b l : Change) (ws ws' : List Wallet)
    → update u a b l ws ≡ ok ws'
    → locked v x ws' + same u a v x l.dec ≡ locked v x ws + same u a v x l.inc
unfolding update
locked-update v x u a b l [] ws' h = cc
locked-update v x u a b l (w ∷ ws) ws' h = elim (Result-cases (update u a b l ws)) [
  | inl (rest, e) ↦ ground (arith, e, locked-update v x u a b l ws rest e)
  | inr (_, e) ↦ ground (arith, e)
]

pub locked-credit :
    (v x u a : ℕ) (b : Change) (ws ws' : List Wallet)
    → credit u a b ws ≡ ok ws'
    → locked v x ws' ≡ locked v x ws
unfolding credit
locked-credit v x u a b [] ws' h = ground arith
locked-credit v x u a b (w ∷ ws) ws' h = elim (Result-cases (credit u a b ws)) [
  | inl (rest, e) ↦ ground (arith, e, locked-credit v x u a b ws rest e)
  | inr (_, e) ↦ ground (arith, e)
]

pub locked-atomic_lock :
    (v x u a n : ℕ) (ws ws' : List Wallet)
    → atomic_lock u a n ws ≡ ok ws'
    → locked v x ws' ≡ locked v x ws + same u a v x n
unfolding atomic_lock
locked-atomic_lock v x u a n [] ws' h = cc
locked-atomic_lock v x u a n (w ∷ ws) ws' h = elim (Result-cases (atomic_lock u a n ws)) [
  | inl (rest, e) ↦ ground (arith, e, locked-atomic_lock v x u a n ws rest e)
  | inr (_, e) ↦ ground (arith, e)
]
