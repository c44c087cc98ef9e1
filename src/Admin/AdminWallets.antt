-- ===== src/Admin/AdminWallets.antt =====
-- `AdminWalletsService.adjust`: a signed change of one field of one wallet. The audit row that
-- follows it is not modelled.
use orbit_exchange.Base.{
  ℕ, ◌+◌, ◌≡◌, Bool, false, not, List, [], ◌∷◌, Option, some, if◌then◌else◌, ◌==◌, on, inl, inr,
  arith,
}
use orbit_exchange.Base.Int.{ℤ, pos, negsuc, pos_part, neg_part, ◌+ℤ◌}
use orbit_exchange.Base.Outcome.{
  Result, ok, err, ◌>>=◌, ◌>>◌, throw_if, throw_if-then, or_throw, or_throw-then, Result-cases,
  reason_required, bad_delta, bad_field, wallet_not_found, negative_result,
}
use orbit_exchange.Shared.{UserId, AssetId}
use orbit_exchange.Schema.{Wallet}
use orbit_exchange.Wallets.{owns}
use orbit_exchange.Wallets.Supply.{supply}
use orbit_exchange.Wallets.Locked.{locked, same}

pub data Field : Type 0 where
  balance locked_funds : Field

-- The request: `reason` says whether it is more than blanks; a delta that is no decimal and a field
-- of another name are absent.
pub record AdjustInput : Type 0 where
  pub field : Option Field
  pub delta : Option ℤ
  pub reason : Bool

abbrev field_of : Field → Wallet → ℕ
field_of balance w = w.balance
field_of locked_funds w = w.locked

abbrev with_field : Field → ℕ → Wallet → Wallet
with_field balance n w = record w { balance = n }
with_field locked_funds n w = record w { locked = n }

abbrev store : Field → ℤ → Wallet → Result Wallet
store f (pos n) w = ok (with_field f n w)
store f (negsuc n) w = err negative_result

abbrev adjust_row : Field → ℤ → Wallet → Result Wallet
adjust_row f delta w = store f (pos (field_of f w) +ℤ delta) w

-- The transaction: the wallet is read, and written with the sum.
unfoldable pub adjust_wallet : UserId → AssetId → Field → ℤ → List Wallet → Result (List Wallet)
adjust_wallet u a f delta [] = err wallet_not_found
adjust_wallet u a f delta (w ∷ ws) =
    let rest = adjust_wallet u a f delta ws in
    if owns u a w
    then (do w' ← adjust_row f delta w; ok (w' ∷ ws))
    else (do ws' ← rest; ok (w ∷ ws'))

unfoldable pub adjust : UserId → AssetId → AdjustInput → List Wallet → Result (List Wallet)
unfolding adjust_wallet
adjust u a input ws = do
  throw_if (not input.reason) reason_required
  delta ← or_throw input.delta bad_delta
  f ← or_throw input.field bad_field
  adjust_wallet u a f delta ws

-- What the field has to do with the locked amounts.
abbrev pub locked_part : Field → ℕ → ℕ
locked_part balance n = 0
locked_part locked_funds n = n

supply-adjust_wallet :
    (x u a : ℕ) (f : Field) (d : ℤ) (ws ws' : List Wallet)
    → adjust_wallet u a f d ws ≡ ok ws'
    → supply x ws' + on (a == x) (neg_part d) ≡ supply x ws + on (a == x) (pos_part d)
unfolding adjust_wallet
supply-adjust_wallet x u a f d [] ws' h = ground arith
supply-adjust_wallet x u a balance d (w ∷ ws) ws' h =
    elim (Result-cases (adjust_wallet u a balance d ws)) [
      | inl (rest, e) ↦ ground (arith, e, supply-adjust_wallet x u a balance d ws rest e)
      | inr (_, e) ↦ ground (arith, e)
    ]
supply-adjust_wallet x u a locked_funds d (w ∷ ws) ws' h =
    elim (Result-cases (adjust_wallet u a locked_funds d ws)) [
      | inl (rest, e) ↦ ground (arith, e, supply-adjust_wallet x u a locked_funds d ws rest e)
      | inr (_, e) ↦ ground (arith, e)
    ]

locked-adjust_wallet :
    (v x u a : ℕ) (f : Field) (d : ℤ) (ws ws' : List Wallet)
    → adjust_wallet u a f d ws ≡ ok ws'
    → locked v x ws' + same u a v x (locked_part f (neg_part d))
      ≡ locked v x ws + same u a v x (locked_part f (pos_part d))
unfolding adjust_wallet
locked-adjust_wallet v x u a f d [] ws' h = ground arith
locked-adjust_wallet v x u a balance d (w ∷ ws) ws' h =
    elim (Result-cases (adjust_wallet u a balance d ws)) [
      | inl (rest, e) ↦ ground (arith, e, locked-adjust_wallet v x u a balance d ws rest e)
      | inr (_, e) ↦ ground (arith, e)
    ]
locked-adjust_wallet v x u a locked_funds d (w ∷ ws) ws' h =
    elim (Result-cases (adjust_wallet u a locked_funds d ws)) [
      | inl (rest, e) ↦ ground (arith, e, locked-adjust_wallet v x u a locked_funds d ws rest e)
      | inr (_, e) ↦ ground (arith, e)
    ]

-- An adjustment that returns has a reason, and changes the supply of its asset by the signed delta
-- and, for the field `locked`, the user's locked amount by the same; no other user and no other
-- asset has a locked amount changed, and no other asset its supply.
pub adjust-moves :
    (v x u a : ℕ) (input : AdjustInput) (ws ws' : List Wallet)
    → adjust u a input ws ≡ ok ws'
    → (f : Field) × (d : ℤ) × (input.field ≡ some f)
      × (input.delta ≡ some d)
      × (not input.reason ≡ false)
      × (supply x ws' + on (a == x) (neg_part d) ≡ supply x ws + on (a == x) (pos_part d))
      × (locked v x ws' + same u a v x (locked_part f (neg_part d))
          ≡ locked v x ws + same u a v x (locked_part f (pos_part d)))
unfolding adjust
adjust-moves v x u a input ws ws' h =
    let (reason, h₁) = throw_if-then _ _ _ h in
    let (d, delta, h₂) = or_throw-then _ _ _ h₁ in
    let (f, field, h₃) = or_throw-then _ _ _ h₂ in
    (
      f,
      d,
      field,
      delta,
      reason,
      supply-adjust_wallet x u a f d ws ws' h₃,
      locked-adjust_wallet v x u a f d ws ws' h₃,
    )
