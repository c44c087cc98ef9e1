-- ===== src/Base/Outcome.antt =====
-- Exceptions: what the services throw, and what the database raises, as values.
use mathlib.Core.Path.{◌≡◌, refl}
use mathlib.Core.Bool.{Bool, true, false}
use mathlib.Core.Option.{Option, none, some}
use mathlib.Core.Logic.{◌⊎◌, inl, inr}

-- The first group is thrown by the services (4xx answers), the second by the database client:
-- a required row is missing, a CHECK fails, a unique column is taken. `engine_error` stands for
-- an exception of the matching engine.
pub data Error : Type 0 where
  user_not_found account_frozen market_not_found : Error
  step_violation price_required tick_violation below_min_notional : Error
  quantity_not_positive insufficient_balance order_not_found order_not_active : Error
  limit_missing_price wallet_not_found reason_required negative_result type_error : Error
  event_not_found already_processed already_resolved producer_not_ready : Error
  bad_delta bad_field email_taken invalid_credentials invalid_token : Error
  bad_symbol decimals_out_of_range asset_taken asset_not_found asset_in_use : Error
  unauthorized forbidden : Error
  record_not_found check_violation unique_violation engine_error : Error

pub data Result {ℓ} (T : Type ℓ) : Type ℓ where
  err : Error → Result T
  ok : T → Result T

-- `if (b) throw e`
abbrev pub throw_if : Bool → Error → Result (Unit {0})
throw_if true e = err e
throw_if false e = ok tt

-- `if (!o) throw e`
abbrev pub or_throw {ℓ} : {A : Type ℓ} → Option A → Error → Result A
or_throw none e = err e
or_throw (some a) e = ok a

-- What follows a result; an exception passes over it.
infixl 5 ◌>>=◌ ◌>>◌
abbrev pub ◌>>=◌ {ℓ κ} : {T : Type ℓ} {U : Type κ} → Result T → (T → Result U) → Result U
err x >>= next = err x
ok t >>= next = next t

abbrev pub ◌>>◌ {ℓ} : {U : Type ℓ} → Result (Unit {0}) → Result U → Result U
first >> next = first >>= (λ _. next)

-- A bind that succeeds succeeds in both its parts.
pub >>=-eq-ok {ℓ κ} :
    {T : Type ℓ} {U : Type κ} (first : Result T) (next : T → Result U) {u : U}
    → (first >>= next) ≡ ok u
    → (t : T) × (first ≡ ok t) × (next t ≡ ok u)
>>=-eq-ok (err x) next h = cc
>>=-eq-ok (ok t) next h = (t, refl, h)

pub Result-cases {ℓ} :
    {A : Type ℓ} (r : Result A) → ((a : A) × (r ≡ ok a)) ⊎ ((e : Error) × (r ≡ err e))
Result-cases (ok a) = inl (a, refl)
Result-cases (err e) = inr (e, refl)

pub throw_if-eq-ok : (b : Bool) (e : Error) → throw_if b e ≡ ok tt → b ≡ false
throw_if-eq-ok true e h = cc
throw_if-eq-ok false e h = refl

-- A guard that lets the rest run has passed, and the rest gives the result.
pub throw_if-then {ℓ} :
    {B : Type ℓ} (b : Bool) (e : Error) (k : Result B) {r : B}
    → (throw_if b e >> k) ≡ ok r
    → (b ≡ false) × (k ≡ ok r)
throw_if-then true e k h = cc
throw_if-then false e k h = (refl, h)

pub or_throw-then {ℓ κ} :
    {A : Type ℓ} {B : Type κ} (o : Option A) (e : Error) (f : A → Result B) {b : B}
    → (or_throw o e >>= f) ≡ ok b
    → (a : A) × (o ≡ some a) × (f a ≡ ok b)
or_throw-then none e f h = cc
or_throw-then (some a) e f h = (a, refl, h)

pub ok-injective {ℓ} : {A : Type ℓ} {a b : A} → ok a ≡ ok b → a ≡ b
ok-injective h = cc

pub err-injective {ℓ} : {T : Type ℓ} {d e : Error} → ◌≡◌ {A = Result T} (err d) (err e) → d ≡ e
err-injective h = cc

pub err≢ok {ℓ} : {A : Type ℓ} {e : Error} {a : A} → err e ≡ ok a → ⊥
err≢ok h = cc
