-- ===== src/Admin/AdminAssets.antt =====
-- `AdminAssetsService`: the assets that markets and wallets name.
use orbit_exchange.Base.{
  ℕ, ◌≡◌, refl, Bool, true, false, not, ◌&&◌, ◌||◌, List, [], ◌∷◌, ◌++◌, Option, none, some, ◌==◌,
  leb, ltb, if◌then◌else◌, length, keep_if, find_if, Every, Bool-cases, inl, inr, arith,
}
use orbit_exchange.Base.Outcome.{
  Result, ok, ◌>>=◌, ◌>>◌, throw_if, throw_if-then, or_throw, ok-injective, bad_symbol,
  decimals_out_of_range, asset_taken, asset_not_found, asset_in_use, record_not_found,
}
use mathlib.Core.Path.{subst}
use orbit_exchange.Base.Int.{ℤ, pos, negsuc}
use orbit_exchange.Shared.{AssetId}
use orbit_exchange.Schema.{Market, Wallet, Db}

-- A row of the Asset table, and the input of `create`.
pub record Asset : Type 0 where
  pub symbol : AssetId
  pub name : ℕ
  pub decimals : ℤ

abbrev is_capital : ℕ → Bool
is_capital c = leb 65 c && leb c 90

abbrev is_digit : ℕ → Bool
is_digit c = leb 48 c && leb c 57

abbrev all_symbol_characters : List ℕ → Bool
all_symbol_characters [] = true
all_symbol_characters (c ∷ cs) = (is_capital c || is_digit c) && all_symbol_characters cs

-- `/^[A-Z0-9]{2,12}$/`
abbrev pub is_symbol : List ℕ → Bool
is_symbol cs = all_symbol_characters cs && leb 2 (length cs) && leb (length cs) 12

-- `decimals < 0 || decimals > 18`
abbrev pub out_of_range : ℤ → Bool
out_of_range (pos n) = ltb 18 n
out_of_range (negsuc n) = true

abbrev pub find_asset : AssetId → List Asset → Option Asset
find_asset symbol = find_if (λ a. a.symbol == symbol)

abbrev is_found {ℓ} : {A : Type ℓ} → Option A → Bool
is_found none = false
is_found (some a) = true

-- `spelling` gives the characters of a symbol.
unfoldable pub create : (AssetId → List ℕ) → Asset → List Asset → Result (List Asset)
create spelling input assets = do
  throw_if (not (is_symbol (spelling input.symbol))) bad_symbol
  throw_if (out_of_range input.decimals) decimals_out_of_range
  throw_if (is_found (find_asset input.symbol assets)) asset_taken
  ok (assets ++ input ∷ [])

abbrev or_keep {ℓ} : {A : Type ℓ} → Option A → A → A
or_keep none a = a
or_keep (some b) a = b

abbrev with_input : Option ℕ → Option ℤ → Asset → Asset
with_input name decimals a = record a {
  name = or_keep name a.name;
  decimals = or_keep decimals a.decimals;
}

abbrev update_assets : (Asset → Asset) → AssetId → List Asset → List Asset
update_assets f symbol [] = []
update_assets f symbol (a ∷ rest) =
    (if a.symbol == symbol then f a else a) ∷ update_assets f symbol rest

unfoldable pub update : AssetId → Option ℕ → Option ℤ → List Asset → Result (List Asset)
update symbol name decimals assets = do
  a ← or_throw (find_asset symbol assets) asset_not_found
  ok (update_assets (with_input name decimals) symbol assets)

-- The market trades the asset.
abbrev pub uses : AssetId → Market → Bool
uses symbol m = m.base_asset == symbol || m.quote_asset == symbol

abbrev pub holds : AssetId → Wallet → Bool
holds symbol w = w.asset == symbol

abbrev pub others : AssetId → List Asset → List Asset
others symbol = keep_if (λ a. not (a.symbol == symbol))

unfoldable pub remove : AssetId → Db → List Asset → Result (List Asset)
remove symbol db assets = do
  throw_if (is_found (find_if (uses symbol) db.markets)) asset_in_use
  throw_if (is_found (find_if (holds symbol) db.wallets)) asset_in_use
  throw_if (not (is_found (find_asset symbol assets))) record_not_found
  ok (others symbol assets)

not_found-Every :
    {A : Type 0} (p : A → Bool) (xs : List A)
    → is_found (find_if p xs) ≡ false
    → Every (λ x. p x ≡ false) xs
not_found-Every p [] h = tt
not_found-Every p (x ∷ xs) h = elim (Bool-cases (p x)) [
  | inl e ↦ ground (arith, rw e at h)
  | inr e ↦ (e, not_found-Every p xs (rw e at h))
]

not_found-others :
    (symbol : AssetId) (assets : List Asset) → find_asset symbol (others symbol assets) ≡ none
not_found-others symbol [] = refl
not_found-others symbol (a ∷ rest) = elim (Bool-cases (a.symbol == symbol)) [
  | inl e ↦ rw e (not_found-others symbol rest)
  | inr e ↦ rw (e, e) (not_found-others symbol rest)
]

-- An asset that is removed was in the table and is no longer, the other assets stay in their order,
-- and no market and no wallet, enabled or not, empty or not, names it.
pub remove-ok :
    (symbol : AssetId) (db : Db) (assets assets' : List Asset)
    → remove symbol db assets ≡ ok assets'
    → (assets' ≡ others symbol assets)
      × (find_asset symbol assets' ≡ none)
      × Every (λ m. uses symbol m ≡ false) db.markets
      × Every (λ w. holds symbol w ≡ false) db.wallets
unfolding remove
remove-ok symbol db assets assets' h =
    let (no_market, h₁) = throw_if-then _ _ _ h in
    let (no_wallet, h₂) = throw_if-then _ _ _ h₁ in
    let (there, h₃) = throw_if-then _ _ _ h₂ in
    let unused = not_found-Every (uses symbol) db.markets no_market in
    let unheld = not_found-Every (holds symbol) db.wallets no_wallet in
    subst
      (λ (left : List Asset).
        (left ≡ others symbol assets)
        × (find_asset symbol left ≡ none)
        × Every (λ m. uses symbol m ≡ false) db.markets
        × Every (λ w. holds symbol w ≡ false) db.wallets)
      (ok-injective h₃) (refl, not_found-others symbol assets, unused, unheld)

-- The asset that is created is spelled and dimensioned as the service demands, and is new.
pub create-ok :
    (spelling : AssetId → List ℕ) (input : Asset) (assets assets' : List Asset)
    → create spelling input assets ≡ ok assets'
    → (is_symbol (spelling input.symbol) ≡ true)
      × (out_of_range input.decimals ≡ false)
      × (is_found (find_asset input.symbol assets) ≡ false)
      × (assets' ≡ assets ++ input ∷ [])
unfolding create
create-ok spelling input assets assets' h =
    let (spelled, h₁) = throw_if-then (not (is_symbol (spelling input.symbol))) bad_symbol _ h in
    let (sized, h₂) = throw_if-then (out_of_range input.decimals) decimals_out_of_range _ h₁ in
    let (fresh, h₃) = throw_if-then (is_found (find_asset input.symbol assets)) asset_taken _ h₂ in
    (ground (arith, spelled), sized, fresh, cc)
