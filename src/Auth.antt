-- ===== src/Auth.antt =====
-- apps/api/src/auth/auth.service.ts: `signup`, `login`, `issueTokens` and `refresh`.
use orbit_exchange.Base.{
  ℕ, ◌≡◌, ◌*◌, refl, Bool, true, false, not, List, [], ◌∷◌, ◌++◌, Option, none, some, ◌==◌, ==-refl,
  find_if, Option-cases, Bool-cases, inl, inr, arith,
}
use orbit_exchange.Base.Outcome.{
  Result, ok, err, ◌>>=◌, ◌>>◌, throw_if, throw_if-then, or_throw, ok-injective, err≢ok,
  email_taken, invalid_credentials, invalid_token,
}
use mathlib.Core.Path.{subst}
use orbit_exchange.Shared.{UserId, AssetId}
use orbit_exchange.Schema.{User, Wallet, Db}

-- The password hash (argon2) and the two token secrets (JWT), with what their documentation says: a
-- password verifies against its own hash, and a token that was signed verifies until it expires.
pub record Crypto (T : Type 0) : Type 0 where
  pub hash : ℕ → ℕ
  pub verify : ℕ → ℕ → Bool
  pub sign_access : UserId × ℕ → T
  pub sign_refresh : UserId × ℕ → T
  pub verify_refresh : T → Option (UserId × ℕ)
  pub verify-hash : (password : ℕ) → verify (hash password) password ≡ true
  pub verify_refresh-sign_refresh :
      (payload : UserId × ℕ) → verify_refresh (sign_refresh payload) ≡ some payload

pub record Tokens (T : Type 0) : Type 0 where
  pub access_token : T
  pub refresh_token : T
  pub user_id : UserId
  pub email : ℕ

-- The assets of a new account: KRW, BTC, ETH and USDT.
abbrev pub krw : AssetId
krw = 0

abbrev pub btc : AssetId
btc = 1

abbrev pub eth : AssetId
eth = 2

abbrev pub usdt : AssetId
usdt = 3

abbrev pub find_email : ℕ → List User → Option User
find_email email = find_if (λ u. u.email == email)

abbrev is_there : Option User → Bool
is_there none = false
is_there (some u) = true

abbrev new_wallet : UserId → AssetId → ℕ → Wallet
new_wallet id asset balance = record { user_id = id; asset = asset; balance = balance; locked = 0 }

-- `unit` is how many wallet units a whole coin has.
abbrev pub new_wallets : ℕ → UserId → List Wallet
new_wallets unit id =
    new_wallet id krw (100_000_000 * unit)
    ∷ new_wallet id btc unit
    ∷ new_wallet id eth (5 * unit)
    ∷ new_wallet id usdt (10_000 * unit)
    ∷ []

module _ {T : Type 0} (C : Crypto T) where
  abbrev pub issue_tokens : UserId → ℕ → Tokens T
  issue_tokens id email = record {
    access_token = C.sign_access (id, email);
    refresh_token = C.sign_refresh (id, email);
    user_id = id;
    email = email;
  }

  -- `id` is the UUID that the database draws for the row.
  unfoldable pub signup : ℕ → UserId → ℕ → ℕ → Db → Result (Tokens T × Db)
  signup unit id email password db = do
    throw_if (is_there (find_email email db.users)) email_taken
    ok (
      issue_tokens id email,
      record db {
        users =
            db.users
            ++ record { id = id; frozen = false; email = email; password_hash = C.hash password }
              ∷ [];
        wallets = db.wallets ++ new_wallets unit id;
      },
    )

  pub login : ℕ → ℕ → Db → Result (Tokens T)
  login email password db = do
    u ← or_throw (find_email email db.users) invalid_credentials
    throw_if (not (C.verify u.password_hash password)) invalid_credentials
    ok (issue_tokens u.id u.email)

  abbrev reissue : Option (UserId × ℕ) → Result (Tokens T)
  reissue none = err invalid_token
  reissue (some (id, email)) = ok (issue_tokens id email)

  pub refresh : T → Result (Tokens T)
  refresh token = reissue (C.verify_refresh token)

  find_email-append :
      (email : ℕ) (us : List User) (u : User)
      → find_email email us ≡ none
      → u.email ≡ email
      → find_email email (us ++ u ∷ []) ≡ some u
  find_email-append email [] u h e = rw (e, ==-refl email) refl
  find_email-append email (x ∷ us) u h e = elim (Bool-cases (x.email == email)) [
    | inl f ↦ ground (arith, rw f at h)
    | inr f ↦ rw f (find_email-append email us u (rw f at h) e)
  ]

  -- A sign-up adds a user and four wallets.
  pub signup-wallets :
      (unit id email password : ℕ) (db db' : Db) (t : Tokens T)
      → signup unit id email password db ≡ ok (t, db')
      → record db { users = db'.users; wallets = db.wallets ++ new_wallets unit id } ≡ db'
  unfolding signup
  signup-wallets unit id email password db db' t h =
      let (_, h₁) = throw_if-then (is_there (find_email email db.users)) email_taken _ h in
      subst
        (λ (r : Tokens T × Db).
          record db { users = r.1.users; wallets = db.wallets ++ new_wallets unit id } ≡ r.1)
        (ok-injective h₁) refl

  -- A new account can log in with its password and gets the same user and email, its refresh token
  -- gives tokens of the same user, and its email cannot be registered again.
  pub login-signup :
      (unit id email password again other : ℕ) (db db' : Db) (t : Tokens T)
      → signup unit id email password db ≡ ok (t, db')
      → (login email password db' ≡ ok t)
        × (refresh t.refresh_token ≡ ok t)
        × (signup unit again email other db' ≡ err email_taken)
  unfolding signup login refresh
  login-signup unit id email password again other db db' t h =
      elim (Option-cases (find_email email db.users)) [
        | inr (u, e) ↦ absurd (err≢ok (rw e at h))
        | inl e ↦
            let u : User = record {
              id = id;
              frozen = false;
              email = email;
              password_hash = C.hash password;
            } in
            let there = find_email-append email db.users u e refl in
            subst
              (λ (r : Tokens T × Db).
                (login email password r.1 ≡ ok r.0)
                × (refresh r.0.refresh_token ≡ ok r.0)
                × (signup unit again email other r.1 ≡ err email_taken))
              (ok-injective (rw e at h))
              (
                rw (there, C.verify-hash password) refl,
                rw (C.verify_refresh-sign_refresh (id, email)) refl,
                rw there refl,
              )
      ]
