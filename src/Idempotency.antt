-- ===== src/Idempotency.antt =====
-- apps/api: `IdempotencyInterceptor` answers a repeated request from the first answer, and
-- `IdempotencyCleanupService` drops the expired rows.
pub mod Replay
use orbit_exchange.Base.{
  ℕ, zero, suc, ◌+◌, ◌*◌, List, [], ◌∷◌, ◌++◌, Option, none, some, Bool, true, false, not, ◌&&◌,
  if◌then◌else◌, ◌==◌, ltb, keep_if, length, find_if,
}
use orbit_exchange.Base.Outcome.{Error}
use orbit_exchange.Shared.{UserId}

-- The unique key of the table: user, key, method and path.
pub record Scope : Type 0 where
  pub user_id : UserId
  pub key : ℕ
  pub method : ℕ
  pub path : ℕ

-- An answer: the status and the body.
pub record Response : Type 0 where
  pub status : ℕ
  pub body : ℕ

pub record IdempotencyKey : Type 0 where
  pub scope : Scope
  pub request_hash : ℕ
  pub response : Response
  pub expires_at : ℕ

-- A request: the header if it has one, the user if it is known, whether the header is a UUID v4, and
-- the body.
pub record Request : Type 0 where
  pub raw_key : Option ℕ
  pub is_uuid : Bool
  pub user_id : Option UserId
  pub method : ℕ
  pub path : ℕ
  pub body : ℕ

-- What the interceptor answers, and its exceptions.
pub data Answer : Type 0 where
  responded : Response → Answer
  handler_threw : Answer
  key_not_uuid : Answer
  key_reused : Answer

abbrev pub same_scope : Scope → Scope → Bool
same_scope a b =
    a.user_id == b.user_id && a.key == b.key && a.method == b.method && a.path == b.path

abbrev pub lookup : Scope → List IdempotencyKey → Option IdempotencyKey
lookup s = find_if (λ k. same_scope k.scope s)

-- `TTL_MS`
abbrev ttl_ms : ℕ
ttl_ms = 24 * 60 * 60 * 1000

-- `persist`: the insert fails when the row is there already, or with the error that the database
-- has for it. Any failure is passed over.
abbrev pub persist :
    Option Error → ℕ → Scope → ℕ → Response → List IdempotencyKey → List IdempotencyKey
persist (some e) now s hash r ks = ks
persist none now s hash r ks = elim (lookup s ks) [
  | some _ ↦ ks
  | none ↦
      ks ++ record { scope = s; request_hash = hash; response = r; expires_at = now + ttl_ms } ∷ []
]

-- The cache, and what the handlers work on.
pub record Site (W : Type 0) : Type 0 where
  pub keys : List IdempotencyKey
  pub work : W

-- `next.handle()`: an answer, or an exception.
abbrev pub Handle : Type 0 → Type 0
Handle W = W → Option Response × W

abbrev pub scope_of : Request → ℕ → UserId → Scope
scope_of q key user = record { user_id = user; key = key; method = q.method; path = q.path }

-- `hash` is SHA-256 over the canonical JSON of a body.
module _ {W : Type 0} (hash : ℕ → ℕ) where
  abbrev pub bypass : Handle W → Site W → Answer × Site W
  bypass handle c = elim (handle c.work).0 [
    | none ↦ (handler_threw, record c { work = (handle c.work).1 })
    | some r ↦ (responded r, record c { work = (handle c.work).1 })
  ]

  -- A miss: the answer is kept before it is returned, if it can be.
  abbrev pub miss : Option Error → ℕ → Scope → ℕ → Handle W → Site W → Answer × Site W
  miss insert now s h handle c = elim (handle c.work).0 [
    | none ↦ (handler_threw, record c { work = (handle c.work).1 })
    | some r ↦
        (responded r, record { keys = persist insert now s h r c.keys; work = (handle c.work).1 })
  ]

  abbrev pub replay : ℕ → IdempotencyKey → Site W → Answer × Site W
  replay h k c = (if k.request_hash == h then responded k.response else key_reused, c)

  abbrev pub look :
      Option IdempotencyKey → Option Error → ℕ → Scope → ℕ → Handle W → Site W → Answer × Site W
  look none insert now s h handle c = miss insert now s h handle c
  look (some k) insert now s h handle c = replay h k c

  abbrev pub for_user :
      Option UserId → Request → Option Error → ℕ → ℕ → Handle W → Site W → Answer × Site W
  for_user none q insert key now handle c = bypass handle c
  for_user (some user) q insert key now handle c =
      look (lookup (scope_of q key user) c.keys) insert now (scope_of q key user) (hash q.body)
        handle c

  abbrev pub with_key : Option ℕ → Request → Option Error → ℕ → Handle W → Site W → Answer × Site W
  with_key none q insert now handle c = bypass handle c
  with_key (some key) q insert now handle c =
      if q.is_uuid then for_user q.user_id q insert key now handle c else (key_not_uuid, c)

  -- `intercept`; `insert` is the error of the insert, if it has one.
  unfoldable pub intercept : Request → Option Error → ℕ → Handle W → Site W → Answer × Site W
  intercept q insert now handle c = with_key q.raw_key q insert now handle c

abbrev pub is_expired : ℕ → IdempotencyKey → Bool
is_expired now k = ltb k.expires_at now

-- `sweep`: at most `n` expired rows go; the database may take any, here the first ones. A failure
-- drops none.
pub delete_expired : ℕ → ℕ → List IdempotencyKey → ℕ × List IdempotencyKey
delete_expired zero now ks = (0, ks)
delete_expired (suc n) now [] = (0, [])
delete_expired (suc n) now (k ∷ ks) =
    let gone = delete_expired n now ks in
    let kept = delete_expired (suc n) now ks in
    if is_expired now k then (suc gone.0, gone.1) else (kept.0, k ∷ kept.1)

pub sweep : Bool → ℕ → List IdempotencyKey → ℕ × List IdempotencyKey
unfolding delete_expired
sweep true now ks = delete_expired 1000 now ks
sweep false now ks = (0, ks)
