-- ===== src/Admin/Access.antt =====
-- The way of a request to an admin endpoint: `KeycloakAuthGuard`, `KeycloakRolesGuard`, then
-- `AdminAuditInterceptor` around the handler, with `AdminAuditService.write`.
pub mod Admitted
pub mod Permitted
use orbit_exchange.Base.{
  ℕ, ◌≡◌, ◌⊎◌, refl, sym, ap, Bool, true, false, not, ◌&&◌, ◌||◌, List, [], ◌∷◌, ◌++◌, Option, none,
  some, ◌==◌, append-nil, inl, inr,
}
use orbit_exchange.Base.Outcome.{
  Error, Result, ok, err, ◌>>=◌, ◌>>◌, >>=-eq-ok, err≢ok, throw_if, or_throw, Result-cases,
  or_throw-then, throw_if-then, ok-injective, unauthorized, forbidden, reason_required,
}

-- `KeycloakClaims`
pub record Claims : Type 0 where
  pub sub : ℕ
  pub email : Option ℕ
  pub preferred_username : Option ℕ
  pub roles : List ℕ

-- The header: absent or of another scheme, a bearer token that is empty, or one that is not.
pub data Authorization (T : Type 0) : Type 0 where
  missing empty : Authorization T
  bearer : T → Authorization T

-- The text of a reason, and whether it is empty or blank.
pub record Reason : Type 0 where
  pub text : ℕ
  pub blank : Bool

-- `AdminActionOptions`
pub record ActionMeta : Type 0 where
  pub action : ℕ
  pub target_type : ℕ
  pub reason_required : Bool

-- What the route declares: `@Roles(...)` and `@AdminAction(...)`.
pub record Route : Type 0 where
  pub required : List ℕ
  pub meta : Option ActionMeta

pub record Call (T : Type 0) : Type 0 where
  pub authorization : Authorization T
  pub target_id : ℕ
  pub reason : Option Reason

-- A row of AdminAuditLog; the address and the agent are left out.
pub record AuditRow (R : Type 0) : Type 0 where
  pub admin_id : ℕ
  pub admin_email : Option ℕ
  pub action : ℕ
  pub target_type : ℕ
  pub target_id : ℕ
  pub after : R
  pub reason : Option ℕ

abbrev pub or_else {ℓ} : {A : Type ℓ} → Option A → Option A → Option A
or_else none b = b
or_else (some a) b = some a

abbrev pub text_of : Option Reason → Option ℕ
text_of none = none
text_of (some r) = some r.text

-- `write`
abbrev pub audit_row : {R : Type 0} → Claims → ActionMeta → ℕ → Option Reason → R → AuditRow R
audit_row admin meta target reason after = record {
  admin_id = admin.sub;
  admin_email = or_else admin.email admin.preferred_username;
  action = meta.action;
  target_type = meta.target_type;
  target_id = target;
  after = after;
  reason = text_of reason;
}

abbrev pub includes : List ℕ → ℕ → Bool
includes [] r = false
includes (h ∷ have) r = h == r || includes have r

abbrev pub any_of : List ℕ → List ℕ → Bool
any_of [] have = false
any_of (r ∷ required) have = includes have r || any_of required have

-- No role is required, or one of them is there.
abbrev pub is_allowed : List ℕ → List ℕ → Bool
is_allowed [] have = true
is_allowed (r ∷ required) have = any_of (r ∷ required) have

abbrev pub is_blank : Option Reason → Bool
is_blank none = true
is_blank (some r) = r.blank

-- A reason that is required is missing or blank.
abbrev pub lacks_reason : Option ActionMeta → Option Reason → Bool
lacks_reason none reason = false
lacks_reason (some meta) reason = meta.reason_required && is_blank reason

-- The world of the handler and the audit log.
pub record Audited (W R : Type 0) : Type 0 where
  pub world : W
  pub log : List (AuditRow R)

-- `jwtVerify`, given by `verify`.
abbrev pub authenticate : {T : Type 0} → (T → Option Claims) → Authorization T → Result Claims
authenticate verify missing = err unauthorized
authenticate verify empty = err unauthorized
authenticate verify (bearer token) = or_throw (verify token) unauthorized

-- The guards, and what the interceptor asks before the handler runs.
abbrev pub admit : {T : Type 0} → (T → Option Claims) → Route → Call T → Result Claims
admit verify route call = do
  admin ← authenticate verify call.authorization
  throw_if (not (is_allowed route.required admin.roles)) forbidden
  throw_if (lacks_reason route.meta call.reason) reason_required
  ok admin

-- The rows that a success adds, if the write goes through.
abbrev pub rows_of :
    {R : Type 0} → Bool → Claims → Option ActionMeta → ℕ → Option Reason → R → List (AuditRow R)
rows_of written admin none target reason after = []
rows_of true admin (some meta) target reason after = audit_row admin meta target reason after ∷ []
rows_of false admin (some meta) target reason after = []

abbrev pub tap :
    {T W R : Type 0}
    → Bool
    → Claims
    → Route
    → Call T
    → Result R × W
    → Audited W R
    → Result R × Audited W R
tap written admin route call (ok r, w) s = (
  ok r,
  record {
    world = w;
    log = s.log ++ rows_of written admin route.meta call.target_id call.reason r;
  },
)
tap written admin route call (err e, w) s = (err e, record s { world = w })

abbrev enter :
    {T W R : Type 0}
    → (W → Result R × W)
    → Bool
    → Route
    → Call T
    → Result Claims
    → Audited W R
    → Result R × Audited W R
enter handler written route call (err e) s = (err e, s)
enter handler written route call (ok admin) s = tap written admin route call (handler s.world) s

-- The request; `written` says whether the audit row could be stored.
unfoldable pub handle :
    {T W R : Type 0}
    → (T → Option Claims)
    → (W → Result R × W)
    → Bool
    → Route
    → Call T
    → Audited W R
    → Result R × Audited W R
handle verify handler written route call s =
    enter handler written route call (admit verify route call) s
