-- ===== src/Admin/Access/Admitted.antt =====
-- Who gets through to an admin endpoint, and what is logged of it.
use orbit_exchange.Base.{
  ℕ, ◌≡◌, ◌⊎◌, ◌∙◌, sym, refl, ap, Bool, true, false, not, List, [], ◌∷◌, ◌++◌, Option, none, some,
  append-nil, inl, inr,
}
use orbit_exchange.Base.Outcome.{
  Error, Result, ok, err, ◌>>◌, >>=-eq-ok, err≢ok, throw_if, or_throw, Result-cases, throw_if-then,
  ok-injective, unauthorized, forbidden, reason_required,
}
use mathlib.Core.Path.{subst}
use orbit_exchange.Admin.Access.Permitted.{
  IsPermitted, IsReasoned, is_allowed-IsPermitted, IsPermitted-is_allowed, lacks_reason-IsReasoned,
  IsReasoned-lacks_reason,
}
use orbit_exchange.Admin.Access.{
  Claims, Authorization, missing, empty, bearer, Route, ActionMeta, Reason, or_else, text_of, Call,
  AuditRow, Audited, is_allowed, lacks_reason, authenticate, admit, rows_of, tap, handle,
}

-- What an admitted request has shown.
pub record Admitted {T : Type 0} (verify : T → Option Claims) (route : Route) (call : Call T)
    (admin : Claims) : Type 0 where
  pub token : T
  pub sent : call.authorization ≡ bearer token
  pub verified : verify token ≡ some admin
  pub permitted : IsPermitted route.required admin.roles
  pub reasoned : IsReasoned route.meta call.reason

-- What is shown is enough.
Admitted-admit :
    {T : Type 0} (verify : T → Option Claims) (route : Route) (call : Call T) (admin : Claims)
    → Admitted verify route call admin
    → admit verify route call ≡ ok admin
Admitted-admit verify route call admin a =
    rw
      (
        a.sent,
        a.verified,
        IsPermitted-is_allowed route.required admin.roles a.permitted,
        IsReasoned-lacks_reason route.meta call.reason a.reasoned,
      )
      refl

authenticate-ok :
    {T : Type 0} (verify : T → Option Claims) (a : Authorization T) (admin : Claims)
    → authenticate verify a ≡ ok admin
    → (token : T) × (a ≡ bearer token) × (verify token ≡ some admin)
authenticate-ok verify missing admin h = cc
authenticate-ok verify empty admin h = cc
authenticate-ok verify (bearer token) admin h = (token, refl, verified (verify token) h)
  where
    verified : (c : Option Claims) → or_throw c unauthorized ≡ ok admin → c ≡ some admin
    verified none k = absurd (err≢ok k)
    verified (some c) k = ap some (ok-injective k)

true_of_not : (b : Bool) → not b ≡ false → b ≡ true
true_of_not true h = refl
true_of_not false h = cc

admit-Admitted :
    {T : Type 0} (verify : T → Option Claims) (route : Route) (call : Call T) (admin : Claims)
    → admit verify route call ≡ ok admin
    → Admitted verify route call admin
admit-Admitted verify route call admin h =
    let (c, known, h₁) =
      >>=-eq-ok (authenticate verify call.authorization)
        (λ a.
          throw_if (not (is_allowed route.required a.roles)) forbidden
          >> (throw_if (lacks_reason route.meta call.reason) reason_required >> ok a))
        h in
    let (role, h₂) = throw_if-then (not (is_allowed route.required c.roles)) forbidden _ h₁ in
    let (reasoned, h₃) = throw_if-then (lacks_reason route.meta call.reason) reason_required _ h₂ in
    let (token, sent, verified) = authenticate-ok verify call.authorization c known in
    subst (Admitted verify route call) (ok-injective h₃) (record {
      token = token;
      sent = sent;
      verified = verified;
      permitted = is_allowed-IsPermitted route.required c.roles (true_of_not _ role);
      reasoned = lacks_reason-IsReasoned route.meta call.reason reasoned;
    })

-- How an operator is named in the log: by email, and else by the name.
abbrev pub contact : Option ℕ → Option ℕ → Option ℕ
contact (some email) name = some email
contact none name = name

abbrev pub words : Option Reason → Option ℕ
words none = none
words (some x) = some x.text

-- What is to be logged for the outcome of a handler.
abbrev pub logged :
    {R : Type 0}
    → Bool
    → Claims
    → Option ActionMeta
    → ℕ
    → Option Reason
    → Result R
    → List (AuditRow R)
logged true admin (some meta) target reason (ok r) =
    record {
      admin_id = admin.sub;
      admin_email = contact admin.email admin.preferred_username;
      action = meta.action;
      target_type = meta.target_type;
      target_id = target;
      after = r;
      reason = words reason;
    }
    ∷ []
logged written admin meta target reason out = []

contact-or_else : (a b : Option ℕ) → or_else a b ≡ contact a b
contact-or_else none b = refl
contact-or_else (some a) b = refl

words-text_of : (reason : Option Reason) → text_of reason ≡ words reason
words-text_of none = refl
words-text_of (some x) = refl

rows_of-logged :
    {R : Type 0} (written : Bool) (admin : Claims) (meta : Option ActionMeta) (target : ℕ)
    (reason : Option Reason) (r : R)
    → rows_of written admin meta target reason r ≡ logged written admin meta target reason (ok r)
rows_of-logged true admin none target reason r = refl
rows_of-logged false admin none target reason r = refl
rows_of-logged false admin (some meta) target reason r = refl
rows_of-logged true admin (some meta) target reason r =
    rw (contact-or_else admin.email admin.preferred_username, words-text_of reason) refl

logged-err :
    {R : Type 0} (written : Bool) (admin : Claims) (meta : Option ActionMeta) (target : ℕ)
    (reason : Option Reason) (e : Error)
    → logged {R = R} written admin meta target reason (err e) ≡ []
logged-err true admin none target reason e = refl
logged-err true admin (some meta) target reason e = refl
logged-err false admin meta target reason e = refl

tap-logged :
    {T W R : Type 0} (written : Bool) (admin : Claims) (route : Route) (call : Call T)
    (out : Result R × W) (s : Audited W R)
    → tap written admin route call out s ≡ (
      out.0,
      record {
        world = out.1;
        log = s.log ++ logged written admin route.meta call.target_id call.reason out.0;
      },
    )
tap-logged written admin route call (ok r, w) s =
    rw (rows_of-logged written admin route.meta call.target_id call.reason r) refl
tap-logged written admin route call (err e, w) s =
    rw (logged-err written admin route.meta call.target_id call.reason e, append-nil s.log) refl

-- A request to an admin endpoint either shows all that is asked, that is, a bearer token that
-- verifies, of an operator who holds one of the required roles if there are any, and a reason that
-- is not blank if the action asks for one; or it does not. If it does not, it is refused, with
-- nothing touched and nothing logged. If it does, its answer and its effect are the handler's; and
-- it is logged once if the handler returns, the action is an audited one and the row can be
-- stored, under the operator's id and email (or name), with the action, the target, what the
-- handler returned and the reason; and not at all otherwise.
pub handle-cases :
    {T W R : Type 0} (verify : T → Option Claims) (handler : W → Result R × W) (written : Bool)
    (route : Route) (call : Call T) (s : Audited W R)
    → ((¬ ((admin : Claims) × Admitted verify route call admin))
        × ((e : Error) × (handle verify handler written route call s ≡ (err e, s))))
      ⊎ ((admin : Claims) × Admitted verify route call admin
          × (handle verify handler written route call s ≡ (
            (handler s.world).0,
            record {
              world = (handler s.world).1;
              log =
                  s.log
                  ++ logged written admin route.meta call.target_id call.reason (handler s.world).0;
            },
          )))
unfolding handle
handle-cases verify handler written route call s = elim (Result-cases (admit verify route call)) [
  | inr (e, h) ↦
      inl (λ (admin, a). err≢ok (sym h ∙ Admitted-admit verify route call admin a), (e, rw h refl))
  | inl (admin, h) ↦ inr (
    admin,
    admit-Admitted verify route call admin h,
    rw h (tap-logged written admin route call (handler s.world) s),
  )
]
