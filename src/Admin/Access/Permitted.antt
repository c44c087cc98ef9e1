-- ===== src/Admin/Access/Permitted.antt =====
-- What the guards of an admin endpoint ask for, said apart from how they test it.
use orbit_exchange.Base.{
  ℕ, ◌≡◌, ◌⊎◌, sym, refl, true, false, List, [], ◌∷◌, Option, none, some, ◌==◌, ==-refl, ==-eq,
  IsIn, Bool-cases, inl, inr, arith,
}
use orbit_exchange.Admin.Access.{
  ActionMeta, Reason, includes, any_of, is_blank, is_allowed, lacks_reason,
}

-- No role is asked for, or one of them is held.
abbrev pub IsPermitted : List ℕ → List ℕ → Type 0
IsPermitted required held = (required ≡ []) ⊎ ((r : ℕ) × IsIn r required × IsIn r held)

-- The action asks for no reason, or there is one that is not blank.
abbrev pub IsReasoned : Option ActionMeta → Option Reason → Type 0
IsReasoned none reason = Unit {0}
IsReasoned (some meta) reason =
    (meta.reason_required ≡ false) ⊎ ((x : Reason) × (reason ≡ some x) × (x.blank ≡ false))

includes-IsIn : (held : List ℕ) (r : ℕ) → includes held r ≡ true → IsIn r held
includes-IsIn [] r h = ground arith
includes-IsIn (x ∷ held) r h = elim (Bool-cases (x == r)) [
  | inl e ↦ inl (sym (==-eq x r e))
  | inr e ↦ inr (includes-IsIn held r (rw e at h))
]

IsIn-includes : (held : List ℕ) (r : ℕ) → IsIn r held → includes held r ≡ true
IsIn-includes [] r h = absurd h
IsIn-includes (x ∷ held) r (inl e) = rw (← e, ==-refl r) refl
IsIn-includes (x ∷ held) r (inr h) = elim (Bool-cases (x == r)) [
  | inl e ↦ rw e refl
  | inr e ↦ rw e (IsIn-includes held r h)
]

any_of-IsIn :
    (required held : List ℕ) → any_of required held ≡ true → (r : ℕ) × IsIn r required × IsIn r held
any_of-IsIn [] held h = ground arith
any_of-IsIn (r ∷ required) held h = elim (Bool-cases (includes held r)) [
  | inl e ↦ (r, inl refl, includes-IsIn held r e)
  | inr e ↦ let (q, asked, has) = any_of-IsIn required held (rw e at h) in (q, inr asked, has)
]

IsIn-any_of :
    (required held : List ℕ) (r : ℕ) → IsIn r required → IsIn r held → any_of required held ≡ true
IsIn-any_of [] held r asked has = absurd asked
IsIn-any_of (x ∷ required) held r (inl e) has = rw (← e, IsIn-includes held r has) refl
IsIn-any_of (x ∷ required) held r (inr asked) has = elim (Bool-cases (includes held x)) [
  | inl e ↦ rw e refl
  | inr e ↦ rw e (IsIn-any_of required held r asked has)
]

pub is_allowed-IsPermitted :
    (required held : List ℕ) → is_allowed required held ≡ true → IsPermitted required held
is_allowed-IsPermitted [] held h = inl refl
is_allowed-IsPermitted (r ∷ required) held h = inr (any_of-IsIn (r ∷ required) held h)

pub IsPermitted-is_allowed :
    (required held : List ℕ) → IsPermitted required held → is_allowed required held ≡ true
IsPermitted-is_allowed [] held h = refl
IsPermitted-is_allowed (r ∷ required) held (inl e) = cc
IsPermitted-is_allowed (r ∷ required) held (inr (q, asked, has)) =
    IsIn-any_of (r ∷ required) held q asked has

pub lacks_reason-IsReasoned :
    (meta : Option ActionMeta) (reason : Option Reason)
    → lacks_reason meta reason ≡ false
    → IsReasoned meta reason
lacks_reason-IsReasoned none reason h = tt
lacks_reason-IsReasoned (some meta) reason h = elim (Bool-cases meta.reason_required) [
  | inr e ↦ inl e
  | inl e ↦ inr (given reason (rw e at h))
]
  where
    given :
        (reason : Option Reason)
        → is_blank reason ≡ false
        → (x : Reason) × (reason ≡ some x) × (x.blank ≡ false)
    given none h = ground arith
    given (some x) h = (x, refl, h)

pub IsReasoned-lacks_reason :
    (meta : Option ActionMeta) (reason : Option Reason)
    → IsReasoned meta reason
    → lacks_reason meta reason ≡ false
IsReasoned-lacks_reason none reason h = refl
IsReasoned-lacks_reason (some meta) reason (inl e) = rw e refl
IsReasoned-lacks_reason (some meta) reason (inr (x, e, f)) =
    elim (Bool-cases meta.reason_required) [ inl g ↦ rw (g, e) f | inr g ↦ rw g refl ]
