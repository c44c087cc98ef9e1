-- ===== src/Admin/AdminUsers.antt =====
-- `AdminUsersService.setFrozen`: the flag that the order service reads.
use orbit_exchange.Base.{
  ℕ, ◌≡◌, refl, Bool, true, List, [], ◌∷◌, Option, some, ◌==◌, if◌then◌else◌, find_if, Bool-cases,
  eq_of_some, inl, inr, arith,
}
use orbit_exchange.Base.Outcome.{
  Result, ok, err, ◌>>=◌, or_throw, or_throw-then, ok-injective, user_not_found, account_frozen,
}
use mathlib.Core.Path.{subst}
use orbit_exchange.Shared.{UserId, CommandId}
use orbit_exchange.Schema.{User, Db}
use orbit_exchange.OrderService.{CreateOrderDto, submit_order}

abbrev pub find_user : UserId → List User → Option User
find_user id = find_if (λ x. x.id == id)

abbrev with_frozen : Bool → User → User
with_frozen frozen u = record u { frozen = frozen }

abbrev pub update_users : (User → User) → UserId → List User → List User
update_users f id [] = []
update_users f id (u ∷ us) = (if u.id == id then f u else u) ∷ update_users f id us

unfoldable pub set_frozen : UserId → Bool → Db → Result Db
set_frozen id frozen db = do
  u ← or_throw (find_user id db.users) user_not_found
  ok (record db { users = update_users (with_frozen frozen) u.id db.users })

find_user-id : (id : ℕ) (us : List User) (u : User) → find_user id us ≡ some u → u.id ≡ id
find_user-id id [] u h = cc
find_user-id id (x ∷ us) u h = ground (arith, find_user-id id us u)

find_user-with_frozen :
    (id : ℕ) (frozen : Bool) (us : List User) (u : User)
    → find_user id us ≡ some u
    → find_user id (update_users (with_frozen frozen) id us) ≡ some (with_frozen frozen u)
find_user-with_frozen id frozen [] u h = cc
find_user-with_frozen id frozen (x ∷ us) u h = elim (Bool-cases (x.id == id)) [
  | inl e ↦
      rw (e, e)
        (subst (λ y. some (with_frozen frozen x) ≡ some (with_frozen frozen y))
          (eq_of_some (rw e at h)) refl)
  | inr e ↦ rw (e, e) (find_user-with_frozen id frozen us u (rw e at h))
]

-- Nothing but the users changes.
pub set_frozen-users :
    (id : UserId) (frozen : Bool) (db db' : Db)
    → set_frozen id frozen db ≡ ok db'
    → record db { users = db'.users } ≡ db'
unfolding set_frozen
set_frozen-users id frozen db db' h =
    let (u, found, out) =
      or_throw-then (find_user id db.users) user_not_found
        (λ u. ok (record db { users = update_users (with_frozen frozen) u.id db.users })) h in
    subst (λ (y : Db). record db { users = y.users } ≡ y) (ok-injective out) refl

-- Once an account is frozen, every order of it is refused, whatever it asks for.
pub set_frozen-submit_order :
    (id : UserId) (db db' : Db) (dto : CreateOrderDto) (c : CommandId) (now : ℕ)
    → set_frozen id true db ≡ ok db'
    → submit_order id dto c now db' ≡ err account_frozen
unfolding set_frozen submit_order
set_frozen-submit_order id db db' dto c now h =
    let (u, found, out) =
      or_throw-then (find_user id db.users) user_not_found
        (λ u. ok (record db { users = update_users (with_frozen true) u.id db.users })) h in
    let id_is = find_user-id id db.users u found in
    subst (λ (y : Db). submit_order id dto c now y ≡ err account_frozen) (ok-injective out)
      (rw (id_is, find_user-with_frozen id true db.users u found) refl)
