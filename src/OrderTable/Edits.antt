-- ===== src/OrderTable/Edits.antt =====
-- What a settlement may do to the rows of the Order table: fill them and move their status, and
-- nothing else.
use orbit_exchange.Base.{
  ℕ, ◌+◌, ◌≡◌, refl, ◌∙◌, Bool, true, false, List, [], ◌∷◌, some, ◌==◌, Bool-cases, inl, inr,
  eq_of_some,
}
use orbit_exchange.Base.Int.{pos_part, neg_part}
use orbit_exchange.Base.Outcome.{ok, Result-cases, ok-injective, err≢ok}
use mathlib.Core.Path.{subst}
use orbit_exchange.Shared.{OrderStatus, rejected}
use orbit_exchange.Schema.{Order}
use orbit_exchange.OrderTable.{find, update}

abbrev pub is_rejected : OrderStatus → Bool
is_rejected rejected = true
is_rejected _ = false

-- What is filled and what is left make up the quantity.
abbrev pub IsBalanced : Order → Type 0
IsBalanced o =
    pos_part o.filled_qty + pos_part o.leave_qty
    ≡ o.quantity + neg_part o.filled_qty + neg_part o.leave_qty

pub record Edited (o p : Order) : Type 0 where
  pub same_id : p.id ≡ o.id
  pub same_user : p.user_id ≡ o.user_id
  pub same_symbol : p.symbol ≡ o.symbol
  pub same_side : p.side ≡ o.side
  pub same_type : p.type ≡ o.type
  pub same_price : p.price ≡ o.price
  pub same_quantity : p.quantity ≡ o.quantity
  pub same_command : p.command_id ≡ o.command_id
  pub balanced : IsBalanced o → IsBalanced p
  pub live : is_rejected o.status ≡ false → is_rejected p.status ≡ false

pub Edited-refl : (o : Order) → Edited o o
Edited-refl o = record {
  same_id = refl;
  same_user = refl;
  same_symbol = refl;
  same_side = refl;
  same_type = refl;
  same_price = refl;
  same_quantity = refl;
  same_command = refl;
  balanced = λ b. b;
  live = λ l. l;
}

pub Edited-trans : {o p q : Order} → Edited o p → Edited p q → Edited o q
Edited-trans e f = record {
  same_id = f.same_id ∙ e.same_id;
  same_user = f.same_user ∙ e.same_user;
  same_symbol = f.same_symbol ∙ e.same_symbol;
  same_side = f.same_side ∙ e.same_side;
  same_type = f.same_type ∙ e.same_type;
  same_price = f.same_price ∙ e.same_price;
  same_quantity = f.same_quantity ∙ e.same_quantity;
  same_command = f.same_command ∙ e.same_command;
  balanced = λ b. f.balanced (e.balanced b);
  live = λ l. f.live (e.live l);
}

-- Row by row: none comes, none goes, and the order stays.
abbrev pub Edits : List Order → List Order → Type 0
Edits [] [] = Unit {0}
Edits [] (p ∷ ps) = ⊥
Edits (o ∷ os) [] = ⊥
Edits (o ∷ os) (p ∷ ps) = Edited o p × Edits os ps

pub Edits-refl : (os : List Order) → Edits os os
Edits-refl [] = tt
Edits-refl (o ∷ os) = (Edited-refl o, Edits-refl os)

pub Edits-trans : (os ps qs : List Order) → Edits os ps → Edits ps qs → Edits os qs
Edits-trans [] [] [] e f = tt
Edits-trans [] [] (q ∷ qs) e f = absurd f
Edits-trans [] (p ∷ ps) qs e f = absurd e
Edits-trans (o ∷ os) [] qs e f = absurd e
Edits-trans (o ∷ os) (p ∷ ps) [] e f = absurd f
Edits-trans (o ∷ os) (p ∷ ps) (q ∷ qs) (e, es) (f, fs) =
    (Edited-trans e f, Edits-trans os ps qs es fs)

-- An update that edits the row it finds.
pub Edits-update :
    (i : ℕ) (f : Order → Order) (os os' : List Order)
    → ((o : Order) → find i os ≡ some o → Edited o (f o))
    → update i f os ≡ ok os'
    → Edits os os'
unfolding find update
Edits-update i f [] os' edit h = cc
Edits-update i f (o ∷ os) os' edit h = elim (Bool-cases (o.id == i)) [
  | inl hit ↦
      subst (Edits (o ∷ os)) (ok-injective (rw hit at h)) (edit o (rw hit refl), Edits-refl os)
  | inr miss ↦ elim (Result-cases (update i f os)) [
    | inl (rest, r) ↦
        subst (Edits (o ∷ os)) (ok-injective (rw (miss, r) at h))
          (Edited-refl o, Edits-update i f os rest (λ p e. edit p (rw miss e)) r)
    | inr (x, r) ↦ absurd (err≢ok (rw (miss, r) at h))
  ]
]

-- A row that was found is found again, edited.
pub find-Edits :
    (i : ℕ) (os ps : List Order) (o : Order)
    → Edits os ps
    → find i os ≡ some o
    → (p : Order) × (find i ps ≡ some p) × Edited o p
unfolding find
find-Edits i [] ps o e h = cc
find-Edits i (x ∷ os) [] o e h = absurd e
find-Edits i (x ∷ os) (y ∷ ps) o (e, es) h = elim (Bool-cases (x.id == i)) [
  | inl hit ↦ (y, rw (e.same_id, hit) refl, subst (λ z. Edited z y) (eq_of_some (rw hit at h)) e)
  | inr miss ↦
      let (p, found, edited) = find-Edits i os ps o es (rw miss at h) in
      (p, rw (e.same_id, miss) found, edited)
]
