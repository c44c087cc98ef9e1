-- ===== src/Settler/Work.antt =====
-- A transaction body of the settler. The database is restored when it throws, but the book and
-- the counters are variables of the process and keep what was done to them.
use orbit_exchange.Base.{ℕ, ◌≡◌, refl, sym, ◌∙◌, ap, ◌⊎◌, inl, inr, arith}
use orbit_exchange.Base.Outcome.{Error, Result, ok, err, ok-injective, Result-cases}
use orbit_exchange.Schema.{Db}

pub record Work (B : Type 0) : Type 0 where
  pub db : Db
  pub book : B
  -- `this.localSeq`
  pub local_seq : ℕ
  -- `orderbookSeq`
  pub orderbook_seq : ℕ
  -- `matchCtx.matchIdx`
  pub match_idx : ℕ

abbrev pub Action : Type 0 → Type 0 → Type 0
Action B A = Work B → Result A × Work B

module _ {B A : Type 0} where
  abbrev pub pure : A → Action B A
  pure a w = (ok a, w)

  -- A computed result that touches nothing.
  abbrev pub lift : Result A → Action B A
  lift r w = (r, w)

-- What follows a step that has returned or thrown.
abbrev pub proceed : {B A C : Type 0} → (A → Action B C) → Result A × Work B → Result C × Work B
proceed f (ok a, w) = f a w
proceed f (err e, w) = (err e, w)

infixl 5 ◌>>=◌ ◌>>◌
abbrev pub ◌>>=◌ : {B A C : Type 0} → Action B A → (A → Action B C) → Action B C
◌>>=◌ m f w = proceed f (m w)

abbrev pub ◌>>◌ : {B A C : Type 0} → Action B A → Action B C → Action B C
m >> k = m >>= λ _. k

-- A statement on the database, which changes nothing if it throws.
abbrev pub statement : {B : Type 0} → (Db → Result Db) → Action B (Unit {0})
statement f w = proceed (λ db _. (ok tt, record w { db = db })) (f w.db, w)

-- A step that lets the rest return has returned.
pub proceed-ok :
    {B A C : Type 0} (f : A → Action B C) (r : Result A × Work B) {c : C} {w : Work B}
    → proceed f r ≡ (ok c, w)
    → (a : A) × (v : Work B) × (r ≡ (ok a, v)) × (f a v ≡ (ok c, w))
proceed-ok f (ok a, v) h = (a, v, refl, h)
proceed-ok f (err e, v) h = ground arith

-- A statement that returns has changed the database alone.
pub statement-ok :
    {B : Type 0} (f : Db → Result Db) (w : Work B) {u : Unit {0}} {w' : Work B}
    → statement f w ≡ (ok u, w')
    → (db : Db) × (f w.db ≡ ok db) × (w' ≡ record w { db = db })
statement-ok f w h = elim (Result-cases (f w.db)) [
  | inl (db, e) ↦ (db, e, ground (arith, e))
  | inr (_, e) ↦ ground (arith, e)
]

pub pure-ok : {B A : Type 0} {a c : A} {v w : Work B} → pure a v ≡ (ok c, w) → (a ≡ c) × (v ≡ w)
pure-ok h = (ok-injective (ap (λ r. r.0) h), ap (λ r. r.1) h)

-- A statement before the end.
pub last_statement-ok :
    {B A : Type 0} (f : Db → Result Db) (a : A) (w : Work B) {c : A} {w' : Work B}
    → proceed (λ _. pure a) (statement f w) ≡ (ok c, w')
    → (db : Db) × (f w.db ≡ ok db) × (a ≡ c) × (record w { db = db } ≡ w')
last_statement-ok f a w h =
    let (_, v, ran, out) = proceed-ok (λ _. pure a) (statement f w) h in
    let (db, e, same) = statement-ok f w ran in (db, e, (pure-ok out).0, sym same ∙ (pure-ok out).1)

-- A run has returned or thrown.
pub Ended-cases :
    {B A : Type 0} (r : Result A × Work B)
    → ((a : A) × (w : Work B) × (r ≡ (ok a, w))) ⊎ ((e : Error) × (w : Work B) × (r ≡ (err e, w)))
Ended-cases (ok a, w) = inl (a, w, refl)
Ended-cases (err e, w) = inr (e, w, refl)
