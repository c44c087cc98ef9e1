-- ===== src/Paging/Follow.antt =====
-- A client that follows the cursors.
pub mod Queries
use orbit_exchange.Base.{
  ℕ, zero, suc, ◌≡◌, ◌≤◌, ◌<◌, refl, sym, ◌∙◌, ap, true, false, List, [], ◌∷◌, ◌++◌, Option, none,
  some, ltb, ◌==◌, ==-refl, length, take, Every, IsKeyed, append_assoc, Bool-cases, inl, inr, arith,
}
use orbit_exchange.Base.Outcome.{Result, ok, err}
use mathlib.Core.Path.{subst}
use orbit_exchange.Paging.{Page, after, from_cursor, last_id, page}

module _ {A : Type 0} where
  abbrev and_on : List A → Option (List A) → Option (List A)
  and_on items none = none
  and_on items (some rest) = some (items ++ rest)

  abbrev go_on : (Option ℕ → Option (List A)) → List A → Option ℕ → Option (List A)
  go_on next items none = some items
  go_on next items (some c) = and_on items (next (some c))

  abbrev follow_page : (Option ℕ → Option (List A)) → Result (Page A) → Option (List A)
  follow_page next (err e) = none
  follow_page next (ok p) = go_on next p.items p.next_cursor

  -- The rows of all pages that a service answers from a cursor on; `none` if a page throws, or if this many pages do not
  -- reach the last one.
  unfoldable pub follow : ℕ → (Option ℕ → Result (Page A)) → Option ℕ → Option (List A)
  follow zero ask cursor = none
  follow (suc pages) ask cursor = follow_page (follow pages ask) (ask cursor)

module _ {A : Type 0} (id : A → ℕ) where
  Every-middle :
      (P : A → Type 0) (before : List A) (z : A) (rest : List A)
      → Every P (before ++ z ∷ rest)
      → P z
  Every-middle P [] z rest (p, h) = p
  Every-middle P (x ∷ before) z rest (p, h) = Every-middle P before z rest h

  after-middle :
      (before : List A) (z : A) (rest : List A)
      → IsKeyed id (before ++ z ∷ rest)
      → after id (id z) (before ++ z ∷ rest) ≡ rest
  after-middle [] z rest h = rw (==-refl (id z)) refl
  after-middle (x ∷ before) z rest (new, h) =
      rw (Every-middle (λ y. (id x == id y) ≡ false) before z rest new)
        (after-middle before z rest h)

  -- A list at the end of a page.
  record Cut (n : ℕ) (ys : List A) : Type 0 where
    before : List A
    last : A
    rest : List A
    whole : ys ≡ before ++ last ∷ rest
    shown : take n ys ≡ before ++ last ∷ []
    shown_of_fetched : take n (take (suc n) ys) ≡ before ++ last ∷ []
    shorter : suc (length rest) ≤ length ys

  cut : (n : ℕ) (ys : List A) → n < length ys → Cut (suc n) ys
  cut zero [] h = ground arith
  cut zero (y ∷ ys) h = record {
    before = [];
    last = y;
    rest = ys;
    whole = refl;
    shown = refl;
    shown_of_fetched = refl;
    shorter = omega arith;
  }
  cut (suc n) [] h = ground arith
  cut (suc n) (y ∷ ys) h =
      let c = cut n ys (omega (arith, h)) in
      record {
        before = y ∷ c.before;
        last = c.last;
        rest = c.rest;
        whole = ap (λ xs. y ∷ xs) c.whole;
        shown = ap (λ xs. y ∷ xs) c.shown;
        shown_of_fetched = ap (λ xs. y ∷ xs) c.shown_of_fetched;
        shorter = omega (arith, c.shorter);
      }

  last_id-append : (before : List A) (z : A) → last_id id (before ++ z ∷ []) ≡ ok (id z)
  last_id-append [] z = refl
  last_id-append (x ∷ []) z = refl
  last_id-append (x ∷ y ∷ before) z = last_id-append (y ∷ before) z

  length-take : (n : ℕ) (ys : List A) → length ys ≤ n → take n ys ≡ ys
  length-take zero [] h = refl
  length-take zero (y ∷ ys) h = ground arith
  length-take (suc n) [] h = refl
  length-take (suc n) (y ∷ ys) h = ap (λ xs. y ∷ xs) (length-take n ys (omega (arith, h)))

  more_than : (n : ℕ) (ys : List A) → n < length ys → ltb n (length (take (suc n) ys)) ≡ true
  more_than zero [] h = ground arith
  more_than zero (y ∷ ys) h = refl
  more_than (suc n) [] h = ground arith
  more_than (suc n) (y ∷ ys) h = ground (arith, more_than n ys (omega (arith, h)))

  -- The last page.
  page-last :
      (n : ℕ) (cursor : Option ℕ) (rows ys : List A)
      → from_cursor id cursor rows ≡ ys
      → ltb n (length ys) ≡ false
      → page id n cursor rows ≡ ok (record { items = ys; next_cursor = none })
  unfolding page
  page-last n cursor rows ys at short =
      let all : take (suc n) ys ≡ ys = length-take (suc n) ys (ground (arith, short)) in
      rw (at, all, short) refl

  -- A page before it.
  page-more :
      (n : ℕ) (cursor : Option ℕ) (rows ys : List A) (c : Cut (suc n) ys)
      → from_cursor id cursor rows ≡ ys
      → suc n < length ys
      → page id (suc n) cursor rows
        ≡ ok (record { items = c.before ++ c.last ∷ []; next_cursor = some (id c.last) })
  unfolding page
  page-more n cursor rows ys c at long =
      rw (at, more_than (suc n) ys long, c.shown_of_fetched, last_id-append c.before c.last) refl

  from_middle :
      (rows seen before : List A) (z : A) (rest : List A)
      → IsKeyed id rows
      → rows ≡ seen ++ (before ++ z ∷ rest)
      → from_cursor id (some (id z)) rows ≡ rest
  from_middle rows seen before z rest keyed at =
      let split : rows ≡ (seen ++ before) ++ z ∷ rest =
        at ∙ sym (append_assoc seen before (z ∷ rest)) in
      subst (λ rs. from_cursor id (some (id z)) rs ≡ rest) (sym split)
        (after-middle (seen ++ before) z rest (subst (IsKeyed id) split keyed))

  -- From the rows that are left.
  follow-left :
      (fuel n : ℕ) (cursor : Option ℕ) (rows seen ys : List A)
      → IsKeyed id rows
      → rows ≡ seen ++ ys
      → from_cursor id cursor rows ≡ ys
      → length ys ≤ fuel
      → follow (suc fuel) (λ c. page id (suc n) c rows) cursor ≡ some ys
  unfolding follow
  follow-left zero n cursor rows seen ys keyed split at enough =
      rw (page-last (suc n) cursor rows ys at (ground arith)) refl
  follow-left (suc fuel) n cursor rows seen ys keyed split at enough =
      elim (Bool-cases (ltb (suc n) (length ys))) [
        | inr short ↦ rw (page-last (suc n) cursor rows ys at short) refl
        | inl long ↦
            let more : suc n < length ys = ground (arith, long) in
            let c = cut n ys (omega (arith, more)) in
            let there = split ∙ ap (λ l. seen ++ l) c.whole in
            let moved : rows ≡ (seen ++ (c.before ++ c.last ∷ [])) ++ c.rest =
              there
              ∙ ap (λ l. seen ++ l) (sym (append_assoc c.before (c.last ∷ []) c.rest))
              ∙ sym (append_assoc seen (c.before ++ c.last ∷ []) c.rest) in
            let resumed =
              follow-left fuel n (some (id c.last)) rows (seen ++ (c.before ++ c.last ∷ [])) c.rest
                keyed moved (from_middle rows seen c.before c.last c.rest keyed there)
                (omega (arith, c.shorter, enough)) in
            rw (page-more n cursor rows ys c at more, resumed)
              (ap some (append_assoc c.before (c.last ∷ []) c.rest ∙ sym c.whole))
      ]

  -- Following the cursors from the first page ends within one page more than there are rows, and
  -- the pages together are exactly the rows, each once and in their order; a page shows at least
  -- one row, and no two rows have the same id.
  pub follow-rows :
      (n : ℕ) (rows : List A)
      → IsKeyed id rows
      → follow (suc (length rows)) (λ c. page id (suc n) c rows) none ≡ some rows
  follow-rows n rows keyed =
      follow-left (length rows) n none rows [] rows keyed refl refl (omega arith)

  -- The first page.
  pub page-first :
      (n : ℕ) (rows : List A)
      → 0 < n
      → (p : Page A) × (page id n none rows ≡ ok p) × (p.items ≡ take n rows)
  page-first zero rows h = ground arith
  page-first (suc n) rows h = elim (Bool-cases (ltb (suc n) (length rows))) [
    | inr short ↦ (
      record { items = rows; next_cursor = none },
      page-last (suc n) none rows rows refl short,
      sym (length-take (suc n) rows (ground (arith, short))),
    )
    | inl long ↦
        let more : suc n < length rows = ground (arith, long) in
        let c = cut n rows (omega (arith, more)) in
        (
          record { items = c.before ++ c.last ∷ []; next_cursor = some (id c.last) },
          page-more n none rows rows c refl more,
          sym c.shown,
        )
  ]
