-- ===== src/Paging/Follow/Queries.antt =====
-- The pages of a query on a table whose ids are unique.
use orbit_exchange.Base.{
  ℕ, zero, suc, ◌≡◌, ◌<◌, Bool, false, List, [], ◌∷◌, ◌++◌, none, some, ◌==◌, length, keep_if,
  IsKeyed, Every, Every-append, Bool-cases, inl, inr, arith,
}
use orbit_exchange.Paging.{reverse, page}
use orbit_exchange.Paging.Follow.{follow, follow-rows}

module _ {A : Type 0} where
  Every-keep_if :
      (p : A → Bool) (P : A → Type 0) (xs : List A) → Every P xs → Every P (keep_if p xs)
  Every-keep_if p P [] h = tt
  Every-keep_if p P (x ∷ xs) (q, h) = elim (Bool-cases (p x)) [
    | inl e ↦ rw e (q, Every-keep_if p P xs h)
    | inr e ↦ rw e (Every-keep_if p P xs h)
  ]

  Every-reverse : (P : A → Type 0) (xs : List A) → Every P xs → Every P (reverse xs)
  Every-reverse P [] h = tt
  Every-reverse P (x ∷ xs) (q, h) =
      Every-append P (reverse xs) (x ∷ []) (Every-reverse P xs h) (q, tt)

module _ {A : Type 0} (id : A → ℕ) where
  IsKeyed-keep_if : (p : A → Bool) (rows : List A) → IsKeyed id rows → IsKeyed id (keep_if p rows)
  IsKeyed-keep_if p [] h = tt
  IsKeyed-keep_if p (x ∷ xs) (new, h) = elim (Bool-cases (p x)) [
    | inl e ↦ rw e (Every-keep_if p (λ y. (id x == id y) ≡ false) xs new, IsKeyed-keep_if p xs h)
    | inr e ↦ rw e (IsKeyed-keep_if p xs h)
  ]

  IsKeyed-append_last :
      (xs : List A) (z : A)
      → Every (λ y. (id z == id y) ≡ false) xs
      → IsKeyed id xs
      → IsKeyed id (xs ++ z ∷ [])
  IsKeyed-append_last [] z new h = (tt, tt)
  IsKeyed-append_last (x ∷ xs) z (n, new) (own, h) =
      let other : (id x == id z) ≡ false = ground (arith, n) in
      (
        Every-append (λ y. (id x == id y) ≡ false) xs (z ∷ []) own (other, tt),
        IsKeyed-append_last xs z new h,
      )

  IsKeyed-reverse : (rows : List A) → IsKeyed id rows → IsKeyed id (reverse rows)
  IsKeyed-reverse [] h = tt
  IsKeyed-reverse (x ∷ xs) (new, h) =
      IsKeyed-append_last (reverse xs) x (Every-reverse (λ y. (id x == id y) ≡ false) xs new)
        (IsKeyed-reverse xs h)

  -- Newest first, and oldest first.
  pub follow-newest :
      (p : A → Bool) (n : ℕ) (table : List A)
      → 0 < n
      → IsKeyed id table
      → follow
          (suc (length (reverse (keep_if p table))))
          (λ c. page id n c (reverse (keep_if p table)))
          none
        ≡ some (reverse (keep_if p table))
  follow-newest p zero table h keyed = ground arith
  follow-newest p (suc n) table h keyed =
      follow-rows id n _ (IsKeyed-reverse (keep_if p table) (IsKeyed-keep_if p table keyed))

  pub follow-oldest :
      (p : A → Bool) (n : ℕ) (table : List A)
      → 0 < n
      → IsKeyed id table
      → follow (suc (length (keep_if p table))) (λ c. page id n c (keep_if p table)) none
        ≡ some (keep_if p table)
  follow-oldest p zero table h keyed = ground arith
  follow-oldest p (suc n) table h keyed = follow-rows id n _ (IsKeyed-keep_if p table keyed)
