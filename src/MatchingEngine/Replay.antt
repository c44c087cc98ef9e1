-- ===== src/MatchingEngine/Replay.antt =====
-- What the replay at boot gives to each book.
use orbit_exchange.Base.{
  ℕ, ◌≡◌, refl, ◌∙◌, ap, Bool, true, false, List, [], ◌∷◌, Option, none, some, ◌==◌, ◌&&◌, ==-refl,
  ==-eq, Bool-cases, inl, inr, arith, keep_if,
}
use orbit_exchange.Schema.{Order}
use orbit_exchange.Engine.{Engine}
use orbit_exchange.OrderTable.{is_active}
use orbit_exchange.MatchingEngine.{
  Books, get_engine, put_engine, is_limit, replay_priced, replay_order, replay_open_orders,
}

module _ {B : Type 0} (E : Engine B) where
  get_engine-put_engine_self :
      (s : ℕ) (b : B) (bs : Books B) → get_engine E s (put_engine E s b bs) ≡ b
  unfolding get_engine put_engine
  get_engine-put_engine_self s b [] = rw (==-refl s) refl
  get_engine-put_engine_self s b ((t, c) ∷ bs) = elim (Bool-cases (t == s)) [
    | inl e ↦ rw (e, e) refl
    | inr e ↦ rw (e, e) (get_engine-put_engine_self s b bs)
  ]

  get_engine-put_engine_ne :
      (s t : ℕ) (b : B) (bs : Books B)
      → (t == s) ≡ false
      → get_engine E s (put_engine E t b bs) ≡ get_engine E s bs
  unfolding get_engine put_engine
  get_engine-put_engine_ne s t b [] ne = rw ne refl
  get_engine-put_engine_ne s t b ((r, c) ∷ bs) ne =
      ground (arith, get_engine-put_engine_ne s t b bs ne)

  -- The open orders of one market, added to its book in the order of the table.
  abbrev pub add_priced : Order → Option ℕ → B → B
  add_priced o none b = b
  add_priced o (some p) b = (E.add b o.id o.side p o.leave_qty).0

  abbrev pub add_open : List Order → B → B
  add_open [] b = b
  add_open (o ∷ os) b = add_open os (add_priced o o.price b)

  abbrev pub is_open_on : ℕ → Order → Bool
  is_open_on s o = o.symbol == s && (is_active o.status && is_limit E o.type)

  replay_priced-get_engine :
      (s : ℕ) (o : Order) (p : Option ℕ) (bs : Books B)
      → (o.symbol == s) ≡ true
      → get_engine E s (replay_priced E o p bs) ≡ add_priced o p (get_engine E s bs)
  replay_priced-get_engine s o none bs same = refl
  replay_priced-get_engine s o (some p) bs same =
      rw (==-eq o.symbol s same) (get_engine-put_engine_self s _ bs)

  replay_priced-get_engine_ne :
      (s : ℕ) (o : Order) (p : Option ℕ) (bs : Books B)
      → (o.symbol == s) ≡ false
      → get_engine E s (replay_priced E o p bs) ≡ get_engine E s bs
  replay_priced-get_engine_ne s o none bs ne = refl
  replay_priced-get_engine_ne s o (some p) bs ne = get_engine-put_engine_ne s o.symbol _ bs ne

  -- One row.
  replay_order-get_engine :
      (s : ℕ) (o : Order) (bs : Books B)
      → get_engine E s (replay_order E o bs)
        ≡ add_open (keep_if (is_open_on s) (o ∷ [])) (get_engine E s bs)
  replay_order-get_engine s o bs = elim (Bool-cases (o.symbol == s)) [
    | inr other ↦ elim (Bool-cases (is_active o.status && is_limit E o.type)) [
      | inl live ↦ rw (other, live, replay_order) (replay_priced-get_engine_ne s o o.price bs other)
      | inr closed ↦ rw (other, closed, replay_order) refl
    ]
    | inl same ↦ elim (Bool-cases (is_active o.status && is_limit E o.type)) [
      | inl live ↦ rw (same, live, replay_order) (replay_priced-get_engine s o o.price bs same)
      | inr closed ↦ rw (same, closed, replay_order) refl
    ]
  ]

  add_open-keep_if :
      (s : ℕ) (o : Order) (os : List Order) (b : B)
      → add_open (keep_if (is_open_on s) os) (add_open (keep_if (is_open_on s) (o ∷ [])) b)
        ≡ add_open (keep_if (is_open_on s) (o ∷ os)) b
  add_open-keep_if s o os b = elim (Bool-cases (is_open_on s o)) [
    | inl kept ↦ rw kept refl
    | inr dropped ↦ rw dropped refl
  ]

  -- After the replay, the book of each market has had exactly the open limit orders of that market
  -- added, with what is left of them, in the order of their ids; no other row touches it.
  pub replay_open_orders-get_engine :
      (s : ℕ) (os : List Order) (bs : Books B)
      → get_engine E s (replay_open_orders E os bs)
        ≡ add_open (keep_if (is_open_on s) os) (get_engine E s bs)
  unfolding replay_open_orders
  replay_open_orders-get_engine s [] bs = refl
  replay_open_orders-get_engine s (o ∷ os) bs =
      replay_open_orders-get_engine s os (replay_order E o bs)
      ∙ ap (add_open (keep_if (is_open_on s) os)) (replay_order-get_engine s o bs)
      ∙ add_open-keep_if s o os (get_engine E s bs)
