-- ===== src/Realtime/Requests.antt =====
-- What a request does to the rooms of a client, and to nothing else.
use orbit_exchange.Base.{
  ℕ, ◌≡◌, refl, ◌∙◌, Bool, true, false, List, [], ◌∷◌, Option, none, some, ◌==◌, if◌then◌else◌,
  Bool-cases, inl, inr, arith,
}
use orbit_exchange.Realtime.Expected.{is_asked}
use orbit_exchange.Shared.{MarketSymbol}
use orbit_exchange.Realtime.{
  Kind, trade, orderbook, candle, Room, Gateway, set_in, set_all, kinds_of,
}

pub other_way : (c d : ℕ) (b : Bool) → (d == c) ≡ b → (c == d) ≡ b
other_way c d true h = ground (arith, h)
other_way c d false h = ground (arith, h)

-- A request writes the rooms that it is about.
set_all-asked :
    (c d : ℕ) (b : Bool) (s sy : MarketSymbol) (kind : Option Kind) (k : Kind) (g : Gateway)
    → (c == d) ≡ true
    → (set_all b d s (kinds_of kind) g).is_in c (record { symbol = sy; kind = k }) ≡ (
        if is_asked s kind (record { symbol = sy; kind = k })
        then b
        else g.is_in c (record { symbol = sy; kind = k }))
set_all-asked c d b s sy none trade g me = elim (Bool-cases (sy == s)) [
  | inl e ↦ rw (me, e) refl
  | inr e ↦ rw (me, e) refl
]
set_all-asked c d b s sy none orderbook g me = elim (Bool-cases (sy == s)) [
  | inl e ↦ rw (me, e) refl
  | inr e ↦ rw (me, e) refl
]
set_all-asked c d b s sy none candle g me = elim (Bool-cases (sy == s)) [
  | inl e ↦ rw (me, e) refl
  | inr e ↦ rw (me, e) refl
]
set_all-asked c d b s sy (some trade) trade g me = elim (Bool-cases (sy == s)) [
  | inl e ↦ rw (me, e) refl
  | inr e ↦ rw (me, e) refl
]
set_all-asked c d b s sy (some trade) orderbook g me = elim (Bool-cases (sy == s)) [
  | inl e ↦ rw (me, e) refl
  | inr e ↦ rw (me, e) refl
]
set_all-asked c d b s sy (some trade) candle g me = elim (Bool-cases (sy == s)) [
  | inl e ↦ rw (me, e) refl
  | inr e ↦ rw (me, e) refl
]
set_all-asked c d b s sy (some orderbook) trade g me = elim (Bool-cases (sy == s)) [
  | inl e ↦ rw (me, e) refl
  | inr e ↦ rw (me, e) refl
]
set_all-asked c d b s sy (some orderbook) orderbook g me = elim (Bool-cases (sy == s)) [
  | inl e ↦ rw (me, e) refl
  | inr e ↦ rw (me, e) refl
]
set_all-asked c d b s sy (some orderbook) candle g me = elim (Bool-cases (sy == s)) [
  | inl e ↦ rw (me, e) refl
  | inr e ↦ rw (me, e) refl
]
set_all-asked c d b s sy (some candle) trade g me = elim (Bool-cases (sy == s)) [
  | inl e ↦ rw (me, e) refl
  | inr e ↦ rw (me, e) refl
]
set_all-asked c d b s sy (some candle) orderbook g me = elim (Bool-cases (sy == s)) [
  | inl e ↦ rw (me, e) refl
  | inr e ↦ rw (me, e) refl
]
set_all-asked c d b s sy (some candle) candle g me = elim (Bool-cases (sy == s)) [
  | inl e ↦ rw (me, e) refl
  | inr e ↦ rw (me, e) refl
]

set_all-others :
    (c d : ℕ) (b : Bool) (s : MarketSymbol) (ks : List Kind) (g : Gateway)
    → (c == d) ≡ false
    → (r : Room) → (set_all b d s ks g).is_in c r ≡ g.is_in c r
set_all-others c d b s [] g h r = refl
set_all-others c d b s (k ∷ ks) g h r =
    set_all-others c d b s ks (set_in b d (record { symbol = s; kind = k }) g) h r ∙ rw h refl

pub set_all-rooms :
    (c d : ℕ) (b : Bool) (s : MarketSymbol) (kind : Option Kind) (g : Gateway) (r : Room)
    → (set_all b d s (kinds_of kind) g).is_in c r
      ≡ (if d == c then if is_asked s kind r then b else g.is_in c r else g.is_in c r)
set_all-rooms c d b s kind g r = elim (Bool-cases (d == c)) [
  | inl e ↦ rw e (set_all-asked c d b s r.symbol kind r.kind g (other_way c d true e))
  | inr e ↦ rw e (set_all-others c d b s (kinds_of kind) g (other_way c d false e) r)
]

-- Rooms change; clients and what was sent stay.
pub set_all-kept :
    (d : ℕ) (b : Bool) (s : MarketSymbol) (ks : List Kind) (g : Gateway)
    → ((set_all b d s ks g).clients ≡ g.clients) × ((set_all b d s ks g).emitted ≡ g.emitted)
set_all-kept d b s [] g = (refl, refl)
set_all-kept d b s (k ∷ ks) g =
    set_all-kept d b s ks (set_in b d (record { symbol = s; kind = k }) g)
