-- ===== src/Realtime/Received.antt =====
-- What a client receives while it is connected.
use orbit_exchange.Base.{ℕ, ◌≡◌, Bool, List, ◌++◌}
use orbit_exchange.Realtime.Emitted.{received, count}
use orbit_exchange.Shared.{MarketSymbol}
use orbit_exchange.Shared
use orbit_exchange.Realtime.{Room, Emission, Gateway}

-- What a step does to the client's rooms, and what it sends to it.
record Step (c : ℕ) (g g' : Gateway) (p : Room → Bool) (xs : List Emission) : Type 0 where
  rooms : (r : Room) → g'.is_in c r ≡ p r
  same_count : count c g'.clients ≡ count c g.clients
  got : received c g'.emitted ≡ received c g.emitted ++ xs
