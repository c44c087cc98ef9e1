-- ===== src/Tests/Reads.antt =====
-- Candles and repeated requests on small inputs.
use orbit_exchange.Base.{
  ℕ, ◌≡◌, ◌⊎◌, ◌+◌, ◌≤◌, refl, Option, none, some, List, [], ◌∷◌, true, not, keep_if, length, arith,
}
use orbit_exchange.Base.Outcome.{Error, engine_error}
use orbit_exchange.Shared.{TradeEvent}
use orbit_exchange.Candles.{aggregate}
use orbit_exchange.Candles.Buckets.{
  volumes, volumes-aggregate, AllWellFormed, aggregate-AllWellFormed,
}
use orbit_exchange.Idempotency.{
  Request, IdempotencyKey, responded, Site, Handle, intercept, miss, scope_of, is_expired,
  delete_expired,
}
use orbit_exchange.Idempotency.Replay.{IsReplayed, intercept-again, delete_expired-keeps}
use orbit_exchange.Tests.Workers.{trade}

-- Two trades of one minute, a message that is no trade, and a trade of the next minute.
abbrev trades_of_two_minutes : List (Option TradeEvent)
trades_of_two_minutes =
    some (trade 100 2 1000) ∷ some (trade 104 1 2000) ∷ none ∷ some (trade 90 5 61000) ∷ []

volumes-aggregate_example : volumes (aggregate trades_of_two_minutes []) ≡ 0 + 8
volumes-aggregate_example = volumes-aggregate trades_of_two_minutes []

aggregate-AllWellFormed_example : AllWellFormed (aggregate trades_of_two_minutes [])
aggregate-AllWellFormed_example = aggregate-AllWellFormed trades_of_two_minutes [] tt

abbrev request : ℕ → Request
request body = record {
  raw_key = some 3;
  is_uuid = true;
  user_id = some 20;
  method = 1;
  path = 2;
  body = body;
}

abbrev answers : Handle ℕ
answers n = (some (record { status = 201; body = n }), n + 1)

abbrev site : Site ℕ
site = record { keys = []; work = 0 }

abbrev answered_site : Site ℕ
answered_site = (intercept (λ b. b) (request 4) none 0 answers site).1

first_answer :
    intercept (λ b. b) (request 4) none 0 answers site
    ≡ (responded (record { status = 201; body = 0 }), answered_site)
unfolding intercept
first_answer = refl

-- The insert fails: the repetition runs the handler again.
repeated :
    (intercept
      (λ b. b)
      (request 4)
      none
      7
      answers
      (intercept (λ b. b) (request 4) (some engine_error) 0 answers site).1).1.work
    ≡ 2
unfolding intercept
repeated = refl

intercept-again_example :
    IsReplayed
      (λ b. b)
      (request 4)
      (request 6)
      none
      7
      answers
      answered_site
      (record { status = 201; body = 0 })
    ⊎ (((e : Error) × (none ≡ some e))
        × (intercept (λ b. b) (request 4) none 7 answers answered_site
            ≡ miss (λ b. b) none 7 (scope_of (request 4) 3 20) 4 answers answered_site))
intercept-again_example =
    intercept-again (λ b. b) (request 4) (request 6) none none 3 20 0 7 answers answers site
      answered_site (record { status = 201; body = 0 }) refl refl refl first_answer
      (λ e. omega (arith, e))

abbrev key : ℕ → IdempotencyKey
key expires = record {
  scope = record { user_id = 20; key = expires; method = 1; path = 2 };
  request_hash = 4;
  response = record { status = 201; body = 0 };
  expires_at = expires;
}

delete_expired-keeps_example :
    (keep_if (λ k. not (is_expired 10 k)) (delete_expired 1 10 (key 5 ∷ key 20 ∷ key 6 ∷ [])).1
      ≡ key 20 ∷ [])
    × (length (delete_expired 1 10 (key 5 ∷ key 20 ∷ key 6 ∷ [])).1
          + (delete_expired 1 10 (key 5 ∷ key 20 ∷ key 6 ∷ [])).0
        ≡ 3)
    × ((delete_expired 1 10 (key 5 ∷ key 20 ∷ key 6 ∷ [])).0 ≤ 1)
delete_expired-keeps_example = delete_expired-keeps 1 10 (key 5 ∷ key 20 ∷ key 6 ∷ [])
