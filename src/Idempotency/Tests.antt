-- ===== src/Idempotency/Tests.antt =====
-- A counter behind both wrappers: the view adds one and answers the sum.
use msg_backend.Prelude.{ℕ, ◌+◌, ◌≡◌, refl, true, false, some, [], arith}
use msg_backend.Idempotency.{
  Request, Response, refused, responded, idempotency_key_conflict, Outcome, done, Store,
  CacheHealth, idempotent,
}
use msg_backend.Idempotency.Refinement.{serve}
use msg_backend.Idempotency.Lookup.{ledger_of}
use msg_backend.Idempotency.Simulation.{Refines, idempotent-Refines}
use msg_backend.Idempotency.Common.{
  Call, Work, returned, api_error, Tables, run_idempotent, run_idempotent-replayed,
  run_idempotent_api_error,
}

abbrev count_up : ℕ → Outcome ℕ ℕ
count_up n = done (record { body = n + 1; status = 200 }) (n + 1)

abbrev request : Request
request = record { user_id = 1; method = 2; path = 3; key = some (4, 36); fingerprint = 5 }

abbrev healthy : CacheHealth
healthy = record { reads = true; writes = true }

abbrev broken : CacheHealth
broken = record { reads = false; writes = false }

abbrev empty_store : Store ℕ ℕ
empty_store = record { tables = 0; records = []; cache = [] }

abbrev after_first : Store ℕ ℕ
after_first = (idempotent (λ b. b) count_up healthy request empty_store).1

-- Sent twice, counted once, with the cache and without it.
counted_once :
    ((idempotent (λ b. b) count_up healthy request after_first).1.tables ≡ 1)
    × ((idempotent (λ b. b) count_up broken request after_first).1.tables ≡ 1)
unfolding idempotent
counted_once = (refl, refl)

idempotent-Refines_example :
    Refines
      (idempotent (λ b. b) count_up broken request empty_store)
      (serve (λ b. b) count_up request (ledger_of empty_store))
idempotent-Refines_example =
    idempotent-Refines (λ b. b) count_up broken request empty_store
      (record { rest = tt; cached = tt })

abbrev call : Call
call = record { user = 1; endpoint = 3; key = some (4, 36); request_hash = 5 }

abbrev created : ℕ → Response ℕ
created n = record { body = n; status = 200 }

abbrev add_one : ℕ → Work ℕ ℕ ℕ
add_one n = returned (n + 1) (n + 1)

abbrev not_found : Response ℕ
not_found = record { body = 0; status = 404 }

abbrev fail_always : ℕ → Work ℕ ℕ ℕ
fail_always n = api_error not_found

abbrev no_records : Tables ℕ ℕ
no_records = record { data_tables = 7; records = [] }

run_idempotent-replayed_example :
    run_idempotent created fail_always call (run_idempotent created add_one call no_records).1
    ≡ (responded (created 8), (run_idempotent created add_one call no_records).1)
unfolding run_idempotent
run_idempotent-replayed_example =
    run_idempotent-replayed created add_one fail_always call no_records
      (run_idempotent created add_one call no_records).1 (created 8) refl

run_idempotent_api_error_example :
    let (answer, st') = run_idempotent created fail_always call no_records in
    (answer ≡ responded not_found)
    × (st'.data_tables ≡ 7)
    × ((run_idempotent created add_one (record call { request_hash = 6 }) st').0
        ≡ refused idempotency_key_conflict)
run_idempotent_api_error_example =
    run_idempotent_api_error created fail_always add_one call 6 no_records 4 36 not_found refl
      (omega arith) refl (λ e. absurd (omega (arith, e))) refl
