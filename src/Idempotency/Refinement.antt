-- ===== src/Idempotency/Refinement.antt =====
-- What a client may rely on: a table of the requests that were executed, each with its first
-- response, and no cache. The decorator refines it.
use msg_backend.Prelude.{
  ℕ, Bool, true, false, Option, none, some, List, [], ◌∷◌, if◌then◌else◌, ltb, ◌==◌, first,
}
use msg_backend.Idempotency.{
  RequestId, is_same, Request, id_of, Response, Answer, refused, propagated, responded, Outcome,
  done, raised, idempotency_key_conflict, idempotency_key_required, invalid_request, Record,
  CacheEntry, max_key_length, normalized,
}

pub record Executed (B : Type 0) : Type 0 where
  pub id : RequestId
  pub request_hash : ℕ
  pub response : Response B

-- The other tables, and the requests that were executed.
pub record Ledger (S B : Type 0) : Type 0 where
  pub tables : S
  pub executed : List (Executed B)

module _ {S B : Type 0} (normalize : B → B) (view : S → Outcome S B) where
  abbrev pub execute : RequestId → ℕ → Outcome S B → Ledger S B → Answer B × Ledger S B
  execute id hash (raised e) l = (propagated e, l)
  execute id hash (done response tables) l =
      let answer = normalized normalize response in
      (
        responded answer,
        record {
          tables = tables;
          executed = record { id = id; request_hash = hash; response = answer } ∷ l.executed;
        },
      )

  abbrev pub replay_or_execute :
      RequestId → ℕ → Option (Executed B) → Ledger S B → Answer B × Ledger S B
  replay_or_execute id hash none l = execute id hash (view l.tables) l
  replay_or_execute id hash (some x) l =
      (if x.request_hash == hash then responded x.response else refused idempotency_key_conflict, l)

  abbrev pub serve_key : Request → Option (ℕ × ℕ) → Ledger S B → Answer B × Ledger S B
  serve_key q none l = (refused idempotency_key_required, l)
  serve_key q (some (key, size)) l =
      if ltb max_key_length size
      then (refused invalid_request, l)
      else replay_or_execute (id_of q key) q.fingerprint
          (first (λ x. is_same x.id (id_of q key)) l.executed) l

  -- A request is executed the first time that its key is sent; afterwards it gets its first response,
  -- or a conflict where its content differs. A request that raises leaves nothing.
  unfoldable pub serve : Request → Ledger S B → Answer B × Ledger S B
  serve q l = serve_key q q.key l

module _ {B : Type 0} where
  -- A record at rest has its response.
  abbrev pub executed_of : Record B → Option (Executed B)
  executed_of r = elim r.response [
    | none ↦ none
    | some response ↦
        some (record { id = r.id; request_hash = r.request_hash; response = response })
  ]

  abbrev pub all_executed : List (Record B) → List (Executed B)
  all_executed [] = []
  all_executed (r ∷ records) =
      let rest = all_executed records in elim (executed_of r) [ none ↦ rest | some x ↦ x ∷ rest ]

  abbrev pub has_response : Record B → Bool
  has_response r = elim r.response [ none ↦ false | some response ↦ true ]

  -- What a cache entry must say, where its request was executed.
  abbrev pub entry_of : Executed B → CacheEntry B
  entry_of x = record { id = x.id; response = x.response; fingerprint = some x.request_hash }
