-- ===== src/Idempotency/Simulation.antt =====
-- The decorator refines the ledger of executed requests: the cache and the statuses change nothing
-- that a client sees.
use msg_backend.Prelude.{
  ℕ, ◌≡◌, refl, sym, ap, ◌∙◌, subst, inl, inr, true, false, Option, none, some, ◌∷◌, if◌then◌else◌,
  ltb, ◌==◌, All, first-All, Bool-cases, arith,
}
use msg_backend.Idempotency.{
  RequestId, is_same, Request, id_of, Response, Answer, refused, responded, Outcome, done, raised,
  idempotency_key_conflict, Record, CacheEntry, Store, CacheHealth, max_key_length, find_record,
  cache_get, cache_set, is_processing, response_from_cache, response_from_record, normalized,
  on_commit, run_view, by_record, by_cache, with_key, idempotent,
}
use msg_backend.Idempotency.Refinement.{
  Executed, Ledger, execute, replay_or_execute, serve_key, serve, executed_of, all_executed,
}
use msg_backend.Idempotency.Lookup.{
  is_at_rest, lookup, Agrees, IsConsistent, ledger_of, is_same-eq, is_same_refl, lookup-find,
  executed_if, no_response, All-Agrees-new, cache_set-Agrees,
}

-- One answer and what is left, of the code and of the ledger.
pub record Refines {S B : Type 0} (x : Answer B × Store S B) (y : Answer B × Ledger S B)
    : Type 0 where
  pub same_answer : x.0 ≡ y.0
  pub same_ledger : ledger_of x.1 ≡ y.1
  pub consistent : IsConsistent x.1

module _ {S B : Type 0} (normalize : B → B) (view : S → Outcome S B) (health : CacheHealth) where
  cached_entry :
      (id : RequestId) (e : CacheEntry B) (st : Store S B)
      → IsConsistent st
      → cache_get health id st.cache ≡ some e
      → Agrees (all_executed st.records) e × (is_same e.id id ≡ true)
  cached_entry id e st c got = elim (Bool-cases health.reads) [
    | inl y ↦
        first-All (Agrees (all_executed st.records)) (λ e. is_same e.id id) st.cache e c.cached
          (sym (rw y refl) ∙ got)
    | inr n ↦ absurd (ground (arith, n, got))
  ]

  replayed :
      (e : CacheEntry B) (x : Executed B) (fingerprint : ℕ)
      → e.response ≡ x.response
      → e.fingerprint ≡ some x.request_hash
      → response_from_cache e fingerprint ≡ (
          if x.request_hash == fingerprint
          then responded x.response
          else refused idempotency_key_conflict)
  replayed e x fingerprint r h = elim (Bool-cases (x.request_hash == fingerprint)) [
    | inl y ↦ rw h (rw y (ap responded r))
    | inr n ↦ rw h (rw n refl)
  ]

  from_cache :
      (id : RequestId) (fingerprint : ℕ) (e : CacheEntry B) (st : Store S B)
      → IsConsistent st
      → cache_get health id st.cache ≡ some e
      → Refines
          (response_from_cache e fingerprint, st)
          (replay_or_execute normalize view id fingerprint
            (lookup id (all_executed st.records))
            (ledger_of st))
  from_cache id fingerprint e st c got =
      let (agrees, same) = cached_entry id e st c got in
      let found : lookup id (all_executed st.records) ≡ some agrees.entry =
        subst (λ id. lookup id (all_executed st.records) ≡ some agrees.entry)
          (is_same-eq e.id id same) agrees.found in
      rw found (record {
        same_answer = replayed e agrees.entry fingerprint agrees.same_response agrees.same_hash;
        same_ledger = refl;
        consistent = c;
      })

  ran :
      (id : RequestId) (fingerprint : ℕ) (o : Outcome S B) (st : Store S B)
      → IsConsistent st
      → lookup id (all_executed st.records) ≡ none
      → Refines
          (run_view normalize view health id fingerprint o st)
          (execute normalize view id fingerprint o (ledger_of st))
  ran id fingerprint (raised x) st c fresh = record {
    same_answer = refl;
    same_ledger = refl;
    consistent = c;
  }
  ran id fingerprint (done response tables) st c fresh =
      let answer = normalized normalize response in
      let x : Executed B = record { id = id; request_hash = fingerprint; response = answer } in
      let old = all_executed st.records in
      record {
        same_answer = refl;
        same_ledger = refl;
        consistent = record {
          rest = (ground arith, c.rest);
          cached =
              cache_set-Agrees health id x (x ∷ old) st.cache (rw (is_same_refl id) refl)
                (All-Agrees-new x old st.cache fresh c.cached);
        };
      }

  from_record :
      (id : RequestId) (fingerprint : ℕ) (o : Option (Record B)) (st : Store S B)
      → IsConsistent st
      → find_record id st.records ≡ o
      → Refines
          (by_record normalize view health id fingerprint o st)
          (replay_or_execute normalize view id fingerprint (executed_if o) (ledger_of st))
  from_record id fingerprint none st c e =
      ran id fingerprint (view st.tables) st c (lookup-find id st.records c.rest ∙ ap executed_if e)
  from_record id fingerprint (some r) st c e =
      by_response r.response refl
        (first-All (λ r. is_at_rest r ≡ true) (λ r. is_same r.id id) st.records r c.rest e).0
    where
      by_response :
          (o : Option (Response B))
          → r.response ≡ o
          → is_at_rest r ≡ true
          → Refines
              (on_commit normalize view health id fingerprint
                (response_from_record r fingerprint)
                st)
              (replay_or_execute normalize view id fingerprint (executed_of r) (ledger_of st))
      by_response none e' rest = absurd (no_response r e' rest)
      by_response (some response) e' rest =
          let ready : is_processing r.status ≡ false = ground (arith, rest) in
          let x : Executed B = record {
            id = r.id;
            request_hash = r.request_hash;
            response = response;
          } in
          let found : lookup id (all_executed st.records) ≡ some x =
            lookup-find id st.records c.rest ∙ ap executed_if e ∙ rw e' refl in
          elim (Bool-cases (r.request_hash == fingerprint)) [
            | inl y ↦
                let same : r.request_hash ≡ fingerprint = ground (arith, y) in
                rw y (
                  rw ready (
                    rw e' (record {
                      same_answer = rw y refl;
                      same_ledger = refl;
                      consistent = record {
                        rest = c.rest;
                        cached =
                            subst
                              (λ f.
                                All (Agrees (all_executed st.records))
                                  (cache_set health id response f st.cache))
                              same
                              (cache_set-Agrees health id x (all_executed st.records) st.cache found
                                c.cached);
                      };
                    })))
            | inr n ↦
                rw n
                  (rw e' (record { same_answer = rw n refl; same_ledger = refl; consistent = c }))
          ]

  -- In a store where no record is in progress and the cache agrees with the records, a request with
  -- any view, and a cache that may fail to be read or written, gets the answer of the ledger of
  -- executed requests, leaves what the ledger leaves, and leaves such a store.
  pub idempotent-Refines :
      (q : Request) (st : Store S B)
      → IsConsistent st
      → Refines (idempotent normalize view health q st) (serve normalize view q (ledger_of st))
  unfolding idempotent serve
  idempotent-Refines q st c = by_key q.key
    where
      by_key :
          (k : Option (ℕ × ℕ))
          → Refines
              (with_key normalize view health q k st)
              (serve_key normalize view q k (ledger_of st))
      by_key none = record { same_answer = refl; same_ledger = refl; consistent = c }
      by_key (some (key, size)) = elim (Bool-cases (ltb max_key_length size)) [
        | inl y ↦ rw y (record { same_answer = refl; same_ledger = refl; consistent = c })
        | inr n ↦ rw n (by_entry key (cache_get health (id_of q key) st.cache) refl)
      ]
        where
          by_entry :
              (key : ℕ) (o : Option (CacheEntry B))
              → cache_get health (id_of q key) st.cache ≡ o
              → Refines (by_cache normalize view health (id_of q key) q.fingerprint o st) (
                  replay_or_execute normalize view
                    (id_of q key)
                    q.fingerprint
                    (lookup (id_of q key) (all_executed st.records))
                    (ledger_of st))
          by_entry key (some e) got = from_cache (id_of q key) q.fingerprint e st c got
          by_entry key none got =
              subst
                (λ o.
                  Refines
                    (by_record normalize view health (id_of q key) q.fingerprint
                      (find_record (id_of q key) st.records) st)
                    (replay_or_execute normalize view (id_of q key) q.fingerprint o (ledger_of st)))
                (sym (lookup-find (id_of q key) st.records c.rest))
                (from_record (id_of q key) q.fingerprint (find_record (id_of q key) st.records) st c
                  refl)
