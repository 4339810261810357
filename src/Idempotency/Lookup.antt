-- ===== src/Idempotency/Lookup.antt =====
-- The cache and the records between two requests, and how they agree.
use msg_backend.Prelude.{
  ◌≡◌, refl, sym, ◌∙◌, subst, inl, inr, Bool, true, false, not, Option, none, some, List, [], ◌∷◌,
  ◌&&◌, first, All, All-select, Bool-cases, arith,
}
use msg_backend.Idempotency.{
  RequestId, is_same, Response, Record, CacheEntry, Store, CacheHealth, find_record, cache_set,
  is_processing,
}
use msg_backend.Idempotency.Refinement.{Executed, Ledger, executed_of, all_executed, has_response}

pub is_same-eq : (a b : RequestId) → is_same a b ≡ true → a ≡ b
is_same-eq a b e = ground (arith, e)

pub is_same_refl : (a : RequestId) → is_same a a ≡ true
is_same_refl a = ground arith

abbrev pub is_at_rest : {B : Type 0} → Record B → Bool
is_at_rest r = not (is_processing r.status) && has_response r

abbrev pub lookup : {B : Type 0} → RequestId → List (Executed B) → Option (Executed B)
lookup id executed = first (λ x. is_same x.id id) executed

-- A cache entry says what the table of executed requests says.
pub record Agrees {B : Type 0} (executed : List (Executed B)) (e : CacheEntry B) : Type 0 where
  pub entry : Executed B
  pub found : lookup e.id executed ≡ some entry
  pub same_response : e.response ≡ entry.response
  pub same_hash : e.fingerprint ≡ some entry.request_hash

-- Between two requests, no record is in progress, and the cache agrees with the records.
pub record IsConsistent {S B : Type 0} (st : Store S B) : Type 0 where
  pub rest : All (λ r. is_at_rest r ≡ true) st.records
  pub cached : All (Agrees (all_executed st.records)) st.cache

-- What a client sees of the tables.
abbrev pub ledger_of : {S B : Type 0} → Store S B → Ledger S B
ledger_of st = record { tables = st.tables; executed = all_executed st.records }

module _ {B : Type 0} where
  abbrev pub executed_if : Option (Record B) → Option (Executed B)
  executed_if none = none
  executed_if (some r) = executed_of r

  pub no_response : (r : Record B) → r.response ≡ none → is_at_rest r ≡ true → ⊥
  no_response r e rest =
      let missing : has_response r ≡ false = rw e refl in ground (arith, missing, rest)

  pub lookup-find :
      (id : RequestId) (records : List (Record B))
      → All (λ r. is_at_rest r ≡ true) records
      → lookup id (all_executed records) ≡ executed_if (find_record id records)
  lookup-find id [] h = refl
  lookup-find id (r ∷ records) h = by_response r.response refl (lookup-find id records h.1)
    where
      by_response :
          (o : Option (Response B))
          → r.response ≡ o
          → lookup id (all_executed records) ≡ executed_if (find_record id records)
          → lookup id (all_executed (r ∷ records)) ≡ executed_if (find_record id (r ∷ records))
      by_response none e ih = absurd (no_response r e h.0)
      by_response (some response) e ih = elim (Bool-cases (is_same r.id id)) [
        | inl y ↦ rw e (rw y refl)
        | inr n ↦ rw e (rw n ih)
      ]

  still :
      (x : Executed B) (executed : List (Executed B)) (e : CacheEntry B)
      → lookup x.id executed ≡ none
      → (entry : Executed B) → lookup e.id executed ≡ some entry
      → lookup e.id (x ∷ executed) ≡ some entry
  still x executed e fresh entry found = elim (Bool-cases (is_same x.id e.id)) [
    | inl y ↦
        let missing : lookup e.id executed ≡ none =
          subst (λ id. lookup id executed ≡ none) (is_same-eq x.id e.id y) fresh in
        absurd (ground (arith, sym missing ∙ found))
    | inr n ↦ rw n found
  ]

  -- A new request changes no other request's entry.
  Agrees-new :
      (x : Executed B) (executed : List (Executed B)) (e : CacheEntry B)
      → lookup x.id executed ≡ none
      → Agrees executed e
      → Agrees (x ∷ executed) e
  Agrees-new x executed e fresh a = record {
    entry = a.entry;
    found = still x executed e fresh a.entry a.found;
    same_response = a.same_response;
    same_hash = a.same_hash;
  }

  pub All-Agrees-new :
      (x : Executed B) (executed : List (Executed B)) (cache : List (CacheEntry B))
      → lookup x.id executed ≡ none
      → All (Agrees executed) cache
      → All (Agrees (x ∷ executed)) cache
  All-Agrees-new x executed [] fresh h = tt
  All-Agrees-new x executed (e ∷ cache) fresh h =
      (Agrees-new x executed e fresh h.0, All-Agrees-new x executed cache fresh h.1)

  pub cache_set-Agrees :
      (health : CacheHealth) (id : RequestId) (x : Executed B) (executed : List (Executed B))
      (cache : List (CacheEntry B))
      → lookup id executed ≡ some x
      → All (Agrees executed) cache
      → All (Agrees executed) (cache_set health id x.response x.request_hash cache)
  cache_set-Agrees health id x executed cache found h = elim (Bool-cases health.writes) [
    | inl y ↦ rw y (
      record { entry = x; found = found; same_response = refl; same_hash = refl },
      All-select (Agrees executed) (λ e. not (is_same e.id id)) cache h,
    )
    | inr n ↦ rw n h
  ]
