-- ===== src/Idempotency.antt =====
-- Requests with an Idempotency-Key: the decorator of apps/board/idempotency.py, with its table and
-- its cache, and run_idempotent of apps/common/idempotency.py. Two requests with one key meet at the
-- unique constraint of the table, and are served one after the other. Texts, hashes and status codes
-- are numbers. The cache's key stands for its parts, and a cache that fails is an argument.
pub mod Refinement
pub mod Lookup
pub mod Simulation
pub mod Common
mod Tests
use msg_backend.Prelude.{
  ℕ, ◌+◌, Bool, true, false, not, ◌&&◌, Option, none, some, List, [], ◌∷◌, map, if◌then◌else◌, ltb,
  leb, ◌==◌, first, select,
}

pub record RequestId : Type 0 where
  pub user_id : ℕ
  pub method : ℕ
  pub path : ℕ
  pub key : ℕ

abbrev pub is_same : RequestId → RequestId → Bool
is_same a b = a.user_id == b.user_id && a.method == b.method && a.path == b.path && a.key == b.key

-- The header: a key and its length; none stands for no key or an empty one.
pub record Request : Type 0 where
  pub user_id : ℕ
  pub method : ℕ
  pub path : ℕ
  pub key : Option (ℕ × ℕ)
  pub fingerprint : ℕ

abbrev pub id_of : Request → ℕ → RequestId
id_of q key = record { user_id = q.user_id; method = q.method; path = q.path; key = key }

pub record Response (B : Type 0) : Type 0 where
  pub body : B
  pub status : ℕ

pub data Error : Type 0 where
  idempotency_key_required : Error
  invalid_request : Error
  idempotency_key_conflict : Error
  idempotency_in_progress : Error

-- What a request gets: one of these errors, an exception of the view, or a response.
pub data Answer (B : Type 0) : Type 0 where
  refused : Error → Answer B
  propagated : ℕ → Answer B
  responded : Response B → Answer B

-- What a view does with the other tables: it responds, or it raises.
pub data Outcome (S B : Type 0) : Type 0 where
  done : Response B → S → Outcome S B
  raised : ℕ → Outcome S B

pub data Status : Type 0 where
  processing : Status
  succeeded : Status
  failed : Status

pub record Record (B : Type 0) : Type 0 where
  pub id : RequestId
  pub request_hash : ℕ
  pub status : Status
  pub response : Option (Response B)

pub record CacheEntry (B : Type 0) : Type 0 where
  pub id : RequestId
  pub response : Response B
  pub fingerprint : Option ℕ

pub record Store (S B : Type 0) : Type 0 where
  pub tables : S
  pub records : List (Record B)
  pub cache : List (CacheEntry B)

-- Whether the cache can be read, and written.
pub record CacheHealth : Type 0 where
  pub reads : Bool
  pub writes : Bool

abbrev pub max_key_length : ℕ
max_key_length = 255

abbrev pub is_other : Option ℕ → ℕ → Bool
is_other none fingerprint = false
is_other (some f) fingerprint = not (f == fingerprint)

abbrev pub is_processing : Status → Bool
is_processing processing = true
is_processing _ = false

module _ {B : Type 0} where
  abbrev pub find_record : RequestId → List (Record B) → Option (Record B)
  find_record id records = first (λ r. is_same r.id id) records

  abbrev pub cache_get : CacheHealth → RequestId → List (CacheEntry B) → Option (CacheEntry B)
  cache_get health id cache = if health.reads then first (λ e. is_same e.id id) cache else none

  abbrev pub cache_set :
      CacheHealth → RequestId → Response B → ℕ → List (CacheEntry B) → List (CacheEntry B)
  cache_set health id response fingerprint cache =
      if health.writes
      then record { id = id; response = response; fingerprint = some fingerprint }
        ∷ select (λ e. not (is_same e.id id)) cache
      else cache

  abbrev pub response_from_cache : CacheEntry B → ℕ → Answer B
  response_from_cache cached fingerprint =
      if is_other cached.fingerprint fingerprint
      then refused idempotency_key_conflict
      else responded cached.response

  -- A record that is not in progress has its response.
  abbrev pub response_of : Option (Response B) → Answer B
  response_of none = refused idempotency_in_progress
  response_of (some response) = responded response

  abbrev pub response_from_record : Record B → ℕ → Answer B
  response_from_record r fingerprint =
      if not (r.request_hash == fingerprint)
      then refused idempotency_key_conflict
      else if is_processing r.status
      then refused idempotency_in_progress
      else response_of r.response

  abbrev pub final_status : Response B → Status
  final_status response = if leb 500 response.status then failed else succeeded

  abbrev pub normalized : (B → B) → Response B → Response B
  normalized normalize response = record response { body = normalize response.body }

module _ {S B : Type 0} (normalize : B → B) (view : S → Outcome S B) where
  -- The write of the cache after the commit of an answer that is a response.
  abbrev pub on_commit : CacheHealth → RequestId → ℕ → Answer B → Store S B → Answer B × Store S B
  on_commit health id fingerprint (refused e) st = (refused e, st)
  on_commit health id fingerprint (propagated e) st = (propagated e, st)
  on_commit health id fingerprint (responded response) st =
      (responded response, record st { cache = cache_set health id response fingerprint st.cache })

  -- The transaction: the record is created, or another request has created it. Where the view
  -- raises, the record is rolled back with everything else.
  abbrev pub run_view : CacheHealth → RequestId → ℕ → Outcome S B → Store S B → Answer B × Store S B
  run_view health id fingerprint (raised e) st = (propagated e, st)
  run_view health id fingerprint (done response tables) st =
      let answer = normalized normalize response in
      on_commit health id fingerprint (responded answer) (record st {
        tables = tables;
        records =
            record {
              id = id;
              request_hash = fingerprint;
              status = final_status answer;
              response = some answer;
            }
            ∷ st.records;
      })

  abbrev pub by_record :
      CacheHealth → RequestId → ℕ → Option (Record B) → Store S B → Answer B × Store S B
  by_record health id fingerprint none st = run_view health id fingerprint (view st.tables) st
  by_record health id fingerprint (some r) st =
      on_commit health id fingerprint (response_from_record r fingerprint) st

  abbrev pub by_cache :
      CacheHealth → RequestId → ℕ → Option (CacheEntry B) → Store S B → Answer B × Store S B
  by_cache health id fingerprint none st =
      by_record health id fingerprint (find_record id st.records) st
  by_cache health id fingerprint (some cached) st = (response_from_cache cached fingerprint, st)

  abbrev pub with_key : CacheHealth → Request → Option (ℕ × ℕ) → Store S B → Answer B × Store S B
  with_key health q none st = (refused idempotency_key_required, st)
  with_key health q (some (key, size)) st =
      if ltb max_key_length size
      then (refused invalid_request, st)
      else by_cache health (id_of q key) q.fingerprint (cache_get health (id_of q key) st.cache) st

  unfoldable pub idempotent : CacheHealth → Request → Store S B → Answer B × Store S B
  idempotent health q st = with_key health q q.key st
