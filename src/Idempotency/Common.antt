-- ===== src/Idempotency/Common.antt =====
-- run_idempotent of apps/common/idempotency.py: the work runs in a savepoint, so that an APIError
-- undoes the work and keeps the record, and any other exception undoes both.
use msg_backend.Prelude.{
  ℕ, ◌≤◌, ◌≡◌, ◌≢◌, refl, sym, ap, ◌∙◌, subst, inl, inr, Bool, true, false, not, ◌&&◌, Option, none,
  some, List, ◌∷◌, if◌then◌else◌, ltb, ◌==◌, first, Bool-cases, arith,
}
use msg_backend.Idempotency.{
  Response, idempotency_key_required, invalid_request, idempotency_key_conflict, Answer, refused,
  propagated, responded,
}

pub record IdempotencyRecord (B : Type 0) : Type 0 where
  pub user : ℕ
  pub endpoint : ℕ
  pub key : ℕ
  pub request_hash : ℕ
  pub response : Option (Response B)

-- The header is a key and its length; none stands for no key or an empty one.
pub record Call : Type 0 where
  pub user : ℕ
  pub endpoint : ℕ
  pub key : Option (ℕ × ℕ)
  pub request_hash : ℕ

-- What the work does: it returns data and has changed the tables, it raises an APIError, whose
-- response is `fail(...)`, or it raises another exception.
pub data Work (S D B : Type 0) : Type 0 where
  returned : D → S → Work S D B
  api_error : Response B → Work S D B
  crashed : ℕ → Work S D B

pub record Tables (S B : Type 0) : Type 0 where
  pub data_tables : S
  pub records : List (IdempotencyRecord B)

abbrev pub max_key_length : ℕ
max_key_length = 200

abbrev pub is_record : {B : Type 0} → Call → ℕ → IdempotencyRecord B → Bool
is_record q key r = r.user == q.user && r.endpoint == q.endpoint && r.key == key

abbrev pub record_of : {B : Type 0} → Call → ℕ → Response B → IdempotencyRecord B
record_of q key response = record {
  user = q.user;
  endpoint = q.endpoint;
  key = key;
  request_hash = q.request_hash;
  response = some response;
}

abbrev pub response_or_conflict : {B : Type 0} → Option (Response B) → Answer B
response_or_conflict none = refused idempotency_key_conflict
response_or_conflict (some response) = responded response

-- The answer where the record was there before.
abbrev pub replay : {B : Type 0} → ℕ → IdempotencyRecord B → Answer B
replay request_hash r =
    if not (r.request_hash == request_hash)
    then refused idempotency_key_conflict
    else response_or_conflict r.response

own_record :
    {B : Type 0} (q : Call) (key : ℕ) (response : Response B) (records : List (IdempotencyRecord B))
    → first (is_record q key) (record_of q key response ∷ records) ≡ some (record_of q key response)
own_record q key response records = ground arith

-- `ok` makes the response of the data, with the message of the caller.
module _ {S D B : Type 0} (ok : D → Response B) where
  abbrev pub finish : Call → ℕ → Work S D B → Tables S B → Answer B × Tables S B
  finish q key (returned d tables) st = (
    responded (ok d),
    record { data_tables = tables; records = record_of q key (ok d) ∷ st.records },
  )
  finish q key (api_error response) st =
      (responded response, record st { records = record_of q key response ∷ st.records })
  finish q key (crashed e) st = (propagated e, st)

  abbrev pub get_or_create :
      (S → Work S D B)
      → Call
      → ℕ
      → Option (IdempotencyRecord B)
      → Tables S B
      → Answer B × Tables S B
  get_or_create work q key none st = finish q key (work st.data_tables) st
  get_or_create work q key (some r) st = (replay q.request_hash r, st)

  abbrev pub keyed : (S → Work S D B) → Call → Option (ℕ × ℕ) → Tables S B → Answer B × Tables S B
  keyed work q none st = (refused idempotency_key_required, st)
  keyed work q (some (key, size)) st =
      if ltb max_key_length size
      then (refused invalid_request, st)
      else get_or_create work q key (first (is_record q key) st.records) st

  unfoldable pub run_idempotent : (S → Work S D B) → Call → Tables S B → Answer B × Tables S B
  run_idempotent work q st = keyed work q q.key st

  bound :
      (q : Call) (key : ℕ) (response : Response B) (st : Tables S B) (work : S → Work S D B)
      → first (is_record q key) st.records ≡ some (record_of q key response)
      → get_or_create work q key (first (is_record q key) st.records) st ≡ (responded response, st)
  bound q key response st work e = rw e (ground arith)

  finish-replayed :
      (q : Call) (key : ℕ) (w : Work S D B) (st st' : Tables S B) (response : Response B)
      → finish q key w st ≡ (responded response, st')
      → (work : S → Work S D B)
      → get_or_create work q key (first (is_record q key) st'.records) st'
        ≡ (responded response, st')
  finish-replayed q key (returned d tables) st st' response e work =
      let after : Tables S B = record {
        data_tables = tables;
        records = record_of q key (ok d) ∷ st.records;
      } in
      subst (λ p. get_or_create work q key (first (is_record q key) p.1.records) p.1 ≡ p) e
        (bound q key (ok d) after work (own_record q key (ok d) st.records))
  finish-replayed q key (api_error r) st st' response e work =
      let after : Tables S B = record st { records = record_of q key r ∷ st.records } in
      subst (λ p. get_or_create work q key (first (is_record q key) p.1.records) p.1 ≡ p) e
        (bound q key r after work (own_record q key r st.records))
  finish-replayed q key (crashed x) st st' response e work =
      absurd (ground (arith, ap (λ p. p.0) e))

  get_or_create-replayed :
      (work work' : S → Work S D B) (q : Call) (key : ℕ) (o : Option (IdempotencyRecord B))
      (st st' : Tables S B) (response : Response B)
      → first (is_record q key) st.records ≡ o
      → get_or_create work q key o st ≡ (responded response, st')
      → get_or_create work' q key (first (is_record q key) st'.records) st'
        ≡ (responded response, st')
  get_or_create-replayed work work' q key none st st' response found e =
      finish-replayed q key (work st.data_tables) st st' response e work'
  get_or_create-replayed work work' q key (some r) st st' response found e =
      subst (λ p. get_or_create work' q key (first (is_record q key) p.1.records) p.1 ≡ p) e
        (rw found refl)

  -- A response is replayed: the same request again, whatever its work would do then, gets the same
  -- response and changes nothing.
  pub run_idempotent-replayed :
      (work work' : S → Work S D B) (q : Call) (st st' : Tables S B) (response : Response B)
      → run_idempotent work q st ≡ (responded response, st')
      → run_idempotent work' q st' ≡ (responded response, st')
  unfolding run_idempotent
  run_idempotent-replayed work work' q st st' response e = by_key q.key e
    where
      by_key :
          (k : Option (ℕ × ℕ))
          → keyed work q k st ≡ (responded response, st')
          → keyed work' q k st' ≡ (responded response, st')
      by_key none e = absurd (ground (arith, ap (λ p. p.0) e))
      by_key (some (key, size)) e = elim (Bool-cases (ltb max_key_length size)) [
        | inl y ↦ absurd (too_long key size y e)
        | inr n ↦ rw n (
            get_or_create-replayed work work' q key (first (is_record q key) st.records) st st'
              response refl (sym (rw n refl) ∙ e))
      ]
        where
          too_long :
              (key size : ℕ)
              → ltb max_key_length size ≡ true
              → keyed work q (some (key, size)) st ≡ (responded response, st')
              → ⊥
          too_long key size y e =
              let e' : (refused invalid_request, st) ≡ (responded response, st') =
                sym (rw y refl) ∙ e in
              ground (arith, ap (λ p. p.0) e')

  api_error-bound :
      (work : S → Work S D B) (q : Call) (hash key : ℕ) (st : Tables S B) (response : Response B)
      → hash ≢ q.request_hash
      → (get_or_create work
          (record q { request_hash = hash })
          key
          (first (is_record q key) (record_of q key response ∷ st.records))
          (record st { records = record_of q key response ∷ st.records })).0
        ≡ refused idempotency_key_conflict
  api_error-bound work q hash key st response other =
      rw (own_record q key response st.records) (ground (arith, other))

  -- For a request with a key of at most 200 characters that was not sent before, whose work raises an
  -- APIError: the error's response is the answer, the tables are as they were, and the key is bound
  -- to the request, so that another content with this key is a conflict.
  pub run_idempotent_api_error :
      (work work' : S → Work S D B) (q : Call) (hash : ℕ) (st : Tables S B) (key size : ℕ)
      (response : Response B)
      → q.key ≡ some (key, size)
      → size ≤ 200
      → first (is_record q key) st.records ≡ none
      → hash ≢ q.request_hash
      → work st.data_tables ≡ api_error response
      → let (answer, st') = run_idempotent work q st in
        (answer ≡ responded response)
        × (st'.data_tables ≡ st.data_tables)
        × ((run_idempotent work' (record q { request_hash = hash }) st').0
            ≡ refused idempotency_key_conflict)
  unfolding run_idempotent
  run_idempotent_api_error work work' q hash st key size response k short fresh other error =
      let fits : ltb max_key_length size ≡ false = ground (arith, short) in
      rw k (
        rw fits
          (rw fresh (rw error (refl, refl, api_error-bound work' q hash key st response other))))
