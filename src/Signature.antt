-- ===== src/Signature.antt =====
-- The submissions of one team to one signature challenge: signature_submit of
-- apps/signature/views.py. A time is a whole number of microseconds. The hash functions are outside
-- code, and so are arguments; what one request changes is one transaction under the team's lock.
pub mod Branches
pub mod Locks
pub mod Score
pub mod Limit
pub mod Once
mod Tests
use msg_backend.Prelude.{
  ℕ, suc, ◌+◌, ◌-◌, ◌*◌, ◌/◌, max, Bool, true, false, not, ◌&&◌, ◌||◌, Option, none, some, List, [],
  ◌∷◌, if◌then◌else◌, ltb, leb, ◌==◌, length, contains, exists, is_some,
}
use msg_backend.Ranking.Sources.{SignatureSolve, Tables, get_team_total_score}

abbrev pub second : ℕ
second = 1000000

-- Flags and hashes are numbers. `check_password` is Django's; `none` stands for a ValueError.
pub record Hashing : Type 0 where
  pub check_password : ℕ → ℕ → Option Bool
  pub sha256 : ℕ → ℕ

unfoldable pub hash_flag : Hashing → ℕ → ℕ
hash_flag h flag = h.sha256 flag

abbrev pub or_false : Option Bool → Bool
or_false none = false
or_false (some b) = b

unfoldable pub is_correct_flag : Hashing → ℕ → ℕ → Bool
is_correct_flag h flag flag_hash =
    or_false (h.check_password flag flag_hash) || hash_flag h flag == flag_hash

pub data Error : Type 0 where
  user_has_no_team : Error
  invalid_request : Error
  team_banned : Error
  forbidden : Error
  signature_not_found : Error

-- What a check gives: it raises, or it passes with a value.
pub data Checked {ℓ} (A : Type ℓ) : Type ℓ where
  raised : Error → Checked A
  passed : A → Checked A

infixl 4 ◌>>=◌ ◌>>◌
abbrev pub ◌>>=◌ {ℓ κ} : {A : Type ℓ} {B : Type κ} → Checked A → (A → Checked B) → Checked B
raised e >>= f = raised e
passed a >>= f = f a

abbrev pub ◌>>◌ {ℓ κ} : {A : Type ℓ} {B : Type κ} → Checked A → Checked B → Checked B
m >> n = m >>= λ _. n

abbrev pub or_raise {ℓ} : {A : Type ℓ} → Option A → Error → Checked A
or_raise none e = raised e
or_raise (some a) e = passed a

abbrev pub raise_if : Bool → Error → Checked (Unit {0})
raise_if true e = raised e
raise_if false e = passed tt

pub record Challenge : Type 0 where
  pub signature_id : ℕ
  pub club_id : ℕ
  pub score : ℕ
  pub flag_hash : ℕ
  pub is_published : Bool

pub data SubmissionResult : Type 0 where
  correct : SubmissionResult
  incorrect : SubmissionResult
  already_solved : SubmissionResult
  too_many_attempts : SubmissionResult

pub record FlagSubmission : Type 0 where
  pub user : ℕ
  pub submitted_flag_hash : ℕ
  pub result : SubmissionResult

pub record SubmissionLock : Type 0 where
  pub failed_count : ℕ
  pub locked_until : Option ℕ
  pub last_failed_at : Option ℕ

-- The rows of one team and one challenge: the team's identifier; whether the team is banned, if it is there; the users of
-- the team; the challenge, the lock and the submissions; the tables that scores come from; and the
-- number of the events that are recorded for the administration.
pub record Rows : Type 0 where
  pub team_id : ℕ
  pub is_banned : Option Bool
  pub members : List ℕ
  pub challenge : Option Challenge
  pub lock : Option SubmissionLock
  pub submissions : List FlagSubmission
  pub tables : Tables
  pub events : ℕ

pub data Response : Type 0 where
  already_solved : Response
  too_many_attempts : (retry_after_seconds : ℕ) → Response
  incorrect_flag : Response
  solved : (earned_score team_score solved_at : ℕ) → Response

-- A request of a user of this team, or of a user without a team, as the authentication has read it:
-- the flag, if the serializer accepts it, the time, and the time at which a row is created.
pub record Request : Type 0 where
  pub user : ℕ
  pub has_team : Bool
  pub flag : Option ℕ
  pub now : ℕ
  pub created : ℕ

-- `flag.max_attempts` and `flag.lock_seconds`
pub record Settings : Type 0 where
  pub max_attempts : ℕ
  pub lock_seconds : ℕ

abbrev pub check_active_team : Option Bool → Checked (Unit {0})
check_active_team none = raised user_has_no_team
check_active_team (some banned) = raise_if banned team_banned

abbrev pub if_published : Option Challenge → Option Challenge
if_published none = none
if_published (some c) = if c.is_published then some c else none

abbrev pub new_lock : SubmissionLock
new_lock = record { failed_count = 0; locked_until = none; last_failed_at = none }

-- `get_or_create(team=team, challenge=challenge)`
abbrev pub or_new : Option SubmissionLock → SubmissionLock
or_new none = new_lock
or_new (some lock) = lock

abbrev pub is_solve_of : ℕ → Challenge → SignatureSolve → Bool
is_solve_of team c s = s.team_id == team && s.challenge_id == c.signature_id

abbrev pub is_solved : Challenge → Rows → Bool
is_solved c r = exists (is_solve_of r.team_id c) r.tables.signatures

-- The time to which a lock holds at `now`.
abbrev pub held : ℕ → Option ℕ → Option ℕ
held now none = none
held now (some t) = if ltb now t then some t else none

-- `max(1, ceil((locked_until - now).total_seconds()))`
abbrev pub retry_after : ℕ → ℕ → ℕ
retry_after now until = max 1 ((until - now + (second - 1)) / second)

-- A lock that has expired is cleared.
abbrev pub unlocked : SubmissionLock → SubmissionLock
unlocked lock =
    if is_some lock.locked_until
    then record lock { failed_count = 0; locked_until = none }
    else lock

abbrev pub log : ℕ → ℕ → SubmissionResult → Rows → Rows
log user hash result r = record r {
  submissions = record { user = user; submitted_flag_hash = hash; result = result } ∷ r.submissions;
}

abbrev pub save_lock : SubmissionLock → Rows → Rows
save_lock lock r = record r { lock = some lock }

abbrev pub fail_lock : Settings → ℕ → SubmissionLock → SubmissionLock
fail_lock settings now lock = record {
  failed_count = suc lock.failed_count;
  locked_until =
      if leb settings.max_attempts (suc lock.failed_count)
      then some (now + settings.lock_seconds * second)
      else lock.locked_until;
  last_failed_at = some now;
}

abbrev pub add_solve : Challenge → ℕ → Rows → Rows
add_solve c now r = record r {
  tables = record r.tables {
    signatures =
        record {
          team_id = r.team_id;
          challenge_id = c.signature_id;
          earned_score = c.score;
          solved_at = now;
        }
        ∷ r.tables.signatures;
  };
  lock = some new_lock;
}

-- A wrong flag, with the lock after the clearing of what has expired.
unfoldable pub submit_wrong : Settings → Request → ℕ → SubmissionLock → Rows → Response × Rows
submit_wrong settings q hash lock r = (
  if leb settings.max_attempts (suc lock.failed_count)
      then too_many_attempts settings.lock_seconds
      else incorrect_flag,
  log q.user hash SubmissionResult.incorrect (save_lock (fail_lock settings q.now lock) r),
)

-- A correct flag.
unfoldable pub submit_correct : Request → Challenge → ℕ → Rows → Response × Rows
submit_correct q c hash r =
    let r' = log q.user hash SubmissionResult.correct (add_solve c q.created r) in
    (
      solved c.score (get_team_total_score r'.tables r.team_id) q.created,
      record r' { events = suc r'.events },
    )

-- The part of the transaction after the lock row is there.
unfoldable pub submit_flag :
    Hashing → Settings → Request → Challenge → ℕ → SubmissionLock → Rows → Response × Rows
submit_flag h settings q c flag lock r =
    let hash = hash_flag h flag in
    if is_solved c r
    then (already_solved, log q.user hash SubmissionResult.already_solved r)
    else elim (held q.now lock.locked_until) [
      | some t ↦ (
        too_many_attempts (retry_after q.now t),
        log q.user hash SubmissionResult.too_many_attempts r,
      )
      | none ↦
          if is_correct_flag h flag c.flag_hash
          then submit_correct q c hash r
          else submit_wrong settings q hash (unlocked lock) r
    ]

-- The checks before: they give the flag and the challenge.
unfoldable pub check_request : Request → Rows → Checked (ℕ × Challenge)
check_request q r = do
  raise_if (not q.has_team) user_has_no_team
  flag ← or_raise q.flag invalid_request
  check_active_team r.is_banned
  raise_if (not (contains q.user r.members)) forbidden
  c ← or_raise (if_published r.challenge) signature_not_found
  passed (flag, c)

unfoldable pub signature_submit : Hashing → Settings → Request → Rows → Checked (Response × Rows)
signature_submit h settings q r = do
  (flag, c) ← check_request q r
  let lock = or_new r.lock
  passed (submit_flag h settings q c flag lock (save_lock lock r))
