-- ===== src/Jeopardy/Tables.antt =====
-- The rows that a Jeopardy submission reads and writes beside the board's (apps/challenge/models.py),
-- its request and its answers (apps/challenge/views.py).
use msg_backend.Prelude.{
  ℕ, suc, ◌+◌, ◌*◌, Bool, Option, none, some, List, ◌∷◌, if◌then◌else◌, leb, ◌==◌, first, exists,
  update, is_some,
}
use msg_backend.Prelude.Result.{Result, failed, fail_if}
use msg_backend.Board.Model.{
  Shared, Difficulty, easy, medium, hard, TeamRow, TeamChallengeAccess, Cell, other_mileage,
}
use msg_backend.Board.Monad
use msg_backend.Board.Model as Model
use msg_backend.Challenges.{Curve, Challenge, has_solved, team_total, record_solve}
use msg_backend.Challenges as Challenges
use msg_backend.Signature.{Settings, second}

pub data Error : Type 0 where
  user_has_no_team invalid_request challenge_not_found challenge_locked team_banned : Error
  forbidden key_error : Error
  board_error : Monad.Error → Error

pub data SubmissionResult : Type 0 where
  correct incorrect too_many_attempts : SubmissionResult

-- The hash of a submission that is not checked is the empty text, here `none`.
pub record FlagSubmission : Type 0 where
  pub user : ℕ
  pub challenge_id : ℕ
  pub submitted_flag_hash : Option ℕ
  pub result : SubmissionResult

pub record FlagSubmissionLock : Type 0 where
  pub challenge_id : ℕ
  pub failed_count : ℕ
  pub locked_until : Option ℕ
  pub last_failed_at : Option ℕ

-- The columns of a challenge that the scores do not need.
pub record Detail : Type 0 where
  pub challenge_id : ℕ
  pub flag_hash : ℕ
  pub difficulty : Option Difficulty

-- What a solve's row keeps beside its team and challenge.
pub record Award : Type 0 where
  pub challenge_id : ℕ
  pub earned_score : ℕ
  pub earned_mileage : ℕ
  pub is_extra_dice_granted : Bool

-- `lines` are the numbers of the team's line monopolies, `other_score` its score of the king of the
-- hill and of signatures.
pub record Rows : Type 0 where
  pub team_id : ℕ
  pub members : List ℕ
  pub details : List Detail
  pub scores : Challenges.Rows
  pub locks : List FlagSubmissionLock
  pub submissions : List FlagSubmission
  pub awards : List Award
  pub lines : List ℕ
  pub other_score : ℕ
  pub board : Model.Rows

-- A request, as the authentication and the parser have read it: the flag, if it is a text of 1 to 512
-- characters.
pub record Request : Type 0 where
  pub user : ℕ
  pub has_team : Bool
  pub flag : Option ℕ
  pub challenge_id : ℕ
  pub now : ℕ

pub data Response : Type 0 where
  already_solved incorrect_flag : Response
  too_many_attempts : (retry_after_seconds : ℕ) → Response
  solved :
      (earned_score earned_mileage : ℕ) (is_extra_dice_granted : Bool) (team_score : ℕ)
      (team : Option TeamRow)
      → Response

-- CHALLENGE_MILEAGE_REWARDS; a difficulty that is not assigned has none.
abbrev pub challenge_mileage_reward : Option Difficulty → Option ℕ
challenge_mileage_reward none = none
challenge_mileage_reward (some hard) = some 120
challenge_mileage_reward (some medium) = some 60
challenge_mileage_reward (some easy) = some 30

-- 300.00, in hundredths.
abbrev pub line_bonus_score : ℕ
line_bonus_score = 30000

abbrev pub detail_of : ℕ → Rows → Option Detail
detail_of id r = first (λ d. d.challenge_id == id) r.details

abbrev pub challenge_of : ℕ → Rows → Option Challenge
challenge_of id r = first (λ c. c.challenge_id == id) r.scores.challenges

abbrev pub has_access : ℕ → Rows → Bool
has_access id r = exists (λ a. a.challenge_id == id) r.board.accesses

abbrev pub check_active_team : Option TeamRow → Result Error (Unit {0})
check_active_team none = failed user_has_no_team
check_active_team (some t) = fail_if t.is_banned team_banned

abbrev pub new_lock : ℕ → FlagSubmissionLock
new_lock id = record {
  challenge_id = id;
  failed_count = 0;
  locked_until = none;
  last_failed_at = none;
}

abbrev pub lock_or_new : ℕ → Option FlagSubmissionLock → FlagSubmissionLock
lock_or_new id none = new_lock id
lock_or_new id (some lock) = lock

abbrev pub find_lock : ℕ → List FlagSubmissionLock → Option FlagSubmissionLock
find_lock id locks = first (λ l. l.challenge_id == id) locks

-- `get_or_create(team=team, challenge=challenge)`: the rows afterwards.
abbrev pub with_lock :
    ℕ → Option FlagSubmissionLock → List FlagSubmissionLock → List FlagSubmissionLock
with_lock id none locks = new_lock id ∷ locks
with_lock id (some lock) locks = locks

abbrev pub save_lock : FlagSubmissionLock → Rows → Rows
save_lock lock r = record r {
  locks = update (λ l. l.challenge_id == lock.challenge_id) (λ l. lock) r.locks;
}

abbrev pub log : Request → Option ℕ → SubmissionResult → Rows → Rows
log q hash result r = record r {
  submissions =
      record {
        user = q.user;
        challenge_id = q.challenge_id;
        submitted_flag_hash = hash;
        result = result;
      }
      ∷ r.submissions;
}

-- A lock that has expired is cleared.
abbrev pub unlocked : FlagSubmissionLock → FlagSubmissionLock
unlocked lock =
    if is_some lock.locked_until
    then record lock { failed_count = 0; locked_until = none }
    else lock

abbrev pub fail_lock : Settings → ℕ → FlagSubmissionLock → FlagSubmissionLock
fail_lock settings now lock = record lock {
  failed_count = suc lock.failed_count;
  locked_until =
      if leb settings.max_attempts (suc lock.failed_count)
      then some (now + settings.lock_seconds * second)
      else lock.locked_until;
  last_failed_at = some now;
}
