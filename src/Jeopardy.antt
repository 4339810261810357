-- ===== src/Jeopardy.antt =====
-- The submissions of one team to Jeopardy challenges: ChallengeSubmitView.post of
-- apps/challenge/views.py, and check_and_record_line_monopoly of apps/ranking/services.py. A
-- submission works on the team's board (Board), on the dynamic scores of all teams (Challenges), and
-- on the rows here.
mod Tables
unfoldable pub use Tables.*
mod Completion
unfoldable pub use Completion.*
pub mod Outcomes
pub mod Once
pub mod Consistency
mod Tests
use msg_backend.Prelude.{
  ℕ, suc, ◌+◌, ◌-◌, ◌*◌, ◌/◌, Bool, true, false, not, ◌&&◌, Option, none, some, List, [], ◌∷◌,
  if◌then◌else◌, ltb, leb, ◌==◌, length, first, exists, contains, update, is_some,
}
use msg_backend.Prelude.Result.{Result, failed, ok, ◌>>=◌, ◌>>◌, fail_if, or_fail}
use msg_backend.Board.Model.{
  Shared, Difficulty, easy, medium, hard, TeamRow, TeamChallengeAccess, Cell, other_mileage,
}
use msg_backend.Board.Monad
use msg_backend.Board.Monad.{M}
use msg_backend.Board.Landing.{add_mileage, find_cell}
use msg_backend.Board.Cells.{complete_challenge_from_submission}
use msg_backend.Board.Lines.{is_line_monopoly_completed}
use msg_backend.Board.Model as Model
use msg_backend.Challenges.{Curve, Challenge, has_solved, team_total, record_solve}
use msg_backend.Challenges as Challenges
use msg_backend.Signature.{Hashing, Settings, second, is_correct_flag, hash_flag, held}

-- The flag is checked against the hash that was read before the lock, unless it has changed.
unfoldable pub judge_flag : Hashing → ℕ → ℕ → ℕ → Bool
judge_flag h flag initial_flag_hash flag_hash =
    if flag_hash == initial_flag_hash
    then is_correct_flag h flag initial_flag_hash
    else is_correct_flag h flag flag_hash

unfoldable pub submit_wrong : Settings → Request → ℕ → FlagSubmissionLock → Rows → Response × Rows
submit_wrong settings q hash lock r = (
  if leb settings.max_attempts (suc lock.failed_count)
      then too_many_attempts settings.lock_seconds
      else incorrect_flag,
  log q (some hash) incorrect (save_lock (fail_lock settings q.now lock) r),
)

-- The line of the cell that a challenge was opened on.
abbrev pub line_of_cell : Option Cell → Option ℕ
line_of_cell none = none
line_of_cell (some c) = c.line_number

abbrev pub line_of_access : List Cell → Option TeamChallengeAccess → Option ℕ
line_of_access cells none = none
line_of_access cells (some a) = line_of_cell (find_cell cells a.source_cell)

-- A second row of a line meets the unique constraint, and is dropped.
abbrev pub add_line : ℕ → List ℕ → List ℕ
add_line line lines = if contains line lines then lines else line ∷ lines

abbrev pub record_line : List Cell → Model.Rows → Option ℕ → List ℕ → List ℕ
record_line cells b none lines = lines
record_line cells b (some line) lines =
    if is_line_monopoly_completed cells line b.accesses then add_line line lines else lines

unfoldable pub check_and_record_line_monopoly : List Cell → ℕ → Model.Rows → List ℕ → List ℕ
check_and_record_line_monopoly cells id b lines =
    record_line cells b (line_of_access cells (first (λ a. a.challenge_id == id) b.accesses)) lines

-- get_team_total_score of apps/challenge/services.py, on the rows here.
abbrev pub get_team_total_score : Rows → ℕ
get_team_total_score r =
    team_total r.scores.challenges r.scores.solves r.team_id
    + r.other_score
    + line_bonus_score * length r.lines

-- The rows of a correct submission, with the board's rows after it.
abbrev pub add_solve :
    Curve → Shared → Request → ℕ → ℕ → Challenge → Bool → Model.Rows → Rows → Rows
add_solve curve sh q hash amount c granted b r = log q (some hash) correct (
    save_lock (new_lock q.challenge_id) (record r {
      board = b;
      scores = record_solve curve c r.team_id r.scores;
      awards =
          record {
            challenge_id = q.challenge_id;
            earned_score = c.current_score;
            earned_mileage = amount;
            is_extra_dice_granted = granted;
          }
          ∷ r.awards;
      lines = check_and_record_line_monopoly sh.cells q.challenge_id b r.lines;
    }))

-- An exception of the board's operations undoes the whole transaction.
abbrev pub answer_solve :
    Curve
    → Shared
    → Request
    → ℕ
    → ℕ
    → Challenge
    → Rows
    → Monad.Result (Bool × Model.Rows)
    → Result Error (Response × Rows)
answer_solve curve sh q hash amount c r (Monad.err e) = failed (board_error e)
answer_solve curve sh q hash amount c r (Monad.ok x) =
    let r' = add_solve curve sh q hash amount c x.0 x.1 r in
    ok (solved c.current_score amount x.0 (get_team_total_score r') r'.board.team, r')

-- A challenge without a difficulty fails after the completion, with Python's KeyError.
abbrev pub answer_unassigned : Monad.Result (Bool × Model.Rows) → Result Error (Response × Rows)
answer_unassigned (Monad.err e) = failed (board_error e)
answer_unassigned (Monad.ok x) = failed key_error

unfoldable pub submit_correct :
    Curve → Shared → Request → ℕ → Option ℕ → Challenge → Rows → Result Error (Response × Rows)
submit_correct curve sh q hash none c r =
    answer_unassigned (complete_challenge_from_submission sh q.challenge_id q.now r.board)
submit_correct curve sh q hash (some amount) c r =
    answer_solve curve sh q hash amount c r
      (complete_and_reward sh q.challenge_id q.now amount r.board)

-- The part of the transaction after the lock row is there, with the time to which the lock holds.
-- `int` of a positive number of seconds rounds down.
unfoldable pub submit_flag :
    Hashing
    → Settings
    → Curve
    → Shared
    → Request
    → ℕ
    → ℕ
    → Detail
    → Challenge
    → FlagSubmissionLock
    → Option ℕ
    → Rows
    → Result Error (Response × Rows)
submit_flag h settings curve sh q flag initial d c lock (some t) r =
    ok (too_many_attempts ((t - q.now) / second), log q none SubmissionResult.too_many_attempts r)
submit_flag h settings curve sh q flag initial d c lock none r =
    if has_solved r.scores.solves q.challenge_id r.team_id
    then ok (already_solved, r)
    else if judge_flag h flag initial d.flag_hash
    then submit_correct curve sh q (hash_flag h flag) (challenge_mileage_reward d.difficulty) c r
    else ok (submit_wrong settings q (hash_flag h flag) (unlocked lock) r)

-- `before` are the rows that are read before the transaction.
unfoldable pub post :
    Hashing → Settings → Curve → Shared → Request → Rows → Rows → Result Error (Response × Rows)
post h settings curve sh q before r = do
  fail_if (not q.has_team) user_has_no_team
  flag ← or_fail q.flag invalid_request
  seen ← or_fail (detail_of q.challenge_id before) challenge_not_found
  fail_if (not (has_access q.challenge_id before)) challenge_locked
  d ← or_fail (detail_of q.challenge_id r) challenge_not_found
  c ← or_fail (challenge_of q.challenge_id r) challenge_not_found
  check_active_team r.board.team
  fail_if (not (contains q.user r.members)) forbidden
  let found = find_lock q.challenge_id r.locks
  let lock = lock_or_new q.challenge_id found
  submit_flag h settings curve sh q flag seen.flag_hash d c lock (held q.now lock.locked_until)
      (record r { locks = with_lock q.challenge_id found r.locks })
