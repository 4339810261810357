-- ===== src/Jeopardy/Tests.antt =====
-- A team that solves the only challenge of a line, and the theorems at its submissions.
use msg_backend.Prelude.{ℕ, ◌*◌, ◌-◌, ◌≡◌, refl, inr, true, false, none, some, List, [], ◌∷◌, arith}
use msg_backend.Prelude.Result.{fail_if, or_fail, result_or}
use msg_backend.Board.Model.{Shared, Dice, Cell, CellType, easy, opened}
use msg_backend.Board.Invariant.{IsSeeded}
use msg_backend.Board.Invariant.Histories as Histories
use msg_backend.Board.Monad.{◌>>=◌}
use msg_backend.Board.Dice.Requests.{prepare_dice_roll_request}
use msg_backend.Board.Landing.{
  apply_pending_dice_recharge, lock_active_team, grant_roll, grant_positive, board_state_for_update,
  now,
}
use msg_backend.Board.Recharge.{grant_dice_roll, is_board_completed, update_dice_recharge}
use msg_backend.Board.Cells.{
  complete_challenge_from_submission, finish_completion, clear_access, clear_active,
  challenge_solve_deadline,
}
use msg_backend.Board.Lines.{is_line_monopoly_completed}
use msg_backend.Challenges.{
  Curve, calculate_dynamic_score, update_dynamic_score_and_team_scores, record_solve,
}
use msg_backend.Challenges.Cache.{solve}
use msg_backend.Signature.{Hashing, Settings, hash_flag, is_correct_flag}
use msg_backend.Jeopardy.{
  Rows, Request, Response, already_solved, too_many_attempts, post, submit_flag, submit_correct,
  submit_wrong, judge_flag, complete_and_reward, check_and_record_line_monopoly,
}
use msg_backend.Jeopardy.Outcomes.{Operation, submit, play, edit, elsewhere, run, is_solved_answer}
use msg_backend.Jeopardy.Once.{solve_once}
use msg_backend.Jeopardy.Consistency.{IsConsistent, run-IsConsistent}

abbrev cells : List Cell
cells =
    record { cell_index = 1; type = CellType.start; difficulty = none; line_number = none }
    ∷ record {
      cell_index = 2;
      type = CellType.challenge;
      difficulty = some easy;
      line_number = some 1;
    }
    ∷ []

abbrev dice : Dice
dice = record { max_rolls = 5; interval = 3600000000 }

abbrev shared : Shared
shared = record {
  cells = cells;
  dice = dice;
  solve_limit_seconds = 3600;
  cards = [];
  challenges =
      record { challenge_id = 3; difficulty = easy; is_published = true; board_number = some 2 }
      ∷ [];
  clock = λ n. 1000000 * n;
}

abbrev rows : Rows
rows = record {
  team_id = 1;
  members = 8 ∷ [];
  details = record { challenge_id = 3; flag_hash = 77; difficulty = some easy } ∷ [];
  scores = record {
    challenges =
        record {
          challenge_id = 3;
          initial_score = 500;
          minimum_score = 100;
          decay = 70;
          current_score = 500;
        }
        ∷ [];
    solves = [];
    teams = record { team_id = 1; team_score = 0 } ∷ record { team_id = 2; team_score = 0 } ∷ [];
  };
  locks = [];
  submissions = [];
  awards = [];
  lines = [];
  other_score = 0;
  board = record {
    team = some (record { is_banned = false; mileage = 0 });
    state = some (record {
      position = 2;
      dice_rolls_left = 4;
      active_challenge_access = some 5;
      next_dice_reset_at = some 3600000000;
      recharge_paused_seconds = none;
      airport_move_used = false;
      has_passed_start = false;
    });
    consumptions = 2 ∷ [];
    accesses =
        record {
          id = 5;
          challenge_id = 3;
          source_cell = 2;
          status = opened;
          opened_at = 0;
          cleared_at = none;
        }
        ∷ [];
    candidates = [];
    draws = [];
    pending = none;
    requests = [];
    rolls = [];
    history = [];
    next_id = 6;
    reads = 0;
  };
}

abbrev hashing : Hashing
hashing = record { check_password = λ flag hash. none; sha256 = λ flag. flag }

abbrev settings : Settings
settings = record { max_attempts = 2; lock_seconds = 60 }

-- 10 points less for each solve.
abbrev curve : Curve
curve initial minimum decay n = initial - 10 * n

abbrev send : ℕ → ℕ → Request
send flag t = record { user = 8; has_team = true; flag = some flag; challenge_id = 3; now = t }

abbrev right : Response × Rows
right =
    result_or (already_solved, rows)
      (post hashing settings curve shared (send 77 9000000) rows rows)

right_lem :
    (right.0
      ≡ Response.solved 500 30 true 30490 (some (record { is_banned = false; mileage = 30 })))
    × (right.1.lines ≡ 1 ∷ [])
unfolding post fail_if or_fail submit_flag judge_flag is_correct_flag hash_flag submit_correct
    submit_wrong complete_and_reward ◌>>=◌ is_board_completed update_dice_recharge grant_dice_roll
    grant_roll grant_positive complete_challenge_from_submission finish_completion clear_access
    clear_active challenge_solve_deadline now check_and_record_line_monopoly
    is_line_monopoly_completed record_solve update_dynamic_score_and_team_scores
    calculate_dynamic_score
right_lem = (refl, refl)

-- Two wrong flags, a roll, a solve of another team, and the right flag again.
abbrev later_on : List Operation
later_on =
    submit hashing settings curve shared (send 76 10000000) rows
    ∷ play (record { shared = shared; operation = Histories.Operation.prepare 8 })
    ∷ elsewhere curve (
        solve
          (record {
            challenge_id = 3;
            initial_score = 500;
            minimum_score = 100;
            decay = 70;
            current_score = 490;
          })
          2)
    ∷ edit (record { challenge_id = 3; flag_hash = 78; difficulty = some easy } ∷ [])
    ∷ []

abbrev again : Response × Rows
again =
    result_or (too_many_attempts 9, rows)
      (post hashing settings curve shared (send 77 90000000) rows (run later_on right.1))

solve_once_example : is_solved_answer again.0 ≡ false
unfolding post fail_if or_fail submit_flag judge_flag is_correct_flag hash_flag submit_correct
    submit_wrong complete_and_reward ◌>>=◌ is_board_completed update_dice_recharge grant_dice_roll
    grant_roll grant_positive complete_challenge_from_submission finish_completion clear_access
    clear_active challenge_solve_deadline now check_and_record_line_monopoly
    is_line_monopoly_completed record_solve update_dynamic_score_and_team_scores
    calculate_dynamic_score Histories.serve Histories.perform prepare_dice_roll_request
    board_state_for_update lock_active_team apply_pending_dice_recharge
solve_once_example =
    solve_once hashing hashing settings settings curve curve shared shared (send 77 9000000)
      (send 77 90000000) rows rows rows right again later_on refl refl (tt, (tt, (tt, (tt, tt))))
      refl refl

seeded : IsSeeded shared
seeded = record {
  cells = ((omega arith, omega arith), ((omega arith, omega arith), tt));
  interval = omega arith;
}

rows-IsConsistent : IsConsistent dice cells 0 rows
rows-IsConsistent = record {
  board = record {
    distinct = (refl, tt);
    consumed = ((omega arith, omega arith), tt);
    state = record { on_board = (omega arith, omega arith); bounded = (omega arith, inr refl) };
    pending = tt;
  };
  mileage = refl;
  scores = (refl, (refl, tt));
  lines = (tt, tt);
}

abbrev a_solve : List Operation
a_solve = submit hashing settings curve shared (send 77 9000000) rows ∷ later_on

run-IsConsistent_example : IsConsistent dice cells 0 (run a_solve rows)
run-IsConsistent_example =
    run-IsConsistent dice cells 0 a_solve rows
      ((seeded, refl, refl), ((seeded, refl, refl), ((seeded, refl), (tt, (tt, tt)))))
      rows-IsConsistent
