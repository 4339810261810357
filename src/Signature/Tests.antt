-- ===== src/Signature/Tests.antt =====
-- A team that sends wrong flags, and the theorems of the submissions at it.
use msg_backend.Prelude.{ℕ, ◌+◌, ◌≡◌, refl, inr, true, false, none, some, List, [], ◌∷◌, arith}
use msg_backend.Ranking.{team_row}
use msg_backend.Ranking.Sources.{Team, collect_team, get_team_total_score}
use msg_backend.Signature.{
  Hashing, Settings, Request, Challenge, Rows, Response, already_solved, too_many_attempts,
  incorrect_flag, Checked, raised, passed, submit_wrong, submit_correct, submit_flag, hash_flag,
  is_correct_flag, is_solved, check_request, signature_submit,
}
use msg_backend.Signature.Branches.{is_solved_answer}
use msg_backend.Signature.Limit.{Action, submit, edit, run, IsSound, run-IsSound}
use msg_backend.Signature.Once.{solved_once}
use msg_backend.Signature.Locks.{lock_refuses, retry_succeeds}
use msg_backend.Signature.Score.{solved_score}

-- A hash that keeps the flag, and a password check that does not know it.
abbrev hashing : Hashing
hashing = record { check_password = λ flag hash. none; sha256 = λ flag. flag }

abbrev settings : Settings
settings = record { max_attempts = 2; lock_seconds = 30 }

abbrev challenge : Challenge
challenge = record {
  signature_id = 4;
  club_id = 1;
  score = 300;
  flag_hash = 77;
  is_published = true;
}

abbrev rows : Rows
rows = record {
  team_id = 2;
  is_banned = some false;
  members = 9 ∷ [];
  challenge = some challenge;
  lock = none;
  submissions = [];
  tables = record {
    solves = record { team_id = 2; challenge_id = 5; solved_at = 60; current_score = 100 } ∷ [];
    koth = [];
    signatures = [];
    lines = [];
  };
  events = 0;
}

abbrev request : ℕ → ℕ → Request
request flag now = record {
  user = 9;
  has_team = true;
  flag = some flag;
  now = now;
  created = now + 1;
}

abbrev answer_of : Checked (Response × Rows) → Response
answer_of (raised e) = incorrect_flag
answer_of (passed x) = x.0

abbrev rows_of : Checked (Response × Rows) → Rows
rows_of (raised e) = rows
rows_of (passed x) = x.1

-- The rows after one wrong flag, after two, and after the correct flag.
abbrev after_one : Rows
after_one = rows_of (signature_submit hashing settings (request 1 1000000) rows)

abbrev after_two : Rows
after_two = rows_of (signature_submit hashing settings (request 2 2000000) after_one)

abbrev after_solve : Rows
after_solve = rows_of (signature_submit hashing settings (request 77 1000000) rows)

second_wrong :
    answer_of (signature_submit hashing settings (request 2 2000000) after_one)
    ≡ too_many_attempts 30
unfolding signature_submit check_request submit_flag submit_wrong is_correct_flag hash_flag
second_wrong = refl

lock_refuses_example :
    (m : ℕ) × (answer_of (signature_submit hashing settings (request 77 20000000) after_two)
      ≡ too_many_attempts m)
    × ((rows_of (signature_submit hashing settings (request 77 20000000) after_two)).tables
        ≡ after_two.tables)
unfolding signature_submit check_request submit_flag submit_wrong is_correct_flag hash_flag
lock_refuses_example =
    lock_refuses hashing settings settings (request 2 2000000) (request 77 20000000) after_one
      after_two 30
      (
        answer_of (signature_submit hashing settings (request 77 20000000) after_two),
        rows_of (signature_submit hashing settings (request 77 20000000) after_two),
      )
      (omega arith) refl (omega arith) refl

retry_succeeds_example :
    (x : Response × Rows) × (signature_submit hashing settings (request 77 32000000) after_two
      ≡ passed x)
    × (is_solved_answer x.0 ≡ true)
    × (is_solved challenge x.1 ≡ true)
unfolding signature_submit check_request submit_flag submit_wrong is_correct_flag hash_flag
retry_succeeds_example =
    retry_succeeds hashing settings settings (request 2 2000000) (request 77 32000000) after_one
      after_two 30 77 challenge (omega arith) refl (omega arith) refl refl

solved_score_example :
    let team : Team = record { team_id = 2; team_name = 8; mileage = 0 } in
    (400 ≡ (team_row (collect_team after_solve.tables team)).team_score)
    × (400 ≡ get_team_total_score rows.tables 2 + 300)
    × (c : Challenge) × (rows.challenge ≡ some c)
    × (300 ≡ c.score)
unfolding signature_submit check_request submit_flag submit_correct is_correct_flag hash_flag
    get_team_total_score
solved_score_example =
    solved_score hashing settings (request 77 1000000) rows after_solve 300 400 1000001
      (record { team_id = 2; team_name = 8; mileage = 0 }) refl refl

abbrev history : List Action
history =
    submit settings (request 1 1000000)
    ∷ edit (some false) (9 ∷ []) 400 78 true
    ∷ submit settings (request 77 2000000)
    ∷ submit settings (request 78 40000000)
    ∷ []

run-IsSound_example : IsSound 2 (run hashing history rows)
run-IsSound_example =
    run-IsSound hashing 2 (omega arith) history rows
      (omega arith, (tt, (omega arith, (omega arith, tt))))
      (record { once = omega arith; below = inr (omega arith) })

solved_once_example :
    answer_of
      (signature_submit hashing settings (request 77 50000000) (run hashing history after_solve))
    ≡ already_solved
unfolding signature_submit check_request submit_flag submit_correct submit_wrong is_correct_flag
    hash_flag get_team_total_score
solved_once_example =
    solved_once hashing settings settings (request 77 1000000) (request 77 50000000) history rows
      after_solve 300 400 1000001
      (
        answer_of (
            signature_submit hashing settings (request 77 50000000)
              (run hashing history after_solve)),
        rows_of (
            signature_submit hashing settings (request 77 50000000)
              (run hashing history after_solve)),
      )
      refl refl
