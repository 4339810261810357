-- ===== src/Challenges/Tests.antt =====
-- Two teams that solve a challenge whose score falls with each solve.
use msg_backend.Prelude.{◌*◌, ◌-◌, ◌≡◌, refl, List, [], ◌∷◌}
use msg_backend.Challenges.{
  Challenge, Rows, Curve, calculate_dynamic_score, update_dynamic_score_and_team_scores,
  record_solve,
}
use msg_backend.Challenges.Cache.{IsCached, Change, solve, recalculate, revoke, run, run-IsCached}

-- 10 points less for each solve.
abbrev curve : Curve
curve initial minimum decay n = initial - 10 * n

abbrev pwn : Challenge
pwn = record {
  challenge_id = 3;
  initial_score = 500;
  minimum_score = 100;
  decay = 70;
  current_score = 500;
}

abbrev rows : Rows
rows = record {
  challenges = pwn ∷ [];
  solves = [];
  teams = record { team_id = 1; team_score = 0 } ∷ record { team_id = 2; team_score = 0 } ∷ [];
}

abbrev history : List Change
history =
    solve pwn 1
    ∷ solve (record pwn { current_score = 490 }) 2
    ∷ revoke (record pwn { current_score = 480 }) 1
    ∷ recalculate (record pwn { initial_score = 300; current_score = 480 })
    ∷ []

fallen :
    (run curve (solve pwn 1 ∷ solve (record pwn { current_score = 490 }) 2 ∷ []) rows).teams
    ≡ record { team_id = 1; team_score = 480 } ∷ record { team_id = 2; team_score = 480 } ∷ []
unfolding record_solve update_dynamic_score_and_team_scores calculate_dynamic_score
fallen = refl

run-IsCached_example : IsCached (run curve history rows)
run-IsCached_example = run-IsCached curve history rows (refl, (refl, tt))
