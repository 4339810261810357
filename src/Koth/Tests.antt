-- ===== src/Koth/Tests.antt =====
-- A period of four internal teams, and the theorems of the scoring at it.
use msg_backend.Prelude.{
  ℕ, ◌/◌, ◌≤◌, ◌≡◌, refl, true, false, none, some, List, [], ◌∷◌, length, arith,
}
use msg_backend.Prelude.Int.{pos}
use msg_backend.Koth.{
  Curve, internal, Team, PeriodResult, sum, validate_rank_sequence, rank_points, extras,
  award_division, awards,
}
use msg_backend.Koth.Ranks.{is_standard, validate_rank_sequence-eq}
use msg_backend.Koth.Points.{IsFalling, last_from, rank_points_lem}
use msg_backend.Koth.Shares.{total, total-award_division}
use msg_backend.Koth.Results.{start, Payload, fields, RawRow, validated_results}
use msg_backend.Koth.Results.Distinct.{IsPublic, validated_results-IsPublic}
use msg_backend.Koth.Polling.{
  Rows, pending, begin_poll, fail_poll, apply_poll, locked_awards, current_results, group_counts,
}
use msg_backend.Koth.Polling.Histories.{
  Event, begin, answer, unanswered, apply, others, System, Setting, serve, run,
}
use msg_backend.Koth.Polling.Scores.{IsCredited, poll_credits}

-- 1, 1, 3 passes; 1, 1, 2 does not.
standard_ranks : validate_rank_sequence (3 ∷ 1 ∷ 1 ∷ []) ≡ true
unfolding validate_rank_sequence
standard_ranks = refl

gapless_ranks : validate_rank_sequence (2 ∷ 1 ∷ 1 ∷ []) ≡ false
unfolding validate_rank_sequence
gapless_ranks = refl

validate_rank_sequence-eq_example :
    validate_rank_sequence (3 ∷ 1 ∷ 1 ∷ []) ≡ is_standard (3 ∷ 1 ∷ 1 ∷ [])
validate_rank_sequence-eq_example = validate_rank_sequence-eq (3 ∷ 1 ∷ 1 ∷ [])

-- What the square roots give for three places.
abbrev curve : Curve
curve = record { floors = λ n. 25 ∷ 11 ∷ []; remainder_order = λ n. 0 ∷ 1 ∷ [] }

three_places : rank_points curve 6 ≡ some (40 ∷ 13 ∷ 1 ∷ [])
unfolding rank_points extras
three_places = refl

rank_points_lem_example :
    (points : List ℕ) × (rank_points curve 6 ≡ some (40 ∷ points))
    × (length (40 ∷ points) ≡ 6 / 2)
    × IsFalling 40 points
    × (last_from 40 points ≡ 1)
rank_points_lem_example = rank_points_lem curve 6 (omega arith) (omega arith) (record {
  gaps = refl;
  within = omega arith;
  enough = omega arith;
  indices = (omega arith, (omega arith, tt));
})

abbrev team : ℕ → Team
team id = record { team_id = id; koth_division = internal; is_banned = false }

abbrev result : ℕ → ℕ → PeriodResult
result id rank = record { team = team id; rank = rank; metric = pos 5 }

abbrev results : List PeriodResult
results = result 1 1 ∷ result 2 1 ∷ result 3 3 ∷ []

total-award_division_example :
    total (award_division (40 ∷ 13 ∷ 1 ∷ []) results) ≤ sum (40 ∷ 13 ∷ 1 ∷ [])
total-award_division_example = total-award_division (40 ∷ 13 ∷ 1 ∷ []) results

shared_places :
    award_division (40 ∷ 13 ∷ 1 ∷ []) results
    ≡ record { team_id = 1; amount = 26 }
      ∷ record { team_id = 2; amount = 26 }
      ∷ record { team_id = 3; amount = 1 }
      ∷ []
unfolding award_division
shared_places = refl

-- Team 1 has a row without a score.
abbrev rows : Rows
rows = record {
  period = none;
  solves = record { team_id = 1; challenge_id = 7; earned_score = 0; solved_at = none } ∷ [];
  teams = team 1 ∷ team 2 ∷ team 3 ∷ team 4 ∷ team 5 ∷ team 6 ∷ [];
  excluded = [];
  external_team_count = 0;
  internal_team_count = 0;
}

abbrev at : ℕ → ℕ → ℕ
at t n = t

-- Team 9 is of the preview; its row counts for the sequence of the ranks and gives no result.
abbrev row : ℕ → ℕ → RawRow
row id rank = fields (record { team_id = id; period_rank = pos rank; metric_score = some (pos 5) })

abbrev payload : Payload
payload = record {
  koth_challenge_id = 7;
  period_id = some 30;
  results = some (row 1 1 ∷ row 9 1 ∷ row 3 3 ∷ []);
}

abbrev setting : Setting
setting = record { curve = curve; challenge = 7; anchor = start; period = 30; preview_ids = 9 ∷ [] }

-- Two polls overlap: both begin, both are answered, a team is banned meanwhile, and both apply. A third
-- one begins too late.
abbrev overlapping : List Event
overlapping =
    begin 1
    ∷ begin 2
    ∷ answer 1 (some payload) 0
    ∷ answer 2 (some payload) 0
    ∷ others (team 1 ∷ team 2 ∷ record (team 3) { is_banned = true } ∷ team 4 ∷ []) [] 0 0
    ∷ apply 2 (at 100)
    ∷ apply 1 (at 200)
    ∷ begin 3
    ∷ unanswered 3 5
    ∷ []

abbrev begun_rows : Rows
begun_rows = record rows {
  period = some (record { status = pending; attempts = 1; last_error = none; applied_at = none });
}

abbrev system : System
system = record { rows = rows; waiting = [] }

applied_once :
    (run setting overlapping system).rows.solves
    ≡ record { team_id = 1; challenge_id = 7; earned_score = 40; solved_at = some 100 } ∷ []
unfolding serve fail_poll apply_poll begin_poll locked_awards awards current_results group_counts
    rank_points extras award_division validated_results validate_rank_sequence
applied_once = refl

poll_credits_example :
    IsCredited curve 7 results begun_rows (apply_poll curve 7 (at 100) results begun_rows).0 2 7
unfolding apply_poll locked_awards awards current_results group_counts rank_points extras
    award_division
poll_credits_example = poll_credits curve 7 (at 100) results begun_rows 2 7 refl refl

validated_results-IsPublic_example : IsPublic (9 ∷ []) (1 ∷ 3 ∷ [])
unfolding validated_results validate_rank_sequence
validated_results-IsPublic_example =
    validated_results-IsPublic 7 start 30 (team 3 ∷ team 1 ∷ []) (9 ∷ []) (some payload)
      (result 1 1 ∷ result 3 3 ∷ []) refl
