-- ===== src/Ranking/Tests.antt =====
-- Two teams with the same score, and the theorems of the rankings at them.
use msg_backend.Prelude.{
  ℕ, ◌+◌, ◌/◌, ◌%◌, ◌≤◌, ◌≡◌, refl, none, some, List, [], ◌∷◌, map, get_elem?, select, not, arith,
}
use msg_backend.Prelude.Int.{pos, negsuc}
use msg_backend.Ranking.{
  TeamData, team_row, sort_key, is_before, resolve_last_solved_at, build_team_ranking,
}
use msg_backend.Ranking.Order.{
  swap, IsRanking, build_team_ranking-IsRanking, build_team_ranking-Reordered,
}
use msg_backend.Ranking.Pages.{parse_pagination, team_ranking, my_team_ranking}
use msg_backend.Ranking.Pages.Places.{
  before, parse_pagination_bounds, team_ranking_page, my_team_ranking_counts,
}
use msg_backend.Ranking.Sources.{Team, Tables, collect_team_data}
use msg_backend.Ranking.Leaderboard.{
  collect_solves_map, events_of, build_team_data, data_of_totals, add_points, is_empty, leaderboard,
  leaderboard_row,
}
use msg_backend.Ranking.Sources.Agreement.{build_team_data-eq}

-- A team with a Jeopardy solve, and one with the same score and no solve.
abbrev red : TeamData
red = record {
  team_id = 2;
  team_name = 20;
  jeopardy_score = 10000;
  koth_score = 500;
  signature_score = none;
  line_score = some 100;
  mileage = 7;
  jeopardy_solved_at = some 60;
  koth_solved_at = some 40;
  signature_solved_at = none;
}

abbrev blue : TeamData
blue = record red { team_id = 1; team_name = 21; jeopardy_solved_at = none; koth_solved_at = none }

two_teams-red :
    build_team_ranking (blue ∷ red ∷ []) none
    ≡ record { row = team_row red; rank = 1 } ∷ record { row = team_row blue; rank = 2 } ∷ []
unfolding build_team_ranking sort_key is_before team_row resolve_last_solved_at
two_teams-red = refl

build_team_ranking-IsRanking_example :
    IsRanking sort_key (map team_row (blue ∷ red ∷ [])) (build_team_ranking (blue ∷ red ∷ []) none)
build_team_ranking-IsRanking_example = build_team_ranking-IsRanking (blue ∷ red ∷ [])

build_team_ranking-Reordered_example :
    build_team_ranking (blue ∷ red ∷ []) (some 1) ≡ build_team_ranking (red ∷ blue ∷ []) (some 1)
build_team_ranking-Reordered_example =
    build_team_ranking-Reordered (blue ∷ red ∷ []) (red ∷ blue ∷ []) (some 1)
      (swap blue red [] (λ e. absurd (omega (arith, e))))

parse_pagination_bounds_example :
    let (page, size) = parse_pagination (some (pos 70000)) (some (negsuc 3)) in
    (1 ≤ page) × (page ≤ 10000) × (1 ≤ size) × (size ≤ 100)
parse_pagination_bounds_example = parse_pagination_bounds (some (pos 70000)) (some (negsuc 3))

team_ranking_page_example :
    get_elem?
      (team_ranking (blue ∷ red ∷ []) (some (pos (1 / 1 + 1))) (some (pos 1))).rankings
      (1 % 1)
    ≡ get_elem? (build_team_ranking (blue ∷ red ∷ []) none) 1
team_ranking_page_example =
    team_ranking_page (blue ∷ red ∷ []) 1 1 (omega arith) (omega arith) (omega arith)

my_team_ranking_counts_example :
    ((team_row blue).team_id ≡ 1)
    × (2 ≡ 1 + before sort_key (team_row blue) (map team_row (blue ∷ red ∷ [])))
unfolding my_team_ranking build_team_ranking sort_key is_before team_row resolve_last_solved_at
my_team_ranking_counts_example =
    my_team_ranking_counts (blue ∷ red ∷ []) 1 (record { row = team_row blue; rank = 2 }) refl

abbrev teams : List Team
teams =
    record { team_id = 1; team_name = 21; mileage = 7 }
    ∷ record { team_id = 2; team_name = 20; mileage = 7 }
    ∷ []

abbrev tables : Tables
tables = record {
  solves =
      record { team_id = 2; challenge_id = 5; solved_at = 60; current_score = 10000 }
      ∷ record { team_id = 2; challenge_id = 6; solved_at = 50; current_score = 2000 }
      ∷ [];
  koth =
      record { team_id = 1; challenge_id = 9; earned_score = 0; solved_at = none }
      ∷ record { team_id = 2; challenge_id = 9; earned_score = 40; solved_at = some 70 }
      ∷ [];
  signatures = [];
  lines = record { team_id = 2; earned_score = 100; monopolized_at = 80 } ∷ [];
}

one_row :
    map {B = ℕ × ℕ × ℕ} (λ r. (r.team_id, r.team_score, r.solved_count)) (leaderboard tables teams)
    ≡ (2, 12140, 3) ∷ []
unfolding leaderboard leaderboard_row build_team_ranking sort_key is_before team_row
    resolve_last_solved_at build_team_data data_of_totals add_points collect_solves_map events_of
one_row = refl

build_team_data-eq_example :
    build_team_data teams (collect_solves_map tables)
    ≡ collect_team_data tables
        (select (λ t. not (is_empty (collect_solves_map tables t.team_id))) teams)
build_team_data-eq_example = build_team_data-eq tables teams (refl, (refl, tt))
