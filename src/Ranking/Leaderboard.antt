-- ===== src/Ranking/Leaderboard.antt =====
-- The leaderboard of apps/leaderboard/views.py: collect_solves_map, build_team_data, by a loop over
-- the solves of each team, and leaderboard.
use msg_backend.Prelude.{
  ℕ, ◌+◌, Bool, true, false, not, Option, none, some, List, [], ◌∷◌, ◌++◌, map, if◌then◌else◌, ltb,
  leb, length, select,
}
use msg_backend.Prelude.Sort.{sort, by_number}
use msg_backend.Ranking.{TeamData, TeamRow, Ranked, build_team_ranking}
use msg_backend.Ranking.Sources.{
  Team, KothSolve, Tables, solves_of, koth_of, signatures_of, lines_of,
}

pub data SourceType : Type 0 where
  jeopardy : SourceType
  koth : SourceType
  signature : SourceType
  line : SourceType

pub record Event : Type 0 where
  pub challenge_id : Option ℕ
  pub source_type : SourceType
  pub solved_at : ℕ
  pub points : ℕ

abbrev pub event : SourceType → Option ℕ → ℕ → ℕ → Event
event source challenge t points = record {
  challenge_id = challenge;
  source_type = source;
  solved_at = t;
  points = points;
}

-- The events of the rows of `KothSolve.objects.filter(solved_at__isnull=False)`.
abbrev pub koth_events : List KothSolve → List Event
koth_events [] = []
koth_events (k ∷ ks) = elim k.solved_at [
  | none ↦ koth_events ks
  | some t ↦ event koth (some k.challenge_id) t k.earned_score ∷ koth_events ks
]

-- The rows that the four loops append for a team, in their order.
unfoldable pub events_of : Tables → ℕ → List Event
events_of tables team =
    map (λ s. event jeopardy (some s.challenge_id) s.solved_at s.current_score)
      (solves_of tables team)
    ++ koth_events (koth_of tables team)
    ++ map (λ s. event signature (some s.challenge_id) s.solved_at s.earned_score)
        (signatures_of tables team)
    ++ map (λ l. event line none l.monopolized_at l.earned_score) (lines_of tables team)

-- The dictionary as a function of the team; a missing key has no rows.
unfoldable pub collect_solves_map : Tables → ℕ → List Event
collect_solves_map tables team = sort (by_number (λ e. e.solved_at)) (events_of tables team)

pub record Totals : Type 0 where
  pub jeopardy_score : ℕ
  pub koth_score : ℕ
  pub signature_score : ℕ
  pub line_score : ℕ
  pub jeopardy_at : Option ℕ
  pub koth_at : Option ℕ
  pub signature_at : Option ℕ
  pub line_at : Option ℕ

abbrev pub later : Option ℕ → ℕ → Option ℕ
later none t = some t
later (some s) t = if ltb s t then some t else some s

abbrev pub earlier : Option ℕ → ℕ → Option ℕ
earlier none t = some t
earlier (some s) t = if ltb t s then some t else some s

-- The branch of the loop's body that the source type takes.
unfoldable pub add_points : SourceType → ℕ → ℕ → Totals → Totals
add_points jeopardy points t x = record x {
  jeopardy_score = x.jeopardy_score + points;
  jeopardy_at = later x.jeopardy_at t;
}
add_points koth points t x = record x {
  koth_score = x.koth_score + points;
  koth_at = earlier x.koth_at t;
}
add_points signature points t x = record x {
  signature_score = x.signature_score + points;
  signature_at = later x.signature_at t;
}
add_points line points t x = record x {
  line_score = x.line_score + points;
  line_at = later x.line_at t;
}

abbrev pub add_events : Totals → List Event → Totals
add_events x [] = x
add_events x (e ∷ es) = add_events (add_points e.source_type e.points e.solved_at x) es

abbrev pub no_totals : Totals
no_totals = record {
  jeopardy_score = 0;
  koth_score = 0;
  signature_score = 0;
  line_score = 0;
  jeopardy_at = none;
  koth_at = none;
  signature_at = none;
  line_at = none;
}

unfoldable pub data_of_totals : Team → Totals → TeamData
data_of_totals team x = record {
  team_id = team.team_id;
  team_name = team.team_name;
  jeopardy_score = x.jeopardy_score;
  mileage = team.mileage;
  koth_score = x.koth_score;
  signature_score = some x.signature_score;
  line_score = some x.line_score;
  jeopardy_solved_at = x.jeopardy_at;
  koth_solved_at = x.koth_at;
  signature_solved_at = x.signature_at;
}

abbrev pub is_empty {ℓ} : {A : Type ℓ} → List A → Bool
is_empty [] = true
is_empty (x ∷ xs) = false

unfoldable pub build_team_data : List Team → (ℕ → List Event) → List TeamData
build_team_data [] solves_map = []
build_team_data (team ∷ teams) solves_map =
    let rows = solves_map team.team_id in
    let rest = build_team_data teams solves_map in
    if is_empty rows then rest else data_of_totals team (add_events no_totals rows) ∷ rest

abbrev pub top_team_count : ℕ
top_team_count = 8

abbrev pub top3_count : ℕ
top3_count = 3

abbrev pub is_line : SourceType → Bool
is_line line = true
is_line _ = false

pub record LeaderboardRow : Type 0 where
  pub team_id : ℕ
  pub team_name : ℕ
  pub team_score : ℕ
  pub solved_count : ℕ
  pub is_top3 : Bool
  pub solves : List Event

unfoldable pub leaderboard_row : (ℕ → List Event) → Ranked TeamRow → LeaderboardRow
leaderboard_row solves_map r =
    let rows = solves_map r.row.team_id in
    record {
      team_id = r.row.team_id;
      team_name = r.row.team_name;
      team_score = r.row.team_score;
      solved_count = length (select (λ e. not (is_line e.source_type)) rows);
      is_top3 = leb r.rank top3_count;
      solves = rows;
    }

unfoldable pub leaderboard : Tables → List Team → List LeaderboardRow
leaderboard tables teams =
    let solves_map = collect_solves_map tables in
    map (leaderboard_row solves_map)
      (build_team_ranking (build_team_data teams solves_map) (some top_team_count))
