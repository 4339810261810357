-- ===== src/Ranking/Sources.antt =====
-- Where the rankings take their scores from: collect_team_data of apps/ranking/views.py, by database
-- aggregates, and get_team_total_score of apps/challenge/services.py. The tables are lists of rows; a
-- Jeopardy solve is joined with the current score of its challenge.
pub mod Agreement
use msg_backend.Prelude.{
  ℕ, zero, suc, ◌+◌, max, min, Bool, true, false, not, Option, none, some, List, [], ◌∷◌, ◌++◌, map,
  if◌then◌else◌, ltb, leb, ◌==◌, length, select, is_some,
}
use msg_backend.Prelude.Sort.{sort, by_number}
use msg_backend.Ranking.{TeamData, TeamRow, Ranked, get_or, build_team_ranking}

pub record Team : Type 0 where
  pub team_id : ℕ
  pub team_name : ℕ
  pub mileage : ℕ

pub record Solve : Type 0 where
  pub team_id : ℕ
  pub challenge_id : ℕ
  pub solved_at : ℕ
  pub current_score : ℕ

pub record KothSolve : Type 0 where
  pub team_id : ℕ
  pub challenge_id : ℕ
  pub earned_score : ℕ
  pub solved_at : Option ℕ

pub record SignatureSolve : Type 0 where
  pub team_id : ℕ
  pub challenge_id : ℕ
  pub earned_score : ℕ
  pub solved_at : ℕ

pub record LineMonopoly : Type 0 where
  pub team_id : ℕ
  pub earned_score : ℕ
  pub monopolized_at : ℕ

pub record Tables : Type 0 where
  pub solves : List Solve
  pub koth : List KothSolve
  pub signatures : List SignatureSolve
  pub lines : List LineMonopoly

-- The database's Sum, Max and Min, which are null where there is no row, and skip nulls.
abbrev pub sum_of : List ℕ → Option ℕ
sum_of [] = none
sum_of (x ∷ xs) = some (x + get_or 0 (sum_of xs))

abbrev pub max_of : List ℕ → Option ℕ
max_of [] = none
max_of (x ∷ xs) = some (max x (get_or x (max_of xs)))

abbrev pub min_of : List ℕ → Option ℕ
min_of [] = none
min_of (x ∷ xs) = some (min x (get_or x (min_of xs)))

-- The times that are not null, and the rows that have one.
abbrev pub times : List KothSolve → List ℕ
times [] = []
times (k ∷ ks) = elim k.solved_at [ none ↦ times ks | some t ↦ t ∷ times ks ]

module _ (tables : Tables) (team : ℕ) where
  abbrev pub solves_of : List Solve
  solves_of = select (λ s. s.team_id == team) tables.solves

  abbrev pub koth_of : List KothSolve
  koth_of = select (λ s. s.team_id == team) tables.koth

  abbrev pub signatures_of : List SignatureSolve
  signatures_of = select (λ s. s.team_id == team) tables.signatures

  abbrev pub lines_of : List LineMonopoly
  lines_of = select (λ l. l.team_id == team) tables.lines

-- The row of one team in collect_team_data.
unfoldable pub collect_team : Tables → Team → TeamData
collect_team tables team = record {
  team_id = team.team_id;
  team_name = team.team_name;
  jeopardy_score = get_or 0 (sum_of (map (λ s. s.current_score) (solves_of tables team.team_id)));
  mileage = team.mileage;
  koth_score = get_or 0 (sum_of (map (λ s. s.earned_score) (koth_of tables team.team_id)));
  signature_score =
      some (get_or 0 (sum_of (map (λ s. s.earned_score) (signatures_of tables team.team_id))));
  line_score = some (get_or 0 (sum_of (map (λ l. l.earned_score) (lines_of tables team.team_id))));
  jeopardy_solved_at = max_of (map (λ s. s.solved_at) (solves_of tables team.team_id));
  koth_solved_at = min_of (times (koth_of tables team.team_id));
  signature_solved_at = max_of (map (λ s. s.solved_at) (signatures_of tables team.team_id));
}

unfoldable pub collect_team_data : Tables → List Team → List TeamData
collect_team_data tables teams = map (collect_team tables) teams

-- get_team_total_score of apps/challenge/services.py.
unfoldable pub get_team_total_score : Tables → ℕ → ℕ
get_team_total_score tables team =
    get_or 0 (sum_of (map (λ s. s.current_score) (solves_of tables team)))
    + get_or 0 (sum_of (map (λ s. s.earned_score) (koth_of tables team)))
    + get_or 0 (sum_of (map (λ s. s.earned_score) (signatures_of tables team)))
    + get_or 0 (sum_of (map (λ l. l.earned_score) (lines_of tables team)))
