-- ===== src/Challenges.antt =====
-- The dynamic scores of Jeopardy challenges: calculate_dynamic_score of apps/ranking/scoring.py, and
-- update_dynamic_score_and_team_scores of apps/challenge/services.py with the score that each team's
-- row keeps. The decimal arithmetic before the bounds is outside code, and so is an argument.
pub mod Cache
mod Tests
use msg_backend.Prelude.{
  ℕ, ◌+◌, min, max, Bool, true, false, not, ◌&&◌, ◌||◌, Option, none, some, List, [], ◌∷◌,
  if◌then◌else◌, ◌==◌, length, select, exists, is_some, update,
}

pub record Challenge : Type 0 where
  pub challenge_id : ℕ
  pub initial_score : ℕ
  pub minimum_score : ℕ
  pub decay : ℕ
  pub current_score : ℕ

pub record Solve : Type 0 where
  pub team_id : ℕ
  pub challenge_id : ℕ

pub record TeamScore : Type 0 where
  pub team_id : ℕ
  pub team_score : ℕ

pub record Rows : Type 0 where
  pub challenges : List Challenge
  pub solves : List Solve
  pub teams : List TeamScore

-- `math.ceil` of the value for the initial and the minimum score, the decay and the number of the
-- teams that have solved the challenge, or 0 where it is negative.
abbrev pub Curve : Type 0
Curve = ℕ → ℕ → ℕ → ℕ → ℕ

unfoldable pub calculate_dynamic_score : Curve → Challenge → ℕ → ℕ
calculate_dynamic_score curve c solved_team_count =
    min c.initial_score
      (max c.minimum_score (curve c.initial_score c.minimum_score c.decay solved_team_count))

-- The current score of the challenge that a solve is joined with.
abbrev pub score_of : ℕ → List Challenge → ℕ
score_of id [] = 0
score_of id (c ∷ challenges) =
    if c.challenge_id == id then c.current_score else score_of id challenges

-- `Coalesce(Subquery(team_totals), 0)`: the sum of the current scores of a team's solves.
abbrev pub team_total : List Challenge → List Solve → ℕ → ℕ
team_total challenges [] team = 0
team_total challenges (s ∷ solves) team =
    (if s.team_id == team then score_of s.challenge_id challenges else 0)
    + team_total challenges solves team

abbrev pub has_solved : List Solve → ℕ → ℕ → Bool
has_solved solves challenge team =
    exists (λ s. s.challenge_id == challenge && s.team_id == team) solves

abbrev pub is_team : Option ℕ → ℕ → Bool
is_team none team = false
is_team (some newly) team = newly == team

abbrev pub save_score : ℕ → ℕ → List Challenge → List Challenge
save_score id score challenges =
    update (λ c. c.challenge_id == id) (λ c. record c { current_score = score }) challenges

-- The teams whose rows are updated.
abbrev pub is_affected : Bool → Option ℕ → List Solve → ℕ → TeamScore → Bool
is_affected score_unchanged newly solves challenge t =
    if score_unchanged && is_some newly
    then is_team newly t.team_id
    else has_solved solves challenge t.team_id

unfoldable pub update_dynamic_score_and_team_scores : Curve → Challenge → Option ℕ → Rows → Rows
update_dynamic_score_and_team_scores curve challenge newly_solved_team_id r =
    let id = challenge.challenge_id in
    let solved_team_count = length (select (λ s. s.challenge_id == id) r.solves) in
    let current_score = calculate_dynamic_score curve challenge solved_team_count in
    let score_unchanged = challenge.current_score == current_score in
    let challenges =
      if not score_unchanged || not (is_some newly_solved_team_id)
      then save_score id current_score r.challenges
      else r.challenges in
    record r {
      challenges = challenges;
      teams =
          update (is_affected score_unchanged newly_solved_team_id r.solves id)
            (λ t. record t { team_score = team_total challenges r.solves t.team_id }) r.teams;
    }

-- The part of a correct submission that changes scores: the solve is created, then the scores are
-- calculated again.
unfoldable pub record_solve : Curve → Challenge → ℕ → Rows → Rows
record_solve curve challenge team r =
    update_dynamic_score_and_team_scores curve challenge (some team) (record r {
      solves = record { team_id = team; challenge_id = challenge.challenge_id } ∷ r.solves;
    })

-- The part of a revoked solve that changes scores (_revoke_solve of apps/adminpanel/views.py): the
-- solve is deleted, the scores are calculated again, and the team's own row is updated for itself.
unfoldable pub revoke_solve : Curve → Challenge → ℕ → Rows → Rows
revoke_solve curve challenge team r =
    let left =
      select (λ s. not (s.challenge_id == challenge.challenge_id && s.team_id == team)) r.solves in
    let after =
      update_dynamic_score_and_team_scores curve challenge none (record r { solves = left }) in
    record after {
      teams =
          update (λ t. t.team_id == team)
            (λ t. record t { team_score = team_total after.challenges after.solves t.team_id })
            after.teams;
    }
