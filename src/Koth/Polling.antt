-- ===== src/Koth/Polling.antt =====
-- The polls of one period of one challenge: poll_challenge_period of apps/koth/services.py is two
-- transactions with a request to the score server between them, and polls may overlap. What the
-- server answers, after its validation, is an argument of the second transaction.
pub mod Histories
pub mod Answers
pub mod Once
pub mod Scores
pub mod Times
use msg_backend.Prelude.{
  ℕ, zero, suc, ◌+◌, Bool, true, false, not, ◌&&◌, Option, none, some, List, [], ◌∷◌, map,
  if◌then◌else◌, leb, ltb, ◌==◌, length, select, contains, first, is_some, update,
}
use msg_backend.Prelude.Options.{◌>>=◌}
use msg_backend.Ranking.Sources.{KothSolve}
use msg_backend.Koth.{
  Curve, Division, internal, external, is_division, Team, PeriodResult, Award, awards, rank_points,
}

pub data Status : Type 0 where
  pending : Status
  applied : Status
  failed : Status

abbrev pub is_applied : Status → Bool
is_applied applied = true
is_applied _ = false

-- An error text is a number; none is the empty text.
pub record Period : Type 0 where
  pub status : Status
  pub attempts : ℕ
  pub last_error : Option ℕ
  pub applied_at : Option ℕ

-- The rows that a poll reads and writes: the period's row, if it was created, the solves, the teams
-- and the identifiers of the test teams, and the counts that the settings put in place of the
-- teams' (0 for none).
pub record Rows : Type 0 where
  pub period : Option Period
  pub solves : List KothSolve
  pub teams : List Team
  pub excluded : List ℕ
  pub external_team_count : ℕ
  pub internal_team_count : ℕ

abbrev pub new_period : Period
new_period = record { status = pending; attempts = 0; last_error = none; applied_at = none }

-- `get_or_create(challenge=challenge, period_id=period)`
abbrev pub or_new : Option Period → Period
or_new none = new_period
or_new (some p) = p

-- The first transaction, and whether the poll goes on.
unfoldable pub begin_poll : Rows → Rows × Bool
begin_poll r =
    let p = or_new r.period in
    if is_applied p.status
    then (record r { period = some p }, false)
    else (record r { period = some (record p { attempts = suc p.attempts }) }, true)

-- The conditional update after a ScoreFetchError, and whether the error is raised again.
abbrev pub fail_period : ℕ → Option Period → Option Period × Bool
fail_period error none = (none, false)
fail_period error (some p) =
    if is_applied p.status
    then (some p, false)
    else (some (record p { status = failed; last_error = some error }), true)

unfoldable pub fail_poll : ℕ → Rows → Rows × Bool
fail_poll error r =
    let (period, raised) = fail_period error r.period in (record r { period = period }, raised)

abbrev pub is_eligible : Rows → Team → Bool
is_eligible r t = not t.is_banned && not (contains t.team_id r.excluded)

abbrev pub overridden : ℕ → ℕ → ℕ
overridden zero n = n
overridden (suc count) n = suc count

-- `group_counts` after _apply_scoring_team_count_overrides.
unfoldable pub group_counts : Rows → Division → ℕ
group_counts r internal =
    overridden r.internal_team_count
      (length (select (λ t. is_eligible r t && is_division t.koth_division internal) r.teams))
group_counts r external =
    overridden r.external_team_count
      (length (select (λ t. is_eligible r t && is_division t.koth_division external) r.teams))

abbrev pub find_team : List Team → ℕ → Option Team
find_team teams id = first (λ t. t.team_id == id) teams

abbrev pub with_current : Rows → PeriodResult → List PeriodResult → Option Team → List PeriodResult
with_current r x rest none = rest
with_current r x rest (some t) = if is_eligible r t then record x { team = t } ∷ rest else rest

-- The results with the teams as they are under the lock; a team that is gone, banned or a test
-- team has none.
unfoldable pub current_results : Rows → List PeriodResult → List PeriodResult
current_results r [] = []
current_results r (x ∷ results) =
    let rest = current_results r results in with_current r x rest (find_team r.teams x.team.team_id)

-- _locked_awards_and_snapshot, without the snapshot; it also computes the points of every division,
-- and so raises (`none`) where one of these does.
unfoldable pub locked_awards : Curve → Rows → List PeriodResult → Option (List Award)
locked_awards curve r results = do
  granted ← awards curve (group_counts r) (current_results r results)
  points_internal ← rank_points curve (group_counts r internal)
  points_external ← rank_points curve (group_counts r external)
  some granted

-- A row after an award: the time is set where the score becomes positive for the first time.
abbrev pub with_award : ℕ → ℕ → KothSolve → KothSolve
with_award amount now k = record k {
  earned_score = k.earned_score + amount;
  solved_at =
      if k.earned_score == 0 && ltb 0 (k.earned_score + amount) && not (is_some k.solved_at)
      then some now
      else k.solved_at;
}

abbrev pub is_row : ℕ → ℕ → KothSolve → Bool
is_row team challenge k = k.team_id == team && k.challenge_id == challenge

abbrev pub new_solve : ℕ → ℕ → KothSolve
new_solve team challenge = record {
  team_id = team;
  challenge_id = challenge;
  earned_score = 0;
  solved_at = none;
}

-- One round of the loop: the row is found or created, and changed.
abbrev pub add_award : ℕ → ℕ → Award → List KothSolve → List KothSolve
add_award challenge now award [] =
    with_award award.amount now (new_solve award.team_id challenge) ∷ []
add_award challenge now award (k ∷ solves) =
    let rest = add_award challenge now award solves in
    if is_row award.team_id challenge k then with_award award.amount now k ∷ solves else k ∷ rest

-- The loop; `clock n` is the time of its n-th round.
abbrev pub add_awards : ℕ → (ℕ → ℕ) → List Award → List KothSolve → List KothSolve
add_awards challenge clock [] solves = solves
add_awards challenge clock (award ∷ awards) solves =
    add_awards challenge (λ n. clock (suc n)) awards (add_award challenge (clock 0) award solves)

-- The second transaction, with the period's row as it is under the lock. Where the points raise,
-- the transaction leaves no write.
abbrev pub apply_period :
    Curve → ℕ → (ℕ → ℕ) → List PeriodResult → Rows → Option Period → Rows × Bool
apply_period curve challenge clock results r none = (r, false)
apply_period curve challenge clock results r (some p) =
    let granted = locked_awards curve r results in
    if is_applied p.status then (r, false) else elim granted [
      | none ↦ (r, false)
      | some granted ↦ (
        record r {
          solves = add_awards challenge clock granted r.solves;
          period = some (record p {
            status = applied;
            last_error = none;
            applied_at = some (clock (length granted));
          });
        },
        true,
      )
    ]

unfoldable pub apply_poll : Curve → ℕ → (ℕ → ℕ) → List PeriodResult → Rows → Rows × Bool
apply_poll curve challenge clock results r = apply_period curve challenge clock results r r.period
