-- ===== src/Koth.antt =====
-- The scoring of the king of the hill, apps/koth/services.py: the check of the ranks of a period,
-- the points of the places, and the awards of one period. A metric is a whole number of its
-- smallest unit. The square roots of rank_points are floating-point numbers: the floors of its raw
-- values, and the order of their remainders, are an argument (`Curve`).
pub mod Ranks
pub mod Points
pub mod Shares
pub mod Results
pub mod Polling
mod Tests
use msg_backend.Prelude.{
  ℕ, zero, suc, ◌+◌, ◌-◌, ◌*◌, ◌/◌, max, Bool, true, false, not, ◌&&◌, Option, none, some, List, [],
  ◌∷◌, ◌++◌, map, if◌then◌else◌, ltb, leb, ◌==◌, length, select, contains, first, is_some,
}
use msg_backend.Prelude.Int.{ℤ, pos, negsuc}
use msg_backend.Prelude.Options.{◌>>=◌}
use msg_backend.Prelude.Sort.{sort}

abbrev pub first_place_points : ℕ
first_place_points = 40

-- The loops of _validate_rank_sequence, with the ranks that are left: `end - index` is the length of
-- the run so far. Where the run ends, the next rank is compared with the rank that is expected.
abbrev pub is_run : ℕ → ℕ → ℕ → List ℕ → Bool
is_run expected_rank rank run [] = true
is_run expected_rank rank run (r ∷ ranks) =
    let same = is_run expected_rank rank (run + 1) ranks in
    let next = is_run (expected_rank + run) r 1 ranks in
    if r == rank then same else (r == expected_rank + run) && next

abbrev pub is_sequence : List ℕ → Bool
is_sequence [] = true
is_sequence (rank ∷ ranks) = (rank == 1) && is_run 1 rank 1 ranks

-- Whether _validate_rank_sequence returns without a ScoreFetchError.
unfoldable pub validate_rank_sequence : List ℕ → Bool
validate_rank_sequence ranks = is_sequence (sort ltb ranks)

-- What floating-point arithmetic gives for a number of awarded places: `math.floor` of the raw
-- values, and the indices in the order of their remainders, the greatest first.
pub record Curve : Type 0 where
  pub floors : ℕ → List ℕ
  pub remainder_order : ℕ → List ℕ

abbrev pub sum : List ℕ → ℕ
sum [] = 0
sum (x ∷ xs) = x + sum xs

-- `extras[index] += 1`
abbrev pub increment : ℕ → List ℕ → List ℕ
increment index [] = []
increment zero (x ∷ xs) = suc x ∷ xs
increment (suc index) (x ∷ xs) = x ∷ increment index xs

-- `for index in remainder_order[:remaining]: extras[index] += 1`
abbrev pub add_remainders : ℕ → List ℕ → List ℕ → List ℕ
add_remainders zero order extras = extras
add_remainders (suc remaining) [] extras = extras
add_remainders (suc remaining) (index ∷ order) extras =
    add_remainders remaining order (increment index extras)

-- `points.append(points[-1] - 1 - extra)`, after the last point; a negative point would be 0 here.
abbrev pub points_after : ℕ → List ℕ → List ℕ
points_after point [] = []
points_after point (extra ∷ extras) = (point - 1 - extra) ∷ points_after (point - 1 - extra) extras

-- `remaining` is negative in the code, and 0 here, where the floors exceed the drop that is left.
unfoldable pub extras : Curve → ℕ → List ℕ
extras curve awarded_count =
    add_remainders (first_place_points - awarded_count - sum (curve.floors awarded_count))
      (curve.remainder_order awarded_count) (curve.floors awarded_count)

-- `none` stands for the ValueError where there are more places than points.
unfoldable pub rank_points : Curve → ℕ → Option (List ℕ)
rank_points curve zero = some []
rank_points curve (suc n) =
    let awarded_count = max 1 (suc n / 2) in
    if ltb first_place_points awarded_count
    then none
    else if awarded_count == 1
    then some (first_place_points ∷ [])
    else some (first_place_points ∷ points_after first_place_points (extras curve awarded_count))

pub data Division : Type 0 where
  internal : Division
  external : Division

abbrev pub is_division : Division → Division → Bool
is_division internal internal = true
is_division external external = true
is_division _ _ = false

pub record Team : Type 0 where
  pub team_id : ℕ
  pub koth_division : Division
  pub is_banned : Bool

-- One row of a score response: the team, its rank and its metric.
pub record PeriodResult : Type 0 where
  pub team : Team
  pub rank : ℕ
  pub metric : ℤ

pub record Award : Type 0 where
  pub team_id : ℕ
  pub amount : ℕ

abbrev pub is_positive : ℤ → Bool
is_positive (pos zero) = false
is_positive (pos (suc n)) = true
is_positive (negsuc n) = false

-- The keys of a dictionary, in the order of their first entries.
abbrev pub keys : List ℕ → List ℕ
keys [] = []
keys (x ∷ xs) = x ∷ select (λ y. not (y == x)) (keys xs)

-- `points[position - 1] if position <= len(points) else 0`, for positions from 1.
abbrev pub point_at : List ℕ → ℕ → ℕ
point_at [] position = 0
point_at (p ∷ points) position = if position == 1 then p else point_at points (position - 1)

-- The points of `n` positions, the first of which is `position`.
abbrev pub occupied_points : List ℕ → ℕ → ℕ → ℕ
occupied_points points position zero = 0
occupied_points points position (suc n) =
    point_at points position + occupied_points points (position + 1) n

-- The awards of the teams that share one rank.
abbrev pub share : ℕ → List PeriodResult → List Award
share amount teams =
    if ltb 0 amount
    then map (λ r. record { team_id = r.team.team_id; amount = amount }) teams
    else []

-- The awards of the ranks that are left, from the place `division_rank`.
abbrev pub award_ranks : List ℕ → List PeriodResult → ℕ → List ℕ → List Award
award_ranks points results division_rank [] = []
award_ranks points results division_rank (source_rank ∷ ranks) =
    let teams = select (λ r. r.rank == source_rank) results in
    share (occupied_points points division_rank (length teams) / length teams) teams
    ++ award_ranks points results (division_rank + length teams) ranks

unfoldable pub award_division : List ℕ → List PeriodResult → List Award
award_division points results =
    award_ranks points results 1 (sort ltb (keys (map (λ r. r.rank) results)))

-- The results that are paid in a division.
abbrev pub paid_in : Division → List PeriodResult → List PeriodResult
paid_in division = select (λ r. is_positive r.metric && is_division r.team.koth_division division)

abbrev pub divisions_of : List PeriodResult → List Division
divisions_of [] = []
divisions_of (r ∷ results) =
    let rest = divisions_of results in
    let division = r.team.koth_division in
    if is_positive r.metric
    then division ∷ select (λ d. not (is_division d division)) rest
    else rest

-- The awards of the divisions that are left; `none` where rank_points raises.
abbrev pub award_divisions :
    Curve → (Division → ℕ) → List PeriodResult → List Division → Option (List Award)
award_divisions curve group_counts results [] = some []
award_divisions curve group_counts results (division ∷ divisions) = do
  points ← rank_points curve (group_counts division)
  rest ← award_divisions curve group_counts results divisions
  some (award_division points (paid_in division results) ++ rest)

unfoldable pub awards : Curve → (Division → ℕ) → List PeriodResult → Option (List Award)
awards curve group_counts results =
    award_divisions curve group_counts results (divisions_of results)
