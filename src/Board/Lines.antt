-- ===== src/Board/Lines.antt =====
-- The lines of the board: is_line_monopoly_completed of apps/board/services.py.
pub mod Complete
use msg_backend.Prelude.{
  ℕ, Bool, true, false, not, ◌&&◌, Option, none, some, List, [], ◌∷◌, map, if◌then◌else◌, ◌==◌,
  select, first, contains,
}
use msg_backend.Board.Model.{Cell, TeamChallengeAccess, TeamBoardState}
use msg_backend.Board.Landing.{is_challenge_cell, find_cell}
use msg_backend.Board.Cells.{is_cleared}

abbrev pub is_line : ℕ → Option ℕ → Bool
is_line line none = false
is_line line (some n) = n == line

-- `line_number=line_number, type=CHALLENGE`
abbrev pub is_line_cell : ℕ → Cell → Bool
is_line_cell line c = is_line line c.line_number && is_challenge_cell c.type

abbrev pub is_some_line_cell : ℕ → Option Cell → Bool
is_some_line_cell line none = false
is_some_line_cell line (some c) = is_line_cell line c

-- The same on the cell that an access is joined with.
abbrev pub is_cleared_on : List Cell → ℕ → TeamChallengeAccess → Bool
is_cleared_on cells line a =
    is_cleared a.status && is_some_line_cell line (find_cell cells a.source_cell)

abbrev pub is_empty : List ℕ → Bool
is_empty [] = true
is_empty (x ∷ xs) = false

abbrev pub all_in : List ℕ → List ℕ → Bool
all_in [] ys = true
all_in (x ∷ xs) ys = contains x ys && all_in xs ys

-- Two sets of numbers are equal.
abbrev pub same_set : List ℕ → List ℕ → Bool
same_set xs ys = all_in xs ys && all_in ys xs

abbrev pub line_challenge_indexes : List Cell → ℕ → List ℕ
line_challenge_indexes cells line = map (λ c. c.cell_index) (select (is_line_cell line) cells)

abbrev pub cleared_challenge_indexes : List Cell → ℕ → List TeamChallengeAccess → List ℕ
cleared_challenge_indexes cells line accesses =
    map (λ a. a.source_cell) (select (is_cleared_on cells line) accesses)

unfoldable pub is_line_monopoly_completed : List Cell → ℕ → List TeamChallengeAccess → Bool
is_line_monopoly_completed cells line accesses =
    if is_empty (line_challenge_indexes cells line)
    then false
    else same_set (line_challenge_indexes cells line)
        (cleared_challenge_indexes cells line accesses)
