-- ===== src/Board/Movement.antt =====
-- The walk round the board of apps/board/services.py: `_step` and `compute_movement`.
pub mod Walk
pub mod Total
pub mod Tests
use msg_backend.Prelude.{
  ℕ, zero, suc, ◌+◌, ◌-◌, ◌%◌, Bool, true, false, not, Option, none, some, List, [], ◌∷◌, ◌==◌,
  if◌then◌else◌, length, contains, select,
}
use mathlib.Core.List.{reverse}
use msg_backend.Board.Monad.{Result, ok, err, board_not_ready}
use msg_backend.Board.Recharge.{board_size, first_cell_index, start_cell_index, last_cell_index}

-- `direction=1` and `direction=-1`
pub data Direction : Type 0 where
  forward backward : Direction

-- `(cursor - FIRST_CELL_INDEX + direction) % BOARD_SIZE`, with the modulus added before what is
-- taken away.
abbrev pub turn : Direction → ℕ → ℕ
turn forward cursor = (cursor + board_size - first_cell_index + 1) % board_size
turn backward cursor = (cursor + board_size - first_cell_index - 1) % board_size

unfoldable pub step_cell : ℕ → Direction → ℕ
step_cell cursor direction = turn direction cursor + first_cell_index

-- The loop's variables. The two lists have the latest cell first.
pub record Trail : Type 0 where
  pub cursor : ℕ
  pub path : List ℕ
  pub skipped : List ℕ
  pub start_passes : ℕ

abbrev pub visit : Trail → Direction → Trail
visit t direction =
    let cell = step_cell t.cursor direction in
    record t {
      cursor = cell;
      path = cell ∷ t.path;
      start_passes = if cell == start_cell_index then t.start_passes + 1 else t.start_passes;
    }

abbrev pub skip : Trail → Trail
skip t = record t { skipped = t.cursor ∷ t.skipped }

-- The `while True` loop. The first argument is `BOARD_SIZE - guard`, which is at least 1 at the
-- top of the loop; the error is raised when the guard reaches `BOARD_SIZE`.
unfoldable pub advance : ℕ → List ℕ → Direction → Trail → Result Trail
advance zero consumed direction t = err board_not_ready
advance (suc left) consumed direction t =
    let next = visit t direction in
    let rest = advance left consumed direction (skip next) in
    if contains next.cursor consumed then rest else ok next

-- `cursor == final_completion_index`
abbrev pub is_final : Option ℕ → ℕ → Bool
is_final none c = false
is_final (some f) c = c == f

-- `for _ in range(steps)`, ended early on the final cell.
unfoldable pub move_steps : ℕ → List ℕ → Direction → Option ℕ → Trail → Result Trail
move_steps zero consumed direction final t = ok t
move_steps (suc steps) consumed direction final t = elim (advance board_size consumed direction t) [
  | err e ↦ err e
  | ok next ↦
      let rest = move_steps steps consumed direction final next in
      if is_final final next.cursor then ok next else rest
]

-- `range(first, first + n)`
abbrev pub range_from : ℕ → ℕ → List ℕ
range_from first zero = []
range_from first (suc n) = first ∷ range_from (first + 1) n

-- The set difference `{2, ..., 36} - consumed`
unfoldable pub remaining_completion_indexes : List ℕ → List ℕ
remaining_completion_indexes consumed =
    select (λ c. not (contains c consumed)) (range_from (start_cell_index + 1) (board_size - 1))

abbrev pub only_element : List ℕ → Option ℕ
only_element (c ∷ []) = some c
only_element _ = none

-- What `compute_movement` returns, in its order.
pub record Movement : Type 0 where
  pub destination : ℕ
  pub movement_path : List ℕ
  pub skipped_cells : List ℕ
  pub start_pass_count : ℕ

abbrev pub movement_of : Trail → Movement
movement_of t = record {
  destination = t.cursor;
  movement_path = reverse t.path;
  skipped_cells = reverse t.skipped;
  start_pass_count = t.start_passes;
}

abbrev pub start_trail : ℕ → Trail
start_trail from_index = record { cursor = from_index; path = []; skipped = []; start_passes = 0 }

unfoldable pub final_completion_index : List ℕ → Option ℕ
final_completion_index consumed = only_element (remaining_completion_indexes consumed)

unfoldable pub compute_movement : List ℕ → ℕ → ℕ → Direction → Result Movement
compute_movement consumed from_index steps direction =
    elim (move_steps steps consumed direction (final_completion_index consumed)
      (start_trail from_index)) [ ok t ↦ ok (movement_of t) | err e ↦ err e ]
