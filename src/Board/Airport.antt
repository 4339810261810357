-- ===== src/Board/Airport.antt =====
-- `move_team_via_airport` of apps/board/services.py.
use msg_backend.Prelude.{
  ℕ, Bool, true, false, Option, none, some, List, [], ◌∷◌, ◌==◌, leb, not, ◌&&◌, contains,
  if◌then◌else◌,
}
use msg_backend.Prelude.Int.{pos}
use msg_backend.Board.Model.{CellType, EventCode, StartReward, Shared, Json, int}
use msg_backend.Board.Monad.{
  Error, M, pure, or_raise, gets, ◌>>=◌, ◌>>◌, raise_if, get_state, modify_state,
}
use msg_backend.Board.Recharge.{first_cell_index, last_cell_index, start_cell_index}
use msg_backend.Board.Landing.{
  bool_to_ℕ, find_cell, get_cell, board_state_for_update, get_event_for_cell, finalize_landing,
}

-- An index that is a whole number on the board. JSON booleans are refused.
abbrev pub board_index : Json → Option ℕ
board_index (int (pos n)) = if leb first_cell_index n && leb n last_cell_index then some n else none
board_index _ = none

abbrev pub is_airport : CellType → Bool
is_airport CellType.airport = true
is_airport _ = false

pub record MoveResult : Type 0 where
  pub previous_position : ℕ
  pub current_position : ℕ
  pub movement_path : List ℕ
  pub board_event_code : EventCode
  pub passed_start : Bool
  pub start_reward : StartReward

module _ (sh : Shared) where
  unfoldable pub move_to : ℕ → M MoveResult
  move_to destination = do
    board_state_for_update sh true
    s ← get_state
    here ← get_cell sh s.position
    raise_if (not (is_airport here.type)) Error.not_airport_cell
    raise_if s.airport_move_used Error.airport_move_already_used
    raise_if (← gets (λ r. contains destination r.consumptions)) Error.invalid_destination_index
    cell ← or_raise (find_cell sh.cells destination) Error.invalid_destination_index
    let passed_start = destination == start_cell_index
    modify_state (λ s. record s { airport_move_used = true })
    reward ← finalize_landing sh cell (bool_to_ℕ passed_start) passed_start
    pure (record {
      previous_position = s.position;
      current_position = destination;
      movement_path = destination ∷ [];
      board_event_code = get_event_for_cell cell;
      passed_start = passed_start;
      start_reward = reward;
    })

  unfoldable pub move_team_via_airport : Json → M MoveResult
  move_team_via_airport destination_index = do
    move_to (← or_raise (board_index destination_index) Error.invalid_destination_index)
