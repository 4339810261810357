-- ===== src/Board/Recharge.antt =====
-- The dice recharge of apps/board/services.py: the clock that gives a team its rolls back.
pub mod Bounds
pub mod CatchUp
pub mod Frame
use msg_backend.Prelude.{
  ℕ, ◌+◌, ◌-◌, ◌*◌, ◌/◌, min, max, Bool, true, false, Option, none, some, List, [], ◌∷◌, ltb, leb,
  ◌==◌, if◌then◌else◌, length, select, ◌&&◌,
}
use msg_backend.Board.Model.{TeamBoardState, Dice}

abbrev pub board_size : ℕ
board_size = 36

abbrev pub first_cell_index : ℕ
first_cell_index = 1

abbrev pub last_cell_index : ℕ
last_cell_index = first_cell_index + board_size - 1

abbrev pub start_cell_index : ℕ
start_cell_index = 1

abbrev pub second : ℕ
second = 1_000_000

-- `start < index <= last`: the cells that count towards completion.
abbrev pub counts_for_completion : ℕ → Bool
counts_for_completion c = ltb start_cell_index c && leb c last_cell_index

unfoldable pub is_board_completed : List ℕ → Bool
is_board_completed consumed = leb (board_size - 1) (length (select counts_for_completion consumed))

-- The seconds that are left, rounded down, or 0 once the deadline has passed.
unfoldable pub pause_recharge : TeamBoardState → ℕ → TeamBoardState
pause_recharge s now = elim s.next_dice_reset_at [
  | none ↦ s
  | some next ↦ record s {
    recharge_paused_seconds = some ((next - now) / second);
    next_dice_reset_at = none;
  }
]

-- The recharges that are due at `now`, with the deadline `next` in the past.
abbrev pub elapsed_intervals : ℕ → ℕ → ℕ → ℕ
elapsed_intervals next now interval = (now - next) / interval + 1

abbrev pub recharge_from : TeamBoardState → ℕ → ℕ → Dice → TeamBoardState
recharge_from s next now dice =
    let elapsed = elapsed_intervals next now dice.interval in
    let left = min dice.max_rolls (s.dice_rolls_left + elapsed) in
    record s {
      dice_rolls_left = left;
      next_dice_reset_at =
          if ltb left dice.max_rolls then some (next + elapsed * dice.interval) else none;
    }

abbrev pub start_recharge : TeamBoardState → ℕ → Dice → TeamBoardState
start_recharge s now dice = elim s.recharge_paused_seconds [
  | none ↦ record s { next_dice_reset_at = some (now + dice.interval) }
  | some seconds ↦ record s {
    next_dice_reset_at = some (now + seconds * second);
    recharge_paused_seconds = none;
  }
]

abbrev pub run_recharge : TeamBoardState → ℕ → Dice → TeamBoardState
run_recharge s now dice = elim s.next_dice_reset_at [
  | none ↦ start_recharge s now dice
  | some next ↦ if ltb now next then s else recharge_from s next now dice
]

-- `completed` is whether the team's board is completed.
unfoldable pub update_dice_recharge : Bool → TeamBoardState → ℕ → Dice → TeamBoardState
unfolding pause_recharge
update_dice_recharge completed s now dice =
    if leb dice.max_rolls s.dice_rolls_left
    then record s { next_dice_reset_at = none; recharge_paused_seconds = none }
    else if completed
    then pause_recharge s now
    else run_recharge s now dice

-- The new state and the rolls that were granted. Each branch reads the clock once, as `now`.
unfoldable pub grant_dice_roll : Bool → TeamBoardState → ℕ → ℕ → Dice → TeamBoardState × ℕ
grant_dice_roll completed s amount now dice =
    if amount == 0
    then (s, 0)
    else if completed
    then (pause_recharge s now, 0)
    else let due = update_dice_recharge completed s now dice in
      let granted = max 0 (min amount (dice.max_rolls - due.dice_rolls_left)) in
      let given = record due { dice_rolls_left = due.dice_rolls_left + granted } in
      (update_dice_recharge completed given now dice, granted)

-- `_consume_dice_roll`
unfoldable pub consume_dice_roll : Bool → TeamBoardState → ℕ → Dice → TeamBoardState
consume_dice_roll completed s now dice =
    update_dice_recharge completed (record s { dice_rolls_left = s.dice_rolls_left - 1 }) now dice
