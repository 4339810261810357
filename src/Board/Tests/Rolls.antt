-- ===== src/Board/Tests/Rolls.antt =====
-- The first roll of a new team, its replay, and a confirmation.
use msg_backend.Prelude.{◌≡◌, refl, none, some}
use msg_backend.Board.Model.{
  Rows, RollResult, canonical, dice_roll_request, dice_confirm_request, CellType,
}
use msg_backend.Board.Monad.{
  ◌>>=◌, pure, raise, or_raise, lift, gets, modify, raise_if, when, get_state, modify_state,
  fresh_id,
}
use msg_backend.Board.Recharge.{
  is_board_completed, update_dice_recharge, pause_recharge, consume_dice_roll, grant_dice_roll,
}
use msg_backend.Board.Landing.{
  board_state_for_update, lock_active_team, apply_pending_dice_recharge, now, finalize_landing,
  consume_cell, pause_if_completed, pause_now, grant_roll, grant_positive, grant_mileage,
  compute_start_reward, consume_roll, get_usable_post_roll_card,
}
use msg_backend.Board.Movement.{
  compute_movement, step_cell, advance, move_steps, remaining_completion_indexes,
  final_completion_index,
}
use msg_backend.Board.Dice.{
  compute_blocked_reason, assert_can_roll, roll_dice, perform_roll, check_receipt,
  save_dice_receipt, roll_or_replay, log_roll, finish_roll,
}
use msg_backend.Board.Dice.Requests.{confirm_dice_roll}
use msg_backend.Board.Dice.Status.{assert_can_roll_lem, outcome}
use msg_backend.Board.Dice.Replay.{roll_replayed, SameGame}
use msg_backend.Board.Landing.Arrivals.{IsRolled, roll_arrives}
use msg_backend.Board.Tests.{shared, new_team, at_start, waiting, answered, no_answer}

abbrev first_roll : RollResult × Rows
first_roll =
    answered (no_answer, new_team)
      (roll_dice shared (some 1) (some (dice_roll_request (canonical 7))) 2 3 new_team)

abbrev second_roll : RollResult × Rows
second_roll =
    answered (no_answer, new_team)
      (roll_dice shared (some 1) (some (dice_roll_request (canonical 7))) 4 1 first_roll.1)

roll_replayed_example : (second_roll.0 ≡ first_roll.0) × SameGame first_roll.1 second_roll.1
unfolding ◌>>=◌ board_state_for_update lock_active_team apply_pending_dice_recharge now
    is_board_completed update_dice_recharge pause_recharge consume_dice_roll grant_dice_roll
    finalize_landing consume_cell pause_if_completed pause_now grant_roll grant_positive
    grant_mileage compute_start_reward compute_movement move_steps advance final_completion_index
    remaining_completion_indexes step_cell perform_roll assert_can_roll consume_roll log_roll
    finish_roll get_usable_post_roll_card pure raise or_raise lift gets modify raise_if when
    get_state modify_state fresh_id roll_dice check_receipt roll_or_replay save_dice_receipt
roll_replayed_example =
    roll_replayed shared shared 1 (canonical 7) 2 3 4 1 new_team first_roll second_roll refl refl

assert_can_roll_example :
    assert_can_roll shared new_team
    ≡ outcome new_team (
        compute_blocked_reason new_team at_start
          (record { cell_index = 1; type = CellType.start; difficulty = none; line_number = none }))
assert_can_roll_example =
    assert_can_roll_lem shared new_team at_start
      (record { cell_index = 1; type = CellType.start; difficulty = none; line_number = none }) refl
      refl

abbrev rolled : RollResult × Rows
rolled = answered (no_answer, new_team) (perform_roll shared 2 3 new_team)

roll_arrives_example : IsRolled rolled.0 rolled.1
unfolding ◌>>=◌ board_state_for_update lock_active_team apply_pending_dice_recharge now
    is_board_completed update_dice_recharge pause_recharge consume_dice_roll grant_dice_roll
    finalize_landing consume_cell pause_if_completed pause_now grant_roll grant_positive
    grant_mileage compute_start_reward compute_movement move_steps advance final_completion_index
    remaining_completion_indexes step_cell perform_roll assert_can_roll consume_roll log_roll
    finish_roll get_usable_post_roll_card pure raise or_raise lift gets modify raise_if when
    get_state modify_state fresh_id
roll_arrives_example = roll_arrives shared 2 3 new_team rolled refl

abbrev confirmed : RollResult × Rows
confirmed =
    answered (no_answer, new_team)
      (confirm_dice_roll shared (some (dice_confirm_request (canonical 5))) waiting)
