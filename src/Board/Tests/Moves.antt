-- ===== src/Board/Tests/Moves.antt =====
-- A walk past START, a flight, a draw and a completion.
use msg_backend.Prelude.{
  ℕ, ◌≡◌, ◌≢◌, ◌≤◌, ◌⊎◌, refl, Bool, true, false, none, List, [], ◌∷◌, contains, arith,
}
use msg_backend.Prelude.Int.{pos}
use msg_backend.Board.Model.{Rows, int, TeamChanceCard, no_event, reroll, Effect, UsageTiming}
use msg_backend.Board.Monad.{
  err, board_not_ready, ok, ◌>>=◌, pure, raise, or_raise, lift, gets, modify, raise_if, when,
  get_state, modify_state, fresh_id,
}
use msg_backend.Board.Recharge.{
  is_board_completed, update_dice_recharge, pause_recharge, consume_dice_roll, grant_dice_roll,
}
use msg_backend.Board.Landing.{
  board_state_for_update, lock_active_team, apply_pending_dice_recharge, now, finalize_landing,
  consume_cell, pause_if_completed, pause_now, grant_roll, grant_positive, grant_mileage,
  compute_start_reward, consume_roll, get_usable_post_roll_card,
}
use msg_backend.Board.Movement.{
  compute_movement, step_cell, advance, move_steps, remaining_completion_indexes,
  final_completion_index, forward, Movement, Trail, movement_of, is_final,
}
use msg_backend.Board.Movement.Walk.{compute_movement-IsTrail, IsTrail, stops}
use msg_backend.Board.Movement.Total.{compute_movement_total, IsFull}
use msg_backend.Board.Dice.{
  roll_dice, perform_roll, check_receipt, save_dice_receipt, roll_or_replay, log_roll, finish_roll,
  assert_can_roll,
}
use msg_backend.Board.Airport.{MoveResult, move_to, move_team_via_airport}
use msg_backend.Board.Cards.{draw_chance_card, held_cards}
use msg_backend.Board.Cells.{
  complete_challenge_from_submission, finish_completion, clear_access, clear_active,
  challenge_solve_deadline,
}
use msg_backend.Board.Cells.Once.{complete_once}
use msg_backend.Board.Invariant.Once.{airport_once, draw_once}
use msg_backend.Board.Invariant.Histories.{serve, perform, Request, Operation}
use msg_backend.Board.Tests.{shared, at_airport, at_chance, answered}

abbrev walk : Movement
walk = record {
  destination = 5;
  movement_path = 35 ∷ 36 ∷ 1 ∷ 2 ∷ 3 ∷ 4 ∷ 5 ∷ [];
  skipped_cells = 1 ∷ 3 ∷ 4 ∷ [];
  start_pass_count = 1;
}

compute_movement-IsTrail_example :
    (trail : Trail) × (walk ≡ movement_of trail)
    × IsTrail (1 ∷ 3 ∷ 4 ∷ []) forward 34 trail
    × (◌≡◌ {A = ℕ} 4 0 ⊎ (contains walk.destination (1 ∷ 3 ∷ 4 ∷ []) ≡ false))
    × (stops (1 ∷ 3 ∷ 4 ∷ []) trail.path ≤ 4)
    × ((stops (1 ∷ 3 ∷ 4 ∷ []) trail.path ≡ 4)
        ⊎ (is_final (final_completion_index (1 ∷ 3 ∷ 4 ∷ [])) walk.destination ≡ true))
unfolding compute_movement step_cell advance move_steps remaining_completion_indexes
    final_completion_index
compute_movement-IsTrail_example = compute_movement-IsTrail (1 ∷ 3 ∷ 4 ∷ []) 34 4 forward walk refl

compute_movement_total_example :
    ((m : Movement) × (compute_movement (1 ∷ 3 ∷ []) 34 4 forward ≡ ok m) × ¬ IsFull (1 ∷ 3 ∷ []))
    ⊎ ((compute_movement (1 ∷ 3 ∷ []) 34 4 forward ≡ err board_not_ready) × IsFull (1 ∷ 3 ∷ []))
compute_movement_total_example =
    compute_movement_total (1 ∷ 3 ∷ []) 34 4 forward (omega arith, omega arith) (omega arith)

abbrev no_move : MoveResult
no_move = record {
  previous_position = 0;
  current_position = 0;
  movement_path = [];
  board_event_code = no_event;
  passed_start = false;
  start_reward = record { mileage_gained = 0; roll_gained = 0 };
}

abbrev flown : MoveResult × Rows
flown = answered (no_move, at_airport) (move_team_via_airport shared (int (pos 6)) at_airport)

airport_once_example : move_team_via_airport shared (int (pos 1)) (serve flown.1 []) ≢ ok flown
unfolding ◌>>=◌ board_state_for_update lock_active_team apply_pending_dice_recharge now
    is_board_completed update_dice_recharge pause_recharge consume_dice_roll grant_dice_roll
    finalize_landing consume_cell pause_if_completed pause_now grant_roll grant_positive
    grant_mileage compute_start_reward move_to move_team_via_airport pure raise or_raise lift gets
    modify raise_if when get_state modify_state fresh_id
airport_once_example =
    airport_once shared shared (int (pos 6)) (int (pos 1)) at_airport flown flown [] refl

abbrev no_draw : TeamChanceCard
no_draw = record {
  pk = 0;
  source_cell = 0;
  card = record { card_id = reroll; effect = Effect.re_roll; usage_timing = UsageTiming.post_roll };
  used_at = none;
  discarded_at = none;
  pending_first_number = none;
  pending_second_number = none;
}

abbrev drawn : (TeamChanceCard × ℕ × Bool) × Rows
drawn = answered ((no_draw, 0, false), at_chance) (draw_chance_card shared 1 at_chance)

abbrev rolls : List Request
rolls = record { shared = shared; operation = Operation.roll none none 2 4 } ∷ []

abbrev drawn_again : (TeamChanceCard × ℕ × Bool) × Rows
drawn_again =
    answered ((no_draw, 0, false), at_chance) (draw_chance_card shared 0 (serve drawn.1 rolls))

draw_once_example : drawn_again.0.0.source_cell ≢ drawn.0.0.source_cell
unfolding ◌>>=◌ board_state_for_update lock_active_team apply_pending_dice_recharge now
    is_board_completed update_dice_recharge pause_recharge consume_dice_roll grant_dice_roll
    finalize_landing consume_cell pause_if_completed pause_now grant_roll grant_positive
    grant_mileage compute_start_reward draw_chance_card held_cards pure raise or_raise lift gets
    modify raise_if when get_state modify_state fresh_id compute_movement move_steps advance
    final_completion_index remaining_completion_indexes step_cell perform_roll assert_can_roll
    consume_roll log_roll finish_roll get_usable_post_roll_card roll_dice check_receipt
    roll_or_replay save_dice_receipt perform serve
draw_once_example = draw_once shared shared 1 0 at_chance drawn drawn_again rolls refl refl

abbrev completed : Bool × Rows
completed =
    answered (false, at_airport) (complete_challenge_from_submission shared 9 5000000 at_airport)

abbrev completed_again : Bool × Rows
completed_again =
    answered (true, at_airport) (complete_challenge_from_submission shared 9 6000000 completed.1)

complete_once_example : completed_again.0 ≡ false
unfolding ◌>>=◌ board_state_for_update lock_active_team apply_pending_dice_recharge now
    is_board_completed update_dice_recharge pause_recharge consume_dice_roll grant_dice_roll
    finalize_landing consume_cell pause_if_completed pause_now grant_roll grant_positive
    grant_mileage compute_start_reward complete_challenge_from_submission finish_completion
    clear_access clear_active challenge_solve_deadline pure raise or_raise lift gets modify raise_if
    when get_state modify_state fresh_id
complete_once_example =
    complete_once shared shared 9 5000000 6000000 at_airport completed completed_again refl refl
