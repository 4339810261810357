-- ===== src/Board/Movement/Tests.antt =====
-- Runs.
use msg_backend.Prelude.{◌≡◌, refl, [], ◌∷◌}
use msg_backend.Board.Monad.{ok}
use msg_backend.Board.Movement.{
  compute_movement, step_cell, advance, forward, move_steps, remaining_completion_indexes,
  final_completion_index,
}

skips_consumed :
    compute_movement (1 ∷ 3 ∷ 4 ∷ []) 34 4 forward
    ≡ ok (record {
      destination = 5;
      movement_path = 35 ∷ 36 ∷ 1 ∷ 2 ∷ 3 ∷ 4 ∷ 5 ∷ [];
      skipped_cells = 1 ∷ 3 ∷ 4 ∷ [];
      start_pass_count = 1;
    })
unfolding compute_movement step_cell advance move_steps remaining_completion_indexes
    final_completion_index
skips_consumed = refl
