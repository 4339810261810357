-- ===== src/Board/Candidates/Reads.antt =====
-- A read that `get_board_state_for_read` answers without the lock would have found nothing to write.
use msg_backend.Prelude.{ℕ, ◌≡◌, Bool, false, arith}
use msg_backend.Board.Model.{TeamBoardState, Dice}
use msg_backend.Board.Recharge.{update_dice_recharge}
use msg_backend.Board.Candidates.{recharge_update_required}

-- If a read at `t` that asks for the completion needs no update, then the update would keep the
-- rolls and the time of the next recharge.
read_without_lock :
    (dice : Dice) (completed : Bool) (s : TeamBoardState) (t : ℕ)
    → recharge_update_required dice completed s t ≡ false
    → ((update_dice_recharge completed s t dice).dice_rolls_left ≡ s.dice_rolls_left)
      × ((update_dice_recharge completed s t dice).next_dice_reset_at ≡ s.next_dice_reset_at)
unfolding recharge_update_required update_dice_recharge
read_without_lock dice completed s t e = ground (arith, e)
