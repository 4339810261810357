-- ===== src/Board/Tests/Clock.antt =====
-- The recharge clock of a team that has used rolls.
use msg_backend.Prelude.{ℕ, ◌+◌, ◌-◌, ◌*◌, ◌≤◌, ◌<◌, ◌≡◌, refl, true, false, none, some, arith}
use msg_backend.Board.Model.{TeamBoardState}
use msg_backend.Board.Recharge.{update_dice_recharge, second}
use msg_backend.Board.Recharge.Bounds.{pause_resume}
use msg_backend.Board.Recharge.CatchUp.{update_catches_up}
use msg_backend.Board.Tests.{five_rolls, at_start}

abbrev charging : TeamBoardState
charging = record at_start { dice_rolls_left = 1; next_dice_reset_at = some 3600000000 }

update_catches_up_example :
    update_dice_recharge false
      (update_dice_recharge false charging 4000000000 five_rolls)
      9000000000
      five_rolls
    ≡ update_dice_recharge false charging 9000000000 five_rolls
update_catches_up_example =
    update_catches_up charging 3600000000 4000000000 9000000000 five_rolls (omega arith) refl
      (omega arith) refl

pause_resume_example :
    let paused = update_dice_recharge true charging 1000000000 five_rolls in
    let resumed = update_dice_recharge false paused 7000000000 five_rolls in
    (paused.next_dice_reset_at ≡ none)
    × (resumed.dice_rolls_left ≡ 1)
    × ((left : ℕ) × (paused.recharge_paused_seconds ≡ some left)
        × (resumed.next_dice_reset_at ≡ some (7000000000 + left * second))
        × (left * second ≤ 3600000000 - 1000000000)
        × (3600000000 - 1000000000 < left * second + second))
pause_resume_example =
    pause_resume charging 3600000000 1000000000 7000000000 five_rolls (omega arith) refl
      (omega arith)
