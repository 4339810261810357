-- ===== src/Board/Recharge/Frame.antt =====
-- What the recharge leaves alone, and the bounds that every write of the dice counters keeps.
use msg_backend.Prelude.{ℕ, ◌+◌, ◌-◌, ◌≤◌, ◌≡◌, min, Bool, arith}
use msg_backend.Board.Model.{TeamBoardState, Dice}
use msg_backend.Board.Recharge.{
  pause_recharge, update_dice_recharge, grant_dice_roll, consume_dice_roll,
}
use msg_backend.Board.Recharge.Bounds.{IsExclusive, update-IsExclusive, update-le-max}

-- The fields of the state that are not the dice counters.
abbrev pub SameProgress : TeamBoardState → TeamBoardState → Type 0
SameProgress s s' =
    (s'.position ≡ s.position)
    × (s'.active_challenge_access ≡ s.active_challenge_access)
    × (s'.airport_move_used ≡ s.airport_move_used)
    × (s'.has_passed_start ≡ s.has_passed_start)

-- Within the capacity, and no clock both running and paused.
abbrev pub IsBounded : Dice → TeamBoardState → Type 0
IsBounded dice s = (s.dice_rolls_left ≤ dice.max_rolls) × IsExclusive s

module _ (b : Bool) (s : TeamBoardState) (now : ℕ) (dice : Dice) where
  pub update-SameProgress : SameProgress s (update_dice_recharge b s now dice)
  unfolding update_dice_recharge
  update-SameProgress = ground arith

  pub pause-SameProgress : SameProgress s (pause_recharge s now)
  unfolding pause_recharge
  pause-SameProgress = ground arith

  pub update-IsBounded : IsBounded dice s → IsBounded dice (update_dice_recharge b s now dice)
  update-IsBounded h = ((update-le-max b s now dice h.0).1, update-IsExclusive b s now dice h.1)

  pub pause-IsBounded : IsBounded dice s → IsBounded dice (pause_recharge s now)
  unfolding pause_recharge
  pause-IsBounded h = ground arith

module _ (b : Bool) (s : TeamBoardState) (now : ℕ) (dice : Dice) where
  pub consume-SameProgress : SameProgress s (consume_dice_roll b s now dice)
  unfolding consume_dice_roll
  consume-SameProgress = update-SameProgress b _ now dice

  pub consume-IsBounded : IsBounded dice s → IsBounded dice (consume_dice_roll b s now dice)
  unfolding consume_dice_roll
  consume-IsBounded h = update-IsBounded b _ now dice (omega arith, h.1)

module _ (b : Bool) (s : TeamBoardState) (amount now : ℕ) (dice : Dice) where
  -- The state in the middle of a grant: what was due is applied, and the rolls are added.
  abbrev given : TeamBoardState
  given =
      let due = update_dice_recharge b s now dice in
      record due {
        dice_rolls_left = due.dice_rolls_left + min amount (dice.max_rolls - due.dice_rolls_left);
      }

  pub grant-SameProgress : SameProgress s (grant_dice_roll b s amount now dice).0
  unfolding grant_dice_roll
  grant-SameProgress = ground (
    arith,
    pause-SameProgress b s now dice,
    update-SameProgress b s now dice,
    update-SameProgress b given now dice,
  )

  pub grant-IsBounded : IsBounded dice s → IsBounded dice (grant_dice_roll b s amount now dice).0
  unfolding grant_dice_roll
  grant-IsBounded h = ground (
    arith,
    pause-IsBounded b s now dice,
    update-IsBounded b s now dice h,
    update-IsBounded b given now dice,
  )
