-- ===== src/Board/Recharge/Bounds.antt =====
-- What one update of the recharge clock, a granted roll and a used roll do to the dice counters.
use msg_backend.Prelude.{
  ℕ, ◌+◌, ◌-◌, ◌*◌, ◌/◌, ◌≤◌, ◌<◌, min, ◌≡◌, ◌⊎◌, Bool, true, false, Option, none, some, arith,
}
use msg_backend.Board.Model.{TeamBoardState, Dice}
use msg_backend.Board.Recharge.{update_dice_recharge, grant_dice_roll, second}

-- A deadline that has not passed.
abbrev pub IsAhead : ℕ → Option ℕ → Type 0
IsAhead now none = ⊥
IsAhead now (some next) = now ≤ next

-- A clock runs exactly below the capacity, its deadline has not passed, and no paused time is kept.
abbrev IsSettled : TeamBoardState → ℕ → Dice → Type 0
IsSettled s now dice =
    ((dice.max_rolls ≤ s.dice_rolls_left)
      × (s.next_dice_reset_at ≡ none)
      × (s.recharge_paused_seconds ≡ none))
    ⊎ ((s.dice_rolls_left < dice.max_rolls)
        × IsAhead now s.next_dice_reset_at
        × (s.recharge_paused_seconds ≡ none))

-- A clock does not both run and stand paused.
abbrev pub IsExclusive : TeamBoardState → Type 0
IsExclusive s = (s.next_dice_reset_at ≡ none) ⊎ (s.recharge_paused_seconds ≡ none)

-- On a board that is not completed, with a positive interval and a clock that does not both run and
-- stand paused, an update leaves a full team without a clock, and any other team with a running
-- clock whose deadline has not passed; no paused time is kept.
update-IsSettled :
    (s : TeamBoardState) (now : ℕ) (dice : Dice)
    → 0 < dice.interval
    → IsExclusive s
    → IsSettled (update_dice_recharge false s now dice) now dice
unfolding update_dice_recharge
update-IsSettled s now dice h x = ground arith

pub update-IsExclusive :
    (b : Bool) (s : TeamBoardState) (now : ℕ) (dice : Dice)
    → IsExclusive s
    → IsExclusive (update_dice_recharge b s now dice)
unfolding update_dice_recharge
update-IsExclusive b s now dice x = ground arith

-- For a team within the capacity, whether the board is completed or not, an update neither takes
-- rolls away nor lifts the counter over the capacity.
pub update-le-max :
    (b : Bool) (s : TeamBoardState) (now : ℕ) (dice : Dice)
    → s.dice_rolls_left ≤ dice.max_rolls
    → (s.dice_rolls_left ≤ (update_dice_recharge b s now dice).dice_rolls_left)
      × ((update_dice_recharge b s now dice).dice_rolls_left ≤ dice.max_rolls)
unfolding update_dice_recharge
update-le-max b s now dice x = ground arith

-- On a board that is not completed, below or at the capacity, with a positive interval and a clock
-- that does not both run and stand paused, a grant of a positive `amount` of rolls first applies
-- what is due, then adds the number that it returns: `amount`, or the room that is left below the
-- capacity. The counter then holds at least the due rolls and these, stays within the capacity, and
-- the clock is settled afterwards.
grant_lem :
    (s : TeamBoardState) (amount now : ℕ) (dice : Dice)
    → 0 < amount
    → 0 < dice.interval
    → IsExclusive s
    → s.dice_rolls_left ≤ dice.max_rolls
    → let (s', granted) = grant_dice_roll false s amount now dice in
      let due = update_dice_recharge false s now dice in
      (granted ≡ min amount (dice.max_rolls - due.dice_rolls_left))
      × (due.dice_rolls_left + granted ≤ s'.dice_rolls_left)
      × (s'.dice_rolls_left ≤ dice.max_rolls)
      × IsSettled s' now dice
unfolding grant_dice_roll
grant_lem s amount now dice pos h x le =
    let due = update_dice_recharge false s now dice in
    let room = dice.max_rolls - due.dice_rolls_left in
    let given = record due { dice_rolls_left = due.dice_rolls_left + min amount room } in
    ground (
      arith,
      update-IsExclusive false s now dice x,
      update-le-max false s now dice le,
      update-le-max false given now dice,
      update-IsSettled given now dice h,
    )

-- Below the capacity, with a deadline that has not passed, a completed board's clock stops at `now`
-- and keeps the whole seconds that were left; when the board is no longer completed at `later`, the
-- clock runs on with these seconds, and the rolls are as they were.
pub pause_resume :
    (s : TeamBoardState) (next now later : ℕ) (dice : Dice)
    → s.dice_rolls_left < dice.max_rolls
    → s.next_dice_reset_at ≡ some next
    → now ≤ next
    → let paused = update_dice_recharge true s now dice in
      let resumed = update_dice_recharge false paused later dice in
      (paused.next_dice_reset_at ≡ none)
      × (resumed.dice_rolls_left ≡ s.dice_rolls_left)
      × ((left : ℕ) × (paused.recharge_paused_seconds ≡ some left)
          × (resumed.next_dice_reset_at ≡ some (later + left * second))
          × (left * second ≤ next - now)
          × (next - now < left * second + second))
unfolding update_dice_recharge
pause_resume s next now later dice low e le = (
  ground arith,
  ground arith,
  ((next - now) / second, ground arith, ground arith, omega arith, omega arith),
)
