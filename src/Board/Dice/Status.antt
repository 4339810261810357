-- ===== src/Board/Dice/Status.antt =====
-- The status page and the roll agree: `compute_blocked_reason` gives a reason exactly where
-- `_assert_can_roll` raises.
use msg_backend.Prelude.{◌≡◌, refl, inl, inr, Bool-cases, Option, none, some, is_some, ◌==◌}
use msg_backend.Board.Model.{Cell, TeamBoardState, Shared, Rows}
use msg_backend.Board.Monad.{Error, Result, ok, err, ◌>>=◌}
use msg_backend.Board.Recharge.{is_board_completed}
use msg_backend.Board.Landing.{find_cell}
use msg_backend.Board.Dice.{
  BlockedReason, board_completed, challenge_not_selected, pending_confirm, no_roll_left,
  compute_blocked_reason, assert_can_roll, is_not_selected,
}

-- The exception for each reason.
abbrev pub error_of : BlockedReason → Error
error_of board_completed = Error.board_completed
error_of challenge_not_selected = Error.challenge_not_selected
error_of pending_confirm = Error.pending_roll_unresolved
error_of no_roll_left = Error.no_roll_left

-- What the check answers for a reason, or for none.
abbrev pub outcome : Rows → Option BlockedReason → Result (Unit {0} × Rows)
outcome r none = ok (tt, r)
outcome r (some reason) = err (error_of reason)

-- For a team with a state on a cell of the board, the check before a roll passes and changes
-- nothing if the status page shows no reason, and raises the error of that reason if it shows one.
pub assert_can_roll_lem :
    (sh : Shared) (r : Rows) (s : TeamBoardState) (cell : Cell)
    → r.state ≡ some s
    → find_cell sh.cells s.position ≡ some cell
    → assert_can_roll sh r ≡ outcome r (compute_blocked_reason r s cell)
unfolding assert_can_roll compute_blocked_reason ◌>>=◌
assert_can_roll_lem sh r s cell here found = elim (Bool-cases (is_board_completed r.consumptions)) [
  | inl a ↦ rw a refl
  | inr a ↦ rw a (
      rw here (
        rw found (elim (Bool-cases (is_not_selected r cell)) [
          | inl b ↦ rw b refl
          | inr b ↦ rw b (elim (Bool-cases (is_some r.pending)) [
            | inl c ↦ rw c refl
            | inr c ↦ rw c (elim (Bool-cases (s.dice_rolls_left == 0)) [
              | inl d ↦ rw d refl
              | inr d ↦ rw d refl
            ])
          ])
        ])))
]
