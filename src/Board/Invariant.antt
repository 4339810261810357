-- ===== src/Board/Invariant.antt =====
-- The invariant of a team's rows: the consumed cells, the board state and the waiting roll.
pub mod Closure
pub mod Histories
pub mod Lasting
pub mod Once
pub mod Spins
use msg_backend.Prelude.{ℕ, ◌<◌, Option, none, some, List, All, IsDistinct}
use msg_backend.Board.Model.{TeamBoardState, PendingDiceRoll, Dice, Shared, Rows}
use msg_backend.Board.Movement.Walk.{IsOnBoard}
use msg_backend.Board.Recharge.Frame.{IsBounded}

-- The team stands on the board, holds at most the largest number of rolls, and its recharge clock
-- does not both run and stand paused.
pub record IsStateValid (dice : Dice) (s : TeamBoardState) : Type 0 where
  pub on_board : IsOnBoard s.position
  pub bounded : IsBounded dice s

abbrev pub OfState : Dice → Option TeamBoardState → Type 0
OfState dice none = Unit
OfState dice (some s) = IsStateValid dice s

-- A waiting roll goes from a cell of the board to another.
pub record IsPendingValid (p : PendingDiceRoll) : Type 0 where
  pub from_board : IsOnBoard p.previous_position
  pub to_board : IsOnBoard p.candidate_position

abbrev pub OfPending : Option PendingDiceRoll → Type 0
OfPending none = Unit
OfPending (some p) = IsPendingValid p

pub record IsValid (dice : Dice) (r : Rows) : Type 0 where
  pub distinct : IsDistinct r.consumptions
  pub consumed : All IsOnBoard r.consumptions
  pub state : OfState dice r.state
  pub pending : OfPending r.pending

-- The cells that the board was seeded with lie in 1..36, and a recharge takes some time.
pub record IsSeeded (sh : Shared) : Type 0 where
  pub cells : All (λ c. IsOnBoard c.cell_index) sh.cells
  pub interval : 0 < sh.dice.interval
