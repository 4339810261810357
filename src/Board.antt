-- ===== src/Board.antt =====
-- The board game: apps/board. `Model` has the rows of a team, `Monad` the transactions, and the
-- other modules the operations of apps/board/services.py with their properties.
pub mod Model
pub mod Monad
pub mod Recharge
pub mod Movement
pub mod Landing
pub mod Dice
pub mod Airport
pub mod Roulette
pub mod Cells
pub mod Cards
pub mod Candidates
pub mod Lines
pub mod Keeps
pub mod Triple
pub mod Closed
pub mod Invariant
mod Tests
