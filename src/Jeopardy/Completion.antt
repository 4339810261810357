-- ===== src/Jeopardy/Completion.antt =====
-- The board's part of a correct submission: the completion of the challenge's cell, and the mileage
-- with its history row (apps/challenge/views.py).
use msg_backend.Prelude.{ℕ, Bool, ◌∷◌}
use msg_backend.Board.Model.{Rows, Shared, other_mileage}
use msg_backend.Board.Monad.{M, pure, modify, ◌>>=◌, ◌>>◌}
use msg_backend.Board.Landing.{add_mileage}
use msg_backend.Board.Cells.{complete_challenge_from_submission}

abbrev pub reward : ℕ → Rows → Rows
reward amount b = record b {
  team = add_mileage amount b.team;
  history = record { type = other_mileage; amount = amount } ∷ b.history;
}

unfoldable pub complete_and_reward : Shared → ℕ → ℕ → ℕ → M Bool
complete_and_reward sh id submitted_at amount = do
  granted ← complete_challenge_from_submission sh id submitted_at
  modify (reward amount)
  pure granted
