-- ===== src/Board/Roulette.antt =====
-- `spin_roulette` of apps/board/services.py.
use msg_backend.Prelude.{
  ℕ, Bool, true, false, Option, none, some, List, [], ◌∷◌, ◌==◌, not, exists, get_elem?,
}
use msg_backend.Board.Model.{Cell, CellType, Shared, MileageType, roulette_reward, TeamRow}
use msg_backend.Board.Monad.{Error, M, pure, or_raise, gets, ◌>>=◌, ◌>>◌, raise_if, get_state}
use msg_backend.Board.Landing.{
  get_cell, board_state_for_update, lock_active_team, consume_cell, grant_mileage,
}

abbrev pub roulette_rewards : List ℕ
roulette_rewards = 50 ∷ 100 ∷ 150 ∷ 200 ∷ []

abbrev pub is_roulette : CellType → Bool
is_roulette CellType.roulette = true
is_roulette _ = false

-- A history row of type ROULETTE whose reason names the cell.
abbrev pub is_spin_at : ℕ → MileageType → Bool
is_spin_at cell (roulette_reward c) = c == cell
is_spin_at cell _ = false

abbrev pub total_mileage : Option TeamRow → ℕ
total_mileage none = 0
total_mileage (some t) = t.mileage

-- The spin on a roulette cell: once for each cell. `pick` is the index that `random.choice` takes;
-- the answer is the amount and the team's total.
unfoldable pub spin_at : Cell → ℕ → M (ℕ × ℕ)
spin_at cell pick = do
  raise_if (← gets (λ r. exists (λ h. is_spin_at cell.cell_index h.type) r.history))
      Error.roulette_already_spun
  amount ← or_raise (get_elem? roulette_rewards pick) Error.index_error
  consume_cell cell.cell_index
  grant_mileage amount (roulette_reward cell.cell_index)
  pure (amount, total_mileage (← gets (λ r. r.team)))

unfoldable pub spin_roulette : Shared → ℕ → M (ℕ × ℕ)
spin_roulette sh pick = do
  board_state_for_update sh false
  s ← get_state
  lock_active_team
  cell ← get_cell sh s.position
  raise_if (not (is_roulette cell.type)) Error.not_roulette_cell
  spin_at cell pick
