-- ===== src/Board/Closed/Moves.antt =====
-- The airport and the roulette keep a predicate that is closed under their writes.
use msg_backend.Prelude.{ℕ, ◌≡◌, ◌∙◌, true, false, not, inl, inr, Bool-cases, some, exists, ◌==◌}
use msg_backend.Board.Model.{Shared, Rows, Json, Cell, roulette_reward}
use msg_backend.Board.Keeps.{
  Keeps, Keeps-bind, Keeps-pure, Keeps-gets, Keeps-bind_found, Keeps-raise_if, Keeps-or_raise,
  Keeps-get_state, Keeps-modify_state, keeps_rules,
}
use msg_backend.Board.Triple.{
  Triple, Triple-Keeps, Keeps-Triple, Triple-gets, Triple-test, Triple-pre, Triple-found,
  Triple-then, Triple-bind,
}
use msg_backend.Board.Monad.{modify, when}
use msg_backend.Board.Landing.{find_cell, consume_cell, grant_mileage}
use msg_backend.Board.Airport.{move_to, move_team_via_airport}
use msg_backend.Board.Roulette.{spin_roulette, spin_at, is_spin_at}
use msg_backend.Board.Closed.{IsClosed}
use msg_backend.Board.Closed.Steps.{
  board_state_for_update-Keeps, finalize_landing-Keeps, lock_active_team-Keeps, consume_cell-Keeps,
}

module _ (sh : Shared) {P : Rows → Type 0} {Q : ℕ → Type 0} (closed : IsClosed sh P Q) where
  move_to-Keeps : (i : ℕ) → Keeps P (move_to sh i)
  unfolding move_to
  move_to-Keeps i = Keeps-bind _ _ (board_state_for_update-Keeps sh closed.game.lock true) λ _.
      Keeps-bind _ _ Keeps-get_state λ s. Keeps-bind _ _ (Keeps-or_raise _ _) λ here.
        Keeps-bind _ _ (Keeps-raise_if _ _) λ _. Keeps-bind _ _ (Keeps-raise_if _ _) λ _.
          Keeps-bind _ _ (Keeps-gets _) λ taken. Keeps-bind _ _ (Keeps-raise_if taken _) λ _.
            Keeps-bind_found _ _ _ λ c to. Keeps-bind _ _ (Keeps-modify_state _ closed.fly) λ _.
              Keeps-bind _ _ (finalize_landing-Keeps sh closed.game i c _ _ to) λ _. Keeps-pure _

  pub move_team_via_airport-Keeps : (j : Json) → Keeps P (move_team_via_airport sh j)
  unfolding move_team_via_airport
  move_team_via_airport-Keeps j = search (keeps_rules, move_to-Keeps)

  -- What the rows are known to have before the reward: no row of the history names the cell.
  abbrev NotSpun : ℕ → Rows → Type 0
  NotSpun cell r = P r × (exists (λ h. is_spin_at cell h.type) r.history ≡ false)

  consume_cell-NotSpun :
      (i : ℕ) (c : Cell)
      → find_cell sh.cells i ≡ some c
      → Keeps (NotSpun c.cell_index) (consume_cell c.cell_index)
  unfolding consume_cell modify
  consume_cell-NotSpun i c here = record {
    at = λ r h. ((consume_cell-Keeps sh closed.game i c here).at r h.0, h.1);
  }

  rewarding :
      (cell amount : ℕ)
      → Triple (NotSpun cell) (λ a r. P r) (grant_mileage amount (roulette_reward cell))
  unfolding grant_mileage when modify
  rewarding cell amount = elim (Bool-cases (not (amount == 0))) [
    | inl paid ↦ rw paid (record { at = λ r h. closed.game.mileage r amount _ h.1 h.0 })
    | inr nothing ↦ rw nothing (record { at = λ r h. h.0 })
  ]

  spinning :
      (i : ℕ) (c : Cell) (pick : ℕ) → find_cell sh.cells i ≡ some c → Keeps P (spin_at c pick)
  unfolding spin_at
  spinning i c pick here = Keeps-Triple _ (
      Triple-gets _ _ λ spun. Triple-test spun _ _ λ new.
        Triple-pre {P' = NotSpun c.cell_index} (λ r h. (h.0, h.1 ∙ new))
          (Triple-found _ _ _ λ amount paid. Triple-then _ _ (consume_cell-NotSpun i c here) λ _.
            Triple-bind _ _ (rewarding c.cell_index amount)
              λ _. Triple-Keeps _ (search keeps_rules)))

  pub spin_roulette-Keeps : (pick : ℕ) → Keeps P (spin_roulette sh pick)
  unfolding spin_roulette
  spin_roulette-Keeps pick =
      Keeps-bind _ _ (board_state_for_update-Keeps sh closed.game.lock false) λ _.
        Keeps-bind _ _ Keeps-get_state λ s.
          Keeps-bind _ _ (lock_active_team-Keeps sh closed.game.lock) λ _.
            Keeps-bind_found _ _ _
              λ c here. Keeps-bind _ _ (Keeps-raise_if _ _) λ _. spinning s.position c pick here
