-- ===== src/Board/Cards/Choice.antt =====
-- `confirm_chance_choice` of apps/board/services.py: the second half of the card that rolls twice.
use msg_backend.Prelude.{ℕ, Bool, true, false, Option, ◌==◌, not, ◌&&◌, first}
use msg_backend.Board.Model.{TeamChanceCard, PendingDiceRoll, Shared, Rows}
use msg_backend.Board.Monad.{lift, Error, M, pure, or_raise, gets, ◌>>=◌, ◌>>◌, raise_if}
use msg_backend.Board.Recharge.{start_cell_index}
use msg_backend.Board.Movement.{forward, Movement, compute_movement}
use msg_backend.Board.Landing.{get_cell, board_state_for_update, finalize_landing, now}
use msg_backend.Board.Dice.{awaits_choice, delete_pending}
use msg_backend.Board.Cards.{fits_pk, change_draw, set_chosen}

-- "FIRST", "SECOND" and every other text.
pub data Choice : Type 0 where
  first_choice second_choice other_choice : Choice

abbrev pub is_choice : Choice → Bool
is_choice other_choice = false
is_choice _ = true

abbrev pub chosen_number : Choice → TeamChanceCard → Option ℕ
chosen_number first_choice d = d.pending_first_number
chosen_number _ d = d.pending_second_number

module _ (sh : Shared) where
  -- The draw that waits for a choice, among those that the request's key fits.
  abbrev pub waiting_draw : Option ℕ → Rows → Option TeamChanceCard
  waiting_draw team_card_id r = first (λ d. awaits_choice d && fits_pk team_card_id d) r.draws

  -- The team lands where the chosen number leads.
  unfoldable pub land_choice : TeamChanceCard → PendingDiceRoll → ℕ → M Movement
  land_choice draw p number = do
    consumed ← gets (λ r. r.consumptions)
    m ← lift (compute_movement consumed p.previous_position number forward)
    cell ← get_cell sh m.destination
    t ← now sh
    change_draw draw.pk (set_chosen t)
    delete_pending
    reward ← finalize_landing sh cell m.start_pass_count (m.destination == start_cell_index)
    pure m

  unfoldable pub confirm_chance_choice : Choice → Option ℕ → M Movement
  confirm_chance_choice choice team_card_id = do
    raise_if (not (is_choice choice)) Error.chance_confirm_not_found
    board_state_for_update sh true
    draw ← or_raise (← gets (waiting_draw team_card_id)) Error.chance_confirm_not_found
    p ← or_raise (← gets (λ r. r.pending)) Error.chance_confirm_not_found
    number ← or_raise (chosen_number choice draw) Error.type_error
    land_choice draw p number
