-- ===== src/Board/Dice.antt =====
-- Rolling the dice in apps/board/services.py: the request keys, the roll, its confirmation, and the
-- reason that the status page gives for not rolling.
pub mod Requests
pub mod Status
pub mod Replay
use msg_backend.Prelude.{
  ℕ, ◌+◌, Bool, true, false, Option, none, some, List, ◌∷◌, ◌==◌, ltb, not, ◌&&◌, if◌then◌else◌,
  first, exists, is_some, select, update,
}
use msg_backend.Board.Model.{
  Cell, TeamBoardState, StartReward, Shared, Rows, TeamChanceCard, RequestKey, canonical, variant,
  malformed, dice_roll_request, dice_confirm_request, other_key, RollResult, DiceRollRequest,
  DiceRoll, PendingDiceRoll,
}
use msg_backend.Board.Monad.{
  lift, Error, Result, ok, err, M, pure, raise, or_raise, gets, ◌>>=◌, ◌>>◌, modify, raise_if,
  get_state, fresh_id,
}
use msg_backend.Board.Recharge.{is_board_completed, start_cell_index}
use msg_backend.Board.Movement.{forward, Movement, compute_movement}
use msg_backend.Board.Landing.{
  is_challenge_cell, has_access_at, get_cell, board_state_for_update, get_event_for_cell,
  compute_start_reward, finalize_landing, get_usable_post_roll_card, consume_roll, bool_to_ℕ,
  is_held,
}

pub data BlockedReason : Type 0 where
  board_completed challenge_not_selected pending_confirm no_roll_left : BlockedReason

-- On the cell where the team stands, no challenge was chosen yet.
abbrev pub is_not_selected : Rows → Cell → Bool
is_not_selected r cell = is_challenge_cell cell.type && not (has_access_at cell.cell_index r)

unfoldable pub compute_blocked_reason : Rows → TeamBoardState → Cell → Option BlockedReason
compute_blocked_reason r s cell =
    if is_board_completed r.consumptions
    then some board_completed
    else if is_not_selected r cell
    then some challenge_not_selected
    else if is_some r.pending
    then some pending_confirm
    else if s.dice_rolls_left == 0
    then some no_roll_left
    else none

-- `DiceRollRequest.objects.filter(team=team, user=user).first() if user else None`
abbrev pub find_request : Option ℕ → List DiceRollRequest → Option DiceRollRequest
find_request none requests = none
find_request (some user) requests = first (λ q. q.user == user) requests

-- `key == DiceRollRequest.KEY_PREFIX + str(id)`
abbrev pub is_roll_key : ℕ → Option RequestKey → Bool
is_roll_key id (some (dice_roll_request (canonical n))) = n == id
is_roll_key id _ = false

abbrev pub has_roll_prefix : Option RequestKey → Bool
has_roll_prefix (some (dice_roll_request _)) = true
has_roll_prefix _ = false

-- The receipt of an earlier answer to the same request, if there is one.
unfoldable pub check_receipt : Option DiceRollRequest → Option RequestKey → M (Option RollResult)
check_receipt none key = do raise_if (has_roll_prefix key) Error.dice_request_expired; pure none
check_receipt (some q) key = do
  raise_if (not (is_roll_key q.id key)) Error.dice_request_unconfirmed
  pure q.response_data

-- `_save_dice_receipt`
unfoldable pub save_dice_receipt : Option DiceRollRequest → RollResult → M RollResult
save_dice_receipt none result = pure result
save_dice_receipt (some q) result = do
  modify λ r. record r {
    requests =
        update (λ p. p.id == q.id) (λ p. record p { response_data = some result }) r.requests;
  }
  pure result

unfoldable pub log_roll : DiceRoll → M (Unit {0})
log_roll roll = modify (λ r. record r { rolls = roll ∷ r.rolls })

unfoldable pub delete_pending : M (Unit {0})
delete_pending = modify (λ r. record r { pending = none })

-- `PendingDiceRoll.objects.update_or_create`: a row that is there keeps its key.
abbrev pub pending_id : Option PendingDiceRoll → M ℕ
pending_id none = fresh_id
pending_id (some p) = pure p.confirmation_id

unfoldable pub store_pending : (ℕ → PendingDiceRoll) → M PendingDiceRoll
store_pending row = do
  id ← pending_id (← gets (λ r. r.pending))
  modify (λ r. record r { pending = some (row id) })
  pure (row id)

-- The row of a roll that waits for its confirmation.
abbrev pub pending_row : ℕ → ℕ → ℕ → Movement → Cell → ℕ → PendingDiceRoll
pending_row dice_a dice_b previous m cell id = record {
  confirmation_id = id;
  dice_a = dice_a;
  dice_b = dice_b;
  rolled_number = dice_a + dice_b;
  previous_position = previous;
  candidate_position = m.destination;
  movement_path = m.movement_path;
  skipped_cells = m.skipped_cells;
  passed_start = ltb 0 m.start_pass_count;
  start_pass_count = m.start_pass_count;
  board_event_code = get_event_for_cell cell;
}

-- The fields of an answer that come from the pending row, or from the roll itself.
abbrev pub answer : PendingDiceRoll → StartReward → Bool → Option RequestKey → Option ℕ → RollResult
answer p reward waits key card = record {
  dice_a = p.dice_a;
  dice_b = p.dice_b;
  rolled_number = p.rolled_number;
  previous_position = p.previous_position;
  current_position = p.candidate_position;
  movement_path = p.movement_path;
  skipped_cells = p.skipped_cells;
  passed_start = p.passed_start;
  start_reward = reward;
  board_event_code = p.board_event_code;
  pending_confirm = waits;
  pending_confirm_request_key = key;
  usable_chance_card = card;
}

-- A roll-twice card that waits for the choice of its number.
abbrev pub awaits_choice : TeamChanceCard → Bool
awaits_choice d = is_held d && is_some d.pending_first_number

-- `pending.start_pass_count or int(pending.passed_start)`
abbrev pub pending_passes : PendingDiceRoll → ℕ
pending_passes p = if p.start_pass_count == 0 then bool_to_ℕ p.passed_start else p.start_pass_count

module _ (sh : Shared) where
  -- `_assert_can_roll`
  unfoldable pub assert_can_roll : M (Unit {0})
  assert_can_roll = do
    raise_if (← gets (λ r. is_board_completed r.consumptions)) Error.board_completed
    s ← get_state
    cell ← get_cell sh s.position
    raise_if (← gets (λ r. is_not_selected r cell)) Error.challenge_not_selected
    raise_if (← gets (λ r. is_some r.pending)) Error.pending_roll_unresolved
    raise_if (s.dice_rolls_left == 0) Error.no_roll_left

  -- The end of a roll: with a card that can be used after it the movement waits, otherwise the
  -- team lands at once.
  unfoldable pub finish_roll : Option TeamChanceCard → ℕ → ℕ → ℕ → Movement → Cell → M RollResult
  finish_roll (some card) dice_a dice_b previous m cell = do
    p ← store_pending (pending_row dice_a dice_b previous m cell)
    let reward = compute_start_reward m.start_pass_count (m.destination == start_cell_index)
    pure (
        answer p reward true (some (dice_confirm_request (canonical p.confirmation_id)))
          (some card.pk))
  finish_roll none dice_a dice_b previous m cell = do
    reward ← finalize_landing sh cell m.start_pass_count (m.destination == start_cell_index)
    pure (answer (pending_row dice_a dice_b previous m cell 0) reward false none none)

  -- The roll itself, with the two numbers that `random.randint(1, 6)` gave.
  unfoldable pub perform_roll : ℕ → ℕ → M RollResult
  perform_roll dice_a dice_b = do
    assert_can_roll
    s ← get_state
    consumed ← gets (λ r. r.consumptions)
    m ← lift (compute_movement consumed s.position (dice_a + dice_b) forward)
    cell ← get_cell sh m.destination
    consume_roll sh
    log_roll (record {
      dice_a = dice_a;
      dice_b = dice_b;
      rolled_number = dice_a + dice_b;
      previous_position = s.position;
      current_position = m.destination;
    })
    finish_roll (← gets get_usable_post_roll_card) dice_a dice_b s.position m cell

  -- The receipt is returned as it is; a roll without one is made, and its answer kept.
  unfoldable pub roll_or_replay : Option DiceRollRequest → Option RollResult → ℕ → ℕ → M RollResult
  roll_or_replay request (some receipt) dice_a dice_b = pure receipt
  roll_or_replay request none dice_a dice_b = do
    save_dice_receipt request (← perform_roll dice_a dice_b)

  unfoldable pub roll_dice : Option ℕ → Option RequestKey → ℕ → ℕ → M RollResult
  roll_dice user key dice_a dice_b = do
    board_state_for_update sh true
    request ← gets (λ r. find_request user r.requests)
    receipt ← check_receipt request key
    roll_or_replay request receipt dice_a dice_b
