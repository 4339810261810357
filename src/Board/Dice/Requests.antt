-- ===== src/Board/Dice/Requests.antt =====
-- The requests around a roll in apps/board/services.py: preparing and acknowledging a roll, and
-- confirming a roll that waits.
use msg_backend.Prelude.{
  ℕ, Bool, true, false, Option, none, some, ◌∷◌, ◌==◌, not, ◌&&◌, first, exists, is_some, select,
}
use msg_backend.Board.Model.{
  Shared, RequestKey, canonical, variant, malformed, dice_roll_request, dice_confirm_request,
  other_key, RollResult, DiceRollRequest,
}
use msg_backend.Board.Monad.{
  Error, M, pure, raise, or_raise, gets, ◌>>=◌, ◌>>◌, modify, raise_if, fresh_id,
}
use msg_backend.Board.Recharge.{start_cell_index}
use msg_backend.Board.Landing.{get_cell, board_state_for_update, finalize_landing}
use msg_backend.Board.Dice.{find_request, delete_pending, answer, awaits_choice, pending_passes}

-- `key == PendingDiceRoll.KEY_PREFIX + str(id)`
abbrev pub is_confirm_key : ℕ → Option RequestKey → Bool
is_confirm_key id (some (dice_confirm_request (canonical n))) = n == id
is_confirm_key id _ = false

module _ (sh : Shared) where
  -- `DiceRollRequest.objects.get_or_create(team=team, user=user)`
  abbrev pub get_or_create_request : ℕ → Option DiceRollRequest → M DiceRollRequest
  get_or_create_request user (some q) = pure q
  get_or_create_request user none = do
    id ← fresh_id
    let q : DiceRollRequest = record { id = id; user = user; response_data = none }
    modify (λ r. record r { requests = q ∷ r.requests })
    pure q

  unfoldable pub prepare_dice_roll_request : ℕ → M RequestKey
  prepare_dice_roll_request user = do
    board_state_for_update sh true
    q ← get_or_create_request user (← gets (λ r. find_request (some user) r.requests))
    pure (dice_roll_request (canonical q.id))

  abbrev pub delete_answered : Option DiceRollRequest → M (Unit {0})
  delete_answered none = pure tt
  delete_answered (some q) = do
    raise_if (not (is_some q.response_data)) Error.dice_request_unconfirmed
    modify (λ r. record r { requests = select (λ p. not (p.id == q.id)) r.requests })

  unfoldable pub acknowledge_id : ℕ → ℕ → M (Unit {0})
  acknowledge_id user id = do
    board_state_for_update sh true
    delete_answered (← gets λ r. first (λ q. q.user == user && q.id == id) r.requests)

  unfoldable pub acknowledge_dice_roll_request : ℕ → RequestKey → M (Unit {0})
  unfolding acknowledge_id
  acknowledge_dice_roll_request user (dice_roll_request (canonical id)) = acknowledge_id user id
  acknowledge_dice_roll_request user (dice_roll_request (variant id _)) = acknowledge_id user id
  acknowledge_dice_roll_request user (dice_roll_request (malformed _)) =
      raise Error.dice_request_expired
  acknowledge_dice_roll_request user (dice_confirm_request _) = pure tt
  acknowledge_dice_roll_request user (other_key _) = pure tt

  unfoldable pub confirm_dice_roll : Option RequestKey → M RollResult
  confirm_dice_roll key = do
    board_state_for_update sh true
    p ← or_raise (← gets (λ r. r.pending)) Error.no_pending_roll
    raise_if (not (is_confirm_key p.confirmation_id key)) Error.dice_confirm_request_expired
    raise_if (← gets (λ r. exists awaits_choice r.draws)) Error.chance_confirm_not_found
    cell ← get_cell sh p.candidate_position
    reward ← finalize_landing sh cell (pending_passes p) (p.candidate_position == start_cell_index)
    delete_pending
    pure (answer p reward false none none)
