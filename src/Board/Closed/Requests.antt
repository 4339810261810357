-- ===== src/Board/Closed/Requests.antt =====
-- The requests to roll and to confirm keep a predicate that is closed under their writes.
use msg_backend.Prelude.{ℕ, true, Option, none, some}
use msg_backend.Board.Model.{
  Shared, Rows, DiceRollRequest, RollResult, RequestKey, canonical, variant, malformed,
  dice_roll_request, dice_confirm_request, other_key,
}
use msg_backend.Board.Keeps.{
  Keeps, Keeps-bind, Keeps-pure, Keeps-gets, Keeps-modify, Keeps-bind_found, Keeps-raise_if,
  Keeps-raise, Keeps-or_raise, keeps_rules,
}
use msg_backend.Board.Dice.{
  save_dice_receipt, check_receipt, roll_or_replay, roll_dice, delete_pending,
}
use msg_backend.Board.Dice.Requests.{
  get_or_create_request, prepare_dice_roll_request, delete_answered, acknowledge_id,
  acknowledge_dice_roll_request, confirm_dice_roll,
}
use msg_backend.Board.Closed.{IsClosed}
use msg_backend.Board.Closed.Steps.{board_state_for_update-Keeps, finalize_landing-Keeps}
use msg_backend.Board.Closed.Rolls.{perform_roll-Keeps, fresh_id-Keeps}

module _ (sh : Shared) {P : Rows → Type 0} {Q : ℕ → Type 0} (closed : IsClosed sh P Q) where
  pub delete_pending-Keeps : Keeps P delete_pending
  unfolding delete_pending
  delete_pending-Keeps = Keeps-modify _ closed.unwait

  save_dice_receipt-Keeps :
      (q : Option DiceRollRequest) (result : RollResult) → Keeps P (save_dice_receipt q result)
  unfolding save_dice_receipt
  save_dice_receipt-Keeps none result = Keeps-pure _
  save_dice_receipt-Keeps (some q) result =
      Keeps-bind _ _ (Keeps-modify _ λ r h. closed.requests r _ h) λ _. Keeps-pure _

  check_receipt-Keeps :
      (q : Option DiceRollRequest) (key : Option RequestKey) → Keeps P (check_receipt q key)
  unfolding check_receipt
  check_receipt-Keeps none key = search keeps_rules
  check_receipt-Keeps (some q) key = search keeps_rules

  roll_or_replay-Keeps :
      (q : Option DiceRollRequest) (receipt : Option RollResult) (a b : ℕ)
      → Keeps P (roll_or_replay sh q receipt a b)
  unfolding roll_or_replay
  roll_or_replay-Keeps q none a b =
      Keeps-bind _ _ (perform_roll-Keeps sh closed.game a b) (save_dice_receipt-Keeps q)
  roll_or_replay-Keeps q (some receipt) a b = Keeps-pure _

  pub roll_dice-Keeps :
      (user : Option ℕ) (key : Option RequestKey) (a b : ℕ) → Keeps P (roll_dice sh user key a b)
  unfolding roll_dice
  roll_dice-Keeps user key a b =
      Keeps-bind _ _ (board_state_for_update-Keeps sh closed.game.lock true)
        λ _. search (keeps_rules, check_receipt-Keeps, roll_or_replay-Keeps)

  get_or_create_request-Keeps :
      (user : ℕ) (q : Option DiceRollRequest) → Keeps P (get_or_create_request sh user q)
  get_or_create_request-Keeps user (some q) = Keeps-pure _
  get_or_create_request-Keeps user none =
      Keeps-bind _ _ (fresh_id-Keeps sh closed.game)
        λ id. Keeps-bind _ _ (Keeps-modify _ λ r h. closed.requests r _ h) λ _. Keeps-pure _

  pub prepare_dice_roll_request-Keeps : (user : ℕ) → Keeps P (prepare_dice_roll_request sh user)
  unfolding prepare_dice_roll_request
  prepare_dice_roll_request-Keeps user =
      Keeps-bind _ _ (board_state_for_update-Keeps sh closed.game.lock true)
        λ _. search (keeps_rules, get_or_create_request-Keeps)

  delete_answered-Keeps : (q : Option DiceRollRequest) → Keeps P (delete_answered sh q)
  delete_answered-Keeps none = Keeps-pure _
  delete_answered-Keeps (some q) =
      Keeps-bind _ _ (Keeps-raise_if _ _) λ _. Keeps-modify _ λ r h. closed.requests r _ h

  acknowledge_id-Keeps : (user id : ℕ) → Keeps P (acknowledge_id sh user id)
  unfolding acknowledge_id
  acknowledge_id-Keeps user id =
      Keeps-bind _ _ (board_state_for_update-Keeps sh closed.game.lock true)
        λ _. search (keeps_rules, delete_answered-Keeps)

  pub acknowledge-Keeps :
      (user : ℕ) (key : RequestKey) → Keeps P (acknowledge_dice_roll_request sh user key)
  unfolding acknowledge_dice_roll_request
  acknowledge-Keeps user (dice_roll_request (canonical id)) = acknowledge_id-Keeps user id
  acknowledge-Keeps user (dice_roll_request (variant id _)) = acknowledge_id-Keeps user id
  acknowledge-Keeps user (dice_roll_request (malformed _)) = Keeps-raise _
  acknowledge-Keeps user (dice_confirm_request _) = Keeps-pure _
  acknowledge-Keeps user (other_key _) = Keeps-pure _

  pub confirm_dice_roll-Keeps : (key : Option RequestKey) → Keeps P (confirm_dice_roll sh key)
  unfolding confirm_dice_roll
  confirm_dice_roll-Keeps key =
      Keeps-bind _ _ (board_state_for_update-Keeps sh closed.game.lock true) λ _.
        Keeps-bind _ _ (Keeps-gets _) λ o. Keeps-bind _ _ (Keeps-or_raise o _) λ p.
          Keeps-bind _ _ (Keeps-raise_if _ _) λ _. Keeps-bind _ _ (Keeps-gets _) λ waits.
            Keeps-bind _ _ (Keeps-raise_if waits _) λ _. Keeps-bind_found _ _ _ λ c to.
              Keeps-bind _ _ (finalize_landing-Keeps sh closed.game _ c _ _ to)
                λ _. Keeps-bind _ _ delete_pending-Keeps λ _. Keeps-pure _
