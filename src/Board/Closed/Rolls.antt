-- ===== src/Board/Closed/Rolls.antt =====
-- A roll of the dice keeps a predicate that is closed under its writes.
use msg_backend.Prelude.{ℕ, ◌≡◌, Option, none, some}
use msg_backend.Board.Model.{
  TeamBoardState, TeamChanceCard, Cell, Shared, Rows, PendingDiceRoll, DiceRoll,
}
use msg_backend.Board.Monad.{M, get_state, fresh_id, ◌>>=◌}
use msg_backend.Board.Keeps.{
  Keeps, Keeps-bind, Keeps-pure, Keeps-gets, Keeps-modify, Keeps-bind_found, Keeps-bind_state,
  Keeps-lift, keeps_rules,
}
use msg_backend.Board.Movement.{Movement}
use msg_backend.Board.Landing.{find_cell}
use msg_backend.Board.Dice.{
  log_roll, store_pending, pending_id, assert_can_roll, finish_roll, perform_roll,
}
use msg_backend.Board.Closed.{IsGameClosed}
use msg_backend.Board.Closed.Steps.{consume_roll-Keeps, finalize_landing-Keeps}

module _ (sh : Shared) {P : Rows → Type 0} {Q : ℕ → Type 0} (closed : IsGameClosed sh P Q) where
  pub assert_can_roll-Keeps : Keeps P (assert_can_roll sh)
  unfolding assert_can_roll
  assert_can_roll-Keeps = search keeps_rules depth 9

  pub log_roll-Keeps : (roll : DiceRoll) → Keeps P (log_roll roll)
  unfolding log_roll
  log_roll-Keeps roll = Keeps-modify _ λ r h. closed.log r roll h

  pub fresh_id-Keeps : Keeps P fresh_id
  unfolding fresh_id
  fresh_id-Keeps = record { at = closed.ids }

  pending_id-Keeps : (o : Option PendingDiceRoll) → Keeps P (pending_id o)
  pending_id-Keeps none = fresh_id-Keeps
  pending_id-Keeps (some p) = Keeps-pure _

  -- A roll may wait for its confirmation where its two ends are known.
  pub store_pending-Keeps :
      (row : ℕ → PendingDiceRoll) (c : Cell)
      → ((id : ℕ) → Q (row id).previous_position)
      → ((id : ℕ) → find_cell sh.cells (row id).candidate_position ≡ some c)
      → Keeps P (store_pending row)
  unfolding store_pending
  store_pending-Keeps row c from to = Keeps-bind _ _ (Keeps-gets _) λ o.
      Keeps-bind _ _ (pending_id-Keeps o) λ id.
        Keeps-bind _ _ (Keeps-modify _ λ r h. closed.wait r (row id) c (from id) (to id) h)
          λ _. Keeps-pure _

  finish_roll-Keeps :
      (card : Option TeamChanceCard) (a b previous : ℕ) (m : Movement) (c : Cell)
      → Q previous
      → find_cell sh.cells m.destination ≡ some c
      → Keeps P (finish_roll sh card a b previous m c)
  unfolding finish_roll
  finish_roll-Keeps none a b previous m c from to =
      Keeps-bind _ _ (finalize_landing-Keeps sh closed m.destination c _ _ to) λ _. Keeps-pure _
  finish_roll-Keeps (some card) a b previous m c from to =
      Keeps-bind _ _ (store_pending-Keeps _ c (λ id. from) (λ id. to)) λ _. Keeps-pure _

  -- The rest of a block may use what `P` says of the cell where the team stands.
  pub bind_position-Keeps :
      {B : Type 0} (f : TeamBoardState → M B)
      → ((s : TeamBoardState) → Q s.position → Keeps P (f s))
      → Keeps P (get_state >>= f)
  bind_position-Keeps f k = Keeps-bind_state f (λ s. Q s.position) closed.stands k

  pub perform_roll-Keeps : (a b : ℕ) → Keeps P (perform_roll sh a b)
  unfolding perform_roll
  perform_roll-Keeps a b = Keeps-bind _ _ assert_can_roll-Keeps λ _. bind_position-Keeps _ λ s from.
      Keeps-bind _ _ (Keeps-gets _) λ consumed. Keeps-bind _ _ (Keeps-lift _) λ m.
        Keeps-bind_found _ _ _ λ c to. Keeps-bind _ _ (consume_roll-Keeps sh closed.lock) λ _.
          Keeps-bind _ _ (log_roll-Keeps _) λ _.
            Keeps-bind _ _ (Keeps-gets _) λ card. finish_roll-Keeps card a b s.position m c from to
