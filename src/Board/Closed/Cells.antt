-- ===== src/Board/Closed/Cells.antt =====
-- The challenge cells keep a predicate that is closed under their writes.
use msg_backend.Prelude.{ℕ, Bool, true, false, Option, none, some, List}
use msg_backend.Board.Model.{
  TeamBoardState, TeamChallengeAccess, Challenge, Difficulty, Shared, Rows,
}
use msg_backend.Board.Keeps.{
  Keeps, Keeps-bind, Keeps-pure, Keeps-gets, Keeps-when, Keeps-if, Keeps-raise_if, Keeps-or_raise,
  Keeps-get_state, Keeps-modify, Keeps-modify_state, Keeps-bind_found,
}
use msg_backend.Board.Cells.{
  get_or_create_access, open_current_cell_challenge, select_candidate, clear_access, clear_active,
  clear_if_opened, grant_if, finish_completion, complete_access, complete_challenge_from_submission,
}
use msg_backend.Board.Candidates.{
  refill_candidates, bring_up_to_date, get_board_state_for_read, offer_candidates, offer_at,
  get_current_cell_candidates,
}
use msg_backend.Board.Closed.{IsClosed}
use msg_backend.Board.Closed.Steps.{
  board_state_for_update-Keeps, lock_active_team-Keeps, grant_roll-Keeps, now-Keeps,
}
use msg_backend.Board.Closed.Rolls.{fresh_id-Keeps}

module _ (sh : Shared) {P : Rows → Type 0} {Q : ℕ → Type 0} (closed : IsClosed sh P Q) where
  get_or_create_access-Keeps :
      (challenge_id cell : ℕ) (o : Option TeamChallengeAccess)
      → Keeps P (get_or_create_access sh challenge_id cell o)
  get_or_create_access-Keeps challenge_id cell (some a) = Keeps-pure _
  get_or_create_access-Keeps challenge_id cell none =
      Keeps-bind _ _ (fresh_id-Keeps sh closed.game) λ id.
        Keeps-bind _ _ (now-Keeps sh closed.game.lock)
          λ t. Keeps-bind _ _ (Keeps-modify _ λ r h. closed.add_access r _ h) λ _. Keeps-pure _

  pub open_current_cell_challenge-Keeps :
      (requested : Option ℕ) → Keeps P (open_current_cell_challenge sh requested)
  unfolding open_current_cell_challenge select_candidate
  open_current_cell_challenge-Keeps requested =
      Keeps-bind _ _ (Keeps-or_raise requested _) λ challenge_id.
        Keeps-bind _ _ (board_state_for_update-Keeps sh closed.game.lock false) λ _.
          Keeps-bind _ _ (lock_active_team-Keeps sh closed.game.lock) λ _.
            Keeps-bind _ _ (Keeps-gets _) λ waits. Keeps-bind _ _ (Keeps-raise_if waits _) λ _.
              Keeps-bind _ _ Keeps-get_state λ s. Keeps-bind_found _ _ _ λ c to.
                Keeps-bind _ _ (Keeps-raise_if _ _) λ _. Keeps-bind _ _ (Keeps-gets _) λ chosen.
                  Keeps-bind _ _ (Keeps-raise_if chosen _) λ _. Keeps-bind _ _ (Keeps-gets _) λ o.
                    Keeps-bind _ _ (Keeps-or_raise o _) λ candidate.
                      Keeps-bind _ _ (Keeps-gets _) λ old.
                        Keeps-bind _ _ (get_or_create_access-Keeps _ _ old) λ access.
                          Keeps-bind _ _ (now-Keeps sh closed.game.lock) λ t.
                            Keeps-bind _ _ (Keeps-modify _ λ r h. closed.candidates r _ h) λ _.
                              Keeps-bind _ _
                                (Keeps-modify_state _ λ r s e h. closed.activate r s _ e h)
                                λ _. Keeps-pure _

  clear_active-Keeps : Keeps P clear_active
  unfolding clear_active
  clear_active-Keeps = Keeps-modify_state _ λ r s e h. closed.activate r s _ e h

  clear_if_opened-Keeps : (a : TeamChallengeAccess) → Keeps P (clear_if_opened sh a)
  unfolding clear_access
  clear_if_opened-Keeps a = Keeps-when _ _ (
      Keeps-bind _ _ (now-Keeps sh closed.game.lock)
        λ t. Keeps-modify _ λ r h. closed.clear r a.id t h)

  grant_if-Keeps : (b : Bool) → Keeps P (grant_if sh b)
  grant_if-Keeps true = Keeps-bind _ _ (grant_roll-Keeps sh closed.game.lock _) λ n. Keeps-pure _
  grant_if-Keeps false = Keeps-pure _

  finish_completion-Keeps :
      (o : Option TeamBoardState) (a : TeamChallengeAccess) (t : ℕ)
      → Keeps P (finish_completion sh o a t)
  unfolding finish_completion
  finish_completion-Keeps none a t = Keeps-pure _
  finish_completion-Keeps (some s) a t =
      Keeps-bind _ _ (Keeps-when _ _ clear_active-Keeps) λ _. grant_if-Keeps _

  complete_access-Keeps :
      (o : Option TeamChallengeAccess) (t : ℕ) → Keeps P (complete_access sh o t)
  complete_access-Keeps none t = Keeps-pure _
  complete_access-Keeps (some a) t =
      Keeps-bind _ _ (Keeps-gets _)
        λ s. Keeps-bind _ _ (clear_if_opened-Keeps a) λ _. finish_completion-Keeps s a t

  pub complete_challenge-Keeps :
      (challenge_id t : ℕ) → Keeps P (complete_challenge_from_submission sh challenge_id t)
  unfolding complete_challenge_from_submission
  complete_challenge-Keeps challenge_id t =
      Keeps-bind _ _ (Keeps-gets _) λ o. complete_access-Keeps o t

  bring_up_to_date-Keeps :
      (c : Bool) (o : Option TeamBoardState) → Keeps P (bring_up_to_date sh c o)
  bring_up_to_date-Keeps c none = board_state_for_update-Keeps sh closed.game.lock false
  bring_up_to_date-Keeps c (some s) = Keeps-bind _ _ (now-Keeps sh closed.game.lock) λ t.
      Keeps-bind _ _ (Keeps-gets _)
        λ done. Keeps-when _ _ (board_state_for_update-Keeps sh closed.game.lock false)

  pub get_board_state_for_read-Keeps : (c : Bool) → Keeps P (get_board_state_for_read sh c)
  unfolding get_board_state_for_read
  get_board_state_for_read-Keeps c =
      Keeps-bind _ _ (Keeps-gets _)
        λ o. Keeps-bind _ _ (bring_up_to_date-Keeps c o) λ _. Keeps-get_state

module _ (sh : Shared) {P : Rows → Type 0} {Q : ℕ → Type 0} (closed : IsClosed sh P Q)
    (sample : List Challenge → ℕ → List Challenge) where
  offer_at-Keeps :
      (cell : ℕ) (b : Bool) (d : Option Difficulty) → Keeps P (offer_at sh sample cell b d)
  unfolding offer_candidates refill_candidates
  offer_at-Keeps cell false d = Keeps-pure _
  offer_at-Keeps cell true none = Keeps-pure _
  offer_at-Keeps cell true (some d) = Keeps-bind _ _ (Keeps-gets _) λ chosen.
      Keeps-if chosen _ _
        (Keeps-bind _ _ (Keeps-modify _ λ r h. closed.candidates r _ h) λ _. Keeps-pure _)
        (Keeps-bind _ _ (Keeps-modify _ λ r h. closed.candidates r _ h) λ _. Keeps-gets _)

  pub get_current_cell_candidates-Keeps : Keeps P (get_current_cell_candidates sh sample)
  unfolding get_current_cell_candidates
  get_current_cell_candidates-Keeps =
      Keeps-bind _ _ (get_board_state_for_read-Keeps sh closed false) λ s.
        Keeps-bind _ _ (Keeps-gets _) λ waits. Keeps-bind _ _ (Keeps-raise_if waits _) λ _.
          Keeps-bind _ _ (Keeps-or_raise _ _)
            λ c. Keeps-bind _ _ (offer_at-Keeps _ _ _) λ _. Keeps-pure _
