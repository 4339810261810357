-- ===== src/Board/Closed/Steps.antt =====
-- The steps that the board operations share keep a predicate that is closed under their writes.
use msg_backend.Prelude.{
  ℕ, ◌≡◌, refl, inl, inr, Bool, true, Option, none, some, Bool-cases, contains,
}
use msg_backend.Board.Model.{TeamBoardState, TeamRow, Cell, Shared, Rows, start_bonus}
use msg_backend.Board.Monad.{modify_state, modify, or_raise, when, board_not_ready, ◌>>=◌, ◌>>◌}
use msg_backend.Board.Keeps.{
  Keeps, After, continue, Keeps-modify, Keeps-modify_state, Keeps-bind, Keeps-gets, Keeps-raise,
  Keeps-raise_if, Keeps-when, Keeps-pure, keeps_rules,
}
use msg_backend.Board.Recharge.{
  update_dice_recharge, grant_dice_roll, consume_dice_roll, pause_recharge, start_cell_index,
}
use msg_backend.Board.Recharge.Frame.{
  update-SameProgress, update-IsBounded, consume-SameProgress, consume-IsBounded,
  grant-SameProgress, grant-IsBounded, pause-SameProgress, pause-IsBounded,
}
use msg_backend.Board.Landing.{
  now, consume_cell, grant_mileage, finalize_landing, apply_pending_dice_recharge, consume_roll,
  grant_roll, grant_positive, pause_now, pause_if_completed, board_state_for_update,
  lock_active_team, find_cell, check_active_team, create_state, new_state,
}
use msg_backend.Board.Closed.{IsLockClosed, IsGameClosed}

module _ (sh : Shared) {P : Rows → Type 0} (closed : IsLockClosed sh P) where
  pub now-Keeps : Keeps P (now sh)
  unfolding now
  now-Keeps = record { at = closed.clock }

  update-step :
      (b : Bool) (t : ℕ) → Keeps P (modify_state (λ s. update_dice_recharge b s t sh.dice))
  update-step b t = Keeps-modify_state _ λ r s e.
      closed.counters r s _ e (update-SameProgress b s t sh.dice) (update-IsBounded b s t sh.dice)

  consume-step : (b : Bool) (t : ℕ) → Keeps P (modify_state (λ s. consume_dice_roll b s t sh.dice))
  consume-step b t = Keeps-modify_state _ λ r s e.
      closed.counters r s _ e (consume-SameProgress b s t sh.dice) (consume-IsBounded b s t sh.dice)

  grant-step :
      (b : Bool) (n t : ℕ) → Keeps P (modify_state (λ s. (grant_dice_roll b s n t sh.dice).0))
  grant-step b n t = Keeps-modify_state _ λ r s e.
      closed.counters r s _ e (grant-SameProgress b s n t sh.dice) (grant-IsBounded b s n t sh.dice)

  pause-step : (t : ℕ) → Keeps P (modify_state (λ s. pause_recharge s t))
  pause-step t = Keeps-modify_state _ λ r s e.
      closed.counters r s _ e (pause-SameProgress true s t sh.dice)
        (pause-IsBounded true s t sh.dice)

  pub apply_pending_dice_recharge-Keeps : Keeps P (apply_pending_dice_recharge sh)
  unfolding apply_pending_dice_recharge
  apply_pending_dice_recharge-Keeps = search (keeps_rules, now-Keeps, update-step)

  pub consume_roll-Keeps : Keeps P (consume_roll sh)
  unfolding consume_roll
  consume_roll-Keeps = search (keeps_rules, now-Keeps, consume-step)

  grant_positive-Keeps : (amount : ℕ) → Keeps P (grant_positive sh amount)
  unfolding grant_positive
  grant_positive-Keeps amount = search (keeps_rules, now-Keeps, grant-step)

  pub grant_roll-Keeps : (amount : ℕ) → Keeps P (grant_roll sh amount)
  unfolding grant_roll
  grant_roll-Keeps amount = search (keeps_rules, grant_positive-Keeps)

  pause_now-Keeps : Keeps P (pause_now sh)
  unfolding pause_now
  pause_now-Keeps = search (keeps_rules, now-Keeps, pause-step)

  pub pause_if_completed-Keeps : Keeps P (pause_if_completed sh)
  unfolding pause_if_completed
  pause_if_completed-Keeps = search (keeps_rules, pause_now-Keeps)

  pub lock_active_team-Keeps : Keeps P lock_active_team
  unfolding lock_active_team
  lock_active_team-Keeps = Keeps-bind _ _ (Keeps-gets _) check
    where
      check : (o : Option TeamRow) → Keeps P (check_active_team o)
      check none = Keeps-raise _
      check (some t) = Keeps-raise_if _ _

  -- A state is made only where there is none.
  create_state-After :
      (r : Rows) (o : Option TeamBoardState) → r.state ≡ o → P r → After P (create_state sh o r)
  unfolding ◌>>=◌
  create_state-After r (some s) e h = h
  create_state-After r none e h = created (find_cell sh.cells start_cell_index) refl
    where
      created :
          (o : Option Cell)
          → find_cell sh.cells start_cell_index ≡ o
          → After P (
              (or_raise o board_not_ready >>= λ c.
              modify λ r. record r { state = some (new_state c.cell_index sh.dice.max_rolls) })
                r)
      created none found = tt
      created (some c) found = closed.create r c e found h

  pub board_state_for_update-Keeps : (active : Bool) → Keeps P (board_state_for_update sh active)
  unfolding board_state_for_update ◌>>=◌
  board_state_for_update-Keeps active = record {
    at = λ r h.
        continue (create_state sh r.state r) _ (create_state-After r r.state refl h) λ _. rest;
  }
    where
      rest : Keeps P (when active lock_active_team >> apply_pending_dice_recharge sh)
      rest = search (keeps_rules, lock_active_team-Keeps, apply_pending_dice_recharge-Keeps)

module _ (sh : Shared) {P : Rows → Type 0} {Q : ℕ → Type 0} (closed : IsGameClosed sh P Q) where
  -- Where a query found a cell, it is consumed once.
  pub consume_cell-Keeps :
      (i : ℕ) (c : Cell) → find_cell sh.cells i ≡ some c → Keeps P (consume_cell c.cell_index)
  unfolding consume_cell
  consume_cell-Keeps i c e = Keeps-modify _ λ r h.
      elim (Bool-cases (contains c.cell_index r.consumptions)) [
        | inl old ↦ rw old h
        | inr new ↦ rw new (closed.consume r i c e new h)
      ]

  -- The bonus of START.
  grant_bonus-Keeps : (amount : ℕ) → Keeps P (grant_mileage amount start_bonus)
  unfolding grant_mileage
  grant_bonus-Keeps amount =
      Keeps-when _ _ (Keeps-modify _ λ r h. closed.mileage r amount start_bonus tt h)

  pub finalize_landing-Keeps :
      (i : ℕ) (c : Cell) (passes : ℕ) (landed : Bool)
      → find_cell sh.cells i ≡ some c
      → Keeps P (finalize_landing sh c passes landed)
  unfolding finalize_landing
  finalize_landing-Keeps i c passes landed found =
      Keeps-bind _ _ (Keeps-modify_state _ λ r s e. closed.place r s i c _ e found) λ _.
        Keeps-bind _ _ (consume_cell-Keeps i c found) λ _.
          Keeps-bind _ _ (pause_if_completed-Keeps sh closed.lock) λ _.
            Keeps-bind _ _ (grant_roll-Keeps sh closed.lock _)
              λ n. Keeps-bind _ _ (grant_bonus-Keeps _) λ _. Keeps-pure _
