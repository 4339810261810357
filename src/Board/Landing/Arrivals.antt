-- ===== src/Board/Landing/Arrivals.antt =====
-- Where a team stands after a confirmed roll, a flight and a roll that does not wait.
use msg_backend.Prelude.{
  ℕ, ◌≡◌, refl, sym, subst, ◌∙◌, Bool, true, Bool-cases, inl, inr, Option, none, some, List, [],
  ◌∷◌, contains, if◌then◌else◌, arith,
}
use msg_backend.Board.Model.{
  TeamBoardState, Cell, Shared, Rows, Json, RequestKey, RollResult, PendingDiceRoll, DiceRoll,
  TeamChanceCard, dice_confirm_request, canonical,
}
use msg_backend.Board.Monad.{ok, modify, with_state}
use msg_backend.Board.Keeps.{
  Keeps, Keeps-modify, Keeps-when, Keeps-gets, Keeps-or_raise, Keeps-raise_if, Keeps-get_state,
  Keeps-modify_state, Keeps-lift,
}
use msg_backend.Board.Triple.{
  Triple, Triple-bind, Triple-Keeps, Triple-ok, Triple-pure, Triple-pre, Triple-then, Triple-found,
  Triple-gets, Triple-modify, Triple-modify_state, Triple-state, Keeps-any,
}
use msg_backend.Board.Landing.{
  find_cell, finalize_landing, create_state, board_state_for_update, consume_cell, grant_mileage,
}
use msg_backend.Board.Movement.{Movement}
use msg_backend.Board.Dice.{
  perform_roll, finish_roll, pending_row, log_roll, delete_pending, store_pending,
}
use msg_backend.Board.Dice.Requests.{confirm_dice_roll}
use msg_backend.Board.Airport.{MoveResult, move_to, move_team_via_airport}
use msg_backend.Board.Closed.{IsLockClosed}
use msg_backend.Board.Closed.Steps.{
  lock_active_team-Keeps, consume_roll-Keeps, apply_pending_dice_recharge-Keeps, grant_roll-Keeps,
  pause_if_completed-Keeps,
}

abbrev StandsAt : ℕ → Option TeamBoardState → Type 0
StandsAt c none = ⊥
StandsAt c (some s) = s.position ≡ c

-- The team stands on the cell `c`, which is consumed.
abbrev pub IsAt : ℕ → Rows → Type 0
IsAt c r = StandsAt c r.state × (contains c r.consumptions ≡ true)

find_cell-index :
    (cells : List Cell) (i : ℕ) (c : Cell) → find_cell cells i ≡ some c → c.cell_index ≡ i
find_cell-index [] i c e = ground arith
find_cell-index (x ∷ cells) i c e = ground (arith, find_cell-index cells i c)

-- The writes of the lock keep where a team stands.
IsAt-IsLockClosed : (sh : Shared) (c : ℕ) → IsLockClosed sh (λ r. IsAt c r)
IsAt-IsLockClosed sh c = record {
  clock = λ r h. h;
  counters = λ r s s' e same bounded h. (same.0 ∙ subst (StandsAt c) e h.0, h.1);
  create = λ r cell fresh e h. absurd (subst (StandsAt c) fresh h.0);
}

contains_consumed : (c : ℕ) (xs : List ℕ) → contains c (if contains c xs then xs else c ∷ xs) ≡ true
contains_consumed c xs = elim (Bool-cases (contains c xs)) [
  | inl old ↦ rw old old
  | inr new ↦ rw new (ground arith)
]

abbrev HasState : Option TeamBoardState → Type 0
HasState none = ⊥
HasState (some s) = Unit

HasState-IsLockClosed : (sh : Shared) → IsLockClosed sh (λ r. HasState r.state)
HasState-IsLockClosed sh = record {
  clock = λ r h. h;
  counters = λ r s s' e same bounded h. tt;
  create = λ r cell fresh e h. tt;
}

creating :
    (sh : Shared) (o : Option TeamBoardState)
    → Triple (λ r. r.state ≡ o) (λ a r. HasState r.state) (create_state sh o)
unfolding modify
creating sh (some s) = Triple-pure tt λ r h. subst HasState (sym h) tt
creating sh none = Triple-found _ _ _ λ c found. record { at = λ r h. tt }

-- The lock leaves a team with a state.
locking :
    (sh : Shared) (active : Bool)
    → Triple (λ r. Unit) (λ a r. HasState r.state) (board_state_for_update sh active)
unfolding board_state_for_update
locking sh active = Triple-gets _ _ λ o.
    Triple-bind _ _ (Triple-pre (λ r h. h.1) (creating sh o)) λ _.
      Triple-then _ _ (Keeps-when active _ (lock_active_team-Keeps sh (HasState-IsLockClosed sh)))
        λ _. Triple-Keeps _ (apply_pending_dice_recharge-Keeps sh (HasState-IsLockClosed sh))

module _ (sh : Shared) where
  placed :
      (c : ℕ) (f : TeamBoardState → TeamBoardState) (r : Rows) (o : Option TeamBoardState)
      → ((s : TeamBoardState) → (f s).position ≡ c)
      → HasState o
      → StandsAt c (with_state f r o).state
  placed c f r none at_c h = absurd h
  placed c f r (some s) at_c h = at_c s

  -- A landing puts a team that has a state on the cell, and consumes the cell.
  landing :
      (i : ℕ) (c : Cell) (passes : ℕ) (landed : Bool)
      → find_cell sh.cells i ≡ some c
      → Triple (λ r. HasState r.state) (λ a r. IsAt i r) (finalize_landing sh c passes landed)
  unfolding finalize_landing consume_cell grant_mileage
  landing i c passes landed found =
      Triple-modify_state {P' = λ r. StandsAt c.cell_index r.state} _ _
        (λ r h. placed _ _ r r.state (λ s. refl) h)
        (Triple-modify {P' = IsAt c.cell_index} _ _
          (λ r h. (h, contains_consumed c.cell_index r.consumptions))
          (Triple-then _ _ (pause_if_completed-Keeps sh (IsAt-IsLockClosed sh _)) λ _.
            Triple-then _ _ (grant_roll-Keeps sh (IsAt-IsLockClosed sh _) _) λ n.
              Triple-then _ _ (Keeps-when _ _ (Keeps-modify _ λ r h. h)) λ _.
                Triple-pure _ λ r h. subst (λ k. IsAt k r) (find_cell-index sh.cells i c found) h))

  confirming :
      (key : Option RequestKey)
      → Triple
          (λ r. Unit)
          (λ x r. IsAt x.current_position r × (r.pending ≡ none))
          (confirm_dice_roll sh key)
  unfolding confirm_dice_roll delete_pending
  confirming key = Triple-bind _ _ (locking sh true) λ _. Triple-then _ _ (Keeps-gets _) λ o.
      Triple-then _ _ (Keeps-or_raise o _) λ p. Triple-then _ _ (Keeps-raise_if _ _) λ _.
        Triple-then _ _ (Keeps-gets _) λ waits. Triple-then _ _ (Keeps-raise_if waits _) λ _.
          Triple-found _ _ _ λ c to.
            Triple-bind _ _ (landing p.candidate_position c _ _ to) λ reward.
              Triple-modify {P' = λ r. IsAt p.candidate_position r × (r.pending ≡ none)} _ _
                (λ r h. (h, refl)) (Triple-pure _ λ r h. h)

  flying_to : (i : ℕ) → Triple (λ r. Unit) (λ x r. IsAt x.current_position r) (move_to sh i)
  unfolding move_to
  flying_to i = Triple-bind _ _ (locking sh true) λ _. Triple-then _ _ Keeps-get_state λ s.
      Triple-then _ _ (Keeps-or_raise _ _) λ here. Triple-then _ _ (Keeps-raise_if _ _) λ _.
        Triple-then _ _ (Keeps-raise_if _ _) λ _. Triple-then _ _ (Keeps-gets _) λ taken.
          Triple-then _ _ (Keeps-raise_if taken _) λ _. Triple-found _ _ _ λ c to.
            Triple-then _ _ (Keeps-modify_state _ λ r s e h. tt)
              λ _. Triple-bind _ _ (landing i c _ _ to) λ reward. Triple-pure _ λ r h. h

  flying :
      (j : Json)
      → Triple (λ r. Unit) (λ x r. IsAt x.current_position r) (move_team_via_airport sh j)
  unfolding move_team_via_airport
  flying j = Triple-found _ _ _ λ i e. flying_to i

-- A roll that waits stands in the rows as the answer has it, under the key that the answer gives.
abbrev pub WaitsAs : RollResult → Option PendingDiceRoll → Type 0
WaitsAs x none = ⊥
WaitsAs x (some p) =
    (p.candidate_position ≡ x.current_position)
    × (p.previous_position ≡ x.previous_position)
    × (x.pending_confirm_request_key ≡ some (dice_confirm_request (canonical p.confirmation_id)))

-- What a roll leaves: it waits, or the team stands on the cell of the answer, which is consumed.
abbrev pub IsRolled : RollResult → Rows → Type 0
IsRolled x r = if x.pending_confirm then WaitsAs x r.pending else IsAt x.current_position r

module _ (sh : Shared) where
  finishing :
      (card : Option TeamChanceCard) (a b previous : ℕ) (m : Movement) (c : Cell)
      → find_cell sh.cells m.destination ≡ some c
      → Triple (λ r. HasState r.state) (λ x r. IsRolled x r) (finish_roll sh card a b previous m c)
  unfolding finish_roll store_pending
  finishing none a b previous m c to =
      Triple-bind _ _ (landing sh m.destination c _ _ to) λ reward. Triple-pure _ λ r h. h
  finishing (some card) a b previous m c to =
      Triple-pre {P' = λ r. Unit} (λ r h. tt)
        (Triple-bind {P' = λ p r. r.pending ≡ some p} _ _
          (Triple-then _ _ (Keeps-any _) λ o. Triple-then _ _ (Keeps-any _) λ id.
            Triple-modify {P' = λ r. r.pending ≡ some (pending_row a b previous m c id)} _ _
              (λ r h. refl) (Triple-pure _ λ r h. h))
          λ p. Triple-pure _ λ r h. rw h (refl, refl, refl))

  rolling : (a b : ℕ) → Triple (λ r. Unit) (λ x r. IsRolled x r) (perform_roll sh a b)
  unfolding perform_roll log_roll
  rolling a b = Triple-then _ _ (Keeps-any _) λ _. Triple-state _ λ s.
      Triple-then _ _ (Keeps-gets _) λ consumed. Triple-then _ _ (Keeps-lift _) λ m.
        Triple-found _ _ _ λ c to.
          Triple-pre {P' = λ r. HasState r.state} (λ r h. subst HasState (sym h.1) tt)
            (Triple-then _ _ (consume_roll-Keeps sh (HasState-IsLockClosed sh)) λ _.
              Triple-then _ _ (log_roll_any _)
                λ _. Triple-then _ _ (Keeps-gets _) λ card. finishing card a b s.position m c to)
    where
      log_roll_any : (roll : DiceRoll) → Keeps (λ r. HasState r.state) (log_roll roll)
      log_roll_any roll = Keeps-modify _ λ r h. h

-- A roll that was confirmed puts the team on the cell that the answer names, which is consumed, and
-- no roll waits any more.
confirm_arrives :
    (sh : Shared) (key : Option RequestKey) (r : Rows) (x : RollResult × Rows)
    → confirm_dice_roll sh key r ≡ ok x
    → IsAt x.0.current_position x.1 × (x.1.pending ≡ none)
confirm_arrives sh key r x e = Triple-ok (confirming sh key) r x e tt

-- A flight from the airport puts the team on the cell that the answer names, which is consumed.
flight_arrives :
    (sh : Shared) (j : Json) (r : Rows) (x : MoveResult × Rows)
    → move_team_via_airport sh j r ≡ ok x
    → IsAt x.0.current_position x.1
flight_arrives sh j r x e = Triple-ok (flying sh j) r x e tt

-- A roll of two dice that succeeds either answers that it waits, and then the waiting row has the
-- two ends of the movement and the key of the answer, or puts the team on the cell that the answer
-- names, which is consumed.
pub roll_arrives :
    (sh : Shared) (a b : ℕ) (r : Rows) (x : RollResult × Rows)
    → perform_roll sh a b r ≡ ok x
    → IsRolled x.0 x.1
roll_arrives sh a b r x e = Triple-ok (rolling sh a b) r x e tt
