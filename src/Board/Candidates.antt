-- ===== src/Board/Candidates.antt =====
-- `get_current_cell_candidates` of apps/board/services.py: the challenges that a cell offers.
pub mod Reads
use msg_backend.Prelude.{
  ℕ, ◌-◌, Bool, true, false, Option, none, some, List, [], ◌∷◌, ◌++◌, ◌==◌, leb, not, ◌&&◌, ◌||◌,
  if◌then◌else◌, exists, is_some, select, length,
}
use msg_backend.Board.Model.{
  offered, Cell, Difficulty, easy, medium, hard, Challenge, TeamBoardState, Dice, TeamCellCandidate,
  Shared, Rows,
}
use msg_backend.Board.Monad.{Error, M, pure, gets, ◌>>=◌, ◌>>◌, modify, raise_if, when, get_state}
use msg_backend.Board.Recharge.{is_board_completed}
use msg_backend.Board.Landing.{
  is_challenge_cell, has_access_at, get_cell, board_state_for_update, now,
}
use msg_backend.Board.Cells.{is_offered, is_published_in}

-- No recharge is scheduled, or its time has come.
abbrev pub is_due : Option ℕ → ℕ → Bool
is_due none t = true
is_due (some next) t = leb next t

-- `get_board_state_for_read`: whether a read at `t` must first bring the recharge up to date.
-- `seen_completed` is whether the read asks for the completion and the board is completed.
unfoldable pub recharge_update_required : Dice → Bool → TeamBoardState → ℕ → Bool
recharge_update_required dice seen_completed s t =
    (if leb dice.max_rolls s.dice_rolls_left
      then is_some s.next_dice_reset_at
      else is_due s.next_dice_reset_at t)
    || (seen_completed && is_some s.next_dice_reset_at)

abbrev pub candidate_count : ℕ
candidate_count = 3

abbrev pub is_difficulty : Difficulty → Difficulty → Bool
is_difficulty easy easy = true
is_difficulty medium medium = true
is_difficulty hard hard = true
is_difficulty _ _ = false

-- A candidate that is dropped before the list is filled: its challenge was opened meanwhile, or it
-- is still offered and no longer published.
abbrev pub is_stale : Shared → Rows → TeamCellCandidate → Bool
is_stale sh r c =
    exists (λ a. a.challenge_id == c.challenge_id) r.accesses
    || (is_offered c.status && not (is_published_in sh.challenges c.challenge_id))

-- A challenge that can be offered: of the cell's difficulty, on the board, published, and neither opened by the
-- team nor among the candidates that are there.
abbrev pub is_available : Difficulty → Rows → List TeamCellCandidate → Challenge → Bool
is_available difficulty r existing c =
    is_difficulty c.difficulty difficulty
    && is_some c.board_number
    && c.is_published
    && not (exists (λ a. a.challenge_id == c.challenge_id) r.accesses)
    && not (exists (λ e. e.challenge_id == c.challenge_id) existing)

-- The display orders 1..3 that no candidate has.
abbrev pub free_orders : List TeamCellCandidate → List ℕ
free_orders existing =
    select (λ o. not (exists (λ c. c.display_order == o) existing)) (1 ∷ 2 ∷ 3 ∷ [])

-- `zip(free_orders, selected_challenges)`, each pair a new candidate.
abbrev pub new_candidates : ℕ → List ℕ → List Challenge → List TeamCellCandidate
new_candidates cell (o ∷ orders) (c ∷ chosen) =
    record {
      cell = cell;
      challenge_id = c.challenge_id;
      display_order = o;
      status = offered;
      selected_at = none;
    }
    ∷ new_candidates cell orders chosen
new_candidates cell _ _ = []

-- `sample xs k` stands for `random.sample(xs, k)`.
module _ (sh : Shared) (sample : List Challenge → ℕ → List Challenge) where
  -- The candidates of `cell` after the drop and the refill, and what the team's rows become.
  unfoldable pub refill_candidates : ℕ → Difficulty → Rows → Rows
  refill_candidates cell difficulty r =
      let kept = select (λ c. not (c.cell == cell && is_stale sh r c)) r.candidates in
      let existing = select (λ c. c.cell == cell) kept in
      let available = select (is_available difficulty r existing) sh.challenges in
      let missing = candidate_count - length existing in
      let count = if leb missing (length available) then missing else length available in
      let chosen = if missing == 0 then [] else sample available count in
      record r { candidates = kept ++ new_candidates cell (free_orders existing) chosen }

-- `sort(key=display_order)`
abbrev pub insert_by_order : TeamCellCandidate → List TeamCellCandidate → List TeamCellCandidate
insert_by_order c [] = c ∷ []
insert_by_order c (d ∷ ds) =
    if leb c.display_order d.display_order then c ∷ d ∷ ds else d ∷ insert_by_order c ds

abbrev pub sort_by_order : List TeamCellCandidate → List TeamCellCandidate
sort_by_order [] = []
sort_by_order (c ∷ cs) = insert_by_order c (sort_by_order cs)

-- The candidates of a cell in their order.
unfoldable pub candidates_at : ℕ → Rows → List TeamCellCandidate
candidates_at cell r = sort_by_order (select (λ c. c.cell == cell) r.candidates)

module _ (sh : Shared) where
  abbrev pub bring_up_to_date : Bool → Option TeamBoardState → M (Unit {0})
  bring_up_to_date include_completion none = board_state_for_update sh false
  bring_up_to_date include_completion (some s) = do
    t ← now sh
    completed ← gets (λ r. is_board_completed r.consumptions)
    when (recharge_update_required sh.dice (include_completion && completed) s t)
        (board_state_for_update sh false)

  unfoldable pub get_board_state_for_read : Bool → M TeamBoardState
  get_board_state_for_read include_completion = do
    bring_up_to_date include_completion (← gets (λ r. r.state))
    get_state

module _ (sh : Shared) (sample : List Challenge → ℕ → List Challenge) where
  -- A challenge cell with a difficulty, where no challenge was chosen yet.
  unfoldable pub offer_candidates : ℕ → Difficulty → M (List TeamCellCandidate)
  offer_candidates cell difficulty = do
    modify (refill_candidates sh sample cell difficulty)
    gets (candidates_at cell)

  abbrev pub drop_candidates : ℕ → M (List TeamCellCandidate)
  drop_candidates cell = do
    modify λ r. record r { candidates = select (λ c. not (c.cell == cell)) r.candidates }
    pure []

  abbrev pub offer_at : ℕ → Bool → Option Difficulty → M (List TeamCellCandidate)
  offer_at cell false d = pure []
  offer_at cell true none = pure []
  offer_at cell true (some difficulty) = do
    chosen ← gets (has_access_at cell)
    if chosen then drop_candidates cell else offer_candidates cell difficulty

  unfoldable pub get_current_cell_candidates : M (Cell × List TeamCellCandidate)
  get_current_cell_candidates = do
    s ← get_board_state_for_read sh false
    raise_if (← gets (λ r. is_some r.pending)) Error.pending_roll_unresolved
    cell ← get_cell sh s.position
    found ← offer_at cell.cell_index (is_challenge_cell cell.type) cell.difficulty
    pure (cell, found)
