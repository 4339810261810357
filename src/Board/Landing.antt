-- ===== src/Board/Landing.antt =====
-- What every board operation of apps/board/services.py shares: the lock on the team's state, the
-- writes of rolls and mileage, the checks before a roll, and the arrival on a cell.
pub mod Arrivals
use msg_backend.Prelude.{
  ℕ, suc, ◌+◌, ◌*◌, max, Bool, true, false, Option, none, some, List, ◌∷◌, ◌==◌, not, ◌&&◌,
  if◌then◌else◌, contains, first, exists, is_some,
}
use msg_backend.Board.Model.{
  CellType, EventCode, Cell, TeamBoardState, TeamRow, StartReward, MileageType, Shared, Rows,
  TeamChanceCard, UsageTiming, no_event, event, start_bonus,
}
use msg_backend.Board.Monad.{
  ok, M, pure, raise, or_raise, gets, ◌>>=◌, ◌>>◌, modify, raise_if, when, get_state, modify_state,
  board_not_ready, user_has_no_team, team_banned, does_not_exist,
}
use msg_backend.Board.Recharge.{
  is_board_completed, pause_recharge, update_dice_recharge, grant_dice_roll, consume_dice_roll,
  start_cell_index,
}

abbrev pub bool_to_ℕ : Bool → ℕ
bool_to_ℕ true = 1
bool_to_ℕ false = 0

abbrev pub is_challenge_cell : CellType → Bool
is_challenge_cell CellType.challenge = true
is_challenge_cell _ = false

abbrev pub get_event_for_cell : Cell → EventCode
get_event_for_cell c = elim c.type [ CellType.start ↦ no_event | t ↦ event t ]

abbrev pub start_pass_mileage_reward : ℕ
start_pass_mileage_reward = 100

abbrev pub start_roll_bonus : ℕ
start_roll_bonus = 1

-- The reward for `start_pass_count` passes of START; a landing counts as one pass.
unfoldable pub compute_start_reward : ℕ → Bool → StartReward
compute_start_reward start_pass_count landed_on_start = record {
  mileage_gained = start_pass_mileage_reward * max start_pass_count (bool_to_ℕ landed_on_start);
  roll_gained = if landed_on_start then start_roll_bonus else 0;
}

-- `Cell.objects.filter(cell_index=i).first()`
abbrev pub find_cell : List Cell → ℕ → Option Cell
find_cell cells i = first (λ c. c.cell_index == i) cells

-- A card that was neither used nor discarded.
abbrev pub is_held : TeamChanceCard → Bool
is_held d = not (is_some d.used_at) && not (is_some d.discarded_at)

abbrev pub is_post_roll : UsageTiming → Bool
is_post_roll UsageTiming.post_roll = true
is_post_roll UsageTiming.pre_roll = false

-- `.filter(team=team, source_cell=cell).exists()` on the challenge accesses.
abbrev pub has_access_at : ℕ → Rows → Bool
has_access_at cell r = exists (λ a. a.source_cell == cell) r.accesses

abbrev pub check_active_team : Option TeamRow → M (Unit {0})
check_active_team none = raise user_has_no_team
check_active_team (some t) = raise_if t.is_banned team_banned

unfoldable pub lock_active_team : M (Unit {0})
lock_active_team = do check_active_team (← gets (λ r. r.team))

unfoldable pub consume_cell : ℕ → M (Unit {0})
consume_cell cell = modify λ r. record r {
  consumptions = if contains cell r.consumptions then r.consumptions else cell ∷ r.consumptions;
}

abbrev pub add_mileage : ℕ → Option TeamRow → Option TeamRow
add_mileage amount none = none
add_mileage amount (some t) = some (record t { mileage = t.mileage + amount })

unfoldable pub grant_mileage : ℕ → MileageType → M (Unit {0})
grant_mileage amount type = when (not (amount == 0)) (
    modify λ r. record r {
      team = add_mileage amount r.team;
      history = record { type = type; amount = amount } ∷ r.history;
    })

unfoldable pub get_usable_post_roll_card : Rows → Option TeamChanceCard
get_usable_post_roll_card r = first (λ d. is_held d && is_post_roll d.card.usage_timing) r.draws

-- The state of a team that has none yet.
abbrev pub new_state : ℕ → ℕ → TeamBoardState
new_state position max_rolls = record {
  position = position;
  dice_rolls_left = max_rolls;
  active_challenge_access = none;
  next_dice_reset_at = none;
  recharge_paused_seconds = none;
  airport_move_used = false;
  has_passed_start = false;
}

module _ (sh : Shared) where
  -- `Cell.objects.get(cell_index=i)`
  abbrev pub get_cell : ℕ → M Cell
  get_cell i = or_raise (find_cell sh.cells i) does_not_exist

  -- `timezone.now()`
  unfoldable pub now : M ℕ
  now r = ok (sh.clock r.reads, record r { reads = suc r.reads })

  unfoldable pub apply_pending_dice_recharge : M (Unit {0})
  apply_pending_dice_recharge = do
    t ← now
    completed ← gets (λ r. is_board_completed r.consumptions)
    modify_state (λ s. update_dice_recharge completed s t sh.dice)

  unfoldable pub consume_roll : M (Unit {0})
  consume_roll = do
    t ← now
    completed ← gets (λ r. is_board_completed r.consumptions)
    modify_state (λ s. consume_dice_roll completed s t sh.dice)

  unfoldable pub grant_positive : ℕ → M ℕ
  grant_positive amount = do
    t ← now
    completed ← gets (λ r. is_board_completed r.consumptions)
    s ← get_state
    modify_state (λ s. (grant_dice_roll completed s amount t sh.dice).0)
    pure (grant_dice_roll completed s amount t sh.dice).1

  unfoldable pub grant_roll : ℕ → M ℕ
  grant_roll amount = if amount == 0 then pure 0 else grant_positive amount

  abbrev pub create_state : Option TeamBoardState → M (Unit {0})
  create_state (some s) = pure tt
  create_state none = do
    start_cell ← or_raise (find_cell sh.cells start_cell_index) board_not_ready
    modify (λ r. record r { state = some (new_state start_cell.cell_index sh.dice.max_rolls) })

  unfoldable pub board_state_for_update : Bool → M (Unit {0})
  board_state_for_update require_active = do
    create_state (← gets (λ r. r.state))
    when require_active lock_active_team
    apply_pending_dice_recharge

  unfoldable pub pause_now : M (Unit {0})
  pause_now = do t ← now; modify_state (λ s. pause_recharge s t)

  unfoldable pub pause_if_completed : M (Unit {0})
  pause_if_completed = do when (← gets (λ r. is_board_completed r.consumptions)) pause_now

  unfoldable pub finalize_landing : Cell → ℕ → Bool → M StartReward
  finalize_landing cell start_pass_count landed_on_start = do
    modify_state λ s. record s {
      position = cell.cell_index;
      has_passed_start = if start_pass_count == 0 then s.has_passed_start else true;
    }
    consume_cell cell.cell_index
    let reward = compute_start_reward start_pass_count landed_on_start
    pause_if_completed
    granted ← grant_roll reward.roll_gained
    grant_mileage reward.mileage_gained start_bonus
    pure (record reward { roll_gained = granted })
