-- ===== src/Board/Model.antt =====
-- The rows that one team owns, and the rows and settings that all teams share, of
-- apps/board/models.py. Times are whole microseconds; the primary keys are numbers.
use msg_backend.Prelude.{ℕ, Bool, Option, List}
use msg_backend.Prelude.Int.{ℤ}

pub data CellType : Type 0 where
  start challenge chance airport roulette : CellType

-- `get_event_for_cell` answers "NONE" at START and the cell's type elsewhere.
pub data EventCode : Type 0 where
  no_event : EventCode
  event : CellType → EventCode

pub data Difficulty : Type 0 where
  easy medium hard : Difficulty

pub record Cell : Type 0 where
  pub cell_index : ℕ
  pub type : CellType
  pub difficulty : Option Difficulty
  pub line_number : Option ℕ

-- A card that is no longer among `CardId.values` may still stand in the table.
pub data CardId : Type 0 where
  reroll roll_twice_choose move_offset free_travel extra_roll : CardId
  retired : ℕ → CardId

pub data UsageTiming : Type 0 where
  pre_roll post_roll : UsageTiming

-- The keys of `_EFFECT_HANDLERS`, and every other text.
pub data Effect : Type 0 where
  re_roll twice_choose offset_move free_move grant_extra_roll : Effect
  unknown_effect : ℕ → Effect

pub record ChanceCard : Type 0 where
  pub card_id : CardId
  pub effect : Effect
  pub usage_timing : UsageTiming

-- A draw of a card, with the card's own row joined to it (`select_related("card")`).
pub record TeamChanceCard : Type 0 where
  pub pk : ℕ
  pub source_cell : ℕ
  pub card : ChanceCard
  pub used_at : Option ℕ
  pub discarded_at : Option ℕ
  pub pending_first_number : Option ℕ
  pub pending_second_number : Option ℕ

pub record PendingDiceRoll : Type 0 where
  pub confirmation_id : ℕ
  pub dice_a : ℕ
  pub dice_b : ℕ
  pub rolled_number : ℕ
  pub previous_position : ℕ
  pub candidate_position : ℕ
  pub movement_path : List ℕ
  pub skipped_cells : List ℕ
  pub passed_start : Bool
  pub start_pass_count : ℕ
  pub board_event_code : EventCode

pub data AccessStatus : Type 0 where
  opened cleared : AccessStatus

pub record TeamChallengeAccess : Type 0 where
  pub id : ℕ
  pub challenge_id : ℕ
  pub source_cell : ℕ
  pub status : AccessStatus
  pub opened_at : ℕ
  pub cleared_at : Option ℕ

pub data CandidateStatus : Type 0 where
  offered selected : CandidateStatus

pub record TeamCellCandidate : Type 0 where
  pub cell : ℕ
  pub challenge_id : ℕ
  pub display_order : ℕ
  pub status : CandidateStatus
  pub selected_at : Option ℕ

-- The columns of a challenge that the board reads. `board_number` is the number of its board meta
-- row, if it has one.
pub record Challenge : Type 0 where
  pub challenge_id : ℕ
  pub difficulty : Difficulty
  pub is_published : Bool
  pub board_number : Option ℕ

pub record TeamBoardState : Type 0 where
  pub position : ℕ
  pub dice_rolls_left : ℕ
  pub active_challenge_access : Option ℕ
  pub next_dice_reset_at : Option ℕ
  pub recharge_paused_seconds : Option ℕ
  pub airport_move_used : Bool
  pub has_passed_start : Bool

-- The text after a key's prefix: the canonical spelling of an identifier, another spelling that
-- `uuid.UUID` reads as it, or no identifier.
pub data Suffix : Type 0 where
  canonical : ℕ → Suffix
  variant : ℕ → ℕ → Suffix
  malformed : ℕ → Suffix

-- A request key, by the prefix with which it begins.
pub data RequestKey : Type 0 where
  dice_roll_request dice_confirm_request : Suffix → RequestKey
  other_key : ℕ → RequestKey

pub record StartReward : Type 0 where
  pub mileage_gained : ℕ
  pub roll_gained : ℕ

-- What a roll or a confirmation answers. `usable_chance_card` is the key of the card.
pub record RollResult : Type 0 where
  pub dice_a : ℕ
  pub dice_b : ℕ
  pub rolled_number : ℕ
  pub previous_position : ℕ
  pub current_position : ℕ
  pub movement_path : List ℕ
  pub skipped_cells : List ℕ
  pub passed_start : Bool
  pub start_reward : StartReward
  pub board_event_code : EventCode
  pub pending_confirm : Bool
  pub pending_confirm_request_key : Option RequestKey
  pub usable_chance_card : Option ℕ

pub record DiceRollRequest : Type 0 where
  pub id : ℕ
  pub user : ℕ
  pub response_data : Option RollResult

pub record DiceRoll : Type 0 where
  pub dice_a : ℕ
  pub dice_b : ℕ
  pub rolled_number : ℕ
  pub previous_position : ℕ
  pub current_position : ℕ

pub data MileageType : Type 0 where
  start_bonus : MileageType
  -- The reason names the cell.
  roulette_reward : ℕ → MileageType
  other_mileage : MileageType

pub record MileageHistory : Type 0 where
  pub type : MileageType
  pub amount : ℕ

-- The columns of the team's own row that the board reads or writes.
pub record TeamRow : Type 0 where
  pub is_banned : Bool
  pub mileage : ℕ

-- The largest number of rolls that a team holds, and the microseconds between recharges.
pub record Dice : Type 0 where
  pub max_rolls : ℕ
  pub interval : ℕ

-- The shared rows and settings, as one transaction reads them. `clock n` is what the n-th call of
-- `timezone.now()` returns.
pub record Shared : Type 0 where
  pub cells : List Cell
  pub dice : Dice
  pub solve_limit_seconds : ℕ
  pub cards : List ChanceCard
  pub challenges : List Challenge
  pub clock : ℕ → ℕ

-- The rows of one team. `draws` is in the table's order, the latest draw first; `next_id` is the
-- next fresh identifier and `reads` the number of clock readings so far.
pub record Rows : Type 0 where
  pub team : Option TeamRow
  pub state : Option TeamBoardState
  pub consumptions : List ℕ
  pub accesses : List TeamChallengeAccess
  pub candidates : List TeamCellCandidate
  pub draws : List TeamChanceCard
  pub pending : Option PendingDiceRoll
  pub requests : List DiceRollRequest
  pub rolls : List DiceRoll
  pub history : List MileageHistory
  pub next_id : ℕ
  pub reads : ℕ

-- A value of a JSON request body, as far as the handlers tell values apart.
pub data Json : Type 0 where
  absent other_json : Json
  bool : Bool → Json
  int : ℤ → Json
