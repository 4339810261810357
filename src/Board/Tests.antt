-- ===== src/Board/Tests.antt =====
-- Concrete rows for the tests: a small board, a new team, and a team at the airport.
mod Rolls
mod Moves
mod Clock
mod Histories
use msg_backend.Prelude.{ℕ, ◌*◌, false, Option, none, some, List, [], ◌∷◌}
use msg_backend.Board.Model.{
  Cell, CellType, Shared, Rows, Dice, TeamBoardState, RollResult, reroll, extra_roll, UsageTiming,
  Effect, no_event, opened,
}
use msg_backend.Board.Monad.{Result, ok, err}

-- A board with START, two chance cells, an airport and a roulette.
abbrev board : List Cell
board =
    record { cell_index = 1; type = CellType.start; difficulty = none; line_number = none }
    ∷ record { cell_index = 6; type = CellType.chance; difficulty = none; line_number = none }
    ∷ record { cell_index = 11; type = CellType.airport; difficulty = none; line_number = none }
    ∷ record { cell_index = 12; type = CellType.chance; difficulty = none; line_number = none }
    ∷ record { cell_index = 16; type = CellType.roulette; difficulty = none; line_number = none }
    ∷ []

abbrev five_rolls : Dice
five_rolls = record { max_rolls = 5; interval = 3600000000 }

abbrev shared : Shared
shared = record {
  cells = board;
  dice = five_rolls;
  solve_limit_seconds = 3600;
  cards =
      record { card_id = reroll; effect = Effect.re_roll; usage_timing = UsageTiming.post_roll }
      ∷ record {
        card_id = extra_roll;
        effect = Effect.grant_extra_roll;
        usage_timing = UsageTiming.pre_roll;
      }
      ∷ [];
  challenges = [];
  clock = λ n. 1000000 * n;
}

abbrev at_start : TeamBoardState
at_start = record {
  position = 1;
  dice_rolls_left = 5;
  active_challenge_access = none;
  next_dice_reset_at = none;
  recharge_paused_seconds = none;
  airport_move_used = false;
  has_passed_start = false;
}

-- A team at START whose member has asked for a roll.
abbrev new_team : Rows
new_team = record {
  team = some (record { is_banned = false; mileage = 0 });
  state = some at_start;
  consumptions = [];
  accesses = [];
  candidates = [];
  draws = [];
  pending = none;
  requests = record { id = 7; user = 1; response_data = none } ∷ [];
  rolls = [];
  history = [];
  next_id = 8;
  reads = 0;
}

-- What a call answers, or a value where it raises.
abbrev answered : {A : Type 0} → A → Result A → A
answered a (ok b) = b
answered a (err e) = a

abbrev no_answer : RollResult
no_answer = record {
  dice_a = 0;
  dice_b = 0;
  rolled_number = 0;
  previous_position = 0;
  current_position = 0;
  movement_path = [];
  skipped_cells = [];
  passed_start = false;
  start_reward = record { mileage_gained = 0; roll_gained = 0 };
  board_event_code = no_event;
  pending_confirm = false;
  pending_confirm_request_key = none;
  usable_chance_card = none;
}

-- A team at the airport, with an open challenge and a roll that waits.
abbrev at_airport : Rows
at_airport = record new_team {
  state = some (record at_start { position = 11; active_challenge_access = some 3 });
  accesses =
      record {
        id = 3;
        challenge_id = 9;
        source_cell = 11;
        status = opened;
        opened_at = 0;
        cleared_at = none;
      }
      ∷ [];
}

abbrev at_roulette : Rows
at_roulette = record new_team { state = some (record at_start { position = 16 }) }

abbrev at_chance : Rows
at_chance = record new_team {
  state =
      some (record at_start {
        position = 6;
        dice_rolls_left = 4;
        next_dice_reset_at = some 3600000000;
      });
}

abbrev waiting : Rows
waiting = record new_team {
  pending = some (record {
    confirmation_id = 5;
    dice_a = 2;
    dice_b = 3;
    rolled_number = 5;
    previous_position = 1;
    candidate_position = 6;
    movement_path = 2 ∷ 3 ∷ 4 ∷ 5 ∷ 6 ∷ [];
    skipped_cells = [];
    passed_start = false;
    start_pass_count = 0;
    board_event_code = no_event;
  });
}
