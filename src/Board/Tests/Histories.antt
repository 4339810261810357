-- ===== src/Board/Tests/Histories.antt =====
-- A history of a roll and a draw.
use msg_backend.Prelude.{refl, inl, some, List, [], ◌∷◌, IsDistinct, arith}
use msg_backend.Board.Model.{Rows, canonical, dice_roll_request}
use msg_backend.Board.Invariant.{IsValid, IsSeeded}
use msg_backend.Board.Invariant.Histories.{serve, Request, Operation, serve-IsValid}
use msg_backend.Board.Invariant.Spins.{spun_cells, roulette_once}
use msg_backend.Board.Tests.{at_roulette, shared, five_rolls, new_team}

seeded : IsSeeded shared
seeded = record {
  cells = (
    (omega arith, omega arith),
    (
      (omega arith, omega arith),
      ((omega arith, omega arith), ((omega arith, omega arith), ((omega arith, omega arith), tt))),
    ),
  );
  interval = omega arith;
}

new_team-IsValid : IsValid five_rolls new_team
new_team-IsValid = record {
  distinct = tt;
  consumed = tt;
  state = record { on_board = (omega arith, omega arith); bounded = (omega arith, inl refl) };
  pending = tt;
}

abbrev requests : List Request
requests =
    record {
      shared = shared;
      operation = Operation.roll (some 1) (some (dice_roll_request (canonical 7))) 2 3;
    }
    ∷ record { shared = shared; operation = Operation.draw 0 }
    ∷ []

serve-IsValid_example : IsValid five_rolls (serve new_team requests)
serve-IsValid_example =
    serve-IsValid five_rolls requests new_team ((seeded, refl), ((seeded, refl), tt))
      new_team-IsValid

abbrev visited : Rows
visited = record new_team { consumptions = 6 ∷ [] }

abbrev spins : List Request
spins =
    record { shared = shared; operation = Operation.spin 2 }
    ∷ record { shared = shared; operation = Operation.spin 1 }
    ∷ []

roulette_once_example : IsDistinct (spun_cells (serve at_roulette spins).history)
roulette_once_example = roulette_once spins at_roulette tt
