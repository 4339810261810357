-- ===== src/Board/Invariant/Closure.antt =====
-- The invariant of a team's rows is closed under the writes of the board operations.
use msg_backend.Prelude.{ℕ, ◌≡◌, refl, subst, some, List, [], ◌∷◌, All, arith}
use msg_backend.Board.Model.{TeamBoardState, Cell, Shared, Rows, Dice}
use msg_backend.Board.Landing.{find_cell}
use msg_backend.Board.Movement.Walk.{IsOnBoard}
use msg_backend.Board.Closed.{IsGameClosed, IsClosed}
use msg_backend.Board.Invariant.{IsValid, IsStateValid, OfState, IsSeeded}

-- A cell that the query finds has the index, and lies on the board.
pub find_cell-IsOnBoard :
    (cells : List Cell) (i : ℕ) (c : Cell)
    → All (λ c. IsOnBoard c.cell_index) cells
    → find_cell cells i ≡ some c
    → (c.cell_index ≡ i) × IsOnBoard i
find_cell-IsOnBoard [] i c h e = ground arith
find_cell-IsOnBoard (x ∷ cells) i c h e = ground (arith, find_cell-IsOnBoard cells i c h.1)

module _ (dice : Dice) where
  state_of :
      (r : Rows) (s : TeamBoardState) → r.state ≡ some s → IsValid dice r → IsStateValid dice s
  state_of r s e v = subst (OfState dice) e v.state

  set_state :
      (r : Rows) (s : TeamBoardState)
      → IsStateValid dice s
      → IsValid dice r
      → IsValid dice (record r { state = some s })
  set_state r s h v = record {
    distinct = v.distinct;
    consumed = v.consumed;
    state = h;
    pending = v.pending;
  }

  -- A write to other columns.
  other_columns :
      (r r' : Rows)
      → r'.consumptions ≡ r.consumptions
      → r'.state ≡ r.state
      → r'.pending ≡ r.pending
      → IsValid dice r
      → IsValid dice r'
  other_columns r r' c s p v = record {
    distinct = rw c v.distinct;
    consumed = rw c v.consumed;
    state = rw s v.state;
    pending = rw p v.pending;
  }

module _ (sh : Shared) (seeded : IsSeeded sh) where
  here : (i : ℕ) (c : Cell) → find_cell sh.cells i ≡ some c → IsOnBoard c.cell_index
  here i c e = let found = find_cell-IsOnBoard sh.cells i c seeded.cells e in rw found.0 found.1

  IsValid-IsGameClosed : IsGameClosed sh (IsValid sh.dice) IsOnBoard
  IsValid-IsGameClosed = record {
    lock = record {
      clock = λ r v. other_columns sh.dice r _ refl refl refl v;
      counters = λ r s s' e same bounded v.
          let old = state_of sh.dice r s e v in
          set_state sh.dice r s'
            (record { on_board = rw same.0 old.on_board; bounded = bounded old.bounded }) v;
      create = λ r c fresh e v.
          set_state sh.dice r _ (record { on_board = here _ c e; bounded = ground arith }) v;
    };
    stands = λ r s e v. (state_of sh.dice r s e v).on_board;
    ids = λ r v. other_columns sh.dice r _ refl refl refl v;
    place = λ r s i c passed e found v.
        let old = state_of sh.dice r s e v in
        set_state sh.dice r _ (record { on_board = here i c found; bounded = old.bounded }) v;
    consume = λ r i c found new v. record {
      distinct = (new, v.distinct);
      consumed = (here i c found, v.consumed);
      state = v.state;
      pending = v.pending;
    };
    mileage = λ r amount type new v. other_columns sh.dice r _ refl refl refl v;
    log = λ r roll v. other_columns sh.dice r _ refl refl refl v;
    wait = λ r p c from to v. record {
      distinct = v.distinct;
      consumed = v.consumed;
      state = v.state;
      pending = record {
        from_board = from;
        to_board = (find_cell-IsOnBoard sh.cells _ c seeded.cells to).1;
      };
    };
  }

  pub IsValid-IsClosed : IsClosed sh (IsValid sh.dice) IsOnBoard
  IsValid-IsClosed = record {
    game = IsValid-IsGameClosed;
    unwait = λ r v. record {
      distinct = v.distinct;
      consumed = v.consumed;
      state = v.state;
      pending = tt;
    };
    requests = λ r qs v. other_columns sh.dice r _ refl refl refl v;
    candidates = λ r cs v. other_columns sh.dice r _ refl refl refl v;
    fly = λ r s e v.
        let old = state_of sh.dice r s e v in
        set_state sh.dice r _ (record { on_board = old.on_board; bounded = old.bounded }) v;
    activate = λ r s a e v.
        let old = state_of sh.dice r s e v in
        set_state sh.dice r _ (record { on_board = old.on_board; bounded = old.bounded }) v;
    add_draw = λ r d v. other_columns sh.dice r _ refl refl refl v;
    change_draw = λ r pk f same v. other_columns sh.dice r _ refl refl refl v;
    add_access = λ r a v. other_columns sh.dice r _ refl refl refl v;
    clear = λ r id t v. other_columns sh.dice r _ refl refl refl v;
  }
