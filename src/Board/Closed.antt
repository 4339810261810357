-- ===== src/Board/Closed.antt =====
-- Predicates on a team's rows that every single write of the board operations keeps. A property
-- of whole operations is proved by giving these facts about its writes.
pub mod Steps
pub mod Rolls
pub mod Requests
pub mod Moves
pub mod Cards
pub mod Cells
use msg_backend.Prelude.{
  ℕ, suc, ◌≡◌, Bool, true, false, Option, none, some, List, [], ◌∷◌, ◌==◌, contains, update,
  is_some, exists,
}
use msg_backend.Board.Model.{
  TeamBoardState, PendingDiceRoll, Cell, Shared, Rows, DiceRoll, DiceRollRequest, MileageType,
  MileageHistory, roulette_reward, TeamChanceCard, TeamChallengeAccess, TeamCellCandidate, cleared,
}
use msg_backend.Board.Recharge.{start_cell_index}
use msg_backend.Board.Recharge.Frame.{SameProgress, IsBounded}
use msg_backend.Board.Roulette.{is_spin_at}
use msg_backend.Board.Landing.{find_cell, new_state, add_mileage}

-- A change of a draw leaves what was drawn, and a used or discarded card stays so.
pub record SameDraw (d d' : TeamChanceCard) : Type 0 where
  pub same_pk : d'.pk ≡ d.pk
  pub same_cell : d'.source_cell ≡ d.source_cell
  pub stays_used : is_some d.used_at ≡ true → is_some d'.used_at ≡ true

-- The writes that every lock on a team's state may make: the clock is read, the recharge is brought
-- up to date, and a missing state is made.
pub record IsLockClosed (sh : Shared) (P : Rows → Type 0) : Type 0 where
  pub clock : (r : Rows) → P r → P (record r { reads = suc r.reads })
  pub counters :
      (r : Rows) (s s' : TeamBoardState)
      → r.state ≡ some s
      → SameProgress s s'
      → (IsBounded sh.dice s → IsBounded sh.dice s')
      → P r
      → P (record r { state = some s' })
  pub create :
      (r : Rows) (c : Cell)
      → r.state ≡ none
      → find_cell sh.cells start_cell_index ≡ some c
      → P r
      → P (record r { state = some (new_state c.cell_index sh.dice.max_rolls) })

-- A reward of a roulette is new: no row of the history names its cell.
abbrev pub IsNewReward : MileageType → List MileageHistory → Type 0
IsNewReward (roulette_reward cell) history = exists (λ h. is_spin_at cell h.type) history ≡ false
IsNewReward _ history = Unit

-- The writes of a roll and of an arrival. `Q` is what `P` says of the cell where the team stands.
pub record IsGameClosed (sh : Shared) (P : Rows → Type 0) (Q : ℕ → Type 0) : Type 0 where
  pub lock : IsLockClosed sh P
  pub stands : (r : Rows) (s : TeamBoardState) → r.state ≡ some s → P r → Q s.position
  pub ids : (r : Rows) → P r → P (record r { next_id = suc r.next_id })
  pub place :
      (r : Rows) (s : TeamBoardState) (i : ℕ) (c : Cell) (passed : Bool)
      → r.state ≡ some s
      → find_cell sh.cells i ≡ some c
      → P r
      → P (record r {
        state = some (record s { position = c.cell_index; has_passed_start = passed });
      })
  pub consume :
      (r : Rows) (i : ℕ) (c : Cell)
      → find_cell sh.cells i ≡ some c
      → contains c.cell_index r.consumptions ≡ false
      → P r
      → P (record r { consumptions = c.cell_index ∷ r.consumptions })
  pub mileage :
      (r : Rows) (amount : ℕ) (type : MileageType)
      → IsNewReward type r.history
      → P r
      → P (record r {
        team = add_mileage amount r.team;
        history = record { type = type; amount = amount } ∷ r.history;
      })
  pub log : (r : Rows) (roll : DiceRoll) → P r → P (record r { rolls = roll ∷ r.rolls })
  pub wait :
      (r : Rows) (p : PendingDiceRoll) (c : Cell)
      → Q p.previous_position
      → find_cell sh.cells p.candidate_position ≡ some c
      → P r
      → P (record r { pending = some p })

-- The writes of the other operations.
pub record IsClosed (sh : Shared) (P : Rows → Type 0) (Q : ℕ → Type 0) : Type 0 where
  pub game : IsGameClosed sh P Q
  pub unwait : (r : Rows) → P r → P (record r { pending = none })
  pub requests : (r : Rows) (qs : List DiceRollRequest) → P r → P (record r { requests = qs })
  pub candidates : (r : Rows) (cs : List TeamCellCandidate) → P r → P (record r { candidates = cs })
  pub fly :
      (r : Rows) (s : TeamBoardState)
      → r.state ≡ some s
      → P r
      → P (record r { state = some (record s { airport_move_used = true }) })
  pub activate :
      (r : Rows) (s : TeamBoardState) (a : Option ℕ)
      → r.state ≡ some s
      → P r
      → P (record r { state = some (record s { active_challenge_access = a }) })
  pub add_draw : (r : Rows) (d : TeamChanceCard) → P r → P (record r { draws = d ∷ r.draws })
  pub change_draw :
      (r : Rows) (pk : ℕ) (f : TeamChanceCard → TeamChanceCard)
      → ((d : TeamChanceCard) → SameDraw d (f d))
      → P r
      → P (record r { draws = update (λ d. d.pk == pk) f r.draws })
  pub add_access :
      (r : Rows) (a : TeamChallengeAccess) → P r → P (record r { accesses = a ∷ r.accesses })
  pub clear :
      (r : Rows) (id t : ℕ)
      → P r
      → P (record r {
        accesses =
            update
              (λ a. a.id == id)
              (λ a. record a { status = cleared; cleared_at = some t })
              r.accesses;
      })
