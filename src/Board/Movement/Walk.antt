-- ===== src/Board/Movement/Walk.antt =====
-- What one walk of `compute_movement` visits.
use msg_backend.Prelude.{
  ℕ, zero, suc, ◌+◌, ◌≤◌, ◌≡◌, refl, ap, ◌⊎◌, inl, inr, true, false, not, Option, List, [], ◌∷◌,
  arith, Bool-cases, length, contains, count, select, All,
}
use msg_backend.Board.Monad.{ok, Result-cases}
use msg_backend.Board.Recharge.{board_size, first_cell_index, last_cell_index, start_cell_index}
use msg_backend.Board.Movement.{
  Direction, forward, backward, Trail, step_cell, visit, skip, advance, move_steps, is_final,
  compute_movement, start_trail, Movement, movement_of, final_completion_index,
}

abbrev pub head_or : ℕ → List ℕ → ℕ
head_or c [] = c
head_or c (x ∷ xs) = x

abbrev pub IsOnBoard : ℕ → Type 0
IsOnBoard c = (first_cell_index ≤ c) × (c ≤ last_cell_index)

-- Each cell of the list, the latest first, is the next one in the direction after the cell before
-- it, and the earliest is the next one after `from`.
abbrev pub IsWalk : Direction → ℕ → List ℕ → Type 0
IsWalk direction from [] = Unit
IsWalk direction from (x ∷ xs) =
    (x ≡ step_cell (head_or from xs) direction) × IsWalk direction from xs

-- The loop's variables agree with the cells that were visited.
pub record IsTrail (consumed : List ℕ) (direction : Direction) (from : ℕ) (t : Trail) : Type 0 where
  pub at_head : t.cursor ≡ head_or from t.path
  pub walk : IsWalk direction from t.path
  pub board : All IsOnBoard t.path
  pub skips : t.skipped ≡ select (λ c. contains c consumed) t.path
  pub passes : t.start_passes ≡ count start_cell_index t.path

pub step_cell-IsOnBoard : (c : ℕ) (direction : Direction) → IsOnBoard (step_cell c direction)
unfolding step_cell
step_cell-IsOnBoard c forward = omega arith
step_cell-IsOnBoard c backward = omega arith

-- The cells of a path that are not consumed: the ones at which a step ended.
abbrev pub stops : List ℕ → List ℕ → ℕ
stops consumed path = length (select (λ c. not (contains c consumed)) path)

module _ (consumed : List ℕ) (direction : Direction) (from : ℕ) where
  visit-free :
      (t : Trail)
      → IsTrail consumed direction from t
      → contains (visit t direction).cursor consumed ≡ false
      → IsTrail consumed direction from (visit t direction)
  visit-free t i free = record {
    at_head = refl;
    walk = (ap (λ c. step_cell c direction) i.at_head, i.walk);
    board = (step_cell-IsOnBoard t.cursor direction, i.board);
    skips = rw free i.skips;
    passes = ground (arith, i.passes);
  }

  skip-taken :
      (t : Trail)
      → IsTrail consumed direction from t
      → contains (visit t direction).cursor consumed ≡ true
      → IsTrail consumed direction from (skip (visit t direction))
  skip-taken t i taken = record {
    at_head = refl;
    walk = (ap (λ c. step_cell c direction) i.at_head, i.walk);
    board = (step_cell-IsOnBoard t.cursor direction, i.board);
    skips = rw taken (ap (◌∷◌ (step_cell t.cursor direction)) i.skips);
    passes = ground (arith, i.passes);
  }

  -- One step of the dice: it ends on the next cell that is not consumed.
  abbrev IsAdvanced : Trail → Trail → Type 0
  IsAdvanced t next =
      IsTrail consumed direction from next
      × (contains next.cursor consumed ≡ false)
      × (stops consumed next.path ≡ stops consumed t.path + 1)

  advance-IsAdvanced :
      (left : ℕ) (t next : Trail)
      → IsTrail consumed direction from t
      → advance left consumed direction t ≡ ok next
      → IsAdvanced t next
  unfolding advance
  advance-IsAdvanced zero t next i e = cc
  advance-IsAdvanced (suc left) t next i e =
      elim (Bool-cases (contains (visit t direction).cursor consumed)) [
        | inl taken ↦ ground (
          arith,
          taken,
          advance-IsAdvanced left (skip (visit t direction)) next (skip-taken t i taken),
        )
        | inr free ↦ ground (arith, free, visit-free t i free)
      ]

  abbrev IsMoved : ℕ → Option ℕ → Trail → Trail → Type 0
  IsMoved steps final t last =
      IsTrail consumed direction from last
      × ((steps ≡ 0) ⊎ (contains last.cursor consumed ≡ false))
      × (stops consumed last.path ≤ stops consumed t.path + steps)
      × ((stops consumed last.path ≡ stops consumed t.path + steps)
          ⊎ (is_final final last.cursor ≡ true))

  move_steps-IsMoved :
      (steps : ℕ) (final : Option ℕ) (t last : Trail)
      → IsTrail consumed direction from t
      → move_steps steps consumed direction final t ≡ ok last
      → IsMoved steps final t last
  unfolding move_steps
  move_steps-IsMoved zero final t last i e = ground (arith, i)
  move_steps-IsMoved (suc steps) final t last i e =
      elim (Result-cases (advance board_size consumed direction t)) [
        | inr (x, failed) ↦ ground (arith, failed)
        | inl (next, found) ↦ ground (
          arith,
          found,
          advance-IsAdvanced board_size t next i found,
          move_steps-IsMoved steps final next last (advance-IsAdvanced board_size t next i found).0,
        )
      ]

-- What a movement of `steps` from `from_index` returns, where it returns: `trail` gives its four
-- parts in the code's order, `IsTrail` says that each cell of the path follows the one before it
-- in the direction, starting after `from_index`, that every cell lies in 1..36, that the skipped
-- cells are the consumed cells of the path in order and that the start count is the number of times the
-- path visits START. The destination is not consumed if there was a step, and the path has exactly
-- `steps` cells that are not consumed, or fewer if it ends on the final cell.
pub compute_movement-IsTrail :
    (consumed : List ℕ) (from_index steps : ℕ) (direction : Direction) (m : Movement)
    → compute_movement consumed from_index steps direction ≡ ok m
    → (trail : Trail) × (m ≡ movement_of trail)
      × IsTrail consumed direction from_index trail
      × ((steps ≡ 0) ⊎ (contains m.destination consumed ≡ false))
      × (stops consumed trail.path ≤ steps)
      × ((stops consumed trail.path ≡ steps)
          ⊎ (is_final (final_completion_index consumed) m.destination ≡ true))
unfolding compute_movement
compute_movement-IsTrail consumed from_index steps direction m e =
    elim (Result-cases (
      move_steps steps consumed direction (final_completion_index consumed)
        (start_trail from_index))) [
          | inr (x, failed) ↦ ground (arith, failed)
          | inl (t, found) ↦
              let i =
                move_steps-IsMoved consumed direction from_index steps
                  (final_completion_index consumed) (start_trail from_index) t
                  (record { at_head = refl; walk = tt; board = tt; skips = refl; passes = refl })
                  found in
              (
                t,
                ground (arith, found),
                i.0,
                ground (arith, found),
                ground (arith, i.2),
                ground (arith, found, i.3),
              )
        ]
