-- ===== src/Board/Movement/Total.antt =====
-- When a movement of the team fails: the guard of the inner loop is enough fuel.
use msg_backend.Prelude.{
  ℕ, zero, suc, ◌+◌, ◌-◌, ◌*◌, ◌%◌, ◌<◌, ◌≡◌, refl, ◌⊎◌, inl, inr, true, Option, List, arith,
  contains,
}
use msg_backend.Board.Monad.{ok, err, Error, board_not_ready, Result-cases}
use msg_backend.Board.Recharge.{board_size}
use msg_backend.Board.Movement.{
  Direction, forward, backward, Trail, step_cell, visit, skip, advance, move_steps,
  compute_movement, start_trail, Movement, movement_of, final_completion_index,
}
use msg_backend.Board.Movement.Walk.{IsOnBoard, step_cell-IsOnBoard}

-- The cell that lies `k` steps on.
steps_on : Direction → ℕ → ℕ → ℕ
steps_on direction zero c = c
steps_on direction (suc k) c = steps_on direction k (step_cell c direction)

-- A step back is 35 steps on.
abbrev stride : Direction → ℕ
stride forward = 1
stride backward = 35

step_cell-stride :
    (direction : Direction) (c : ℕ)
    → IsOnBoard c
    → step_cell c direction ≡ (c + 35 + stride direction) % 36 + 1
unfolding step_cell
step_cell-stride forward c h = omega arith
step_cell-stride backward c h = omega arith

steps_on-closed :
    (direction : Direction) (k c : ℕ)
    → IsOnBoard c
    → steps_on direction k c ≡ (c + 35 + stride direction * k) % 36 + 1
unfolding steps_on
steps_on-closed direction zero c h = omega arith
steps_on-closed forward (suc k) c h = omega (
  arith,
  steps_on-closed forward k (step_cell c forward) (step_cell-IsOnBoard c forward),
  step_cell-stride forward c h,
)
steps_on-closed backward (suc k) c h = omega (
  arith,
  steps_on-closed backward k (step_cell c backward) (step_cell-IsOnBoard c backward),
  step_cell-stride backward c h,
)

-- Every cell of the board is met within 36 steps.
distance : Direction → ℕ → ℕ → ℕ
distance forward c d = (d + 35 - c) % 36
distance backward c d = (c + 35 - d) % 36

steps_on-distance :
    (direction : Direction) (c d : ℕ)
    → IsOnBoard c
    → IsOnBoard d
    → (distance direction c d < 36) × (steps_on direction (suc (distance direction c d)) c ≡ d)
unfolding distance
steps_on-distance forward c d hc hd =
    (omega arith, omega (arith, steps_on-closed forward (suc ((d + 35 - c) % 36)) c hc))
steps_on-distance backward c d hc hd =
    (omega arith, omega (arith, steps_on-closed backward (suc ((c + 35 - d) % 36)) c hc))

-- The inner loop fails only if it has met consumed cells alone.
advance-err :
    (left : ℕ) (consumed : List ℕ) (direction : Direction) (t : Trail) (x : Error) (k : ℕ)
    → advance left consumed direction t ≡ err x
    → k < left
    → contains (steps_on direction (suc k) t.cursor) consumed ≡ true
unfolding advance steps_on
advance-err zero consumed direction t x k e h = absurd (omega arith)
advance-err (suc left) consumed direction t x zero e h = ground arith
advance-err (suc left) consumed direction t x (suc k) e h =
    ground (arith, advance-err left consumed direction (skip (visit t direction)) x k)

advance-IsOnBoard :
    (left : ℕ) (consumed : List ℕ) (direction : Direction) (t next : Trail)
    → advance left consumed direction t ≡ ok next
    → IsOnBoard next.cursor
unfolding advance
advance-IsOnBoard zero consumed direction t next e = cc
advance-IsOnBoard (suc left) consumed direction t next e = ground (
  arith,
  step_cell-IsOnBoard t.cursor direction,
  advance-IsOnBoard left consumed direction (skip (visit t direction)) next,
)

-- Every cell of the board is consumed.
abbrev pub IsFull : List ℕ → Type 0
IsFull consumed = (d : ℕ) → IsOnBoard d → contains d consumed ≡ true

advance_fails :
    (consumed : List ℕ) (direction : Direction) (t : Trail) (x : Error)
    → IsOnBoard t.cursor
    → advance board_size consumed direction t ≡ err x
    → IsFull consumed
advance_fails consumed direction t x here e d there =
    let reached = steps_on-distance direction t.cursor d here there in
    rw reached.1 at
      (advance-err board_size consumed direction t x (distance direction t.cursor d) e reached.0)

move_steps_fails :
    (steps : ℕ) (consumed : List ℕ) (direction : Direction) (final : Option ℕ) (t : Trail)
    (x : Error)
    → IsOnBoard t.cursor
    → move_steps steps consumed direction final t ≡ err x
    → IsFull consumed
unfolding move_steps
move_steps_fails zero consumed direction final t x here e = cc
move_steps_fails (suc steps) consumed direction final t x here e =
    elim (Result-cases (advance board_size consumed direction t)) [
      | inr (y, failed) ↦ advance_fails consumed direction t y here failed
      | inl (next, found) ↦
          move_steps_fails steps consumed direction final next x
            (advance-IsOnBoard board_size consumed direction t next found) (ground (arith, found))
    ]

advance_full :
    (left : ℕ) (consumed : List ℕ) (direction : Direction) (t : Trail)
    → IsFull consumed
    → advance left consumed direction t ≡ err board_not_ready
unfolding advance
advance_full zero consumed direction t full = refl
advance_full (suc left) consumed direction t full =
    rw (full (step_cell t.cursor direction) (step_cell-IsOnBoard t.cursor direction))
      (advance_full left consumed direction (skip (visit t direction)) full)

move_steps_full :
    (steps : ℕ) (consumed : List ℕ) (direction : Direction) (final : Option ℕ) (t : Trail)
    → IsFull consumed
    → move_steps (suc steps) consumed direction final t ≡ err board_not_ready
unfolding move_steps
move_steps_full steps consumed direction final t full =
    ground (arith, advance_full board_size consumed direction t full)

-- From a cell of the board, a movement of at least one step, in either direction, returns unless
-- all 36 cells are consumed, and then it raises BoardNotReady: the loop's guard never cuts a walk
-- short that has a cell to end on.
pub compute_movement_total :
    (consumed : List ℕ) (from_index steps : ℕ) (direction : Direction)
    → IsOnBoard from_index
    → 0 < steps
    → ((m : Movement) × (compute_movement consumed from_index steps direction ≡ ok m)
        × ¬ IsFull consumed)
      ⊎ ((compute_movement consumed from_index steps direction ≡ err board_not_ready)
          × IsFull consumed)
unfolding compute_movement
compute_movement_total consumed from_index zero direction here h = absurd (omega arith)
compute_movement_total consumed from_index (suc steps) direction here h =
    let final = final_completion_index consumed in
    let t = start_trail from_index in
    elim (Result-cases (move_steps (suc steps) consumed direction final t)) [
      | inl (last, found) ↦ inl (
        movement_of last,
        rw (found, compute_movement),
        λ full. cc (found, move_steps_full steps consumed direction final t full),
      )
      | inr (x, failed) ↦
          let full = move_steps_fails (suc steps) consumed direction final t x here failed in
          inr (rw (move_steps_full steps consumed direction final t full, compute_movement), full)
    ]
