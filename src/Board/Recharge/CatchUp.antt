-- ===== src/Board/Recharge/CatchUp.antt =====
-- The recharge is applied when a request happens to read the board. This module proves that the
-- delay does not matter: a late update gives what updates in between would have given.
use msg_backend.Prelude.{
  ℕ, ◌+◌, ◌-◌, ◌*◌, ◌/◌, ◌≤◌, ◌<◌, min, ◌≡◌, refl, sym, inl, inr, false, none, some, ltb, leb,
  if◌then◌else◌, arith, Bool-cases, ltb→lt,
}
use msg_backend.Board.Model.{TeamBoardState, Dice}
use msg_backend.Board.Recharge.{update_dice_recharge, elapsed_intervals, recharge_from}

div_unique : (q n d : ℕ) → q * d ≤ n → n < q * d + d → n / d ≡ q
div_unique q n d lo hi = grind arith

div_bounds : (n d : ℕ) → 0 < d → ((n / d) * d ≤ n) × (n < (n / d) * d + d)
div_bounds n d h = grind arith

elapsed_same :
    (next now later d : ℕ)
    → 0 < d
    → next ≤ now
    → now ≤ later
    → later < next + elapsed_intervals next now d * d
    → elapsed_intervals next later d ≡ elapsed_intervals next now d
elapsed_same next now later d h a b c =
    grind (arith, div_bounds (now - next) d h, div_unique ((now - next) / d) (later - next) d)

div_sub : (n e d : ℕ) → 0 < d → e * d ≤ n → n / d ≡ e + (n - e * d) / d
div_sub n e d h le =
    div_unique (e + (n - e * d) / d) n d (grind (arith, div_bounds (n - e * d) d h))
      (grind (arith, div_bounds (n - e * d) d h))

elapsed_more :
    (next now later d : ℕ)
    → 0 < d
    → next ≤ now
    → now ≤ later
    → next + elapsed_intervals next now d * d ≤ later
    → elapsed_intervals next later d
      ≡ elapsed_intervals next now d
        + elapsed_intervals (next + elapsed_intervals next now d * d) later d
elapsed_more next now later d h a b c =
    let e : ℕ = (now - next) / d + 1 in
    let shift : later - (next + e * d) ≡ later - next - e * d = omega arith in
    rw shift (omega (arith, div_sub (later - next) e d h (omega arith)))

update_due :
    (s : TeamBoardState) (next now : ℕ) (dice : Dice)
    → s.dice_rolls_left < dice.max_rolls
    → s.next_dice_reset_at ≡ some next
    → next ≤ now
    → update_dice_recharge false s now dice ≡ recharge_from s next now dice
unfolding update_dice_recharge
update_due s next now dice low e due = ground arith

update_full :
    (s : TeamBoardState) (now : ℕ) (dice : Dice)
    → dice.max_rolls ≤ s.dice_rolls_left
    → update_dice_recharge false s now dice
      ≡ record s { next_dice_reset_at = none; recharge_paused_seconds = none }
unfolding update_dice_recharge
update_full s now dice full = ground arith

update_not_due :
    (s : TeamBoardState) (next now : ℕ) (dice : Dice)
    → s.dice_rolls_left < dice.max_rolls
    → s.next_dice_reset_at ≡ some next
    → now < next
    → update_dice_recharge false s now dice ≡ s
unfolding update_dice_recharge
update_not_due s next now dice low e early = ground arith

module _ (s : TeamBoardState) (next now : ℕ) (dice : Dice) where
  abbrev after_full : TeamBoardState
  after_full = record s { dice_rolls_left = dice.max_rolls; next_dice_reset_at = none }

  abbrev after_some : TeamBoardState
  after_some = record s {
    dice_rolls_left = s.dice_rolls_left + elapsed_intervals next now dice.interval;
    next_dice_reset_at = some (next + elapsed_intervals next now dice.interval * dice.interval);
  }

  recharge_from_full :
      dice.max_rolls ≤ s.dice_rolls_left + elapsed_intervals next now dice.interval
      → recharge_from s next now dice ≡ after_full
  recharge_from_full h = ground arith

  recharge_from_some :
      s.dice_rolls_left + elapsed_intervals next now dice.interval < dice.max_rolls
      → recharge_from s next now dice ≡ after_some
  recharge_from_some h = ground arith

-- `n` recharges at once.
abbrev refill : TeamBoardState → ℕ → Dice → ℕ → TeamBoardState
refill s next dice n = record s {
  dice_rolls_left = min dice.max_rolls (s.dice_rolls_left + n);
  next_dice_reset_at =
      if ltb (min dice.max_rolls (s.dice_rolls_left + n)) dice.max_rolls
      then some (next + n * dice.interval)
      else none;
}

refill_add :
    (s : TeamBoardState) (next : ℕ) (dice : Dice) (m n k : ℕ)
    → k ≡ m + n
    → refill
        (record s { dice_rolls_left = s.dice_rolls_left + m })
        (next + m * dice.interval)
        dice
        n
      ≡ refill s next dice k
refill_add s next dice m n k e =
    let left : s.dice_rolls_left + m + n ≡ s.dice_rolls_left + k = omega arith in
    let deadline : next + m * dice.interval + n * dice.interval ≡ next + k * dice.interval =
      rw e (omega arith) in
    rw (left, deadline)

module _ (s : TeamBoardState) (next now later : ℕ) (dice : Dice) (positive : 0 < dice.interval)
    (running : s.next_dice_reset_at ≡ some next) (le : now ≤ later)
    (exclusive : s.recharge_paused_seconds ≡ none) where
  late_full :
      s.dice_rolls_left < dice.max_rolls
      → next ≤ now
      → dice.max_rolls ≤ s.dice_rolls_left + elapsed_intervals next now dice.interval
      → update_dice_recharge false (update_dice_recharge false s now dice) later dice
        ≡ update_dice_recharge false s later dice
  late_full low due full =
      rw
        (
          update_due s next now dice low running due,
          recharge_from_full s next now dice full,
          update_full (after_full s next now dice) later dice (omega arith),
          update_due s next later dice low running (omega arith),
          recharge_from_full s next later dice (
              grind (
                arith,
                elapsed_same next now later dice.interval,
                elapsed_more next now later dice.interval,
              )),
        )
        (ground arith)

  late_some_early :
      s.dice_rolls_left < dice.max_rolls
      → next ≤ now
      → s.dice_rolls_left + elapsed_intervals next now dice.interval < dice.max_rolls
      → later < next + elapsed_intervals next now dice.interval * dice.interval
      → update_dice_recharge false (update_dice_recharge false s now dice) later dice
        ≡ update_dice_recharge false s later dice
  late_some_early low due room early =
      rw
        (
          update_due s next now dice low running due,
          recharge_from_some s next now dice room,
          update_not_due (after_some s next now dice) _ later dice room refl early,
          update_due s next later dice low running (omega arith),
          elapsed_same next now later dice.interval positive due le early,
        )
        (sym (recharge_from_some s next now dice room))

  late_some_due :
      s.dice_rolls_left < dice.max_rolls
      → next ≤ now
      → s.dice_rolls_left + elapsed_intervals next now dice.interval < dice.max_rolls
      → next + elapsed_intervals next now dice.interval * dice.interval ≤ later
      → update_dice_recharge false (update_dice_recharge false s now dice) later dice
        ≡ update_dice_recharge false s later dice
  late_some_due low due room again =
      rw
        (
          update_due s next now dice low running due,
          recharge_from_some s next now dice room,
          update_due (after_some s next now dice) _ later dice room refl again,
          update_due s next later dice low running (omega arith),
        )
        (refill_add s next dice _ _ _
          (elapsed_more next now later dice.interval positive due le again))

  -- On a board that is not completed, while a clock runs, with no paused time kept and a positive
  -- interval, an update at `now` and another at any later time leave the same state as the later
  -- update alone.
  pub update_catches_up :
      update_dice_recharge false (update_dice_recharge false s now dice) later dice
      ≡ update_dice_recharge false s later dice
  update_catches_up = elim (Bool-cases (leb dice.max_rolls s.dice_rolls_left)) [
    | inl full ↦ ground (
      arith,
      update_full s now dice,
      update_full s later dice,
      update_full (record s { next_dice_reset_at = none; recharge_paused_seconds = none }) later
          dice,
    )
    | inr low ↦ elim (Bool-cases (ltb now next)) [
      | inl early ↦ rw (update_not_due s next now dice (ground arith) running (ltb→lt _ _ early))
      | inr due ↦
          elim (Bool-cases
            (ltb (s.dice_rolls_left + elapsed_intervals next now dice.interval) dice.max_rolls)) [
              | inr full ↦ late_full (ground arith) (ground arith) (ground arith)
              | inl room ↦
                  elim (Bool-cases
                    (ltb later (next + elapsed_intervals next now dice.interval * dice.interval))) [
                      | inl early ↦
                          late_some_early (ground arith) (ground arith) (ltb→lt _ _ room)
                            (ltb→lt _ _ early)
                      | inr again ↦
                          late_some_due (ground arith) (ground arith) (ltb→lt _ _ room)
                            (ground arith)
                    ]
            ]
    ]
  ]
