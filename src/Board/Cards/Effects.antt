-- ===== src/Board/Cards/Effects.antt =====
-- The effect handlers of apps/board/services.py, and `use_chance_card` that dispatches to them.
use msg_backend.Prelude.{
  ℕ, ◌+◌, Bool, true, false, Option, none, some, [], ◌∷◌, ◌==◌, leb, not, ◌&&◌, if◌then◌else◌,
  contains, first, is_some, length, suc,
}
use msg_backend.Prelude.Int.{pos, negsuc}
use msg_backend.Board.Model.{
  Cell, CardId, Effect, ChanceCard, TeamChanceCard, Shared, Rows, Json, int,
}
use msg_backend.Board.Monad.{
  lift, Error, M, pure, raise, or_raise, gets, ◌>>=◌, ◌>>◌, raise_if, get_state,
}
use msg_backend.Board.Recharge.{start_cell_index}
use msg_backend.Board.Movement.{Direction, forward, backward, Movement, compute_movement}
use msg_backend.Board.Landing.{
  is_held, find_cell, get_cell, board_state_for_update, apply_pending_dice_recharge, consume_roll,
  grant_roll, finalize_landing, now, bool_to_ℕ,
}
use msg_backend.Board.Dice.{
  compute_blocked_reason, log_roll, delete_pending, store_pending, pending_row, assert_can_roll,
  pending_passes,
}
use msg_backend.Board.Airport.{board_index}
use msg_backend.Board.Cards.{
  is_known, fits_card, names_card, held_cards, card_usable_now, change_draw, set_used, set_numbers,
}

-- The numbers that `random.randint(1, 6)` gives, in the order of the calls.
pub record Throws : Type 0 where
  pub first_a : ℕ
  pub first_b : ℕ
  pub second_a : ℕ
  pub second_b : ℕ

-- The fields of the request that the handlers read.
pub record Payload : Type 0 where
  pub offset : Json
  pub destination_index : Json

-- What a handler answers: a movement, the two numbers to choose from, or the rolls left.
pub data EffectResult : Type 0 where
  moved : ℕ → Movement → EffectResult
  to_choose : ℕ → ℕ → EffectResult
  extra : ℕ → EffectResult

-- An offset of -3..3 that is not 0: its direction and its size.
abbrev pub offset_of : Json → Option (Direction × ℕ)
offset_of (int (pos n)) = if leb 1 n && leb n 3 then some (forward, n) else none
offset_of (int (negsuc n)) = if leb (suc n) 3 then some (backward, suc n) else none
offset_of _ = none

module _ (sh : Shared) where
  -- A card that was used up by a movement: the card is marked, and the team lands.
  abbrev pub use_up : ℕ → M (Unit {0})
  use_up pk = do t ← now sh; change_draw pk (set_used t)

  abbrev pub land : ℕ → Cell → ℕ → M (Unit {0})
  land destination cell passes = do
    reward ← finalize_landing sh cell passes (destination == start_cell_index)
    pure tt

  unfoldable pub effect_reroll : TeamChanceCard → Throws → M EffectResult
  effect_reroll draw throws = do
    p ← or_raise (← gets (λ r. r.pending)) Error.chance_card_wrong_timing
    let rolled = throws.first_a + throws.first_b
    consumed ← gets (λ r. r.consumptions)
    m ← lift (compute_movement consumed p.previous_position rolled forward)
    cell ← get_cell sh m.destination
    log_roll (record {
      dice_a = throws.first_a;
      dice_b = throws.first_b;
      rolled_number = rolled;
      previous_position = p.previous_position;
      current_position = m.destination;
    })
    use_up draw.pk
    delete_pending
    land m.destination cell m.start_pass_count
    pure (moved p.previous_position m)

  unfoldable pub effect_roll_twice_choose : TeamChanceCard → Throws → M EffectResult
  effect_roll_twice_choose draw throws = do
    apply_pending_dice_recharge sh
    assert_can_roll sh
    let first_number = throws.first_a + throws.first_b
    let second_number = throws.second_a + throws.second_b
    s ← get_state
    consumed ← gets (λ r. r.consumptions)
    m ← lift (compute_movement consumed s.position first_number forward)
    other ← lift (compute_movement consumed s.position second_number forward)
    cell ← get_cell sh m.destination
    consume_roll sh
    log_roll (record {
      dice_a = throws.first_a;
      dice_b = throws.first_b;
      rolled_number = first_number;
      previous_position = s.position;
      current_position = m.destination;
    })
    log_roll (record {
      dice_a = throws.second_a;
      dice_b = throws.second_b;
      rolled_number = second_number;
      previous_position = s.position;
      current_position = other.destination;
    })
    p ← store_pending (pending_row throws.first_a throws.first_b s.position m cell)
    change_draw draw.pk (set_numbers first_number second_number)
    pure (to_choose first_number second_number)

  unfoldable pub effect_move_offset : TeamChanceCard → Payload → M EffectResult
  effect_move_offset draw payload = do
    p ← or_raise (← gets (λ r. r.pending)) Error.chance_card_wrong_timing
    o ← or_raise (offset_of payload.offset) Error.invalid_destination_index
    consumed ← gets (λ r. r.consumptions)
    m ← lift (compute_movement consumed p.candidate_position o.1 o.0)
    cell ← get_cell sh m.destination
    use_up draw.pk
    delete_pending
    land m.destination cell (pending_passes p + m.start_pass_count)
    pure (moved p.candidate_position m)

  unfoldable pub effect_free_move : TeamChanceCard → Payload → M EffectResult
  effect_free_move draw payload = do
    destination ← or_raise (board_index payload.destination_index) Error.invalid_destination_index
    raise_if (← gets (λ r. contains destination r.consumptions)) Error.invalid_destination_index
    cell ← or_raise (find_cell sh.cells destination) Error.invalid_destination_index
    s ← get_state
    let passed_start = destination == start_cell_index
    let m : Movement = record {
      destination = destination;
      movement_path = destination ∷ [];
      skipped_cells = [];
      start_pass_count = bool_to_ℕ passed_start;
    }
    use_up draw.pk
    land m.destination cell m.start_pass_count
    pure (moved s.position m)

  unfoldable pub effect_grant_extra_roll : TeamChanceCard → M EffectResult
  effect_grant_extra_roll draw = do
    granted ← grant_roll sh 1
    raise_if (granted == 0) Error.chance_card_wrong_timing
    use_up draw.pk
    s ← get_state
    pure (extra s.dice_rolls_left)

  -- `_EFFECT_HANDLERS`
  unfoldable pub apply_effect : Effect → TeamChanceCard → Payload → Throws → M EffectResult
  apply_effect Effect.re_roll draw payload throws = effect_reroll draw throws
  apply_effect Effect.twice_choose draw payload throws = effect_roll_twice_choose draw throws
  apply_effect Effect.offset_move draw payload throws = effect_move_offset draw payload
  apply_effect Effect.free_move draw payload throws = effect_free_move draw payload
  apply_effect Effect.grant_extra_roll draw payload throws = effect_grant_extra_roll draw
  apply_effect (Effect.unknown_effect _) draw payload throws = raise Error.chance_card_not_found

  -- `_assert_timing_ok`
  unfoldable pub assert_timing_ok : ChanceCard → M (Unit {0})
  assert_timing_ok card = do
    raise_if (← gets (λ r. leb 2 (length (held_cards r)))) Error.chance_card_awaiting_discard
    s ← get_state
    cell ← get_cell sh s.position
    usable ← gets λ r.
        card_usable_now card s.dice_rolls_left (compute_blocked_reason r s cell) (is_some r.pending)
          sh.dice
    raise_if (not usable) Error.chance_card_wrong_timing

  abbrev pub assert_unused : TeamChanceCard → M (Unit {0})
  assert_unused draw = do
    raise_if (is_some draw.used_at) Error.chance_card_already_used
    raise_if (is_some draw.discarded_at) Error.chance_card_not_found

  -- The part of `use_chance_card` under the lock on the board, for the draw with the key `pk`.
  unfoldable pub use_locked : ℕ → Payload → Throws → M EffectResult
  use_locked pk payload throws = do
    board_state_for_update sh true
    draw ← or_raise (← gets λ r. first (λ d. d.pk == pk) r.draws) Error.chance_card_not_found
    assert_unused draw
    apply_pending_dice_recharge sh
    assert_timing_ok draw.card
    apply_effect draw.card.effect draw payload throws

  -- The draw that a request names, read before the lock is taken.
  abbrev pub or_else : Option TeamChanceCard → Option TeamChanceCard → Option TeamChanceCard
  or_else none d = d
  or_else (some d) _ = some d

  unfoldable pub existing_draw : Option CardId → Option ℕ → Rows → Option TeamChanceCard
  existing_draw card_id (some pk) r =
      first (λ d. is_known d.card.card_id && fits_card card_id d && d.pk == pk) r.draws
  existing_draw card_id none r =
      or_else (first (λ d. is_known d.card.card_id && fits_card card_id d && is_held d) r.draws)
        (first (λ d. is_known d.card.card_id && fits_card card_id d) r.draws)

  abbrev pub is_unknown : Option CardId → Bool
  is_unknown none = false
  is_unknown (some id) = not (is_known id)

  unfoldable pub use_chance_card : Option CardId → Option ℕ → Payload → Throws → M EffectResult
  use_chance_card card_id team_card_id payload throws = do
    raise_if (not (names_card card_id team_card_id)) Error.card_id_required
    raise_if (is_unknown card_id) Error.chance_card_not_found
    draw ← or_raise (← gets (existing_draw card_id team_card_id)) Error.chance_card_not_found
    assert_unused draw
    use_locked draw.pk payload throws
