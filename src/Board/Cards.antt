-- ===== src/Board/Cards.antt =====
-- The chance cards of apps/board/services.py: drawing, discarding and using a card, with the effect
-- of each card, and the choice that a double roll leaves open.
pub mod Effects
pub mod Choice
use msg_backend.Prelude.{
  ℕ, ◌+◌, Bool, true, false, Option, none, some, List, [], ◌∷◌, ◌==◌, leb, ltb, not, ◌&&◌, ◌||◌,
  if◌then◌else◌, contains, first, exists, is_some, select, update, length, get_elem?,
}
use msg_backend.Prelude.Int.{ℤ, pos, negsuc}
use msg_backend.Board.Model.{
  CellType, Cell, CardId, reroll, roll_twice_choose, move_offset, free_travel, extra_roll, retired,
  UsageTiming, Effect, ChanceCard, TeamChanceCard, TeamBoardState, Shared, Rows, Dice, Json, int,
  PendingDiceRoll,
}
use msg_backend.Board.Monad.{
  Error, M, pure, raise, or_raise, gets, ◌>>=◌, ◌>>◌, modify, raise_if, when, get_state, fresh_id,
}
use msg_backend.Board.Recharge.{start_cell_index}
use msg_backend.Board.Movement.{Direction, forward, backward, Movement, compute_movement}
use msg_backend.Board.Landing.{
  is_held, is_post_roll, find_cell, get_cell, board_state_for_update, apply_pending_dice_recharge,
  consume_cell, consume_roll, grant_roll, finalize_landing, now, bool_to_ℕ,
}
use msg_backend.Board.Dice.{
  BlockedReason, no_roll_left, compute_blocked_reason, log_roll, delete_pending, store_pending,
  pending_row, assert_can_roll, pending_passes,
}
use msg_backend.Board.Airport.{board_index}

abbrev pub is_chance : CellType → Bool
is_chance CellType.chance = true
is_chance _ = false

-- `card_id in ChanceCard.CardId.values`
abbrev pub is_known : CardId → Bool
is_known (retired _) = false
is_known _ = true

abbrev pub same_card : CardId → CardId → Bool
same_card reroll reroll = true
same_card roll_twice_choose roll_twice_choose = true
same_card move_offset move_offset = true
same_card free_travel free_travel = true
same_card extra_roll extra_roll = true
same_card (retired a) (retired b) = a == b
same_card _ _ = false

abbrev pub is_grant : Effect → Bool
is_grant Effect.grant_extra_roll = true
is_grant _ = false

abbrev pub is_no_roll_left : BlockedReason → Bool
is_no_roll_left no_roll_left = true
is_no_roll_left _ = false

-- `_held_cards_queryset`
unfoldable pub held_cards : Rows → List TeamChanceCard
held_cards r = select (λ d. is_known d.card.card_id && is_held d) r.draws

-- A PRE_ROLL card while no roll waits: no obstacle, or the one that an extra roll removes.
abbrev pub pre_roll_usable : Effect → Option BlockedReason → Bool
pre_roll_usable effect none = true
pre_roll_usable effect (some reason) = is_grant effect && is_no_roll_left reason

-- `_card_usable_now`
unfoldable pub card_usable_now : ChanceCard → ℕ → Option BlockedReason → Bool → Dice → Bool
card_usable_now card dice_rolls_left blocked_reason has_pending dice =
    if is_grant card.effect && leb dice.max_rolls dice_rolls_left
    then false
    else if is_post_roll card.usage_timing
    then has_pending
    else if has_pending
    then false
    else pre_roll_usable card.effect blocked_reason

-- A change of one draw.
unfoldable pub change_draw : ℕ → (TeamChanceCard → TeamChanceCard) → M (Unit {0})
change_draw pk f = modify (λ r. record r { draws = update (λ d. d.pk == pk) f r.draws })

abbrev pub set_used : ℕ → TeamChanceCard → TeamChanceCard
set_used t d = record d { used_at = some t }

abbrev pub set_discarded : ℕ → TeamChanceCard → TeamChanceCard
set_discarded t d = record d { discarded_at = some t }

abbrev pub set_numbers : ℕ → ℕ → TeamChanceCard → TeamChanceCard
set_numbers first_number second_number d = record d {
  pending_first_number = some first_number;
  pending_second_number = some second_number;
}

abbrev pub set_chosen : ℕ → TeamChanceCard → TeamChanceCard
set_chosen t d = record d {
  used_at = some t;
  pending_first_number = none;
  pending_second_number = none;
}

abbrev pub new_draw : ℕ → ℕ → ChanceCard → TeamChanceCard
new_draw pk cell card = record {
  pk = pk;
  source_cell = cell;
  card = card;
  used_at = none;
  discarded_at = none;
  pending_first_number = none;
  pending_second_number = none;
}

-- `(not card_id or draw.card_id == card_id)` and the like: a key that was not given fits all.
abbrev pub fits_card : Option CardId → TeamChanceCard → Bool
fits_card none d = true
fits_card (some id) d = same_card d.card.card_id id

abbrev pub fits_pk : Option ℕ → TeamChanceCard → Bool
fits_pk none d = true
fits_pk (some pk) d = d.pk == pk

-- A request must name a card by its kind or by its key.
abbrev pub names_card : Option CardId → Option ℕ → Bool
names_card card_id team_card_id = is_some card_id || is_some team_card_id

-- `pick` is the index that `random.choice` takes.
unfoldable pub draw_chance_card : Shared → ℕ → M (TeamChanceCard × ℕ × Bool)
draw_chance_card sh pick = do
  board_state_for_update sh true
  raise_if (← gets (λ r. is_some r.pending)) Error.pending_roll_unresolved
  s ← get_state
  cell ← get_cell sh s.position
  raise_if (not (is_chance cell.type)) Error.not_chance_cell
  raise_if (← gets λ r. exists (λ d. d.source_cell == cell.cell_index) r.draws)
      Error.not_chance_cell
  card ← or_raise (get_elem? (select (λ c. is_known c.card_id) sh.cards) pick) Error.index_error
  pk ← fresh_id
  let draw = new_draw pk cell.cell_index card
  modify (λ r. record r { draws = draw ∷ r.draws })
  consume_cell cell.cell_index
  granted ← grant_roll sh 1
  after ← get_state
  held ← gets held_cards
  pure (draw, after.dice_rolls_left, leb 2 (length held))

-- What is thrown away and what is kept.
unfoldable pub discard_chance_card :
    Shared → Option CardId → Option ℕ → M (TeamChanceCard × TeamChanceCard)
discard_chance_card sh card_id team_card_id = do
  raise_if (not (names_card card_id team_card_id)) Error.card_id_required
  board_state_for_update sh false
  held ← gets held_cards
  raise_if (ltb (length held) 2) Error.no_card_to_discard
  target ←
      or_raise (first (λ d. fits_pk team_card_id d && fits_card card_id d) held)
        Error.chance_card_not_found
  raise_if (is_some target.pending_first_number) Error.chance_card_wrong_timing
  t ← now sh
  change_draw target.pk (set_discarded t)
  remaining ← or_raise (first (λ d. not (d.pk == target.pk)) held) Error.stop_iteration
  pure (target, remaining)
