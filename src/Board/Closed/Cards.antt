-- ===== src/Board/Closed/Cards.antt =====
-- The chance cards keep a predicate that is closed under their writes.
use msg_backend.Prelude.{ℕ, ◌≡◌, refl, true, false, Option, some}
use msg_backend.Board.Model.{
  TeamChanceCard, ChanceCard, CardId, Effect, Cell, Shared, Rows, PendingDiceRoll,
}
use msg_backend.Board.Keeps.{
  Keeps, Keeps-bind, Keeps-pure, Keeps-raise, Keeps-gets, Keeps-lift, Keeps-raise_if,
  Keeps-or_raise, Keeps-get_state, Keeps-modify, Keeps-bind_found, keeps_rules,
}
use msg_backend.Board.Landing.{find_cell}
use msg_backend.Board.Cards.{draw_chance_card, discard_chance_card, change_draw}
use msg_backend.Board.Cards.Effects.{
  Throws, Payload, use_up, land, effect_reroll, effect_roll_twice_choose, effect_move_offset,
  effect_free_move, effect_grant_extra_roll, apply_effect, assert_timing_ok, assert_unused,
  use_locked, use_chance_card,
}
use msg_backend.Board.Cards.Choice.{Choice, land_choice, confirm_chance_choice}
use msg_backend.Board.Closed.{IsClosed, SameDraw}
use msg_backend.Board.Closed.Steps.{
  board_state_for_update-Keeps, finalize_landing-Keeps, apply_pending_dice_recharge-Keeps,
  consume_roll-Keeps, grant_roll-Keeps, consume_cell-Keeps, now-Keeps,
}
use msg_backend.Board.Closed.Rolls.{
  bind_position-Keeps, assert_can_roll-Keeps, log_roll-Keeps, store_pending-Keeps, fresh_id-Keeps,
}
use msg_backend.Board.Closed.Requests.{delete_pending-Keeps}

module _ (sh : Shared) {P : Rows → Type 0} {Q : ℕ → Type 0} (closed : IsClosed sh P Q) where
  change_draw-Keeps :
      (pk : ℕ) (f : TeamChanceCard → TeamChanceCard)
      → ((d : TeamChanceCard) → SameDraw d (f d))
      → Keeps P (change_draw pk f)
  unfolding change_draw
  change_draw-Keeps pk f same = Keeps-modify _ λ r h. closed.change_draw r pk f same h

  use_up-Keeps : (pk : ℕ) → Keeps P (use_up sh pk)
  use_up-Keeps pk = Keeps-bind _ _ (now-Keeps sh closed.game.lock) λ t.
      change_draw-Keeps pk _
        λ d. record { same_pk = refl; same_cell = refl; stays_used = λ h. refl }

  land-Keeps :
      (i : ℕ) (c : Cell) (passes : ℕ) → find_cell sh.cells i ≡ some c → Keeps P (land sh i c passes)
  land-Keeps i c passes found =
      Keeps-bind _ _ (finalize_landing-Keeps sh closed.game i c passes _ found) λ _. Keeps-pure _

  pub draw_chance_card-Keeps : (pick : ℕ) → Keeps P (draw_chance_card sh pick)
  unfolding draw_chance_card
  draw_chance_card-Keeps pick =
      Keeps-bind _ _ (board_state_for_update-Keeps sh closed.game.lock true) λ _.
        Keeps-bind _ _ (Keeps-gets _) λ waits. Keeps-bind _ _ (Keeps-raise_if waits _) λ _.
          Keeps-bind _ _ Keeps-get_state λ s. Keeps-bind_found _ _ _ λ c to.
            Keeps-bind _ _ (Keeps-raise_if _ _) λ _. Keeps-bind _ _ (Keeps-gets _) λ drawn.
              Keeps-bind _ _ (Keeps-raise_if drawn _) λ _.
                Keeps-bind _ _ (Keeps-or_raise _ _) λ card.
                  Keeps-bind _ _ (fresh_id-Keeps sh closed.game) λ pk.
                    Keeps-bind _ _ (Keeps-modify _ λ r h. closed.add_draw r _ h) λ _.
                      Keeps-bind _ _ (consume_cell-Keeps sh closed.game _ c to) λ _.
                        Keeps-bind _ _ (grant_roll-Keeps sh closed.game.lock _)
                          λ _. search keeps_rules

  pub discard_chance_card-Keeps :
      (card_id : Option CardId) (team_card_id : Option ℕ)
      → Keeps P (discard_chance_card sh card_id team_card_id)
  unfolding discard_chance_card
  discard_chance_card-Keeps card_id team_card_id = Keeps-bind _ _ (Keeps-raise_if _ _) λ _.
      Keeps-bind _ _ (board_state_for_update-Keeps sh closed.game.lock false) λ _.
        Keeps-bind _ _ (Keeps-gets _) λ held. Keeps-bind _ _ (Keeps-raise_if _ _) λ _.
          Keeps-bind _ _ (Keeps-or_raise _ _) λ target. Keeps-bind _ _ (Keeps-raise_if _ _) λ _.
            Keeps-bind _ _ (now-Keeps sh closed.game.lock) λ t.
              Keeps-bind _ _
                (change_draw-Keeps _ _
                  λ d. record { same_pk = refl; same_cell = refl; stays_used = λ h. h })
                λ _. search keeps_rules

  effect_reroll-Keeps : (d : TeamChanceCard) (t : Throws) → Keeps P (effect_reroll sh d t)
  unfolding effect_reroll
  effect_reroll-Keeps d t = Keeps-bind _ _ (Keeps-gets _) λ o.
      Keeps-bind _ _ (Keeps-or_raise o _) λ p. Keeps-bind _ _ (Keeps-gets _) λ consumed.
        Keeps-bind _ _ (Keeps-lift _) λ m. Keeps-bind_found _ _ _ λ c to.
          Keeps-bind _ _ (log_roll-Keeps sh closed.game _) λ _. Keeps-bind _ _ (use_up-Keeps _) λ _.
            Keeps-bind _ _ (delete_pending-Keeps sh closed)
              λ _. Keeps-bind _ _ (land-Keeps m.destination c _ to) λ _. Keeps-pure _

  effect_roll_twice_choose-Keeps :
      (d : TeamChanceCard) (t : Throws) → Keeps P (effect_roll_twice_choose sh d t)
  unfolding effect_roll_twice_choose
  effect_roll_twice_choose-Keeps d t =
      Keeps-bind _ _ (apply_pending_dice_recharge-Keeps sh closed.game.lock) λ _.
        Keeps-bind _ _ (assert_can_roll-Keeps sh closed.game) λ _.
          bind_position-Keeps sh closed.game _ λ s from. Keeps-bind _ _ (Keeps-gets _) λ consumed.
            Keeps-bind _ _ (Keeps-lift _) λ m. Keeps-bind _ _ (Keeps-lift _) λ other.
              Keeps-bind_found _ _ _ λ c to.
                Keeps-bind _ _ (consume_roll-Keeps sh closed.game.lock) λ _.
                  Keeps-bind _ _ (log_roll-Keeps sh closed.game _) λ _.
                    Keeps-bind _ _ (log_roll-Keeps sh closed.game _) λ _.
                      Keeps-bind _ _
                        (store_pending-Keeps sh closed.game _ c (λ id. from) (λ id. to))
                        λ p.
                          Keeps-bind _ _
                            (change_draw-Keeps _ _
                              λ d. record { same_pk = refl; same_cell = refl; stays_used = λ h. h })
                            λ _. Keeps-pure _

  effect_move_offset-Keeps :
      (d : TeamChanceCard) (j : Payload) → Keeps P (effect_move_offset sh d j)
  unfolding effect_move_offset
  effect_move_offset-Keeps d j = Keeps-bind _ _ (Keeps-gets _) λ waits.
      Keeps-bind _ _ (Keeps-or_raise waits _) λ p. Keeps-bind _ _ (Keeps-or_raise _ _) λ o.
        Keeps-bind _ _ (Keeps-gets _) λ consumed. Keeps-bind _ _ (Keeps-lift _) λ m.
          Keeps-bind_found _ _ _ λ c to. Keeps-bind _ _ (use_up-Keeps _) λ _.
            Keeps-bind _ _ (delete_pending-Keeps sh closed)
              λ _. Keeps-bind _ _ (land-Keeps m.destination c _ to) λ _. Keeps-pure _

  effect_free_move-Keeps : (d : TeamChanceCard) (j : Payload) → Keeps P (effect_free_move sh d j)
  unfolding effect_free_move
  effect_free_move-Keeps d j = Keeps-bind _ _ (Keeps-or_raise _ _) λ i.
      Keeps-bind _ _ (Keeps-gets _) λ taken. Keeps-bind _ _ (Keeps-raise_if taken _) λ _.
        Keeps-bind_found _ _ _ λ c to. Keeps-bind _ _ Keeps-get_state λ s.
          Keeps-bind _ _ (use_up-Keeps _)
            λ _. Keeps-bind _ _ (land-Keeps i c _ to) λ _. Keeps-pure _

  effect_grant_extra_roll-Keeps : (d : TeamChanceCard) → Keeps P (effect_grant_extra_roll sh d)
  unfolding effect_grant_extra_roll
  effect_grant_extra_roll-Keeps d = Keeps-bind _ _ (grant_roll-Keeps sh closed.game.lock _) λ n.
      Keeps-bind _ _ (Keeps-raise_if _ _)
        λ _. Keeps-bind _ _ (use_up-Keeps _) λ _. search keeps_rules

  apply_effect-Keeps :
      (e : Effect) (d : TeamChanceCard) (j : Payload) (t : Throws)
      → Keeps P (apply_effect sh e d j t)
  unfolding apply_effect
  apply_effect-Keeps Effect.re_roll d j t = effect_reroll-Keeps d t
  apply_effect-Keeps Effect.twice_choose d j t = effect_roll_twice_choose-Keeps d t
  apply_effect-Keeps Effect.offset_move d j t = effect_move_offset-Keeps d j
  apply_effect-Keeps Effect.free_move d j t = effect_free_move-Keeps d j
  apply_effect-Keeps Effect.grant_extra_roll d j t = effect_grant_extra_roll-Keeps d
  apply_effect-Keeps (Effect.unknown_effect _) d j t = Keeps-raise _

  assert_timing_ok-Keeps : (c : ChanceCard) → Keeps P (assert_timing_ok sh c)
  unfolding assert_timing_ok
  assert_timing_ok-Keeps c = search keeps_rules depth 7

  assert_unused-Keeps : (d : TeamChanceCard) → Keeps P (assert_unused sh d)
  assert_unused-Keeps d = search keeps_rules

  use_locked-Keeps : (pk : ℕ) (j : Payload) (t : Throws) → Keeps P (use_locked sh pk j t)
  unfolding use_locked
  use_locked-Keeps pk j t =
      Keeps-bind _ _ (board_state_for_update-Keeps sh closed.game.lock true) λ _.
        Keeps-bind _ _ (Keeps-gets _) λ o. Keeps-bind _ _ (Keeps-or_raise o _) λ d.
          Keeps-bind _ _ (assert_unused-Keeps d) λ _.
            Keeps-bind _ _ (apply_pending_dice_recharge-Keeps sh closed.game.lock) λ _.
              Keeps-bind _ _ (assert_timing_ok-Keeps d.card)
                λ _. apply_effect-Keeps d.card.effect d j t

  pub use_chance_card-Keeps :
      (card_id : Option CardId) (team_card_id : Option ℕ) (j : Payload) (t : Throws)
      → Keeps P (use_chance_card sh card_id team_card_id j t)
  unfolding use_chance_card
  use_chance_card-Keeps card_id team_card_id j t = Keeps-bind _ _ (Keeps-raise_if _ _) λ _.
      Keeps-bind _ _ (Keeps-raise_if _ _) λ _. Keeps-bind _ _ (Keeps-gets _) λ o.
        Keeps-bind _ _ (Keeps-or_raise o _)
          λ d. Keeps-bind _ _ (assert_unused-Keeps d) λ _. use_locked-Keeps d.pk j t

  land_choice-Keeps :
      (d : TeamChanceCard) (p : PendingDiceRoll) (n : ℕ) → Keeps P (land_choice sh d p n)
  unfolding land_choice
  land_choice-Keeps d p n = Keeps-bind _ _ (Keeps-gets _) λ consumed.
      Keeps-bind _ _ (Keeps-lift _) λ m. Keeps-bind_found _ _ _ λ c to.
        Keeps-bind _ _ (now-Keeps sh closed.game.lock) λ t.
          Keeps-bind _ _
            (change_draw-Keeps _ _
              λ d. record { same_pk = refl; same_cell = refl; stays_used = λ h. refl })
            λ _. Keeps-bind _ _ (delete_pending-Keeps sh closed) λ _.
              Keeps-bind _ _ (finalize_landing-Keeps sh closed.game _ c _ _ to) λ _. Keeps-pure _

  pub confirm_chance_choice-Keeps :
      (choice : Choice) (team_card_id : Option ℕ)
      → Keeps P (confirm_chance_choice sh choice team_card_id)
  unfolding confirm_chance_choice
  confirm_chance_choice-Keeps choice team_card_id = Keeps-bind _ _ (Keeps-raise_if _ _) λ _.
      Keeps-bind _ _ (board_state_for_update-Keeps sh closed.game.lock true) λ _.
        Keeps-bind _ _ (Keeps-gets _) λ o. Keeps-bind _ _ (Keeps-or_raise o _) λ d.
          Keeps-bind _ _ (Keeps-gets _) λ w.
            Keeps-bind _ _ (Keeps-or_raise w _)
              λ p. Keeps-bind _ _ (Keeps-or_raise _ _) λ n. land_choice-Keeps d p n
