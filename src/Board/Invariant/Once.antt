-- ===== src/Board/Invariant/Once.antt =====
-- What a team does once: the flight from the airport, and the draw on each chance cell.
use msg_backend.Prelude.{
  ℕ, ◌≡◌, ◌≢◌, refl, ◌∙◌, subst, Bool, true, false, Bool-cases, inl, inr, [], Option, none, some,
  List, ◌∷◌, ◌==◌, exists, update, arith,
}
use msg_backend.Board.Model.{TeamBoardState, TeamChanceCard, Shared, Rows, Json}
use msg_backend.Board.Monad.{ok}
use msg_backend.Board.Keeps.{Keeps-gets, Keeps-get_state}
use msg_backend.Board.Triple.{
  Triple, Triple-ok, Triple-pure, Triple-pre, Triple-absurd, Triple-then, Triple-found, Triple-gets,
  Triple-test, Triple-modify, Triple-state, Triple-modify_state, Keeps-any,
}
use msg_backend.Board.Airport.{MoveResult, move_to, move_team_via_airport}
use msg_backend.Board.Cards.{draw_chance_card}
use msg_backend.Board.Closed.{IsClosed, SameDraw}
use msg_backend.Board.Closed.Steps.{
  board_state_for_update-Keeps, finalize_landing-Keeps, consume_cell-Keeps, grant_roll-Keeps,
}
use msg_backend.Board.Invariant.Histories.{Request, serve}
use msg_backend.Board.Invariant.Lasting.{serve_lasting}

-- The team has flown.
abbrev HasFlown : Option TeamBoardState → Type 0
HasFlown none = ⊥
HasFlown (some s) = s.airport_move_used ≡ true

abbrev IsFlown : Rows → Type 0
IsFlown r = HasFlown r.state

flown_state :
    (r : Rows) (s : TeamBoardState) → r.state ≡ some s → IsFlown r → s.airport_move_used ≡ true
flown_state r s e h = subst HasFlown e h

IsFlown-IsClosed : (sh : Shared) → IsClosed sh IsFlown (λ i. Unit)
IsFlown-IsClosed sh = record {
  game = record {
    lock = record {
      clock = λ r h. h;
      counters = λ r s s' e same bounded h. same.2 ∙ flown_state r s e h;
      create = λ r cell fresh e h. absurd (subst HasFlown fresh h);
    };
    stands = λ r s e h. tt;
    ids = λ r h. h;
    place = λ r s i cell passed e found h. flown_state r s e h;
    consume = λ r i cell found new h. h;
    mileage = λ r amount type new h. h;
    log = λ r roll h. h;
    wait = λ r p cell from to h. h;
  };
  unwait = λ r h. h;
  requests = λ r qs h. h;
  candidates = λ r cs h. h;
  fly = λ r s e h. refl;
  activate = λ r s a e h. flown_state r s e h;
  add_draw = λ r d h. h;
  change_draw = λ r pk f same h. h;
  add_access = λ r a h. h;
  clear = λ r id t h. h;
}

move_to-IsFlown : (sh : Shared) (i : ℕ) → Triple (λ r. Unit) (λ a r. IsFlown r) (move_to sh i)
unfolding move_to
move_to-IsFlown sh i = Triple-then _ _ (Keeps-any _) λ _. Triple-state _ λ s.
    Triple-found _ _ _ λ here airport. Triple-test _ _ _ λ is_airport. Triple-test _ _ _ λ unused.
      Triple-gets _ _ λ taken. Triple-test _ _ _ λ free. Triple-found _ _ _ λ c to.
        Triple-modify_state {P' = IsFlown} _ _ (λ r h. rw h.0.1 refl)
          (Triple-then _ _ (finalize_landing-Keeps sh (IsFlown-IsClosed sh).game i c _ _ to)
            λ _. Triple-pure _ λ r h. h)

flight :
    (sh : Shared) (j : Json) → Triple (λ r. Unit) (λ a r. IsFlown r) (move_team_via_airport sh j)
unfolding move_team_via_airport
flight sh j = Triple-found _ _ _ λ i e. move_to-IsFlown sh i

no_flight_to : (sh : Shared) (i : ℕ) → Triple IsFlown (λ a r. ⊥) (move_to sh i)
unfolding move_to
no_flight_to sh i =
    Triple-then _ _ (board_state_for_update-Keeps sh (IsFlown-IsClosed sh).game.lock true) λ _.
      Triple-state _ λ s. Triple-found _ _ _ λ here airport. Triple-test _ _ _ λ is_airport.
        Triple-test _ _ _ λ unused.
          Triple-absurd _ λ r h. let used = flown_state r s h.1 h.0 in ground (arith, used, unused)

no_flight : (sh : Shared) (j : Json) → Triple IsFlown (λ a r. ⊥) (move_team_via_airport sh j)
unfolding move_team_via_airport
no_flight sh j = Triple-found _ _ _ λ i e. no_flight_to sh i

-- The cell `c` was drawn on.
abbrev IsDrawnAt : ℕ → Rows → Type 0
IsDrawnAt c r = exists (λ d. d.source_cell == c) r.draws ≡ true

exists-update :
    (c pk : ℕ) (f : TeamChanceCard → TeamChanceCard) (ds : List TeamChanceCard)
    → ((d : TeamChanceCard) → SameDraw d (f d))
    → exists (λ d. d.source_cell == c) (update (λ d. d.pk == pk) f ds)
      ≡ exists (λ d. d.source_cell == c) ds
exists-update c pk f [] same = refl
exists-update c pk f (d ∷ ds) same =
    let rest = exists-update c pk f ds same in
    elim (Bool-cases (d.pk == pk)) [
      | inl this ↦ rw this (rw (same d).same_cell (rw rest refl))
      | inr other ↦ rw other (rw rest refl)
    ]

IsDrawnAt-IsClosed : (c : ℕ) (sh : Shared) → IsClosed sh (IsDrawnAt c) (λ i. Unit)
IsDrawnAt-IsClosed c sh = record {
  game = record {
    lock = record {
      clock = λ r h. h;
      counters = λ r s s' e same bounded h. h;
      create = λ r cell fresh e h. h;
    };
    stands = λ r s e h. tt;
    ids = λ r h. h;
    place = λ r s i cell passed e found h. h;
    consume = λ r i cell found new h. h;
    mileage = λ r amount type new h. h;
    log = λ r roll h. h;
    wait = λ r p cell from to h. h;
  };
  unwait = λ r h. h;
  requests = λ r qs h. h;
  candidates = λ r cs h. h;
  fly = λ r s e h. h;
  activate = λ r s a e h. h;
  add_draw = λ r d h. ground (arith, h);
  change_draw = λ r pk f same h. exists-update c pk f r.draws same ∙ h;
  add_access = λ r a h. h;
  clear = λ r id t h. h;
}

-- The answer of a draw names the cell, which then counts as drawn on.
drawing :
    (sh : Shared) (pick : ℕ)
    → Triple (λ r. Unit) (λ a r. IsDrawnAt a.0.source_cell r) (draw_chance_card sh pick)
unfolding draw_chance_card
drawing sh pick = Triple-then _ _ (Keeps-any _) λ _. Triple-then _ _ (Keeps-any _) λ waits.
    Triple-then _ _ (Keeps-any _) λ _. Triple-then _ _ (Keeps-any _) λ s.
      Triple-found _ _ _ λ c here. Triple-then _ _ (Keeps-any _) λ _.
        Triple-then _ _ (Keeps-any _) λ drawn. Triple-then _ _ (Keeps-any _) λ _.
          Triple-then _ _ (Keeps-any _) λ card. Triple-then _ _ (Keeps-any _) λ pk.
            Triple-modify {P' = IsDrawnAt c.cell_index} _ _ (λ r h. ground arith)
              (Triple-then _ _ (consume_cell-Keeps sh (IsDrawnAt-IsClosed _ sh).game _ c here) λ _.
                Triple-then _ _ (grant_roll-Keeps sh (IsDrawnAt-IsClosed _ sh).game.lock _) λ n.
                  Triple-then _ _ Keeps-get_state
                    λ after. Triple-then _ _ (Keeps-gets _) λ held. Triple-pure _ λ r h. h)

no_second_draw :
    (c : ℕ) (sh : Shared) (pick : ℕ)
    → Triple (IsDrawnAt c) (λ a r. a.0.source_cell ≢ c) (draw_chance_card sh pick)
unfolding draw_chance_card
no_second_draw c sh pick =
    Triple-then _ _ (board_state_for_update-Keeps sh (IsDrawnAt-IsClosed c sh).game.lock true) λ _.
      Triple-then _ _ (Keeps-gets _) λ waits. Triple-test _ _ _ λ _.
        Triple-then _ _ Keeps-get_state λ s. Triple-found _ _ _ λ cell here.
          Triple-test _ _ _ λ is_chance. Triple-gets _ _ λ drawn. Triple-test _ _ _ λ new.
            Triple-pre {P' = λ r. cell.cell_index ≢ c}
              (λ r h at_c. drawn_before r drawn h.0 (at_c) h.1 new)
              (Triple-then _ _ (Keeps-any _) λ card. Triple-then _ _ (Keeps-any _) λ pk.
                Triple-then _ _ (Keeps-any _) λ _. Triple-then _ _ (Keeps-any _) λ _.
                  Triple-then _ _ (Keeps-any _) λ n.
                    Triple-then _ _ (Keeps-any _)
                      λ after. Triple-then _ _ (Keeps-any _) λ held. Triple-pure _ λ r h. h)
  where
    drawn_before :
        {c c' : ℕ} (r : Rows) (b : Bool)
        → IsDrawnAt c r
        → c' ≡ c
        → exists (λ d. d.source_cell == c') r.draws ≡ b
        → b ≡ false
        → ⊥
    drawn_before r b h e x y = ground (arith, e, x, y, h)

-- After a flight, and through any history of requests, no flight succeeds any more, whatever the
-- settings and the destination.
pub airport_once :
    (sh sh' : Shared) (j j' : Json) (r : Rows) (x y : MoveResult × Rows) (qs : List Request)
    → move_team_via_airport sh j r ≡ ok x
    → move_team_via_airport sh' j' (serve x.1 qs) ≢ ok y
airport_once sh sh' j j' r x y qs flown again =
    Triple-ok (no_flight sh' j') (serve x.1 qs) y again
      (serve_lasting IsFlown IsFlown-IsClosed qs x.1 (Triple-ok (flight sh j) r x flown tt))

-- After a draw on a chance cell, and through any history of requests, every draw that succeeds is
-- on another cell.
pub draw_once :
    (sh sh' : Shared) (pick pick' : ℕ) (r : Rows) (x y : (TeamChanceCard × ℕ × Bool) × Rows)
    (qs : List Request)
    → draw_chance_card sh pick r ≡ ok x
    → draw_chance_card sh' pick' (serve x.1 qs) ≡ ok y
    → y.0.0.source_cell ≢ x.0.0.source_cell
draw_once sh sh' pick pick' r x y qs drawn again =
    let c = x.0.0.source_cell in
    Triple-ok (no_second_draw c sh' pick') (serve x.1 qs) y again (
      serve_lasting (IsDrawnAt c) (IsDrawnAt-IsClosed c) qs x.1
        (Triple-ok (drawing sh pick) r x drawn tt))
