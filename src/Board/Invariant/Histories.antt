-- ===== src/Board/Invariant/Histories.antt =====
-- Any history of requests: each runs in a transaction of its own, and one that raises leaves the
-- rows as they were.
use msg_backend.Prelude.{ℕ, ◌≡◌, Bool, Option, List, [], ◌∷◌, All, subst}
use msg_backend.Board.Model.{Rows, Shared, Dice, RequestKey, Json, CardId, Challenge}
use msg_backend.Board.Monad.{Result, ok, err, M, pure, ◌>>=◌}
use msg_backend.Board.Keeps.{Keeps, After, Keeps-bind, Keeps-pure}
use msg_backend.Board.Dice.{roll_dice}
use msg_backend.Board.Dice.Requests.{
  prepare_dice_roll_request, acknowledge_dice_roll_request, confirm_dice_roll,
}
use msg_backend.Board.Airport.{move_team_via_airport}
use msg_backend.Board.Roulette.{spin_roulette}
use msg_backend.Board.Cells.{open_current_cell_challenge, complete_challenge_from_submission}
use msg_backend.Board.Candidates.{get_board_state_for_read, get_current_cell_candidates}
use msg_backend.Board.Cards.{draw_chance_card, discard_chance_card}
use msg_backend.Board.Cards.Effects.{Throws, Payload, use_chance_card}
use msg_backend.Board.Cards.Choice.{Choice, confirm_chance_choice}
use msg_backend.Board.Closed.{IsClosed}
use msg_backend.Board.Closed.Requests.{
  roll_dice-Keeps, prepare_dice_roll_request-Keeps, acknowledge-Keeps, confirm_dice_roll-Keeps,
}
use msg_backend.Board.Closed.Moves.{move_team_via_airport-Keeps, spin_roulette-Keeps}
use msg_backend.Board.Closed.Cards.{
  draw_chance_card-Keeps, discard_chance_card-Keeps, use_chance_card-Keeps,
  confirm_chance_choice-Keeps,
}
use msg_backend.Board.Closed.Cells.{
  open_current_cell_challenge-Keeps, complete_challenge-Keeps, get_board_state_for_read-Keeps,
  get_current_cell_candidates-Keeps,
}
use msg_backend.Board.Invariant.{IsValid, IsSeeded}
use msg_backend.Board.Movement.Walk.{IsOnBoard}
use msg_backend.Board.Invariant.Closure.{IsValid-IsClosed}

-- The operations of the board, with the numbers that `random` gave them.
pub data Operation : Type 0 where
  roll : Option ℕ → Option RequestKey → ℕ → ℕ → Operation
  prepare : ℕ → Operation
  acknowledge : ℕ → RequestKey → Operation
  confirm : Option RequestKey → Operation
  fly : Json → Operation
  spin : ℕ → Operation
  open_challenge : Option ℕ → Operation
  complete : ℕ → ℕ → Operation
  read_state : Bool → Operation
  read_candidates : (List Challenge → ℕ → List Challenge) → Operation
  draw : ℕ → Operation
  discard : Option CardId → Option ℕ → Operation
  use_card : Option CardId → Option ℕ → Payload → Throws → Operation
  choose : Choice → Option ℕ → Operation

abbrev forget : {A : Type 0} → M A → M (Unit {0})
forget m = m >>= λ _. pure tt

unfoldable pub perform : Shared → Operation → M (Unit {0})
perform sh (roll user key a b) = forget (roll_dice sh user key a b)
perform sh (prepare user) = forget (prepare_dice_roll_request sh user)
perform sh (acknowledge user key) = acknowledge_dice_roll_request sh user key
perform sh (confirm key) = forget (confirm_dice_roll sh key)
perform sh (fly j) = forget (move_team_via_airport sh j)
perform sh (spin pick) = forget (spin_roulette sh pick)
perform sh (open_challenge id) = forget (open_current_cell_challenge sh id)
perform sh (complete id t) = forget (complete_challenge_from_submission sh id t)
perform sh (read_state c) = forget (get_board_state_for_read sh c)
perform sh (read_candidates sample) = forget (get_current_cell_candidates sh sample)
perform sh (draw pick) = forget (draw_chance_card sh pick)
perform sh (discard card pk) = forget (discard_chance_card sh card pk)
perform sh (use_card card pk j t) = forget (use_chance_card sh card pk j t)
perform sh (choose c pk) = forget (confirm_chance_choice sh c pk)

-- The rows after a request that returned or raised.
abbrev pub settle : Rows → Result (Unit {0} × Rows) → Rows
settle r (ok p) = p.1
settle r (err e) = r

pub record Request : Type 0 where
  pub shared : Shared
  pub operation : Operation

unfoldable pub serve : Rows → List Request → Rows
serve r [] = r
serve r (q ∷ qs) = serve (settle r (perform q.shared q.operation r)) qs

module _ (sh : Shared) {P : Rows → Type 0} {Q : ℕ → Type 0} (closed : IsClosed sh P Q) where
  forget-Keeps : {A : Type 0} (m : M A) → Keeps P m → Keeps P (forget m)
  forget-Keeps m k = Keeps-bind m _ k λ _. Keeps-pure tt

  -- Every operation of the board keeps a predicate that is closed under its writes.
  pub perform-Keeps : (op : Operation) → Keeps P (perform sh op)
  unfolding perform
  perform-Keeps (roll user key a b) = forget-Keeps _ (roll_dice-Keeps sh closed user key a b)
  perform-Keeps (prepare user) = forget-Keeps _ (prepare_dice_roll_request-Keeps sh closed user)
  perform-Keeps (acknowledge user key) = acknowledge-Keeps sh closed user key
  perform-Keeps (confirm key) = forget-Keeps _ (confirm_dice_roll-Keeps sh closed key)
  perform-Keeps (fly j) = forget-Keeps _ (move_team_via_airport-Keeps sh closed j)
  perform-Keeps (spin pick) = forget-Keeps _ (spin_roulette-Keeps sh closed pick)
  perform-Keeps (open_challenge id) =
      forget-Keeps _ (open_current_cell_challenge-Keeps sh closed id)
  perform-Keeps (complete id t) = forget-Keeps _ (complete_challenge-Keeps sh closed id t)
  perform-Keeps (read_state c) = forget-Keeps _ (get_board_state_for_read-Keeps sh closed c)
  perform-Keeps (read_candidates sample) =
      forget-Keeps _ (get_current_cell_candidates-Keeps sh closed sample)
  perform-Keeps (draw pick) = forget-Keeps _ (draw_chance_card-Keeps sh closed pick)
  perform-Keeps (discard card pk) = forget-Keeps _ (discard_chance_card-Keeps sh closed card pk)
  perform-Keeps (use_card card pk j t) =
      forget-Keeps _ (use_chance_card-Keeps sh closed card pk j t)
  perform-Keeps (choose c pk) = forget-Keeps _ (confirm_chance_choice-Keeps sh closed c pk)

settle_after :
    (P : Rows → Type 0) (r : Rows) (x : Result (Unit {0} × Rows)) → P r → After P x → P (settle r x)
settle_after P r (ok p) h k = k
settle_after P r (err e) h k = h

-- A predicate that is closed under the writes of every request holds after a history of them.
pub serve_closed :
    (P : Rows → Type 0) (Q : ℕ → Type 0) (qs : List Request) (r : Rows)
    → All (λ q. IsClosed q.shared P Q) qs
    → P r
    → P (serve r qs)
unfolding serve
serve_closed P Q [] r h v = v
serve_closed P Q (q ∷ qs) r h v =
    serve_closed P Q qs _ h.1
      (settle_after P r _ v ((perform-Keeps q.shared h.0 q.operation).at r v))

-- From valid rows, and as long as the board is seeded and the dice settings stay the same, the
-- rows are valid after any history of requests: the consumed cells are distinct cells of the
-- board, the team stands on the board, it holds at most the largest number of rolls, its clock
-- does not both run and stand paused, and a waiting roll joins two cells of the board.
pub serve-IsValid :
    (dice : Dice) (qs : List Request) (r : Rows)
    → All (λ q. IsSeeded q.shared × (q.shared.dice ≡ dice)) qs
    → IsValid dice r
    → IsValid dice (serve r qs)
serve-IsValid dice qs r h v = serve_closed _ IsOnBoard qs r (closed qs h) v
  where
    closed :
        (qs : List Request)
        → All (λ q. IsSeeded q.shared × (q.shared.dice ≡ dice)) qs
        → All (λ q. IsClosed q.shared (IsValid dice) IsOnBoard) qs
    closed [] h = h
    closed (q ∷ qs) h = (
      subst (λ d. IsClosed q.shared (IsValid d) IsOnBoard) h.0.1 (IsValid-IsClosed q.shared h.0.0),
      closed qs h.1,
    )
