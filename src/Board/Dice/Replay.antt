-- ===== src/Board/Dice/Replay.antt =====
-- A roll that is asked for again: the stored answer is returned, and the team does not move.
use msg_backend.Prelude.{
  ℕ, ◌≡◌, refl, sym, subst, ◌∙◌, some-injective, Bool, true, false, not, Option, none, some, List,
  ◌==◌, first-update, arith,
}
use msg_backend.Board.Model.{Shared, Rows, DiceRollRequest, RollResult, Suffix, dice_roll_request}
use msg_backend.Board.Monad.{Error, ok, M, pure, raise_if, ◌>>=◌, ◌>>◌}
use msg_backend.Board.Triple.{
  Triple, Triple-ok, Triple-pure, Triple-pre, Triple-absurd, Triple-then, Triple-gets,
  Triple-modify, Keeps-any,
}
use msg_backend.Board.Dice.{
  find_request, is_roll_key, check_receipt, save_dice_receipt, roll_or_replay, roll_dice,
}
use msg_backend.Board.Closed.{IsGameClosed}
use msg_backend.Board.Closed.Steps.{board_state_for_update-Keeps}
use msg_backend.Board.Closed.Rolls.{perform_roll-Keeps}

-- The request of `user` that the key names holds `result` as its answer.
record HasReceipt (user : ℕ) (suffix : Suffix) (result : RollResult) (rows : List DiceRollRequest)
    : Type 0 where
  request : DiceRollRequest
  found : find_request (some user) rows ≡ some request
  named : is_roll_key request.id (some (dice_roll_request suffix)) ≡ true
  stored : request.response_data ≡ some result

-- What a roll would change.
abbrev pub SameGame : Rows → Rows → Type 0
SameGame r r' =
    (r'.rolls ≡ r.rolls)
    × (r'.pending ≡ r.pending)
    × (r'.consumptions ≡ r.consumptions)
    × (r'.draws ≡ r.draws)
    × (r'.history ≡ r.history)
    × (r'.team ≡ r.team)
    × (r'.requests ≡ r.requests)

module _ {B : Type 0} {P : Rows → Type 0} {Q : B → Rows → Type 0} where
  test_then :
      {A : Type 0} (b : Bool) (x : Error) (a : A) (f : A → M B)
      → (b ≡ true → Triple P Q (f a))
      → Triple P Q ((raise_if (not b) x >> pure a) >>= f)
  unfolding ◌>>=◌
  test_then true x a f k = record { at = (k refl).at }
  test_then false x a f k = record { at = λ r h. tt }

  -- A request with a roll key goes on only where its row is there and has the key.
  receipt_then :
      (o : Option DiceRollRequest) (suffix : Suffix) (f : Option RollResult → M B)
      → ((q : DiceRollRequest)
          → o ≡ some q
          → is_roll_key q.id (some (dice_roll_request suffix)) ≡ true
          → Triple P Q (f q.response_data))
      → Triple P Q (check_receipt o (some (dice_roll_request suffix)) >>= f)
  unfolding check_receipt ◌>>=◌
  receipt_then none suffix f k = record { at = λ r h. tt }
  receipt_then (some q) suffix f k =
      test_then (is_roll_key q.id (some (dice_roll_request suffix))) _ _ f (k q refl)

-- A roll leaves the requests alone.
requests-IsGameClosed :
    (sh : Shared) (P : List DiceRollRequest → Type 0)
    → IsGameClosed sh (λ r. P r.requests) (λ i. Unit)
requests-IsGameClosed sh P = record {
  lock = record {
    clock = λ r h. h;
    counters = λ r s s' e same bounded h. h;
    create = λ r cell fresh e h. h;
  };
  stands = λ r s e h. tt;
  ids = λ r h. h;
  place = λ r s i cell passed e found h. h;
  consume = λ r i cell found new h. h;
  mileage = λ r amount type new h. h;
  log = λ r roll h. h;
  wait = λ r p cell from to h. h;
}

module _ (sh : Shared) (user : ℕ) (suffix : Suffix) (a b : ℕ) where
  store :
      (q : DiceRollRequest) (o : Option RollResult)
      → q.response_data ≡ o
      → is_roll_key q.id (some (dice_roll_request suffix)) ≡ true
      → Triple
          (λ r. find_request (some user) r.requests ≡ some q)
          (λ x r. HasReceipt user suffix x r.requests)
          (roll_or_replay sh (some q) o a b)
  unfolding roll_or_replay save_dice_receipt
  store q (some receipt) e named =
      Triple-pure _ λ r h. record { request = q; found = h; named = named; stored = e }
  store q none e named =
      Triple-then _ _
        (perform_roll-Keeps sh
          (requests-IsGameClosed sh λ rows. find_request (some user) rows ≡ some q) a b)
        λ x.
          Triple-modify {P' = λ r. HasReceipt user suffix x r.requests} _ _
            (λ r h. record {
              request = record q { response_data = some x };
              found =
                  first-update _ (λ p. p.id == q.id) (λ p. record p { response_data = some x }) q
                    r.requests (λ p. refl) (ground arith) h;
              named = named;
              stored = refl;
            })
            (Triple-pure x λ r h. h)

  -- A roll that was answered has left its answer in the request.
  roll_stores :
      Triple
        (λ r. Unit)
        (λ x r. HasReceipt user suffix x r.requests)
        (roll_dice sh (some user) (some (dice_roll_request suffix)) a b)
  unfolding roll_dice
  roll_stores = Triple-then _ _ (Keeps-any _) λ _. Triple-gets _ _ λ o.
      receipt_then o suffix _
        λ q e named. rw e (Triple-pre (λ r h. h.1) (store q q.response_data refl named))

  kept :
      (x : RollResult) (q : DiceRollRequest) (rows : List DiceRollRequest)
      → HasReceipt user suffix x rows
      → find_request (some user) rows ≡ some q
      → q.response_data ≡ some x
  kept x q rows h found =
      subst (λ p. p.response_data ≡ some x) (some-injective h.request q (sym h.found ∙ found))
        h.stored

  answered :
      (r₀ : Rows) (x : RollResult) (q : DiceRollRequest) (o : Option RollResult)
      → q.response_data ≡ o
      → Triple
          (λ r.
            (HasReceipt user suffix x r.requests × SameGame r₀ r)
            × (find_request (some user) r.requests ≡ some q))
          (λ y r. (y ≡ x) × SameGame r₀ r)
          (roll_or_replay sh (some q) o a b)
  unfolding roll_or_replay
  answered r₀ x q (some receipt) e =
      Triple-pure _ λ r h. (some-injective receipt x (sym e ∙ kept x q r.requests h.0.0 h.1), h.0.1)
  answered r₀ x q none e =
      Triple-absurd _ λ r h. let stored = kept x q r.requests h.0.0 h.1 in ground (arith, e, stored)

  -- With an answer in the request, the roll returns it.
  roll_replays :
      (r₀ : Rows) (x : RollResult)
      → Triple
          (λ r. HasReceipt user suffix x r.requests × SameGame r₀ r)
          (λ y r. (y ≡ x) × SameGame r₀ r)
          (roll_dice sh (some user) (some (dice_roll_request suffix)) a b)
  unfolding roll_dice
  roll_replays r₀ x =
      Triple-then _ _
        (board_state_for_update-Keeps sh
          (record {
            clock = λ r h. h;
            counters = λ r s s' e same bounded h. h;
            create = λ r cell fresh e h. h;
          })
          true)
        λ _.
          Triple-gets _ _
            λ o. receipt_then o suffix _ λ q e named. rw e (answered r₀ x q q.response_data refl)

-- Where a roll of a signed-in user with a roll key was answered, the same request with other dice
-- and settings, if it is answered, gives the first answer again, and changes no roll, waiting roll,
-- consumed cell, card draw, mileage, history or request of the team.
pub roll_replayed :
    (sh sh' : Shared) (user : ℕ) (suffix : Suffix) (a b a' b' : ℕ) (r : Rows)
    (x y : RollResult × Rows)
    → roll_dice sh (some user) (some (dice_roll_request suffix)) a b r ≡ ok x
    → roll_dice sh' (some user) (some (dice_roll_request suffix)) a' b' x.1 ≡ ok y
    → (y.0 ≡ x.0) × SameGame x.1 y.1
roll_replayed sh sh' user suffix a b a' b' r x y rolled again =
    Triple-ok (roll_replays sh' user suffix a' b' x.1 x.0) x.1 y again (
      Triple-ok (roll_stores sh user suffix a b) r x rolled tt,
      (refl, refl, refl, refl, refl, refl, refl),
    )
