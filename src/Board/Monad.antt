-- ===== src/Board/Monad.antt =====
-- A board transaction: it reads and writes the team's rows, or raises. `transaction.atomic` undoes
-- the writes of a call that raises, so an error carries no rows.
use msg_backend.Prelude.{ℕ, suc, ◌≡◌, refl, ◌⊎◌, inl, inr, Bool, true, false, Option, none, some}
use msg_backend.Board.Model.{Rows, TeamBoardState}

-- The exceptions of apps/board/exceptions.py and apps/common/exceptions.py that the board raises,
-- and Django's `DoesNotExist` and Python's `IndexError` `StopIteration` and `TypeError`.
pub data Error : Type 0 where
  airport_move_already_used board_completed board_not_ready card_id_required : Error
  cell_already_opened challenge_id_required challenge_not_candidate challenge_not_selected : Error
  chance_card_already_used chance_card_awaiting_discard chance_card_not_found : Error
  chance_card_wrong_timing chance_confirm_not_found dice_confirm_request_expired : Error
  dice_request_expired dice_request_unconfirmed invalid_destination_index : Error
  no_card_to_discard no_pending_roll no_roll_left not_airport_cell not_challenge_cell : Error
  not_chance_cell not_roulette_cell not_team_leader pending_roll_unresolved : Error
  roulette_already_spun user_has_no_team team_banned does_not_exist index_error : Error
  stop_iteration type_error : Error

pub data Result {ℓ} (A : Type ℓ) : Type ℓ where
  ok : A → Result A
  err : Error → Result A

pub Result-cases :
    {A : Type 0} (r : Result A) → ((a : A) × (r ≡ ok a)) ⊎ ((e : Error) × (r ≡ err e))
Result-cases (ok a) = inl (a, refl)
Result-cases (err e) = inr (e, refl)

pub ok-injective : {A : Type 0} {a b : A} → ok a ≡ ok b → a ≡ b
ok-injective h = cc

abbrev pub M : Type 0 → Type 0
M A = Rows → Result (A × Rows)

module _ {A : Type 0} where
  unfoldable pub pure : A → M A
  pure a r = ok (a, r)

  unfoldable pub raise : Error → M A
  raise e r = err e

  -- What a query finds, or the exception.
  unfoldable pub or_raise : Option A → Error → M A
  or_raise none e r = err e
  or_raise (some a) e r = ok (a, r)

  -- What a pure function returns or raises.
  unfoldable pub lift : Result A → M A
  lift (ok a) r = ok (a, r)
  lift (err e) r = err e

  unfoldable pub gets : (Rows → A) → M A
  gets f r = ok (f r, r)

unfoldable pub modify : (Rows → Rows) → M (Unit {0})
modify f r = ok (tt, f r)

unfoldable pub raise_if : Bool → Error → M (Unit {0})
raise_if true e r = err e
raise_if false e r = ok (tt, r)

unfoldable pub when : Bool → M (Unit {0}) → M (Unit {0})
when true m r = m r
when false m r = ok (tt, r)

-- The team's state row, which every operation reads under its lock.
unfoldable pub get_state : M TeamBoardState
unfolding or_raise
get_state r = or_raise r.state does_not_exist r

abbrev pub with_state : (TeamBoardState → TeamBoardState) → Rows → Option TeamBoardState → Rows
with_state f r none = r
with_state f r (some s) = record r { state = some (f s) }

-- A write to the state row.
unfoldable pub modify_state : (TeamBoardState → TeamBoardState) → M (Unit {0})
modify_state f r = ok (tt, with_state f r r.state)

-- A fresh primary key.
unfoldable pub fresh_id : M ℕ
fresh_id r = ok (r.next_id, record r { next_id = suc r.next_id })

infixl 5 ◌>>=◌ ◌>>◌
-- Opening this opens the actions above too.
unfoldable pub ◌>>=◌ : {A B : Type 0} → M A → (A → M B) → M B
unfolding pure raise or_raise lift gets modify raise_if when get_state modify_state fresh_id
◌>>=◌ m f r = elim (m r) [ ok p ↦ f p.0 p.1 | err e ↦ err e ]

abbrev pub ◌>>◌ : {B : Type 0} → M (Unit {0}) → M B → M B
m >> k = m >>= λ _. k
