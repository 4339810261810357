-- ===== src/Teams.antt =====
-- The mileage of teams: the rows of apps/teams/models.py, the payment tokens and the pages of
-- apps/teams/views.py, and what the administration writes (apps/adminpanel/views.py). The rows are
-- those of all teams. The latest history row and the latest token come first.
pub mod Payments
pub mod Steps
pub mod Once
pub mod Replaced
mod Tests
pub mod Ledger
use msg_backend.Prelude.{
  ℕ, zero, suc, ◌+◌, ◌*◌, ◌/◌, Bool, true, false, not, ◌&&◌, ◌||◌, Option, none, some, List, [],
  ◌∷◌, if◌then◌else◌, leb, ◌==◌, first, select, exists, update, is_some, contains,
}
use msg_backend.Prelude.Int.{ℤ, pos, negsuc, ◌+ℤ◌, neg}
use msg_backend.Prelude.Result.{Result, failed, ok, ◌>>=◌, ◌>>◌, fail_if, or_fail}

pub data Error : Type 0 where
  user_has_no_team team_banned invalid_request invalid_amount team_not_found : Error
  payment_token_invalid payment_token_expired insufficient_mileage : Error
  payment_not_found not_refundable already_refunded : Error
  -- PostgreSQL's DataError and IntegrityError, and Django's DoesNotExist.
  data_error integrity_error does_not_exist : Error

pub data MileageType : Type 0 where
  challenge_solve start_bonus roulette koth_reward admin_grant refund purchase admin_deduct :
      MileageType

pub record MileageHistory : Type 0 where
  pub history_id : ℕ
  pub team_id : ℕ
  pub type : MileageType
  pub amount : ℤ
  pub is_refunded : Bool
  pub ref_history : Option ℕ

pub data PaymentTokenStatus : Type 0 where
  active used invalidated : PaymentTokenStatus

pub record PaymentToken : Type 0 where
  pub token_id : ℕ
  pub token_hash : ℕ
  pub team_id : ℕ
  pub status : PaymentTokenStatus
  pub expires_at : ℕ
  pub used_at : Option ℕ
  pub invalidated_at : Option ℕ
  pub invalidated_by_token : Option ℕ
  pub history : Option ℕ

pub record Team : Type 0 where
  pub team_id : ℕ
  pub mileage : ℤ
  pub is_banned : Bool

pub record User : Type 0 where
  pub user_id : ℕ
  pub team_id : Option ℕ

-- `next_id` is the next fresh primary key, `events` the number of the administration's events.
pub record Rows : Type 0 where
  pub teams : List Team
  pub users : List User
  pub tokens : List PaymentToken
  pub history : List MileageHistory
  pub next_id : ℕ
  pub events : ℕ

abbrev pub second : ℕ
second = 1000000

-- `replace(microsecond=0)`
abbrev pub whole_seconds : ℕ → ℕ
whole_seconds t = t / second * second

abbrev pub find_team : ℕ → Rows → Option Team
find_team id r = first (λ t. t.team_id == id) r.teams

abbrev pub team_of : ℕ → List User → Option ℕ
team_of user [] = none
team_of user (u ∷ users) = if u.user_id == user then u.team_id else team_of user users

abbrev pub is_active : PaymentTokenStatus → Bool
is_active active = true
is_active used = false
is_active invalidated = false

-- `PaymentToken.objects.filter(team=team, status=ACTIVE)`
abbrev pub is_active_of : ℕ → PaymentToken → Bool
is_active_of team t = t.team_id == team && is_active t.status

abbrev pub invalidate : ℕ → PaymentToken → PaymentToken
invalidate now t = record t { status = invalidated; invalidated_at = some now }

-- A column of the type `integer`: the numbers from -2147483648 to 2147483647.
abbrev pub fits : ℤ → Bool
fits (pos n) = leb n 2147483647
fits (negsuc n) = leb n 2147483647

-- A row of the history, and the mileage of the team with it.
abbrev pub book : ℕ → MileageType → ℤ → Option ℕ → Rows → Rows
book team type amount ref r = record r {
  history =
      record {
        history_id = r.next_id;
        team_id = team;
        type = type;
        amount = amount;
        is_refunded = false;
        ref_history = ref;
      }
      ∷ r.history;
  next_id = suc r.next_id;
}

-- `team.mileage = mileage; team.save(...)`
abbrev pub set_mileage : ℕ → ℤ → Rows → Rows
set_mileage team mileage r = record r {
  teams = update (λ t. t.team_id == team) (λ t. record t { mileage = mileage }) r.teams;
}

unfoldable pub save_mileage : ℕ → ℤ → Rows → Result Error Rows
save_mileage team mileage r =
    if fits mileage then ok (set_mileage team mileage r) else failed data_error

-- `lock_active_team` of apps/common/bans.py
unfoldable pub lock_active_team : ℕ → Rows → Result Error Team
lock_active_team id r = do
  team ← or_fail (find_team id r) user_has_no_team
  fail_if team.is_banned team_banned
  ok team

abbrev pub token_of : ℕ → ℕ → ℕ → ℕ → PaymentToken
token_of id hash team expires_at = record {
  token_id = id;
  token_hash = hash;
  team_id = team;
  status = active;
  expires_at = expires_at;
  used_at = none;
  invalidated_at = none;
  invalidated_by_token = none;
  history = none;
}

abbrev pub ids_of : List PaymentToken → List ℕ
ids_of [] = []
ids_of (t ∷ tokens) = t.token_id ∷ ids_of tokens

abbrev pub replaced : ℕ → PaymentToken → PaymentToken → PaymentToken
replaced now new t = record (invalidate now t) { invalidated_by_token = some new.token_id }

abbrev pub is_among : List ℕ → PaymentToken → Bool
is_among ids t = contains t.token_id ids

-- The tokens with these keys become invalid, the new one is made, and they point to it.
abbrev pub replace_tokens : List ℕ → PaymentToken → ℕ → Rows → Rows
replace_tokens old_ids new now r = record r {
  tokens = new ∷ update (is_among old_ids) (replaced now new) r.tokens;
  next_id = suc r.next_id;
}

-- A token for the team that the authentication has read. The hash of the raw token is an argument.
unfoldable pub qr_token :
    (user : ℕ) (authenticated : Option ℕ) (hash clock : ℕ)
    → Rows
    → Result Error (PaymentToken × Rows)
qr_token user authenticated hash clock r = do
  team_id ← or_fail authenticated user_has_no_team
  team ← lock_active_team team_id r
  current_team_id ← or_fail (team_of user r.users) user_has_no_team
  fail_if (not (current_team_id == team.team_id)) invalid_request
  let now = whole_seconds clock
  let old_ids = ids_of (select (is_active_of team.team_id) r.tokens)
  fail_if (exists (λ t. t.token_hash == hash) r.tokens) integrity_error
  let new = token_of r.next_id hash team.team_id (now + 5 * 60 * second)
  ok (new, replace_tokens old_ids new now r)

-- The part of a change of members that ends their claim to the mileage: they leave the team, and its
-- active tokens become invalid, if anyone was removed.
unfoldable pub remove_members : ℕ → List ℕ → ℕ → Rows → Rows
remove_members team [] clock r = r
remove_members team (user ∷ removed) clock r = record r {
  users =
      update (λ u. contains u.user_id (user ∷ removed)) (λ u. record u { team_id = none }) r.users;
  tokens = update (is_active_of team) (invalidate (whole_seconds clock)) r.tokens;
}

-- The balance after each history row, from the latest back.
abbrev pub balances : ℤ → List MileageHistory → List ℤ
balances balance [] = []
balances balance (row ∷ rows) = balance ∷ balances (balance +ℤ neg row.amount) rows

unfoldable pub mileage_history : ℕ → Rows → Result Error (ℤ × List ℤ)
mileage_history team r = do
  t ← or_fail (find_team team r) does_not_exist
  ok (t.mileage, balances t.mileage (select (λ h. h.team_id == team) r.history))
