-- ===== src/Teams/Payments.antt =====
-- Payments, refunds and adjustments of mileage: payment_checkout, payment_refund, team_mileage and
-- the deduction of _revoke_solve of apps/adminpanel/views.py, and the reward of a solved challenge
-- (apps/challenge/views.py).
use msg_backend.Prelude.{
  ℕ, zero, suc, Bool, true, false, not, ◌&&◌, Option, none, some, if◌then◌else◌, leb, ltb, ◌==◌,
  first, exists, update,
}
use msg_backend.Prelude.Int.{ℤ, pos, negsuc, ◌+ℤ◌, neg}
use msg_backend.Prelude.Result.{Result, ok, ◌>>=◌, ◌>>◌, fail_if, or_fail}
use msg_backend.Teams.{
  Error, team_banned, invalid_request, invalid_amount, team_not_found, payment_token_invalid,
  payment_token_expired, insufficient_mileage, payment_not_found, not_refundable, already_refunded,
  does_not_exist, MileageType, challenge_solve, admin_grant, refund, purchase, admin_deduct,
  MileageHistory, used, PaymentToken, Rows, find_team, is_active, book, save_mileage, whole_seconds,
}

abbrev pub max_mileage : ℕ
max_mileage = 2147483647

-- A body of a checkout, where it is well-formed: the hash of the token, the amount and whether the
-- name of the item is there and short enough.
pub record Checkout : Type 0 where
  pub token_hash : Option ℕ
  pub amount : Option ℤ
  pub has_item_name : Bool

-- An amount of at least 1.
abbrev pub positive : ℤ → Option ℕ
positive (pos zero) = none
positive (pos (suc n)) = some (suc n)
positive (negsuc n) = none

-- `mileage < amount`
abbrev pub is_short : ℤ → ℕ → Bool
is_short (pos m) amount = ltb m amount
is_short (negsuc m) amount = true

abbrev pub add_event : Rows → Rows
add_event r = record r { events = suc r.events }

abbrev pub with_hash : ℕ → Rows → Option PaymentToken
with_hash hash r = first (λ t. t.token_hash == hash) r.tokens

abbrev pub spend : ℕ → ℕ → PaymentToken → PaymentToken
spend now history t = record t { status = used; used_at = some now; history = some history }

abbrev pub use_token : PaymentToken → ℕ → ℕ → Rows → Rows
use_token token now history r = record r {
  tokens = update (λ t. t.token_id == token.token_id) (spend now history) r.tokens;
}

-- The transaction of a checkout, for the team that owned the token before.
unfoldable pub charge : ℕ → ℕ → ℕ → ℕ → Rows → Result Error (ℕ × Rows)
charge hash amount owner_team_id clock r = do
  team ← or_fail (find_team owner_team_id r) does_not_exist
  token ← or_fail (with_hash hash r) payment_token_invalid
  fail_if (not (is_active token.status)) payment_token_invalid
  fail_if (leb token.expires_at clock) payment_token_expired
  fail_if team.is_banned team_banned
  fail_if (is_short team.mileage amount) insufficient_mileage
  charged ←
      save_mileage team.team_id (team.mileage +ℤ neg (pos amount))
        (book team.team_id purchase (neg (pos amount)) none r)
  ok (r.next_id, add_event (use_token token (whole_seconds clock) r.next_id charged))

-- `before` are the rows when the token's team is read, `r` those when the team is locked.
unfoldable pub payment_checkout : Checkout → Rows → ℕ → Rows → Result Error (ℕ × Rows)
payment_checkout q before clock r = do
  hash ← or_fail q.token_hash invalid_request
  given ← or_fail q.amount invalid_request
  amount ← or_fail (positive given) invalid_amount
  fail_if (not q.has_item_name) invalid_request
  owner ← or_fail (with_hash hash before) payment_token_invalid
  charge hash amount owner.team_id clock r

abbrev pub is_purchase : MileageType → Bool
is_purchase purchase = true
is_purchase _ = false

abbrev pub is_refund : MileageType → Bool
is_refund refund = true
is_refund _ = false

abbrev pub refers : ℕ → Option ℕ → Bool
refers id none = false
refers id (some other) = other == id

abbrev pub is_refund_of : ℕ → MileageHistory → Bool
is_refund_of id h = is_refund h.type && refers id h.ref_history

abbrev pub as_refunded : MileageHistory → MileageHistory
as_refunded h = record h { is_refunded = true }

abbrev pub mark_refunded : ℕ → Rows → Rows
mark_refunded id r = record r { history = update (λ h. h.history_id == id) as_refunded r.history }

-- An identifier that is no identifier finds no row.
unfoldable pub payment_refund : ℕ → Rows → Result Error (ℕ × Rows)
payment_refund id r = do
  paid ← or_fail (first (λ h. h.history_id == id) r.history) payment_not_found
  fail_if (not (is_purchase paid.type)) not_refundable
  fail_if (exists (is_refund_of paid.history_id) r.history) already_refunded
  team ← or_fail (find_team paid.team_id r) does_not_exist
  refunded ←
      save_mileage team.team_id (team.mileage +ℤ neg paid.amount)
        (book team.team_id refund (neg paid.amount) (some paid.history_id) r)
  ok (r.next_id, add_event (mark_refunded paid.history_id refunded))

abbrev pub is_zero : ℤ → Bool
is_zero (pos zero) = true
is_zero (pos (suc n)) = false
is_zero (negsuc n) = false

abbrev pub is_negative : ℤ → Bool
is_negative (pos n) = false
is_negative (negsuc n) = true

-- `abs(amount) > MAX_MILEAGE`
abbrev pub is_large : ℤ → Bool
is_large (pos n) = ltb max_mileage n
is_large (negsuc n) = ltb max_mileage (suc n)

-- `mileage > MAX_MILEAGE`
abbrev pub is_over : ℤ → Bool
is_over (pos n) = ltb max_mileage n
is_over (negsuc n) = false

-- An adjustment by the administration: the amount, if it is an integer, and whether the reason is
-- there and short enough.
unfoldable pub team_mileage : Option ℤ → Bool → ℕ → Rows → Result Error (ℤ × Rows)
team_mileage given has_reason team_id r = do
  amount ← or_fail given invalid_request
  fail_if (is_zero amount) invalid_amount
  fail_if (is_large amount) invalid_amount
  fail_if (not has_reason) invalid_request
  team ← or_fail (find_team team_id r) team_not_found
  let current = team.mileage +ℤ amount
  fail_if (is_over current) invalid_amount
  fail_if (is_negative amount && is_negative current) insufficient_mileage
  adjusted ←
      save_mileage team.team_id current
        (book team.team_id (if is_negative amount then admin_deduct else admin_grant) amount none r)
  ok (current, add_event adjusted)

-- `Team.objects.filter(pk=team.pk).update(mileage=F("mileage") + amount)` and its history row.
abbrev pub transfer : MileageType → ℤ → ℕ → Rows → Result Error (ℤ × Rows)
transfer type amount team_id r = do
  team ← or_fail (find_team team_id r) does_not_exist
  let current = team.mileage +ℤ amount
  moved ← save_mileage team.team_id current (book team.team_id type amount none r)
  ok (current, moved)

-- The reward of a solved challenge.
unfoldable pub reward_solve : ℕ → ℕ → Rows → Result Error (ℤ × Rows)
reward_solve earned_mileage team_id r = transfer challenge_solve (pos earned_mileage) team_id r

-- The deduction of a revoked solve: none where it earned nothing.
unfoldable pub deduct_revoked : ℕ → ℕ → Rows → Result Error (ℤ × Rows)
deduct_revoked zero team_id r = ok (pos 0, r)
deduct_revoked (suc n) team_id r = transfer admin_deduct (negsuc n) team_id r
