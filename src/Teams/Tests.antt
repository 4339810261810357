-- ===== src/Teams/Tests.antt =====
-- A team of one user buys, is refunded and gets a new token, and the theorems at these operations.
use msg_backend.Prelude.{ℕ, ◌≡◌, refl, true, false, some, List, [], ◌∷◌}
use msg_backend.Prelude.Int.{ℤ, pos, negsuc, ◌+ℤ◌, neg}
use msg_backend.Prelude.Result.{failed, ok, fail_if, or_fail, result_or}
use msg_backend.Teams.{
  Rows, PaymentToken, payment_token_expired, insufficient_mileage, qr_token, mileage_history,
  lock_active_team, token_of, remove_members, save_mileage,
}
use msg_backend.Teams.Payments.{
  Checkout, payment_checkout, payment_refund, charge, team_mileage, reward_solve, deduct_revoked,
}
use msg_backend.Teams.Steps.{Operation, qr, checkout, undo, change, solve, revoke, remove, run}
use msg_backend.Teams.Once.{pay_once, refund_once}
use msg_backend.Teams.Replaced.{replaced_refused}
use msg_backend.Teams.Ledger.{IsLedger, AreBalances, total, rows_of, run-AreBalances}

abbrev rows : Rows
rows = record {
  teams = record { team_id = 1; mileage = pos 100; is_banned = false } ∷ [];
  users = record { user_id = 8; team_id = some 1 } ∷ [];
  tokens = [];
  history = [];
  next_id = 20;
  events = 0;
}

abbrev first_token : PaymentToken
first_token = token_of 20 500 1 309000000

abbrev issued : PaymentToken × Rows
issued = result_or (first_token, rows) (qr_token 8 (some 1) 500 9000000 rows)

abbrev order : Checkout
order = record { token_hash = some 500; amount = some (pos 30); has_item_name = true }

abbrev paid : ℕ × Rows
paid = result_or (0, rows) (payment_checkout order issued.1 10000000 issued.1)

spent_balance : paid.1.teams ≡ record { team_id = 1; mileage = pos 70; is_banned = false } ∷ []
unfolding qr_token lock_active_team or_fail fail_if payment_checkout charge save_mileage
    payment_refund team_mileage reward_solve deduct_revoked remove_members ◌+ℤ◌ neg
spent_balance = refl

-- The token is valid for five minutes.
late : payment_checkout order issued.1 309000000 issued.1 ≡ failed payment_token_expired
unfolding qr_token lock_active_team or_fail fail_if payment_checkout charge save_mileage
    payment_refund team_mileage reward_solve deduct_revoked remove_members ◌+ℤ◌ neg
late = refl

poor :
    payment_checkout (record order { amount = some (pos 101) }) issued.1 10000000 issued.1
    ≡ failed insufficient_mileage
unfolding qr_token lock_active_team or_fail fail_if payment_checkout charge save_mileage
    payment_refund team_mileage reward_solve deduct_revoked remove_members ◌+ℤ◌ neg
poor = refl

abbrev later_on : List Operation
later_on = qr 8 (some 1) 501 20000000 ∷ undo 21 ∷ change (some (negsuc 4)) true 1 ∷ []

pay_once_example : ¬ (payment_checkout order rows 20000000 (run later_on paid.1) ≡ ok paid)
unfolding qr_token lock_active_team or_fail fail_if payment_checkout charge save_mileage
    payment_refund team_mileage reward_solve deduct_revoked remove_members ◌+ℤ◌ neg
pay_once_example =
    pay_once order order issued.1 rows 10000000 20000000 issued.1 paid paid later_on refl refl

abbrev refunded : ℕ × Rows
refunded = result_or (0, rows) (payment_refund 21 paid.1)

refunded_balance : refunded.1.teams ≡ rows.teams
unfolding qr_token lock_active_team or_fail fail_if payment_checkout charge save_mileage
    payment_refund team_mileage reward_solve deduct_revoked remove_members ◌+ℤ◌ neg
refunded_balance = refl

refund_once_example : ¬ (payment_refund 21 (run later_on refunded.1) ≡ ok refunded)
unfolding qr_token lock_active_team or_fail fail_if payment_checkout charge save_mileage
    payment_refund team_mileage reward_solve deduct_revoked remove_members ◌+ℤ◌ neg
refund_once_example = refund_once 21 paid.1 refunded refunded later_on refl

replaced_refused_example : ¬ (
    payment_checkout order issued.1 20000000 (
      run
        (solve 30 1 ∷ remove 1 (8 ∷ []) 30000000 ∷ [])
        (result_or (first_token, rows) (qr_token 8 (some 1) 501 15000000 issued.1)).1)
    ≡ ok paid)
unfolding qr_token lock_active_team or_fail fail_if payment_checkout charge save_mileage
    payment_refund team_mileage reward_solve deduct_revoked remove_members ◌+ℤ◌ neg
replaced_refused_example =
    replaced_refused 8 501 500 15000000 issued.1 first_token
      (result_or (first_token, rows) (qr_token 8 (some 1) 501 15000000 issued.1))
      (solve 30 1 ∷ remove 1 (8 ∷ []) 30000000 ∷ []) order issued.1 20000000 paid refl refl refl

abbrev base : ℕ → ℤ
base team = pos 100

abbrev a_day : List Operation
a_day =
    solve 30 1
    ∷ qr 8 (some 1) 500 9000000
    ∷ checkout order rows 10000000
    ∷ revoke 30 1
    ∷ undo 22
    ∷ []

-- The token was not there when the checkout began, so nothing is paid; the deduction is later.
shown : mileage_history 1 (run a_day rows) ≡ ok (pos 100, pos 100 ∷ pos 130 ∷ [])
unfolding qr_token lock_active_team or_fail fail_if payment_checkout charge save_mileage
    payment_refund team_mileage reward_solve deduct_revoked remove_members ◌+ℤ◌ neg mileage_history
shown = refl

run-AreBalances_example :
    IsLedger base (run a_day rows)
    × (pos 100 ≡ pos 100 +ℤ total (rows_of 1 (run a_day rows).history))
    × AreBalances (pos 100) (rows_of 1 (run a_day rows).history) (pos 100 ∷ pos 130 ∷ [])
unfolding qr_token lock_active_team or_fail fail_if payment_checkout charge save_mileage
    payment_refund team_mileage reward_solve deduct_revoked remove_members ◌+ℤ◌ neg mileage_history
run-AreBalances_example =
    run-AreBalances base a_day rows 1 (pos 100, pos 100 ∷ pos 130 ∷ []) (refl, tt) refl
