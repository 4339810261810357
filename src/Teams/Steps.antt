-- ===== src/Teams/Steps.antt =====
-- What an operation that succeeds has written, with the conditions under which it wrote it.
use msg_backend.Prelude.{
  ℕ, zero, suc, ◌+◌, ◌*◌, ◌≡◌, refl, inl, inr, Bool, true, false, not, Option, none, some, List, [],
  ◌∷◌, ◌==◌, first, select, exists, if◌then◌else◌, Bool-cases, arith,
}
use msg_backend.Prelude.Int.{ℤ, pos, ◌+ℤ◌, neg}
use msg_backend.Prelude.Result.{
  Result, failed, ok, committed, ◌>>=◌, Ensures, Ensures-bind, Ensures-found, Ensures-pass,
  Ensures-ok,
}
use msg_backend.Teams.{
  Error, MileageType, purchase, refund, admin_deduct, admin_grant, MileageHistory, PaymentToken,
  Team, Rows, find_team, is_active, is_active_of, book, set_mileage, save_mileage, whole_seconds,
  token_of, ids_of, replace_tokens, qr_token, remove_members, second, fits, lock_active_team,
}
use msg_backend.Teams.Payments.{
  Checkout, with_hash, use_token, add_event, charge, payment_checkout, is_purchase, is_refund,
  is_refund_of, mark_refunded, payment_refund, team_mileage, is_negative, transfer, reward_solve,
  deduct_revoked,
}

-- The mileage of a team moves by an amount, with a history row of it.
abbrev pub moved : Team → MileageType → ℤ → Option ℕ → Rows → Rows
moved t type amount ref r =
    set_mileage t.team_id (t.mileage +ℤ amount) (book t.team_id type amount ref r)

pub data Step (r : Rows) : Rows → Type 0 where
  issue :
      (team hash now : ℕ)
      → exists (λ t. t.token_hash == hash) r.tokens ≡ false
      → Step r (
          replace_tokens
            (ids_of (select (is_active_of team) r.tokens))
            (token_of r.next_id hash team (now + 5 * 60 * second))
            now
            r)
  leave : (team : ℕ) (removed : List ℕ) (clock : ℕ) → Step r (remove_members team removed clock r)
  pay :
      (hash amount now owner : ℕ) (team : Team) (token : PaymentToken)
      → find_team owner r ≡ some team
      → with_hash hash r ≡ some token
      → is_active token.status ≡ true
      → Step r (
          add_event (use_token token now r.next_id (moved team purchase (neg (pos amount)) none r)))
  give_back :
      (id : ℕ) (team : Team) (paid : MileageHistory)
      → first (λ h. h.history_id == id) r.history ≡ some paid
      → is_purchase paid.type ≡ true
      → exists (is_refund_of paid.history_id) r.history ≡ false
      → find_team paid.team_id r ≡ some team
      → Step r (
          add_event (
            mark_refunded paid.history_id
              (moved team refund (neg paid.amount) (some paid.history_id) r)))
  move :
      (id : ℕ) (team : Team) (type : MileageType) (amount : ℤ)
      → find_team id r ≡ some team
      → is_refund type ≡ false
      → Step r (moved team type amount none r)
  adjust :
      (id : ℕ) (team : Team) (type : MileageType) (amount : ℤ)
      → find_team id r ≡ some team
      → is_refund type ≡ false
      → Step r (add_event (moved team type amount none r))
  stay : Step r r

abbrev pub Steps : {A : Type 0} → Rows → Result Error (A × Rows) → Type 0
Steps r m = Ensures (λ x. Step r x.1) m

pub saved :
    {A : Type 0} (P : A × Rows → Type 0) (team : ℕ) (mileage : ℤ) (r : Rows)
    (f : Rows → Result Error (A × Rows))
    → Ensures P (f (set_mileage team mileage r))
    → Ensures P (save_mileage team mileage r >>= f)
unfolding save_mileage
saved P team mileage r f h = elim (Bool-cases (fits mileage)) [
  | inl y ↦ rw y h
  | inr n ↦ rw n (record { at = λ b e. cc })
]

pub passed : (b : Bool) → not b ≡ false → b ≡ true
passed b e = ground arith

charge-Steps : (hash amount owner clock : ℕ) (r : Rows) → Steps r (charge hash amount owner clock r)
unfolding charge
charge-Steps hash amount owner clock r = Ensures-found _ _ _ λ team e1.
    Ensures-found _ _ _ λ token e2. Ensures-pass _ _ _ λ e3. Ensures-pass _ _ _ λ e4.
      Ensures-pass _ _ _ λ e5. Ensures-pass _ _ _ λ e6.
        saved _ _ _ _ _ (
          Ensures-ok _ (pay hash amount (whole_seconds clock) owner team token e1 e2 (passed _ e3)))

payment_checkout-Steps :
    (q : Checkout) (before : Rows) (clock : ℕ) (r : Rows)
    → Steps r (payment_checkout q before clock r)
unfolding payment_checkout
payment_checkout-Steps q before clock r = Ensures-found _ _ _ λ hash _.
    Ensures-found _ _ _ λ given _. Ensures-found _ _ _ λ amount _.
      Ensures-pass _ _ _
        λ _. Ensures-found _ _ _ λ owner _. charge-Steps hash amount owner.team_id clock r

payment_refund-Steps : (id : ℕ) (r : Rows) → Steps r (payment_refund id r)
unfolding payment_refund
payment_refund-Steps id r = Ensures-found _ _ _ λ paid e1. Ensures-pass _ _ _ λ e2.
    Ensures-pass _ _ _ λ e3.
      Ensures-found _ _ _
        λ team e4. saved _ _ _ _ _ (Ensures-ok _ (give_back id team paid e1 (passed _ e2) e3 e4))

qr_token-Steps :
    (user : ℕ) (authenticated : Option ℕ) (hash clock : ℕ) (r : Rows)
    → Steps r (qr_token user authenticated hash clock r)
unfolding qr_token
qr_token-Steps user authenticated hash clock r = Ensures-found _ _ _ λ id _.
    Ensures-bind {A = Team} (lock_active_team id r) _ λ team _. Ensures-found _ _ _ λ current _.
      Ensures-pass _ _ _ λ _. Ensures-pass _ _ _ λ e. Ensures-ok _ (issue team.team_id hash _ e)

adjusting : (b : Bool) → is_refund (if b then admin_deduct else admin_grant) ≡ false
adjusting true = refl
adjusting false = refl

team_mileage-Steps :
    (given : Option ℤ) (has_reason : Bool) (id : ℕ) (r : Rows)
    → Steps r (team_mileage given has_reason id r)
unfolding team_mileage
team_mileage-Steps given has_reason id r = Ensures-found _ _ _ λ amount _. Ensures-pass _ _ _ λ _.
    Ensures-pass _ _ _ λ _. Ensures-pass _ _ _ λ _. Ensures-found _ _ _ λ team e.
      Ensures-pass _ _ _ λ _. Ensures-pass _ _ _ λ _.
        saved _ _ _ _ _ (Ensures-ok _ (adjust id team _ amount e (adjusting (is_negative amount))))

transfer-Steps :
    (type : MileageType) (amount : ℤ) (id : ℕ) (r : Rows)
    → is_refund type ≡ false
    → Steps r (transfer type amount id r)
transfer-Steps type amount id r e =
    Ensures-found _ _ _ λ team e1. saved _ _ _ _ _ (Ensures-ok _ (move id team type amount e1 e))

reward_solve-Steps : (earned id : ℕ) (r : Rows) → Steps r (reward_solve earned id r)
unfolding reward_solve
reward_solve-Steps earned id r = transfer-Steps _ _ id r refl

deduct_revoked-Steps : (earned id : ℕ) (r : Rows) → Steps r (deduct_revoked earned id r)
unfolding deduct_revoked
deduct_revoked-Steps zero id r = Ensures-ok _ stay
deduct_revoked-Steps (suc n) id r = transfer-Steps _ _ id r refl

-- What the participants and the administration do to mileage and tokens, with the times and the rows
-- that each reads before its transaction.
pub data Operation : Type 0 where
  qr : (user : ℕ) (authenticated : Option ℕ) (hash clock : ℕ) → Operation
  checkout : (q : Checkout) (before : Rows) (clock : ℕ) → Operation
  undo : (id : ℕ) → Operation
  change : (given : Option ℤ) (has_reason : Bool) (team : ℕ) → Operation
  solve : (earned team : ℕ) → Operation
  revoke : (earned team : ℕ) → Operation
  remove : (team : ℕ) (removed : List ℕ) (clock : ℕ) → Operation

abbrev pub serve : Operation → Rows → Rows
serve (qr user authenticated hash clock) r = committed r (qr_token user authenticated hash clock r)
serve (checkout q before clock) r = committed r (payment_checkout q before clock r)
serve (undo id) r = committed r (payment_refund id r)
serve (change given has_reason team) r = committed r (team_mileage given has_reason team r)
serve (solve earned team) r = committed r (reward_solve earned team r)
serve (revoke earned team) r = committed r (deduct_revoked earned team r)
serve (remove team removed clock) r = remove_members team removed clock r

abbrev pub run : List Operation → Rows → Rows
run [] r = r
run (o ∷ operations) r = run operations (serve o r)

committed-Step :
    {A : Type 0} (r : Rows) (m : Result Error (A × Rows)) → Steps r m → Step r (committed r m)
committed-Step r (failed e) h = stay
committed-Step r (ok x) h = h.at x refl

serve-Step : (o : Operation) (r : Rows) → Step r (serve o r)
serve-Step (qr user authenticated hash clock) r =
    committed-Step r _ (qr_token-Steps user authenticated hash clock r)
serve-Step (checkout q before clock) r =
    committed-Step r _ (payment_checkout-Steps q before clock r)
serve-Step (undo id) r = committed-Step r _ (payment_refund-Steps id r)
serve-Step (change given has_reason team) r =
    committed-Step r _ (team_mileage-Steps given has_reason team r)
serve-Step (solve earned team) r = committed-Step r _ (reward_solve-Steps earned team r)
serve-Step (revoke earned team) r = committed-Step r _ (deduct_revoked-Steps earned team r)
serve-Step (remove team removed clock) r = leave team removed clock

-- What every step keeps holds after any history.
pub run_keeps :
    (P : Rows → Type 0)
    → ((r s : Rows) → Step r s → P r → P s)
    → (operations : List Operation) (r : Rows) → P r
    → P (run operations r)
run_keeps P keeps [] r h = h
run_keeps P keeps (o ∷ operations) r h =
    run_keeps P keeps operations (serve o r) (keeps r _ (serve-Step o r) h)
