-- ===== src/Teams/Ledger.antt =====
-- The history of each team adds up to its mileage, and the balances of its page are the running sums.
use msg_backend.Prelude.{
  ℕ, ◌≡◌, refl, subst, true, false, Option, none, some, List, [], ◌∷◌, ◌==◌, select, update,
  if_cases, All, All_imp, first-All, arith,
}
use msg_backend.Prelude.Int.{ℤ, pos, ◌+ℤ◌, neg, int_laws}
use msg_backend.Prelude.Result.{ok, Ensures, Ensures-found, Ensures-ok}
use msg_backend.Teams.{
  MileageType, purchase, refund, MileageHistory, Team, Rows, find_team, balances, mileage_history,
  remove_members,
}
use msg_backend.Teams.Payments.{mark_refunded, as_refunded}
use msg_backend.Teams.Steps.{
  Step, issue, leave, pay, give_back, move, adjust, stay, Operation, moved, run, run_keeps,
}

abbrev pub total : List MileageHistory → ℤ
total [] = pos 0
total (h ∷ rows) = h.amount +ℤ total rows

-- `MileageHistory.objects.filter(team=team)`
abbrev pub rows_of : ℕ → List MileageHistory → List MileageHistory
rows_of team rows = select (λ h. h.team_id == team) rows

-- The mileage of each team is a base and the sum of the amounts of its history.
abbrev pub IsBooked : (ℕ → ℤ) → List MileageHistory → Team → Type 0
IsBooked base rows t = t.mileage ≡ base t.team_id +ℤ total (rows_of t.team_id rows)

abbrev pub IsLedger : (ℕ → ℤ) → Rows → Type 0
IsLedger base r = All (IsBooked base r.history) r.teams

add_amount : (a b c d : ℤ) → a ≡ b +ℤ c → a +ℤ d ≡ b +ℤ (d +ℤ c)
add_amount a b c d e = rw e (omega int_laws)

counted :
    (base m : ℤ) (id : ℕ) (row : MileageHistory) (rows : List MileageHistory)
    → row.team_id == id ≡ true
    → m ≡ base +ℤ total (rows_of id rows)
    → m +ℤ row.amount ≡ base +ℤ total (rows_of id (row ∷ rows))
counted base m id row rows same e =
    rw same (add_amount m base (total (rows_of id rows)) row.amount e)

not_counted :
    (base m : ℤ) (id : ℕ) (row : MileageHistory) (rows : List MileageHistory)
    → row.team_id == id ≡ false
    → m ≡ base +ℤ total (rows_of id rows)
    → m ≡ base +ℤ total (rows_of id (row ∷ rows))
not_counted base m id row rows other e = rw other e

booking :
    (base : ℕ → ℤ) (team : Team) (row : MileageHistory) (rows : List MileageHistory)
    (teams : List Team)
    → row.team_id ≡ team.team_id
    → IsBooked base rows team
    → All (IsBooked base rows) teams
    → All (IsBooked base (row ∷ rows)) (
        update
          (λ t. t.team_id == team.team_id)
          (λ t. record t { mileage = team.mileage +ℤ row.amount })
          teams)
booking base team row rows [] same own h = tt
booking base team row rows (t ∷ teams) same own h = (
  if_cases (IsBooked base (row ∷ rows)) (t.team_id == team.team_id) _ t
      (λ y.
        let here : team.team_id ≡ t.team_id = ground (arith, y) in
        let mine : row.team_id == t.team_id ≡ true = ground (arith, same, here) in
        counted (base t.team_id) team.mileage t.team_id row rows mine
          (subst (λ id. team.mileage ≡ base id +ℤ total (rows_of id rows)) here own))
      (λ n.
        let other : row.team_id == t.team_id ≡ false = ground (arith, same, n) in
        not_counted (base t.team_id) t.mileage t.team_id row rows other h.0),
  booking base team row rows teams same own h.1,
)

moved-IsLedger :
    (base : ℕ → ℤ) (id : ℕ) (team : Team) (type : MileageType) (amount : ℤ) (ref : Option ℕ)
    (r : Rows)
    → find_team id r ≡ some team
    → IsLedger base r
    → IsLedger base (moved team type amount ref r)
moved-IsLedger base id team type amount ref r e h =
    booking base team _ r.history r.teams refl
      (first-All (IsBooked base r.history) (λ t. t.team_id == id) r.teams team h e).0 h

headed :
    (id : ℕ) (h row : MileageHistory) (left rows : List MileageHistory)
    → h.team_id ≡ row.team_id
    → h.amount ≡ row.amount
    → total (rows_of id left) ≡ total (rows_of id rows)
    → total (rows_of id (h ∷ left)) ≡ total (rows_of id (row ∷ rows))
headed id h row left rows team amount e = ground (arith, team, amount, e)

-- The mark of a refund changes no amount.
total-marked :
    (id other : ℕ) (rows : List MileageHistory)
    → total (rows_of id (update (λ h. h.history_id == other) as_refunded rows))
      ≡ total (rows_of id rows)
total-marked id other [] = refl
total-marked id other (row ∷ rows) =
    let ih = total-marked id other rows in
    let left = update (λ h. h.history_id == other) as_refunded rows in
    if_cases (λ h. total (rows_of id (h ∷ left)) ≡ total (rows_of id (row ∷ rows)))
      (row.history_id == other) (as_refunded row) row
      (λ _. headed id (as_refunded row) row left rows refl refl ih)
      (λ _. headed id row row left rows refl refl ih)

marked-IsLedger :
    (base : ℕ → ℤ) (id : ℕ) (r : Rows) → IsLedger base r → IsLedger base (mark_refunded id r)
marked-IsLedger base id r h =
    All_imp (IsBooked base r.history) (IsBooked base (mark_refunded id r).history) r.teams
      (λ t e. rw (total-marked t.team_id id r.history) e) h

Step-IsLedger : (base : ℕ → ℤ) (r s : Rows) → Step r s → IsLedger base r → IsLedger base s
unfolding remove_members
Step-IsLedger base r _ (issue team new now fresh) h = h
Step-IsLedger base r _ (leave team [] clock) h = h
Step-IsLedger base r _ (leave team (user ∷ removed) clock) h = h
Step-IsLedger base r _ (pay _ amount now owner team token e1 e2 e3) h =
    moved-IsLedger base owner team purchase (neg (pos amount)) none r e1 h
Step-IsLedger base r _ (give_back id team paid e1 e2 e3 e4) h =
    marked-IsLedger base paid.history_id
      (moved team refund (neg paid.amount) (some paid.history_id) r)
      (moved-IsLedger base paid.team_id team refund (neg paid.amount) (some paid.history_id) r e4 h)
Step-IsLedger base r _ (move id team type amount e1 e2) h =
    moved-IsLedger base id team type amount none r e1 h
Step-IsLedger base r _ (adjust id team type amount e1 e2) h =
    moved-IsLedger base id team type amount none r e1 h
Step-IsLedger base r _ stay h = h

-- Each balance is the base and the sum of the amounts of its row and of the older ones.
abbrev pub AreBalances : ℤ → List MileageHistory → List ℤ → Type 0
AreBalances base [] [] = Unit
AreBalances base (row ∷ rows) (b ∷ bs) = (b ≡ base +ℤ total (row ∷ rows)) × AreBalances base rows bs
AreBalances base _ _ = ⊥

balances-AreBalances :
    (base balance : ℤ) (rows : List MileageHistory)
    → balance ≡ base +ℤ total rows
    → AreBalances base rows (balances balance rows)
balances-AreBalances base balance [] e = tt
balances-AreBalances base balance (row ∷ rows) e =
    (e, balances-AreBalances base (balance +ℤ neg row.amount) rows (rw e (omega int_laws)))

own_ledger :
    (base : ℕ → ℤ) (team : ℕ) (t : Team) (r : Rows)
    → find_team team r ≡ some t
    → IsLedger base r
    → t.mileage ≡ base team +ℤ total (rows_of team r.history)
own_ledger base team t r e h =
    let (booked, found) =
      first-All (IsBooked base r.history) (λ t. t.team_id == team) r.teams t h e in
    let here : t.team_id ≡ team = ground (arith, found) in
    subst (λ id. t.mileage ≡ base id +ℤ total (rows_of id r.history)) here booked

page_lem :
    (base : ℕ → ℤ) (team : ℕ) (r : Rows)
    → IsLedger base r
    → Ensures
        (λ x.
          (x.0 ≡ base team +ℤ total (rows_of team r.history))
          × AreBalances (base team) (rows_of team r.history) x.1)
        (mileage_history team r)
unfolding mileage_history
page_lem base team r h = Ensures-found _ _ _ λ t e.
    let own : t.mileage ≡ base team +ℤ total (rows_of team r.history) =
      own_ledger base team t r e h in
    Ensures-ok _ (own, balances-AreBalances (base team) t.mileage _ own)

-- Where each team's mileage is a base and the sum of the amounts of its history, it is so after any
-- history of payments, refunds, adjustments, rewards and revoked solves, and the page of a team's
-- history then shows the mileage, and after each row the base and the sum of the amounts of the row
-- and of the older ones.
pub run-AreBalances :
    (base : ℕ → ℤ) (operations : List Operation) (r : Rows) (team : ℕ) (x : ℤ × List ℤ)
    → IsLedger base r
    → mileage_history team (run operations r) ≡ ok x
    → IsLedger base (run operations r)
      × (x.0 ≡ base team +ℤ total (rows_of team (run operations r).history))
      × AreBalances (base team) (rows_of team (run operations r).history) x.1
run-AreBalances base operations r team x h shown =
    let after = run_keeps (IsLedger base) (Step-IsLedger base) operations r h in
    let page = (page_lem base team (run operations r) after).at x shown in (after, page.0, page.1)
