-- ===== src/Teams/Replaced.antt =====
-- A new payment token ends the team's other tokens.
use msg_backend.Prelude.{
  ℕ, ◌+◌, ◌*◌, ◌≡◌, refl, sym, ap, subst, ◌∙◌, inl, inr, Bool, true, false, Option, some,
  some-injective, List, [], ◌∷◌, ◌==◌, first, first_passes, select, exists, contains, Bool-cases,
  arith,
}
use msg_backend.Prelude.Result.{ok, Ensures, Ensures-bind, Ensures-found, Ensures-pass, Ensures-ok}
use msg_backend.Teams.{
  PaymentToken, Team, Rows, is_active, is_active_of, is_among, ids_of, replaced, token_of,
  replace_tokens, qr_token, lock_active_team, second,
}
use msg_backend.Teams.Payments.{Checkout, with_hash, payment_checkout}
use msg_backend.Teams.Steps.{Operation, run, run_keeps}
use msg_backend.Teams.Once.{
  Spent, IsSpent, changed, first-update_map, exists-first, Step-IsSpent, spent-refused,
  changed-Spent,
}

found_among :
    (test p : PaymentToken → Bool) (tokens : List PaymentToken) (t : PaymentToken)
    → first test tokens ≡ some t
    → p t ≡ true
    → contains t.token_id (ids_of (select p tokens)) ≡ true
found_among test p [] t e h = ground (arith, e)
found_among test p (x ∷ tokens) t e h = ground (arith, e, h, found_among test p tokens t)

-- What the replacement does to a token of the team.
replaced-Spent :
    (team now : ℕ) (new t : PaymentToken) (ids : List ℕ)
    → t.team_id ≡ team
    → (is_active_of team t ≡ true → is_among ids t ≡ true)
    → Spent (changed (is_among ids) (replaced now new) (some t))
replaced-Spent team now new t ids same among = elim (Bool-cases (is_active t.status)) [
  | inl y ↦ let own : is_active_of team t ≡ true = ground (arith, same, y) in rw (among own) refl
  | inr n ↦ changed-Spent (is_among ids) (replaced now new) (some t) (λ t e. refl) n
]

replacing :
    (team hash' hash now : ℕ) (r : Rows) (t : PaymentToken)
    → with_hash hash r ≡ some t
    → t.team_id ≡ team
    → exists (λ t. t.token_hash == hash') r.tokens ≡ false
    → IsSpent hash (
        replace_tokens
          (ids_of (select (is_active_of team) r.tokens))
          (token_of r.next_id hash' team (now + 5 * 60 * second))
          now
          r)
replacing team hash' hash now r t e same fresh =
    let ids = ids_of (select (is_active_of team) r.tokens) in
    let new = token_of r.next_id hash' team (now + 5 * 60 * second) in
    elim (Bool-cases (hash' == hash)) [
      | inl y ↦
          let equal : hash' ≡ hash = ground (arith, y) in
          absurd (
            ground (
              arith,
              fresh,
              subst (λ n. exists (λ t. t.token_hash == n) r.tokens ≡ true) (sym equal)
                  (exists-first (λ t. t.token_hash == hash) r.tokens t e),
            ))
      | inr n ↦ rw n (
          rw
            (first-update_map (λ t. t.token_hash == hash) (is_among ids) (replaced now new) r.tokens
                (λ t. refl)
              ∙ ap (changed (is_among ids) (replaced now new)) e)
            (replaced-Spent team now new t ids same
              (found_among (λ t. t.token_hash == hash) (is_active_of team) r.tokens t e)))
    ]

locked_team : (id : ℕ) (r : Rows) → Ensures (λ team. team.team_id ≡ id) (lock_active_team id r)
unfolding lock_active_team
locked_team id r = Ensures-found _ _ _ λ team e.
    Ensures-pass _ _ _
      λ _. Ensures-ok team (ground (arith, first_passes (λ t. t.team_id == id) r.teams team e))

qr_token-IsSpent :
    (user : ℕ) (authenticated : Option ℕ) (new hash clock : ℕ) (r : Rows) (t : PaymentToken)
    → with_hash hash r ≡ some t
    → authenticated ≡ some t.team_id
    → Ensures (λ x. IsSpent hash x.1) (qr_token user authenticated new clock r)
unfolding qr_token
qr_token-IsSpent user authenticated new hash clock r t e same = Ensures-found _ _ _ λ id e1.
    Ensures-bind {A = Team} (lock_active_team id r) _ λ team e2. Ensures-found _ _ _ λ current _.
      Ensures-pass _ _ _ λ _. Ensures-pass _ _ _ λ fresh. Ensures-ok _ (
        replacing team.team_id new hash _ r t e
          (some-injective t.team_id id (sym same ∙ e1) ∙ sym ((locked_team id r).at team e2)) fresh)

-- After a user has got a new token for a team, and after any history of operations, no checkout with
-- another token that the team had then succeeds.
pub replaced_refused :
    (user : ℕ) (new hash clock : ℕ) (r : Rows) (t : PaymentToken) (x : PaymentToken × Rows)
    (operations : List Operation) (q : Checkout) (before : Rows) (clock' : ℕ) (y : ℕ × Rows)
    → with_hash hash r ≡ some t
    → qr_token user (some t.team_id) new clock r ≡ ok x
    → q.token_hash ≡ some hash
    → ¬ (payment_checkout q before clock' (run operations x.1) ≡ ok y)
replaced_refused user new hash clock r t x operations q before clock' y e issued same again =
    let h = (qr_token-IsSpent user (some t.team_id) new hash clock r t e refl).at x issued in
    let after = run_keeps (IsSpent hash) (Step-IsSpent hash) operations x.1 h in
    (spent-refused q before clock' hash (run operations x.1) same after).at y again
