-- ===== src/Teams/Once.antt =====
-- A payment token pays once, and a payment is refunded once.
use msg_backend.Prelude.{
  ℕ, ◌≡◌, refl, sym, ap, subst, ◌∙◌, inl, inr, Bool, true, false, ◌||◌, Option, none, some,
  some-injective, List, [], ◌∷◌, ◌==◌, first, first-update, first_passes, ◌+◌, ◌*◌, select, exists,
  update, Bool-cases, if◌then◌else◌, arith,
}
use msg_backend.Prelude.Int.{neg}
use msg_backend.Prelude.Result.{ok, Ensures, Ensures-found, Ensures-pass, Ensures-ok}
use msg_backend.Teams.{
  Team, refund, MileageHistory, PaymentToken, replaced, is_among, ids_of, whole_seconds, second,
  Rows, is_active, is_active_of, invalidate, token_of, remove_members,
}
use msg_backend.Teams.Payments.{
  Checkout, with_hash, spend, charge, payment_checkout, is_refund_of, mark_refunded, as_refunded,
  payment_refund,
}
use msg_backend.Teams.Steps.{
  Step, issue, leave, pay, give_back, move, adjust, stay, Operation, moved, run, run_keeps, saved,
}

abbrev pub changed : {A : Type 0} → (A → Bool) → (A → A) → Option A → Option A
changed sel f none = none
changed sel f (some a) = some (if sel a then f a else a)

-- An update that keeps what the query tests updates what the query finds.
pub first-update_map :
    {A : Type 0} (test sel : A → Bool) (f : A → A) (xs : List A)
    → ((a : A) → test (f a) ≡ test a)
    → first test (update sel f xs) ≡ changed sel f (first test xs)
first-update_map test sel f [] same = refl
first-update_map test sel f (x ∷ xs) same =
    let kept : test (if sel x then f x else x) ≡ test x = elim (Bool-cases (sel x)) [
      | inl s ↦ rw s (same x)
      | inr s ↦ rw s refl
    ] in
    rw kept (elim (Bool-cases (test x)) [
      | inl y ↦ rw y refl
      | inr n ↦ rw n (first-update_map test sel f xs same)
    ])

pub exists-first :
    {A : Type 0} (test : A → Bool) (xs : List A) (a : A)
    → first test xs ≡ some a
    → exists test xs ≡ true
exists-first test [] a e = ground (arith, e)
exists-first test (x ∷ xs) a e = elim (Bool-cases (test x)) [
  | inl y ↦ rw y refl
  | inr n ↦ rw n (exists-first test xs a (sym (rw n refl) ∙ e))
]

-- A token that is there and not active.
abbrev pub Spent : Option PaymentToken → Type 0
Spent none = ⊥
Spent (some t) = is_active t.status ≡ false

abbrev pub IsSpent : ℕ → Rows → Type 0
IsSpent hash r = Spent (with_hash hash r)

pub changed-Spent :
    (sel : PaymentToken → Bool) (f : PaymentToken → PaymentToken) (o : Option PaymentToken)
    → ((t : PaymentToken) → is_active t.status ≡ false → is_active (f t).status ≡ false)
    → Spent o
    → Spent (changed sel f o)
changed-Spent sel f none keeps h = h
changed-Spent sel f (some t) keeps h = elim (Bool-cases (sel t)) [
  | inl y ↦ rw y (keeps t h)
  | inr n ↦ rw n h
]

update-Spent :
    (hash : ℕ) (sel : PaymentToken → Bool) (f : PaymentToken → PaymentToken)
    (tokens : List PaymentToken)
    → ((t : PaymentToken) → (f t).token_hash ≡ t.token_hash)
    → ((t : PaymentToken) → is_active t.status ≡ false → is_active (f t).status ≡ false)
    → Spent (first (λ t. t.token_hash == hash) tokens)
    → Spent (first (λ t. t.token_hash == hash) (update sel f tokens))
update-Spent hash sel f tokens same keeps h =
    rw
      (first-update_map (λ t. t.token_hash == hash) sel f tokens
        (λ t. ap (λ n. n == hash) (same t)))
      (changed-Spent sel f (first (λ t. t.token_hash == hash) tokens) keeps h)

-- A new token has another hash.
other_hash :
    (hash new : ℕ) (tokens : List PaymentToken) (o : Option PaymentToken)
    → first (λ t. t.token_hash == hash) tokens ≡ o
    → Spent o
    → exists (λ t. t.token_hash == new) tokens ≡ false
    → new == hash ≡ false
other_hash hash new tokens none e h fresh = absurd h
other_hash hash new tokens (some t) e h fresh = elim (Bool-cases (new == hash)) [
  | inl same ↦
      let equal : new ≡ hash = ground (arith, same) in
      absurd (
        ground (
          arith,
          fresh,
          subst (λ n. exists (λ t. t.token_hash == n) tokens ≡ true) (sym equal)
              (exists-first (λ t. t.token_hash == hash) tokens t e),
        ))
  | inr other ↦ other
]

pub Step-IsSpent : (hash : ℕ) (r s : Rows) → Step r s → IsSpent hash r → IsSpent hash s
unfolding remove_members
Step-IsSpent hash r _ (issue team new now fresh) h =
    rw (other_hash hash new r.tokens _ refl h fresh) (
      update-Spent hash (is_among (ids_of (select (is_active_of team) r.tokens)))
        (replaced now (token_of r.next_id new team (now + 5 * 60 * second))) r.tokens (λ t. refl)
        (λ t e. refl) h)
Step-IsSpent hash r _ (leave team [] clock) h = h
Step-IsSpent hash r _ (leave team (user ∷ removed) clock) h =
    update-Spent hash (is_active_of team) (invalidate (whole_seconds clock)) r.tokens (λ t. refl)
      (λ t e. refl) h
Step-IsSpent hash r _ (pay _ amount now owner team token e1 e2 e3) h =
    update-Spent hash (λ t. t.token_id == token.token_id) (spend now r.next_id) r.tokens (λ t. refl)
      (λ t e. refl) h
Step-IsSpent hash r _ (give_back id team paid e1 e2 e3 e4) h = h
Step-IsSpent hash r _ (move id team type amount e1 e2) h = h
Step-IsSpent hash r _ (adjust id team type amount e1 e2) h = h
Step-IsSpent hash r _ stay h = h

-- A checkout spends its token.
spent_by :
    (hash : ℕ) (tokens : List PaymentToken) (token : PaymentToken) (now history : ℕ)
    → first (λ t. t.token_hash == hash) tokens ≡ some token
    → first
        (λ t. t.token_hash == hash)
        (update (λ t. t.token_id == token.token_id) (spend now history) tokens)
      ≡ some (spend now history token)
spent_by hash tokens token now history e =
    first-update (λ t. t.token_hash == hash) (λ t. t.token_id == token.token_id) (spend now history)
      token tokens (λ t. refl) (ground arith) e

charge-IsSpent :
    (hash amount owner clock : ℕ) (r : Rows)
    → Ensures (λ x. IsSpent hash x.1) (charge hash amount owner clock r)
unfolding charge
charge-IsSpent hash amount owner clock r = Ensures-found _ _ _ λ team e1.
    Ensures-found _ _ _ λ token e2. Ensures-pass _ _ _ λ e3. Ensures-pass _ _ _ λ e4.
      Ensures-pass _ _ _ λ e5. Ensures-pass _ _ _ λ e6. saved _ _ _ _ _ (
        Ensures-ok _ (
          subst Spent (sym (spent_by hash r.tokens token (whole_seconds clock) r.next_id e2)) refl))

charge_refused :
    (hash amount owner clock : ℕ) (r : Rows)
    → IsSpent hash r
    → Ensures (λ x. ⊥) (charge hash amount owner clock r)
unfolding charge
charge_refused hash amount owner clock r h = Ensures-found _ _ _ λ team e1.
    Ensures-found _ _ _
      λ token e2. Ensures-pass _ _ _ λ e3. absurd (ground (arith, subst Spent e2 h, e3))

-- The token of a checkout is spent.
paid-IsSpent :
    (q : Checkout) (before : Rows) (clock : ℕ) (r : Rows)
    → Ensures
        (λ x. (hash : ℕ) × (q.token_hash ≡ some hash) × IsSpent hash x.1)
        (payment_checkout q before clock r)
unfolding payment_checkout
paid-IsSpent q before clock r = Ensures-found _ _ _ λ hash e. Ensures-found _ _ _ λ given _.
    Ensures-found _ _ _ λ amount _. Ensures-pass _ _ _ λ _. Ensures-found _ _ _ λ owner _. record {
      at = λ x paid. (hash, e, (charge-IsSpent hash amount owner.team_id clock r).at x paid);
    }

pub spent-refused :
    (q : Checkout) (before : Rows) (clock hash : ℕ) (r : Rows)
    → q.token_hash ≡ some hash
    → IsSpent hash r
    → Ensures (λ x. ⊥) (payment_checkout q before clock r)
unfolding payment_checkout
spent-refused q before clock hash r same h = Ensures-found _ _ _ λ other e.
    Ensures-found _ _ _ λ given _. Ensures-found _ _ _ λ amount _. Ensures-pass _ _ _ λ _.
      Ensures-found _ _ _ λ owner _.
        charge_refused other amount owner.team_id clock r
          (subst (λ n. IsSpent n r) (some-injective hash other (sym same ∙ e)) h)

-- After a checkout that succeeds and any history of operations, no checkout with the same token
-- succeeds, whatever its amount and time and whatever rows it has read before.
pub pay_once :
    (q q' : Checkout) (before before' : Rows) (clock clock' : ℕ) (r : Rows) (x y : ℕ × Rows)
    (operations : List Operation)
    → payment_checkout q before clock r ≡ ok x
    → q'.token_hash ≡ q.token_hash
    → ¬ (payment_checkout q' before' clock' (run operations x.1) ≡ ok y)
pay_once q q' before before' clock clock' r x y operations paid same again =
    let (hash, e, h) = (paid-IsSpent q before clock r).at x paid in
    let after = run_keeps (IsSpent hash) (Step-IsSpent hash) operations x.1 h in
    (spent-refused q' before' clock' hash (run operations x.1) (same ∙ e) after).at y again

-- A refund of the payment is in the history.
abbrev IsRefunded : ℕ → Rows → Type 0
IsRefunded id r = exists (is_refund_of id) r.history ≡ true

marked :
    (id other : ℕ) (rows : List MileageHistory)
    → exists (is_refund_of id) (update (λ h. h.history_id == other) as_refunded rows)
      ≡ exists (is_refund_of id) rows
marked id other [] = refl
marked id other (h ∷ rows) = ground (arith, marked id other rows)

or_true : (a b : Bool) → b ≡ true → a || b ≡ true
or_true a b e = ground (arith, e)

Step-IsRefunded : (id : ℕ) (r s : Rows) → Step r s → IsRefunded id r → IsRefunded id s
unfolding remove_members
Step-IsRefunded id r _ (issue team new now fresh) h = h
Step-IsRefunded id r _ (leave team [] clock) h = h
Step-IsRefunded id r _ (leave team (user ∷ removed) clock) h = h
Step-IsRefunded id r _ (pay _ amount now owner team token e1 e2 e3) h = h
Step-IsRefunded id r _ (give_back other team paid e1 e2 e3 e4) h =
    let rows = (moved team refund (neg paid.amount) (some paid.history_id) r).history in
    let before : exists (is_refund_of id) rows ≡ true = or_true _ _ h in
    marked id paid.history_id rows ∙ before
Step-IsRefunded id r _ (move other team type amount e1 e2) h = or_true _ _ h
Step-IsRefunded id r _ (adjust other team type amount e1 e2) h = or_true _ _ h
Step-IsRefunded id r _ stay h = h

refunding :
    (id : ℕ) (r : Rows) (paid : MileageHistory) (team : Team)
    → first (λ h. h.history_id == id) r.history ≡ some paid
    → IsRefunded id (
        mark_refunded paid.history_id
          (moved team refund (neg paid.amount) (some paid.history_id) r))
refunding id r paid team e =
    let rows = (moved team refund (neg paid.amount) (some paid.history_id) r).history in
    let own : exists (is_refund_of id) rows ≡ true =
      rw (first_passes (λ h. h.history_id == id) r.history paid e) refl in
    marked id paid.history_id rows ∙ own

payment_refund-IsRefunded :
    (id : ℕ) (r : Rows) → Ensures (λ x. IsRefunded id x.1) (payment_refund id r)
unfolding payment_refund
payment_refund-IsRefunded id r = Ensures-found _ _ _ λ paid e1. Ensures-pass _ _ _ λ e2.
    Ensures-pass _ _ _ λ e3.
      Ensures-found _ _ _ λ team e4. saved _ _ _ _ _ (Ensures-ok _ (refunding id r paid team e1))

refunded_refused : (id : ℕ) (r : Rows) → IsRefunded id r → Ensures (λ x. ⊥) (payment_refund id r)
unfolding payment_refund
refunded_refused id r h = Ensures-found _ _ _ λ paid e1. Ensures-pass _ _ _ λ e2.
    Ensures-pass _ _ _ λ e3.
      let same : paid.history_id ≡ id =
        ground (arith, first_passes (λ h. h.history_id == id) r.history paid e1) in
      absurd
        (ground (arith, e3, subst (λ n. exists (is_refund_of n) r.history ≡ true) (sym same) h))

-- After a refund that succeeds and any history of operations, no refund of the same payment succeeds.
pub refund_once :
    (id : ℕ) (r : Rows) (x y : ℕ × Rows) (operations : List Operation)
    → payment_refund id r ≡ ok x
    → ¬ (payment_refund id (run operations x.1) ≡ ok y)
refund_once id r x y operations refunded again =
    let h = (payment_refund-IsRefunded id r).at x refunded in
    let after = run_keeps (IsRefunded id) (Step-IsRefunded id) operations x.1 h in
    (refunded_refused id (run operations x.1) after).at y again
