-- ===== src/Koth/Polling/Once.antt =====
-- Overlapping polls of one period, through histories (poll_challenge_period of apps/koth/services.py).
use msg_backend.Prelude.{
  ℕ, ◌≡◌, ◌⊎◌, inl, inr, refl, sym, ap, ◌∙◌, subst, Bool, true, false, Option, none, some, List, [],
  ◌∷◌, ◌++◌, Bool-cases, if_cases, is_some, arith,
}
use msg_backend.Koth.{Curve, PeriodResult, Award}
use msg_backend.Koth.Polling.{
  is_applied, Period, Rows, or_new, begin_poll, fail_period, fail_poll, locked_awards, add_awards,
  apply_period, apply_poll,
}
use msg_backend.Koth.Results.{Fetched, raised, fetched, Payload}
use msg_backend.Koth.Polling.Answers.{HasResults, IsAnswered, run-IsAnswered}
use msg_backend.Koth.Polling.Histories.{
  Event, begin, answer, unanswered, apply, others, System, Setting, find_poll, is_asked, results_at,
  fail_at, after_begin, after_answer, after_apply, validated, serve, run,
}

-- Whether the period is applied.
abbrev pub is_closed : Rows → Bool
is_closed r = is_applied (or_new r.period).status

-- What a second transaction of a poll with these results has done: it has closed an open period, with
-- the awards of the results, computed from these rows.
pub record IsApplied (curve : Curve) (challenge : ℕ) (clock : ℕ → ℕ) (results : List PeriodResult)
    (r s : Rows) : Type 0 where
  pub was_open : is_closed r ≡ false
  pub is_done : is_closed s ≡ true
  pub granted : List Award
  pub computed : locked_awards curve r results ≡ some granted
  pub added : s.solves ≡ add_awards challenge clock granted r.solves

abbrev pub IsUntouched : Rows → Rows → Type 0
IsUntouched r s = (is_closed s ≡ is_closed r) × (s.solves ≡ r.solves)

begin-IsUntouched : (r : Rows) → IsUntouched r (begin_poll r).0
unfolding begin_poll
begin-IsUntouched r = elim (Bool-cases (is_applied (or_new r.period).status)) [
  | inl e ↦ rw e (rw e (refl, refl))
  | inr e ↦ rw e (rw e (refl, refl))
]

fail_period-status :
    (error : ℕ) (o : Option Period)
    → is_applied (or_new (fail_period error o).0).status ≡ is_applied (or_new o).status
fail_period-status error none = refl
fail_period-status error (some p) = ground arith

module _ (curve : Curve) (challenge : ℕ) where
  pub apply-cases :
      (clock : ℕ → ℕ) (results : List PeriodResult) (r : Rows) (o : Option Period)
      → r.period ≡ o
      → IsUntouched r (apply_period curve challenge clock results r o).0
        ⊎ IsApplied curve challenge clock results r
            (apply_period curve challenge clock results r o).0
  apply-cases clock results r none e = inl (refl, refl)
  apply-cases clock results r (some p) e = elim (Bool-cases (is_applied p.status)) [
    | inl done ↦ rw done (inl (refl, refl))
    | inr todo ↦ by_granted (locked_awards curve r results) refl todo
  ]
    where
      by_granted :
          (o : Option (List Award))
          → locked_awards curve r results ≡ o
          → is_applied p.status ≡ false
          → IsUntouched r (apply_period curve challenge clock results r (some p)).0
            ⊎ IsApplied curve challenge clock results r
                (apply_period curve challenge clock results r (some p)).0
      by_granted none e' todo = rw todo (rw e' (inl (refl, refl)))
      by_granted (some granted) e' todo = rw todo (
          rw e' (
            inr (record {
              was_open = rw e todo;
              is_done = refl;
              granted = granted;
              computed = e';
              added = refl;
            })))

module _ (x : Setting) where
  -- What one event does to the rows.
  abbrev Effect : Event → System → Rows → Type 0
  Effect e s t =
      IsUntouched s.rows t
      ⊎ ((poll : ℕ) × (clock : ℕ → ℕ) × (results : List PeriodResult) × (e ≡ apply poll clock)
          × (results_at (find_poll poll s) ≡ some results)
          × IsApplied x.curve x.challenge clock results s.rows t)

  fail_at-IsUntouched :
      (poll error : ℕ) (s : System) → IsUntouched s.rows (fail_at poll error s).rows
  unfolding fail_poll
  fail_at-IsUntouched poll error s = (fail_period-status error s.rows.period, refl)

  after_begin-IsUntouched :
      (poll : ℕ) (s : System) → IsUntouched s.rows (after_begin poll (begin_poll s.rows) s).rows
  after_begin-IsUntouched poll s =
      let h = begin-IsUntouched s.rows in
      if_cases (λ (t : System). IsUntouched s.rows t.rows) (begin_poll s.rows).1 _ _ (λ _. h)
        (λ _. h)

  after_answer-IsUntouched :
      (poll error : ℕ) (m : Fetched (List PeriodResult)) (s : System)
      → IsUntouched s.rows (after_answer poll error m s).rows
  after_answer-IsUntouched poll error (raised e) s = fail_at-IsUntouched poll error s
  after_answer-IsUntouched poll error (fetched results) s = (refl, refl)

  after_apply-Effect :
      (poll : ℕ) (clock : ℕ → ℕ) (s : System) (o : Option (List PeriodResult))
      → results_at (find_poll poll s) ≡ o
      → Effect (apply poll clock) s (after_apply x poll clock o s).rows
  unfolding apply_poll
  after_apply-Effect poll clock s none e = inl (refl, refl)
  after_apply-Effect poll clock s (some results) e =
      elim (apply-cases x.curve x.challenge clock results s.rows s.rows.period refl) [
        | inl u ↦ inl u
        | inr a ↦ inr (poll, clock, results, refl, e, a)
      ]

  serve-Effect : (e : Event) (s : System) → Effect e s (serve x e s).rows
  unfolding serve
  serve-Effect (begin poll) s = inl (
      if_cases (λ (t : System). IsUntouched s.rows t.rows) (is_some (find_poll poll s)) s _
        (λ _. (refl, refl)) (λ _. after_begin-IsUntouched poll s))
  serve-Effect (answer poll body error) s = inl (
      if_cases (λ (t : System). IsUntouched s.rows t.rows) (is_asked (find_poll poll s)) _ s
        (λ _. after_answer-IsUntouched poll error (validated x body s.rows) s) (λ _. (refl, refl)))
  serve-Effect (unanswered poll error) s = inl (
      if_cases (λ (t : System). IsUntouched s.rows t.rows) (is_asked (find_poll poll s)) _ s
        (λ _. fail_at-IsUntouched poll error s) (λ _. (refl, refl)))
  serve-Effect (apply poll clock) s =
      after_apply-Effect poll clock s (results_at (find_poll poll s)) refl
  serve-Effect (others teams excluded e i) s = inl (refl, refl)

  -- The second transaction that has closed the period in a history, and what it has granted.
  record IsClosing (events : List Event) (s : System) : Type 0 where
    earlier : List Event
    later : List Event
    poll : ℕ
    clock : ℕ → ℕ
    results : List PeriodResult
    granted : List Award
    split : events ≡ earlier ++ (apply poll clock ∷ later)
    held : results_at (find_poll poll (run x earlier s)) ≡ some results
    was_open : is_closed s.rows ≡ false
    is_done : is_closed (run x events s).rows ≡ true
    computed : locked_awards x.curve (run x earlier s).rows results ≡ some granted
    added : (run x events s).rows.solves ≡ add_awards x.challenge clock granted s.rows.solves

  run-cases :
      (events : List Event) (s : System)
      → IsUntouched s.rows (run x events s).rows ⊎ IsClosing events s
  run-cases [] s = inl (refl, refl)
  run-cases (e ∷ events) s =
      let t = serve x e s in
      elim (serve-Effect e s) [
        | inl u ↦ elim (run-cases events t) [
          | inl v ↦ inl (v.0 ∙ u.0, v.1 ∙ u.1)
          | inr c ↦ inr (record {
            earlier = e ∷ c.earlier;
            later = c.later;
            poll = c.poll;
            clock = c.clock;
            results = c.results;
            granted = c.granted;
            split = ap (λ l. e ∷ l) c.split;
            held = c.held;
            was_open = sym u.0 ∙ c.was_open;
            is_done = c.is_done;
            computed = c.computed;
            added = c.added ∙ ap (add_awards x.challenge c.clock c.granted) u.1;
          })
        ]
        | inr (poll, clock, results, this, held, a) ↦ elim (run-cases events t) [
          | inl v ↦ inr (record {
            earlier = [];
            later = events;
            poll = poll;
            clock = clock;
            results = results;
            granted = a.granted;
            split = ap (λ b. b ∷ events) this;
            held = held;
            was_open = a.was_open;
            is_done = v.0 ∙ a.is_done;
            computed = a.computed;
            added = v.1 ∙ a.added;
          })
          | inr c ↦ absurd (ground (arith, a.is_done, c.was_open))
        ]
      ]

  -- In a history, a poll has closed the open period: it was answered before, its results are those
  -- that the rows at its answer validate, its awards are those that the rows at its second transaction
  -- give, and the solves have received exactly these awards.
  pub record IsAppliedOnce (events : List Event) (s : System) : Type 0 where
    pub poll : ℕ
    pub body : Option Payload
    pub error : ℕ
    pub clock : ℕ → ℕ
    pub results : List PeriodResult
    pub granted : List Award
    pub before : List Event
    pub between : List Event
    pub after : List Event
    pub split :
        events ≡ (before ++ (answer poll body error ∷ between)) ++ (apply poll clock ∷ after)
    pub valid : validated x body (run x before s).rows ≡ fetched results
    pub computed :
        locked_awards x.curve (run x (before ++ (answer poll body error ∷ between)) s).rows results
        ≡ some granted
    pub was_open : is_closed s.rows ≡ false
    pub is_done : is_closed (run x events s).rows ≡ true
    pub added : (run x events s).rows.solves ≡ add_awards x.challenge clock granted s.rows.solves

  once_answered :
      (events : List Event) (s : System) (c : IsClosing events s)
      → IsAnswered x c.poll c.results c.earlier s
      → IsAppliedOnce events s
  once_answered events s c a = record {
    poll = c.poll;
    body = a.body;
    error = a.error;
    clock = c.clock;
    results = c.results;
    granted = c.granted;
    before = a.before;
    between = a.after;
    after = c.later;
    split = c.split ∙ ap (λ l. l ++ (apply c.poll c.clock ∷ c.later)) a.split;
    valid = a.valid;
    computed =
        subst (λ l. locked_awards x.curve (run x l s).rows c.results ≡ some c.granted) a.split
          c.computed;
    was_open = c.was_open;
    is_done = c.is_done;
    added = c.added;
  }

  no_results :
      (p : ℕ) (results : List PeriodResult) (s : System)
      → s.waiting ≡ []
      → ¬ HasResults p results s.waiting
  no_results p results s e h = absurd (ground (arith, subst (HasResults p results) e h))

  pub poll_once :
      (events : List Event) (s : System)
      → s.waiting ≡ []
      → IsUntouched s.rows (run x events s).rows ⊎ IsAppliedOnce events s
  poll_once events s e = elim (run-cases events s) [
    | inl u ↦ inl u
    | inr c ↦ elim (run-IsAnswered x c.poll c.results c.earlier s c.held) [
      | inl h ↦ absurd (no_results c.poll c.results s e h)
      | inr a ↦ inr (once_answered events s c a)
    ]
  ]
