-- ===== src/Koth/Polling/Answers.antt =====
-- Where the results of a poll come from in a history: the answer to this poll, with the teams as they
-- were then.
use msg_backend.Prelude.{
  ℕ, ◌≡◌, ◌⊎◌, inl, inr, refl, sym, ap, ◌∙◌, subst, Bool, true, false, not, Option, none, some,
  some-injective, List, [], ◌∷◌, ◌++◌, ◌==◌, Bool-cases, if_cases, first, select, update_first,
  is_some, arith,
}
use msg_backend.Koth.{PeriodResult}
use msg_backend.Koth.Results.{Fetched, raised, fetched, Payload}
use msg_backend.Koth.Polling.{Rows, begin_poll, fail_poll}
use msg_backend.Koth.Polling.Histories.{
  Event, begin, answer, unanswered, apply, others, System, Setting, Waiting, is_poll, find_poll,
  is_asked, results_at, fail_at, after_begin, after_answer, after_apply, validated, leave, serve,
  run,
}

abbrev pub HasResults : ℕ → List PeriodResult → List Waiting → Type 0
HasResults p results ws = results_at (first (is_poll p) ws) ≡ some results

none_left :
    (q : ℕ) (ws : List Waiting) → first (is_poll q) (select (λ w. not (is_poll q w)) ws) ≡ none
none_left q [] = refl
none_left q (w ∷ ws) = elim (Bool-cases (is_poll q w)) [
  | inl gone ↦ rw gone (none_left q ws)
  | inr stays ↦ rw stays (rw stays (none_left q ws))
]

other_left :
    (p q : ℕ) (ws : List Waiting)
    → p == q ≡ false
    → first (is_poll p) (select (λ w. not (is_poll q w)) ws) ≡ first (is_poll p) ws
other_left p q [] n = refl
other_left p q (w ∷ ws) n =
    let ih = other_left p q ws n in
    elim (Bool-cases (is_poll q w)) [
      | inl gone ↦
          let another : is_poll p w ≡ false = ground (arith, gone, n) in rw gone (rw another ih)
      | inr stays ↦
          rw stays (elim (Bool-cases (is_poll p w)) [ inl y ↦ rw y refl | inr m ↦ rw m ih ])
    ]

left-HasResults :
    (p q : ℕ) (results : List PeriodResult) (ws : List Waiting)
    → HasResults p results (select (λ w. not (is_poll q w)) ws)
    → HasResults p results ws
left-HasResults p q results ws h = elim (Bool-cases (p == q)) [
  | inl y ↦
      let same : q ≡ p = ground (arith, y) in
      let gone =
        subst (λ n. first (is_poll n) (select (λ w. not (is_poll q w)) ws) ≡ none) same
          (none_left q ws) in
      absurd (ground (arith, sym (ap results_at gone) ∙ h))
  | inr n ↦ sym (ap results_at (other_left p q ws n)) ∙ h
]

begun-HasResults :
    (p q : ℕ) (results : List PeriodResult) (ws : List Waiting)
    → HasResults p results (record { poll = q; results = none } ∷ ws)
    → HasResults p results ws
begun-HasResults p q results ws h = ground (arith, h)

-- The results that are kept are those of the answer, or the poll had them before.
kept-HasResults :
    (p q : ℕ) (results kept : List PeriodResult) (ws : List Waiting)
    → HasResults p results (update_first (is_poll q) (λ w. record w { results = some kept }) ws)
    → HasResults p results ws ⊎ ((q ≡ p) × (kept ≡ results))
kept-HasResults p q results kept [] h = inl h
kept-HasResults p q results kept (w ∷ ws) h = elim (Bool-cases (is_poll q w)) [
  | inl this ↦ elim (Bool-cases (is_poll p w)) [
    | inl y ↦
        inr (ground (arith, this, y), some-injective kept results (sym (rw this (rw y refl)) ∙ h))
    | inr n ↦ inl (rw n (sym (rw this (rw n refl)) ∙ h))
  ]
  | inr other ↦ elim (Bool-cases (is_poll p w)) [
    | inl y ↦ inl (rw y (sym (rw other (rw y refl)) ∙ h))
    | inr n ↦ elim (kept-HasResults p q results kept ws (sym (rw other (rw n refl)) ∙ h)) [
      | inl g ↦ inl (rw n g)
      | inr g ↦ inr g
    ]
  ]
]

module _ (x : Setting) where
  -- The event is the answer that gave the poll these results.
  abbrev pub IsAnswer : ℕ → List PeriodResult → Event → System → Type 0
  IsAnswer p results e s =
      (body : Option Payload) × (error : ℕ) × (e ≡ answer p body error)
      × (validated x body s.rows ≡ fetched results)

  abbrev Source : ℕ → List PeriodResult → Event → System → System → Type 0
  Source p results e s t =
      HasResults p results t.waiting → HasResults p results s.waiting ⊎ IsAnswer p results e s

  left-Source :
      (p q : ℕ) (results : List PeriodResult) (e : Event) (r : Rows) (s : System)
      → Source p results e s (leave q r s)
  left-Source p q results e r s h = inl (left-HasResults p q results s.waiting h)

  begun-Source :
      (p q : ℕ) (results : List PeriodResult) (e : Event) (y : Rows × Bool) (s : System)
      → Source p results e s (after_begin q y s)
  begun-Source p q results e (r, true) s h = inl (begun-HasResults p q results s.waiting h)
  begun-Source p q results e (r, false) s h = inl h

  answered-Source :
      (p q error : ℕ) (results : List PeriodResult) (body : Option Payload) (s : System)
      (m : Fetched (List PeriodResult))
      → validated x body s.rows ≡ m
      → Source p results (answer q body error) s (after_answer q error m s)
  answered-Source p q error results body s (raised e) given h =
      inl (left-HasResults p q results s.waiting h)
  answered-Source p q error results body s (fetched kept) given h =
      elim (kept-HasResults p q results kept s.waiting h) [
        | inl g ↦ inl g
        | inr g ↦ inr (body, error, ap (λ n. answer n body error) g.0, given ∙ ap fetched g.1)
      ]

  applied-Source :
      (p q : ℕ) (results : List PeriodResult) (clock : ℕ → ℕ) (s : System)
      (o : Option (List PeriodResult))
      → Source p results (apply q clock) s (after_apply x q clock o s)
  applied-Source p q results clock s none h = inl h
  applied-Source p q results clock s (some r) h = inl (left-HasResults p q results s.waiting h)

  serve-Source :
      (p : ℕ) (results : List PeriodResult) (e : Event) (s : System)
      → Source p results e s (serve x e s)
  unfolding serve
  serve-Source p results (begin q) s =
      if_cases (Source p results (begin q) s) (is_some (find_poll q s)) s
        (after_begin q (begin_poll s.rows) s) (λ _ h. inl h)
        (λ _. begun-Source p q results (begin q) (begin_poll s.rows) s)
  serve-Source p results (answer q body error) s =
      if_cases (Source p results (answer q body error) s) (is_asked (find_poll q s))
        (after_answer q error (validated x body s.rows) s) s
        (λ _. answered-Source p q error results body s (validated x body s.rows) refl)
        (λ _ h. inl h)
  serve-Source p results (unanswered q error) s =
      if_cases (Source p results (unanswered q error) s) (is_asked (find_poll q s))
        (fail_at q error s) s
        (λ _. left-Source p q results (unanswered q error) (fail_poll error s.rows).0 s)
        (λ _ h. inl h)
  serve-Source p results (apply q clock) s =
      applied-Source p q results clock s (results_at (find_poll q s))
  serve-Source p results (others teams excluded e i) s = λ h. inl h

  -- An answer in the history, with the results that the rows of that time validate.
  pub record IsAnswered (p : ℕ) (results : List PeriodResult) (events : List Event) (s : System)
      : Type 0 where
    pub before : List Event
    pub after : List Event
    pub body : Option Payload
    pub error : ℕ
    pub split : events ≡ before ++ (answer p body error ∷ after)
    pub valid : validated x body (run x before s).rows ≡ fetched results

  pub run-IsAnswered :
      (p : ℕ) (results : List PeriodResult) (events : List Event) (s : System)
      → HasResults p results (run x events s).waiting
      → HasResults p results s.waiting ⊎ IsAnswered p results events s
  run-IsAnswered p results [] s h = inl h
  run-IsAnswered p results (e ∷ events) s h =
      elim (run-IsAnswered p results events (serve x e s) h) [
        | inl g ↦ elim (serve-Source p results e s g) [
          | inl k ↦ inl k
          | inr (body, error, this, valid) ↦ inr (record {
            before = [];
            after = events;
            body = body;
            error = error;
            split = ap (λ b. b ∷ events) this;
            valid = valid;
          })
        ]
        | inr a ↦ inr (record {
          before = e ∷ a.before;
          after = a.after;
          body = a.body;
          error = a.error;
          split = ap (λ l. e ∷ l) a.split;
          valid = a.valid;
        })
      ]
