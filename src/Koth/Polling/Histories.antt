-- ===== src/Koth/Polling/Histories.antt =====
-- Histories of the polls of one period: each poll begins, is answered by the score server, and applies
-- the results that it has validated (poll_challenge_period of apps/koth/services.py). The polls overlap
-- as the order of these events says, and the administration changes the teams and the settings between
-- them.
use msg_backend.Prelude.{
  ℕ, Bool, false, not, Option, none, some, List, [], ◌∷◌, ◌==◌, if◌then◌else◌, first, select,
  is_some, update_first,
}
use msg_backend.Koth.{Curve, Team, PeriodResult}
use msg_backend.Koth.Results.{Fetched, raised, fetched, Anchor, Payload, validated_results}
use msg_backend.Koth.Polling.{Rows, begin_poll, fail_poll, apply_poll}

-- A poll that has begun and not returned: without results while it waits for the score server, and with
-- the validated ones between its answer and its second transaction.
pub record Waiting : Type 0 where
  pub poll : ℕ
  pub results : Option (List PeriodResult)

pub record System : Type 0 where
  pub rows : Rows
  pub waiting : List Waiting

-- The challenge, its anchor, the period, the preview teams and the square roots.
pub record Setting : Type 0 where
  pub curve : Curve
  pub challenge : ℕ
  pub anchor : Anchor
  pub period : ℕ
  pub preview_ids : List ℕ

-- An answer is a body, or the failure of the request with its error text; `error` is the text of an
-- error of the validation. `none` is a body that is empty.
pub data Event : Type 0 where
  begin : (poll : ℕ) → Event
  answer : (poll : ℕ) (body : Option Payload) (error : ℕ) → Event
  unanswered : (poll : ℕ) (error : ℕ) → Event
  apply : (poll : ℕ) (clock : ℕ → ℕ) → Event
  others : (teams : List Team) (excluded : List ℕ) (e i : ℕ) → Event

abbrev pub is_poll : ℕ → Waiting → Bool
is_poll poll w = w.poll == poll

-- Where the poll has got to: `none` is one that has not begun or has returned.
abbrev pub find_poll : ℕ → System → Option Waiting
find_poll poll s = first (is_poll poll) s.waiting

-- The poll returns, or raises, and leaves these rows.
abbrev pub leave : ℕ → Rows → System → System
leave poll r s = record { rows = r; waiting = select (λ w. not (is_poll poll w)) s.waiting }

abbrev pub after_begin : ℕ → Rows × Bool → System → System
after_begin poll x s =
    if x.1
    then record { rows = x.0; waiting = record { poll = poll; results = none } ∷ s.waiting }
    else record s { rows = x.0 }

abbrev pub fail_at : ℕ → ℕ → System → System
fail_at poll error s = leave poll (fail_poll error s.rows).0 s

abbrev pub after_answer : ℕ → ℕ → Fetched (List PeriodResult) → System → System
after_answer poll error (raised e) s = fail_at poll error s
after_answer poll error (fetched results) s = record s {
  waiting = update_first (is_poll poll) (λ w. record w { results = some results }) s.waiting;
}

abbrev pub is_asked : Option Waiting → Bool
is_asked none = false
is_asked (some w) = not (is_some w.results)

abbrev pub results_at : Option Waiting → Option (List PeriodResult)
results_at none = none
results_at (some w) = w.results

-- The results that the answer gives, with the teams as they are when it comes.
abbrev pub validated : Setting → Option Payload → Rows → Fetched (List PeriodResult)
validated x body r = validated_results x.challenge x.anchor x.period r.teams x.preview_ids body

abbrev pub after_apply : Setting → ℕ → (ℕ → ℕ) → Option (List PeriodResult) → System → System
after_apply x poll clock none s = s
after_apply x poll clock (some results) s =
    leave poll (apply_poll x.curve x.challenge clock results s.rows).0 s

-- An event of a poll that is not at this point of its run does not happen.
unfoldable pub serve : Setting → Event → System → System
serve x (begin poll) s =
    if is_some (find_poll poll s) then s else after_begin poll (begin_poll s.rows) s
serve x (answer poll body error) s =
    if is_asked (find_poll poll s) then after_answer poll error (validated x body s.rows) s else s
serve x (unanswered poll error) s = if is_asked (find_poll poll s) then fail_at poll error s else s
serve x (apply poll clock) s = after_apply x poll clock (results_at (find_poll poll s)) s
serve x (others teams excluded e i) s = record s {
  rows = record s.rows {
    teams = teams;
    excluded = excluded;
    external_team_count = e;
    internal_team_count = i;
  };
}

abbrev pub run : Setting → List Event → System → System
run x [] s = s
run x (e ∷ events) s = run x events (serve x e s)
