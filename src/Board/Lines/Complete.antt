-- ===== src/Board/Lines/Complete.antt =====
-- A completed line stays completed, since no operation of the board opens a cleared challenge again.
use msg_backend.Prelude.{
  ℕ, ◌≡◌, refl, sym, ◌∙◌, inl, inr, Bool, true, false, not, ◌&&◌, ◌||◌, some, List, [], ◌∷◌,
  if_cases, ◌==◌, contains, update, Bool-cases, arith,
}
use msg_backend.Board.Model.{Cell, Shared, Rows, TeamChallengeAccess, cleared}
use msg_backend.Board.Landing.{find_cell}
use msg_backend.Board.Closed.{IsClosed}
use msg_backend.Board.Lines.{
  is_some_line_cell, is_cleared_on, is_empty, all_in, line_challenge_indexes,
  cleared_challenge_indexes, is_line_monopoly_completed,
}

-- A cell that a query finds is among the cells that a test selects, if it passes the test.
found_index :
    (line i : ℕ) (cells : List Cell)
    → is_some_line_cell line (find_cell cells i) ≡ true
    → contains i (line_challenge_indexes cells line) ≡ true
found_index line i [] e = e
found_index line i (c ∷ cells) e = ground (arith, e, found_index line i cells)

-- The cleared cells of a line are cells of the line.
cleared_in_line :
    (cells : List Cell) (line : ℕ) (accesses : List TeamChallengeAccess)
    → all_in (cleared_challenge_indexes cells line accesses) (line_challenge_indexes cells line)
      ≡ true
cleared_in_line cells line [] = refl
cleared_in_line cells line (a ∷ accesses) =
    let rest = cleared_in_line cells line accesses in
    elim (Bool-cases (is_cleared_on cells line a)) [
      | inl y ↦
          let here : contains a.source_cell (line_challenge_indexes cells line) ≡ true =
            found_index line a.source_cell cells (ground (arith, y)) in
          rw y (rw here rest)
      | inr n ↦ rw n rest
    ]

-- A line is completed if it has a challenge cell, and each of them is cleared.
is_line_monopoly_completed-eq :
    (cells : List Cell) (line : ℕ) (accesses : List TeamChallengeAccess)
    → is_line_monopoly_completed cells line accesses
      ≡ not (is_empty (line_challenge_indexes cells line))
        && all_in
            (line_challenge_indexes cells line)
            (cleared_challenge_indexes cells line accesses)
unfolding is_line_monopoly_completed
is_line_monopoly_completed-eq cells line accesses =
    ground (arith, cleared_in_line cells line accesses)

-- All that was in one list is in the other.
abbrev Grows : List ℕ → List ℕ → Type 0
Grows xs ys = (i : ℕ) → contains i xs ≡ true → contains i ys ≡ true

all_in-Grows :
    (indexes xs ys : List ℕ) → Grows xs ys → all_in indexes xs ≡ true → all_in indexes ys ≡ true
all_in-Grows [] xs ys g e = refl
all_in-Grows (i ∷ indexes) xs ys g e = ground (arith, e, g i, all_in-Grows indexes xs ys g)

completed-Grows :
    (cells : List Cell) (line : ℕ) (before after : List TeamChallengeAccess)
    → Grows
        (cleared_challenge_indexes cells line before)
        (cleared_challenge_indexes cells line after)
    → is_line_monopoly_completed cells line before ≡ true
    → is_line_monopoly_completed cells line after ≡ true
completed-Grows cells line before after g e =
    let indexes = line_challenge_indexes cells line in
    ground (
      arith,
      is_line_monopoly_completed-eq cells line before,
      is_line_monopoly_completed-eq cells line after,
      all_in-Grows indexes (cleared_challenge_indexes cells line before)
          (cleared_challenge_indexes cells line after) g,
      e,
    )

add-Grows :
    (cells : List Cell) (line : ℕ) (a : TeamChallengeAccess) (accesses : List TeamChallengeAccess)
    → Grows
        (cleared_challenge_indexes cells line accesses)
        (cleared_challenge_indexes cells line (a ∷ accesses))
add-Grows cells line a accesses i e = elim (Bool-cases (is_cleared_on cells line a)) [
  | inl y ↦ rw y (ground (arith, e))
  | inr n ↦ rw n e
]

in_head :
    (cells : List Cell) (line : ℕ) (a : TeamChallengeAccess) (before : List TeamChallengeAccess)
    (i : ℕ)
    → is_cleared_on cells line a ≡ true
    → contains i (cleared_challenge_indexes cells line (a ∷ before)) ≡ true
    → i == a.source_cell || contains i (cleared_challenge_indexes cells line before) ≡ true
in_head cells line a before i y e = sym (rw y refl) ∙ e

in_tail :
    (cells : List Cell) (line : ℕ) (a : TeamChallengeAccess) (before : List TeamChallengeAccess)
    (i : ℕ)
    → is_cleared_on cells line a ≡ false
    → contains i (cleared_challenge_indexes cells line (a ∷ before)) ≡ true
    → contains i (cleared_challenge_indexes cells line before) ≡ true
in_tail cells line a before i n e = sym (rw n refl) ∙ e

either : (x y z : Bool) → (y ≡ true → z ≡ true) → x || y ≡ true → x || z ≡ true
either true y z f e = refl
either false y z f e = f e

head-Grows :
    (cells : List Cell) (line : ℕ) (a b : TeamChallengeAccess)
    (before after : List TeamChallengeAccess) (i : ℕ)
    → b.source_cell ≡ a.source_cell
    → (is_cleared_on cells line a ≡ true → is_cleared_on cells line b ≡ true)
    → (contains i (cleared_challenge_indexes cells line before) ≡ true
        → contains i (cleared_challenge_indexes cells line after) ≡ true)
    → contains i (cleared_challenge_indexes cells line (a ∷ before)) ≡ true
    → contains i (cleared_challenge_indexes cells line (b ∷ after)) ≡ true
head-Grows cells line a b before after i same kept ih e =
    elim (Bool-cases (is_cleared_on cells line a)) [
      | inl y ↦
          let old : i == a.source_cell || contains i (cleared_challenge_indexes cells line before)
              ≡ true =
            in_head cells line a before i y e in
          rw (kept y) (rw same (either (i == a.source_cell) _ _ ih old))
      | inr n ↦ add-Grows cells line b after i (ih (in_tail cells line a before i n e))
    ]

clear-Grows :
    (cells : List Cell) (line id t : ℕ) (accesses : List TeamChallengeAccess)
    → Grows (cleared_challenge_indexes cells line accesses) (
        cleared_challenge_indexes cells line (
          update
            (λ a. a.id == id)
            (λ a. record a { status = cleared; cleared_at = some t })
            accesses))
clear-Grows cells line id t [] i e = e
clear-Grows cells line id t (a ∷ accesses) i e =
    let mark : TeamChallengeAccess → TeamChallengeAccess =
      λ a. record a { status = cleared; cleared_at = some t } in
    let after = update (λ a. a.id == id) mark accesses in
    let ih : contains i (cleared_challenge_indexes cells line accesses) ≡ true
        → contains i (cleared_challenge_indexes cells line after) ≡ true =
      clear-Grows cells line id t accesses i in
    if_cases (λ b. contains i (cleared_challenge_indexes cells line (b ∷ after)) ≡ true)
      (a.id == id) (mark a) a
      (λ _. head-Grows cells line a (mark a) accesses after i refl (λ y. ground (arith, y)) ih e)
      (λ _. head-Grows cells line a a accesses after i refl (λ y. y) ih e)

abbrev pub IsCompleted : List Cell → ℕ → Rows → Type 0
IsCompleted cells line r = is_line_monopoly_completed cells line r.accesses ≡ true

-- The writes of the board's operations keep a completed line.
pub IsCompleted-IsClosed :
    (cells : List Cell) (line : ℕ) (sh : Shared) → IsClosed sh (IsCompleted cells line) (λ i. Unit)
IsCompleted-IsClosed cells line sh = record {
  game = record {
    lock = record {
      clock = λ r h. h;
      counters = λ r s s' e same bounded h. h;
      create = λ r cell fresh e h. h;
    };
    stands = λ r s e h. tt;
    ids = λ r h. h;
    place = λ r s i cell passed e found h. h;
    consume = λ r i cell found new h. h;
    mileage = λ r amount type new h. h;
    log = λ r roll h. h;
    wait = λ r p cell from to h. h;
  };
  unwait = λ r h. h;
  requests = λ r qs h. h;
  candidates = λ r cs h. h;
  fly = λ r s e h. h;
  activate = λ r s a e h. h;
  add_draw = λ r d h. h;
  change_draw = λ r pk f same h. h;
  add_access =
      λ r a h. completed-Grows cells line r.accesses _ (add-Grows cells line a r.accesses) h;
  clear = λ r id t h.
      completed-Grows cells line r.accesses _ (clear-Grows cells line id t r.accesses) h;
}
